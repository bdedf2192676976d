-- ===== src/Tcp/Tests.antt =====
-- The theorems on a TCP transport, at concrete inputs.
use boardcommd.Base.{
  ℕ, ◌+◌, ◌%◌, ◌≡◌, ◌<◌, refl, arith, Bool, true, false, [], ◌∷◌, Option, some, none, codes,
  if◌then◌else◌,
}
use boardcommd.Types.{Status, ok, io}
use boardcommd.Client.{took, interrupted, would_block}
use boardcommd.Tcp.{Tcp, queue_send, send_cap}
use boardcommd.Tcp.Connect.{
  failed, in_progress, send_loop, tcp_send, timer_loop, handle_event, Events,
}
use boardcommd.Tcp.Queue.{queue_send_overflow}
use boardcommd.Tcp.Retry.{IsGivenUp, IsStuck, timer_loop-IsGivenUp}
use boardcommd.Tcp.Open.{new_transport, bad_address, tcp_open}
use boardcommd.Config.{TransportConfig, TransportType}
use boardcommd.Config.Numbers.{pos}
use boardcommd.Tcp.Steps
use boardcommd.Tcp.Steps.{Reachable, Reachable-IsTcp}
use boardcommd.Tcp.Invariant.{IsTcp}

-- a world that counts the calls
abbrev watch : ℕ → Bool → ℕ → Status × ℕ
watch fd out w = (ok, w + 1)

abbrev no_item : ℕ → Bool → ℕ → Status × ℕ
no_item fd out w = (io, w)

abbrev memory : ℕ → Bool
memory w = true

abbrev step : ℕ → ℕ → ℕ
step fd w = w + 1

abbrev arm : ℕ → Option ℕ → ℕ → ℕ
arm fd delay w = w + 1

abbrev client : Tcp
client = record {
  fd = some 5;
  listen_fd = none;
  conn_fd = some 5;
  timer_fd = some 4;
  is_server = false;
  connected = true;
  connecting = false;
  reconnect_armed = false;
  retry_attempt = 0;
  has_buf = true;
  send_buf = λ j. j % 7;
  send_len = 0;
  send_off = 0;
  has_reactor = true;
}

-- the buffer but for one byte is in use, and the first two bytes have been sent.
abbrev nearly_full : Tcp
nearly_full = record client { send_len = 102399; send_off = 2 }

queue_send_overflow_example :
    let (rc, (t', w')) = queue_send watch no_item memory nearly_full (7 ∷ 8 ∷ 9 ∷ []) 0 in
    (rc ≡ ok) × (send_cap < t'.send_len)
queue_send_overflow_example =
    queue_send_overflow watch no_item memory nearly_full (7 ∷ 8 ∷ 9 ∷ []) 0 refl (omega arith)
      (omega arith) (omega arith)

-- a client that waits for its timer
abbrev waiting_client : Tcp
waiting_client = record client {
  fd = none;
  conn_fd = none;
  connected = false;
  reconnect_armed = true;
  retry_attempt = 1;
}

timer_loop-IsGivenUp_example :
    let (t', w') = timer_loop watch no_item memory step step arm (failed 6 ∷ []) waiting_client 0 in
    IsGivenUp watch no_item memory step step arm t'
    × (w' ≡ step 6 (if true then step 6 0 else 0))
    × IsStuck watch no_item memory step step arm t'
timer_loop-IsGivenUp_example =
    timer_loop-IsGivenUp watch no_item memory step step arm 6 waiting_client 0 refl refl refl refl
      refl

-- A client that dials, is connected, and sends two of three bytes.
abbrev writable : Events
writable = record { can_read = false; can_write = true; hung_up = false; failed = false }

abbrev config : TransportConfig
config = record {
  name = codes "tcp0";
  type = TransportType.tcp;
  endpoint = codes "10.0.0.2:9000";
  local_port = pos 0;
  baudrate = pos 0;
  tcp_listen = pos 0;
  kcp_conv = pos 0;
  uart_mode = 0;
  rs485_de_gpio = pos 0;
}

abbrev dialed : Tcp
dialed =
    (tcp_open watch no_item memory step step arm config bad_address (some 4) (in_progress 5)
      new_transport 0).1.0

abbrev connected : Tcp
connected = (handle_event watch no_item memory step step arm 5 writable [] [] false [] dialed 0).1.0

abbrev has_sent : Tcp
has_sent =
    (tcp_send watch no_item memory step step arm (took 2 ∷ would_block ∷ []) connected
      (7 ∷ 8 ∷ 9 ∷ []) 0).2.0

has_sent-Reachable : Reachable watch no_item memory step step arm has_sent
has_sent-Reachable = Steps.Reachable.send (took 2 ∷ would_block ∷ []) (7 ∷ 8 ∷ 9 ∷ []) connected 0 (
    Steps.Reachable.event 5 writable [] [] false [] dialed 0 tt
      (Steps.Reachable.opened config bad_address (some 4) (in_progress 5) 0))

Reachable-IsTcp_example : IsTcp has_sent
Reachable-IsTcp_example =
    Reachable-IsTcp watch no_item memory step step arm has_sent has_sent-Reachable

send_runs :
    let (rc, out, (t', w')) =
      tcp_send watch no_item memory step step arm
        (took 2 ∷ interrupted ∷ would_block ∷ [])
        client
        (7 ∷ 8 ∷ 9 ∷ [])
        0 in
    (rc ≡ some ok) × (out ≡ 7 ∷ 8 ∷ []) × (t'.send_len ≡ 1)
unfolding tcp_send send_loop queue_send
send_runs = (refl, refl, refl)
