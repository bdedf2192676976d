-- ===== src/Tcp/Connect.antt =====
-- How a TCP transport connects, sends, receives and handles events, in
-- src/transport/tcp/tcp_transport.c.
use boardcommd.Base.{
  ℕ, zero, suc, ◌+◌, Bool, true, false, not, ◌&&◌, ◌||◌, List, [], ◌∷◌, ◌++◌, Bytes, Option, none,
  some, ◌==◌, ltb, take, drop, if◌then◌else◌,
}
use boardcommd.Types.{Status, ok, io, invalid, not_found}
use boardcommd.Bus.Send.{is_ok}
use boardcommd.Client.{Reply, took, interrupted, would_block, broken}
use boardcommd.Tcp.{
  Tcp, is_open, sync_fd, conn_events, clear_send_queue, reconnect_delay_ms, watch_fd, queue_send,
  flush_send,
}

-- What `socket`, `inet_pton` and `connect` give in `tcp_begin_connect`, with the new descriptor.
pub data Dial : Type 0 where
  no_socket : Dial
  bad_host : ℕ → Dial
  failed : ℕ → Dial
  in_progress : ℕ → Dial
  at_once : ℕ → Dial

-- What `accept4` gives.
pub data Accepted : Type 0 where
  accepted : ℕ → Accepted
  accept_interrupted : Accepted
  accept_failed : Accepted

-- What `recv` gives: at least one byte, the end of the stream, or an error.
pub data Received : Type 0 where
  bytes : ℕ → Bytes → Received
  end_of_file : Received
  nothing : Received
  recv_failed : Received

-- the bits of `events`
pub record Events : Type 0 where
  pub can_read : Bool
  pub can_write : Bool
  pub hung_up : Bool
  pub failed : Bool

-- the event is for this descriptor
abbrev pub is_fd : ℕ → Option ℕ → Bool
is_fd fd none = false
is_fd fd (some other) = fd == other

-- The reactor, `malloc`, `close`, and `timerfd_settime` on the timer for a delay.
module _ {W : Type 0} (reactor_mod reactor_add : ℕ → Bool → W → Status × W) (memory : W → Bool)
    (reactor_del close_fd : ℕ → W → W) (arm : ℕ → Option ℕ → W → W) where
  -- `tcp_watch_fd` on the connection
  abbrev pub watch_conn : Tcp → W → Status × (Tcp × W)
  watch_conn t w =
      let (rc, w') = watch_fd reactor_mod reactor_add memory t t.conn_fd (conn_events t) w in
      (rc, (t, w'))

  -- `tcp_unwatch_fd` and `close`
  abbrev pub close_watched : Bool → Option ℕ → W → W
  close_watched has_reactor none w = w
  close_watched has_reactor (some fd) w = close_fd fd (if has_reactor then reactor_del fd w else w)

  -- `tcp_timer_arm`
  abbrev pub timer_arm : Option ℕ → Option ℕ → W → W
  timer_arm none delay w = w
  timer_arm (some fd) delay w = arm fd delay w

  -- `tcp_schedule_reconnect`
  abbrev pub schedule_reconnect : Tcp → W → Tcp × W
  schedule_reconnect t w = if t.is_server then (t, w) else (
    record t { reconnect_armed = true; retry_attempt = t.retry_attempt + 1 },
    timer_arm t.timer_fd (reconnect_delay_ms t.retry_attempt) w,
  )

  -- `tcp_close_conn`
  abbrev pub close_conn : Tcp → W → Tcp × W
  close_conn t w = (
    sync_fd (clear_send_queue (record t { conn_fd = none; connected = false; connecting = false })),
    close_watched t.has_reactor t.conn_fd w,
  )

  -- `tcp_drop_connection`
  abbrev pub drop_connection : Tcp → W → Tcp × W
  drop_connection t w =
      let (t1, w1) = close_conn t w in
      if not t.connected && not t.connecting
      then (t, w)
      else if t.is_server
      then (t1, w1)
      else schedule_reconnect t1 w1

  -- the connection that `tcp_begin_connect` is about to make, with the new descriptor
  abbrev pub dialing : Tcp → ℕ → Tcp
  dialing t fd = sync_fd (record t {
    conn_fd = some fd;
    connecting = true;
    connected = false;
    reconnect_armed = false;
  })

  -- `tcp_begin_connect`
  unfoldable pub begin_connect : Dial → Tcp → W → Status × (Tcp × W)
  begin_connect no_socket t w =
      (io, (record t { conn_fd = none }, close_watched t.has_reactor t.conn_fd w))
  begin_connect (bad_host fd) t w = (
    invalid,
    (record t { conn_fd = none }, close_fd fd (close_watched t.has_reactor t.conn_fd w)),
  )
  begin_connect (failed fd) t w =
      (io, close_conn (dialing t fd) (close_watched t.has_reactor t.conn_fd w))
  begin_connect (in_progress fd) t w =
      watch_conn (dialing t fd) (close_watched t.has_reactor t.conn_fd w)
  begin_connect (at_once fd) t w =
      watch_conn (record (dialing t fd) { connecting = false; connected = true })
        (close_watched t.has_reactor t.conn_fd w)

  -- the failure branch of `tcp_on_connect_ready`
  abbrev pub connect_failed : Tcp → W → Status × (Tcp × W)
  connect_failed t w =
      let (t1, w1) = drop_connection t w in
      (io, (if t.is_server then (t1, w1) else schedule_reconnect t1 w1))

  -- `tcp_on_connect_ready`; `error` says that SO_ERROR is not 0 or cannot be read.
  unfoldable pub on_connect_ready : Bool → Tcp → W → Status × (Tcp × W)
  on_connect_ready error t w =
      if error
      then connect_failed t w
      else watch_conn (record t { connecting = false; connected = true; retry_attempt = 0 }) w

  -- `tcp_accept_one`
  unfoldable pub accept_one : Accepted → Tcp → W → Status × (Tcp × W)
  accept_one accept_interrupted t w = (ok, (t, w))
  accept_one accept_failed t w = (io, (t, w))
  accept_one (accepted fd) t w =
      let (t1, w1) = drop_connection t w in
      let (t2, w2) = if is_open t then (t1, w1) else (t, w) in
      watch_conn
        (sync_fd (record t2 {
          conn_fd = some fd;
          connecting = false;
          connected = true;
          retry_attempt = 0;
        }))
        w2

  -- the loop of `tcp_send`, with the replies of its calls of `send`
  unfoldable pub send_loop : List Reply → Tcp → Bytes → W → Option Status × Bytes × (Tcp × W)
  send_loop rs t [] w = (some ok, [], (t, w))
  send_loop [] t (b ∷ bs) w = (none, [], (t, w))
  send_loop (took zero ∷ rs) t (b ∷ bs) w = let s = drop_connection t w in (some io, [], s)
  send_loop (took (suc n) ∷ rs) t (b ∷ bs) w =
      let (rc, out, s) = send_loop rs t (drop (suc n) (b ∷ bs)) w in
      (rc, take (suc n) (b ∷ bs) ++ out, s)
  send_loop (interrupted ∷ rs) t (b ∷ bs) w = send_loop rs t (b ∷ bs) w
  send_loop (would_block ∷ rs) t (b ∷ bs) w =
      let (rc, s) = queue_send reactor_mod reactor_add memory t (b ∷ bs) w in (some rc, [], s)
  send_loop (broken ∷ rs) t (b ∷ bs) w = let s = drop_connection t w in (some io, [], s)

  -- `tcp_send`: the status, if it has returned, and the bytes that went out
  unfoldable pub tcp_send : List Reply → Tcp → Bytes → W → Option Status × Bytes × (Tcp × W)
  tcp_send rs t bs w =
      let (rc, s) = queue_send reactor_mod reactor_add memory t bs w in
      if not (is_open t)
      then (some io, [], (t, w))
      else if ltb t.send_off t.send_len
      then (some rc, [], s)
      else send_loop rs t bs w

  -- `tcp_recv`, and the bytes received
  unfoldable pub tcp_recv : Received → Tcp → W → Status × Bytes × (Tcp × W)
  tcp_recv r t w =
      let s = drop_connection t w in
      if not (is_open t) then (invalid, [], (t, w)) else elim r [
        | bytes b bs ↦ (ok, b ∷ bs, (t, w))
        | end_of_file ↦ (io, [], s)
        | nothing ↦ (not_found, [], (t, w))
        | recv_failed ↦ (io, [], s)
      ]

  -- the loop of `tcp_handle_event` that reads the timer: one attempt for each `read` that succeeds
  unfoldable pub timer_loop : List Dial → Tcp → W → Tcp × W
  timer_loop [] t w = (t, w)
  timer_loop (d ∷ ds) t w =
      let skipped = timer_loop ds t w in
      let (_, (t1, w1)) = begin_connect d (record t { reconnect_armed = false }) w in
      let rest = timer_loop ds t1 w1 in
      if t.reconnect_armed && (not t.connected && not t.connecting) then rest else skipped

  -- the loop of `tcp_handle_event` that accepts
  unfoldable pub accept_loop : List Accepted → Tcp → W → Tcp × W
  accept_loop [] t w = (t, w)
  accept_loop (a ∷ rest_of) t w =
      let (rc, (t1, w1)) = accept_one a t w in
      let rest = accept_loop rest_of t1 w1 in if is_ok rc then rest else (t1, w1)

  -- `tcp_close`; the structure is freed afterwards.
  unfoldable pub tcp_close : Tcp → W → Tcp × W
  tcp_close t w = (
    record t { conn_fd = none; listen_fd = none; timer_fd = none; has_buf = false; fd = none },
    close_watched t.has_reactor t.timer_fd
        (close_watched t.has_reactor t.listen_fd (close_watched t.has_reactor t.conn_fd w)),
  )

  -- what `tcp_handle_event` does after `tcp_flush_send`
  abbrev pub after_flush : Option Status → Tcp → W → Option Status × (Tcp × W)
  after_flush none t w = (none, (t, w))
  after_flush (some ok) t w = (some ok, (t, w))
  after_flush (some rc) t w = (some ok, drop_connection t w)

  -- `tcp_handle_event`, with what the system calls give that it may make
  unfoldable pub handle_event :
      ℕ
      → Events
      → List Dial
      → List Accepted
      → Bool
      → List Reply
      → Tcp
      → W
      → Option Status × (Tcp × W)
  handle_event fd e dials accepts error replies t w =
      let (rc, s) = on_connect_ready error t w in
      let (out, sent, (t1, w1)) = flush_send reactor_mod reactor_add memory replies t w in
      if is_fd fd t.timer_fd && e.can_read
      then (some ok, timer_loop dials t w)
      else if is_fd fd t.listen_fd && e.can_read
      then (some ok, accept_loop accepts t w)
      else if is_fd fd t.conn_fd && (t.connecting && (e.can_write || (e.can_read || e.failed)))
      then (some rc, s)
      else if is_fd fd t.conn_fd && t.connected
      then (if e.hung_up || e.failed
          then (some ok, drop_connection t w)
          else if e.can_write && ltb t.send_off t.send_len
          then after_flush out t1 w1
          else (some ok, (t, w)))
      else (some ok, (t, w))
