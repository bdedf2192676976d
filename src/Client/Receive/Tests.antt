-- ===== src/Client/Receive/Tests.antt =====
-- The loops over a client's frames, at concrete inputs.
use boardcommd.Base.{
  ℕ, zero, suc, ◌≡◌, refl, arith, List, [], ◌∷◌, ◌++◌, Bytes, All, length, true, str_eq,
}
use boardcommd.Types.{Status, ok, nomem, not_found, io, fail}
use boardcommd.Config.{defaults}
use boardcommd.Router.{route}
use boardcommd.Bus.{Bus, init}
use boardcommd.Ipc.{put_ipc_header, ipc_publish}
use boardcommd.Shm.{Ring, ring_write}
use boardcommd.Shm.Write.{ring, write-IsRing}
use boardcommd.Shm.Queue.{IsRing, IsQueue}
use boardcommd.Client.Frame.{Request, next_frame}
use boardcommd.Client.Dispatch.{published, process_ipc_payload}
use boardcommd.Client.Receive.{process_messages, drain_ring}
use boardcommd.Client.Receive.Fuel.{Returns, process_messages-Returns}
use boardcommd.Client.Receive.Serve.{
  CanSend, bytes_of, stream, serve, buffer, process_messages-serve,
}
use boardcommd.Client.Receive.Drain.{serve_ring, Drained, drain_ring-serve}
use boardcommd.Client.Receive.Stuck.{NoRoute, Stopped, process_messages-NoRoute}

abbrev request : ℕ → Bytes → Request
request type payload = record {
  header = record {
    magic = 1111705936;
    version = 2;
    type = type;
    topic_len = 1;
    channel_len = 1;
    payload_len = length payload;
    dst_node = 0;
    qos = 1;
    flags = 0;
    seq = 0;
  };
  channel = b'c' ∷ [];
  topic = b't' ∷ [];
  payload = payload;
}

abbrev three : List Request
three = request 1 (1 ∷ []) ∷ request 2 [] ∷ request 1 (3 ∷ 3 ∷ []) ∷ []

three-CanSend : All CanSend three
three-CanSend = ground arith

-- A daemon that counts the requests, and refuses the second one.
abbrev count : Request → ℕ → Status × ℕ
count r zero = (ok, 1)
count r (suc n) = (nomem, suc (suc n))

-- the first bytes of a frame
abbrev begun : Bytes
begun = b'P' ∷ b'I' ∷ []

begun-waits : next_frame begun ≡ fail not_found
unfolding next_frame
begun-waits = refl

process_messages-serve_example :
    process_messages count 4 (stream three ++ begun) 0 ≡ buffer count begun (serve count three 0)
process_messages-serve_example =
    process_messages-serve count 4 three begun 0 three-CanSend begun-waits (omega arith)

process_messages-Returns_example : Returns (process_messages count 3 begun 0)
process_messages-Returns_example = process_messages-Returns count 3 begun 0 (omega arith)

abbrev empty_ring : Ring
empty_ring = ring 0 0 (λ _. 0)

empty-IsRing : IsRing empty_ring []
empty-IsRing = record {
  size_is = refl;
  head_fits = omega arith;
  tail_fits = omega arith;
  used = refl;
  fits = omega arith;
  held = tt;
}

abbrev one_request : Ring
one_request = (ring_write empty_ring (bytes_of (request 1 (1 ∷ [])))).1

one_request-IsQueue : IsQueue one_request (bytes_of (request 1 (1 ∷ [])) ∷ [])
unfolding put_ipc_header
one_request-IsQueue =
    write-IsRing 0 0 (λ _. 0) (bytes_of (request 1 (1 ∷ []))) [] empty-IsRing (omega arith)

drain_ring-serve_example :
    let (out, (rx', s')) = drain_ring count 2 one_request 0 in
    Drained count out rx' s' (serve_ring count (request 1 (1 ∷ []) ∷ []) 0)
drain_ring-serve_example =
    drain_ring-serve count 2 (request 1 (1 ∷ []) ∷ []) one_request 0 (ground arith)
      one_request-IsQueue (omega arith)

abbrev bus : Bus
bus = record (init (record { config = defaults; transports = [] })) {
  node_id = 1;
  require_route = true;
}

abbrev send : ℕ → Bytes → ℕ → Status × ℕ
send fd frame w = (io, w)

abbrev no_reply : ℕ → Bus × ℕ → Status × (Bus × ℕ)
no_reply fd s = (io, s)

no_route : NoRoute bus (published (request ipc_publish []))
unfolding init route defaults str_eq
no_route = record { strict = refl; needed = refl; no_route = refl }

process_messages-NoRoute_example :
    let handle = process_ipc_payload send send no_reply no_reply 5 in
    let rx = bytes_of (request ipc_publish []) ++ begun in
    Stopped handle rx (process_messages handle 9 rx (bus, 0))
process_messages-NoRoute_example =
    process_messages-NoRoute send send no_reply no_reply 5 8 (request ipc_publish []) begun bus 0
      (ground arith) refl no_route
