-- ===== src/Api/Tests.antt =====
-- The client library at concrete inputs.
use boardcommd.Base.{◌≡◌, refl, arith, List, [], ◌∷◌, ◌++◌, Bytes, Option, some, length}
use boardcommd.Types.{Message, IsMessage, done}
use boardcommd.Ipc.{put_ipc_header}
use boardcommd.Shm.{Ring, ring_write}
use boardcommd.Shm.Queue.{IsRing, IsQueue}
use boardcommd.Shm.Write.{ring, write-IsRing}
use boardcommd.Bus.Deliver.{deliver_frame}
use boardcommd.Client.{Reply, took, interrupted}
use boardcommd.Client.Frame.{Request, parse_frame, next_frame}
use boardcommd.Client.Dispatch.{published}
use boardcommd.Api.{Opts, build_ipc_frame, frame_cap, Sock, got, read_socket}
use boardcommd.Api.Build.{IsCall, message_of, parse_frame-build_ipc_frame}
use boardcommd.Api.Stream.{all_done, piece, again}
use boardcommd.Api.Read.{Brings, read_socket-deliver_frame}

abbrev hello : Message
hello = record {
  src_node = 1;
  dst_node = 3;
  flags = 4;
  qos = 1;
  seq = 7;
  channel = b'c' ∷ [];
  topic = b'd' ∷ b'e' ∷ [];
  payload = 5 ∷ 0 ∷ 255 ∷ [];
}

hello-IsMessage : IsMessage hello
hello-IsMessage = ground arith

abbrev urgent : Option Opts
urgent = some (record { dst_node = 3; qos = 1; flags = 4 })

urgent-IsCall : IsCall 1 (some hello.channel) hello.topic hello.payload urgent
urgent-IsCall = ground arith

parse_frame-build_ipc_frame_example :
    (f : Bytes) × (r : Request) × (build_ipc_frame frame_cap 1
        (some hello.channel)
        (some hello.topic)
        hello.payload
        urgent
      ≡ done f)
    × (next_frame (f ++ (9 ∷ [])) ≡ done (length f))
    × (parse_frame (f ++ (9 ∷ [])) ≡ done r)
    × (r.header.type ≡ 1)
    × (published r ≡ message_of (some hello.channel) hello.topic hello.payload urgent)
parse_frame-build_ipc_frame_example =
    parse_frame-build_ipc_frame 1 (some hello.channel) hello.topic hello.payload (9 ∷ []) urgent
      urgent-IsCall

-- The header comes in two pieces, with an EINTR between them.
abbrev pieces : List Reply
pieces = took 20 ∷ interrupted ∷ took 8 ∷ took 1 ∷ took 2 ∷ took 3 ∷ []

pieces-Brings : Brings pieces [] 1 2 3
pieces-Brings = record {
  after_header = took 1 ∷ took 2 ∷ took 3 ∷ [];
  after_channel = took 2 ∷ took 3 ∷ [];
  after_topic = took 3 ∷ [];
  header_in =
      piece 19 28 _ _ (omega arith)
        (again 8 _ _ (omega arith) (piece 7 8 _ _ (omega arith) (all_done _)));
  channel_in = piece 0 1 _ _ (omega arith) (all_done _);
  topic_in = piece 1 2 _ _ (omega arith) (all_done _);
  payload_in = piece 2 3 _ _ (omega arith) (all_done _);
}

read_socket-deliver_frame_example :
    read_socket 64 1400 (record { replies = pieces; stream = deliver_frame hello ++ (9 ∷ []) }) ≡ (
      got (record { topic = some hello.topic; payload = hello.payload }),
      record { replies = []; stream = 9 ∷ [] },
    )
read_socket-deliver_frame_example =
    read_socket-deliver_frame hello (9 ∷ []) pieces [] 64 1400 hello-IsMessage (omega arith)
      (omega arith) (omega arith) pieces-Brings

abbrev empty_ring : Ring
empty_ring = ring 0 0 (λ _. 0)

empty-IsRing : IsRing empty_ring []
empty-IsRing = record {
  size_is = refl;
  head_fits = omega arith;
  tail_fits = omega arith;
  used = refl;
  fits = omega arith;
  held = tt;
}

abbrev one_frame : Ring
one_frame = (ring_write empty_ring (deliver_frame hello)).1

one_frame-IsQueue : IsQueue one_frame (deliver_frame hello ∷ [])
unfolding deliver_frame put_ipc_header
one_frame-IsQueue = write-IsRing 0 0 (λ _. 0) (deliver_frame hello) [] empty-IsRing (omega arith)

abbrev nothing : Sock
nothing = record { replies = []; stream = [] }
