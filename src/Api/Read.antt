-- ===== src/Api/Read.antt =====
-- What the client library reads of what the daemon delivers.
use boardcommd.Base.{
  ℕ, ◌+◌, ◌<◌, ◌≤◌, ◌≡◌, refl, sym, ap, ◌∙◌, List, ◌∷◌, ◌++◌, Bytes, ◌==◌, ◌||◌, ltb, leb, not,
  length, drop, take-append, drop-append, drop_two, take_all, arith, true, false, some,
}
use boardcommd.Types.{Message, IsMessage}
use boardcommd.Ipc.{
  IpcHeader, put_ipc_header, length-put_ipc_header, ipc_magic, ipc_deliver, ipc_stats,
}
use boardcommd.Shm.{Ring}
use boardcommd.Client.{Reply}
use boardcommd.Client.Frame.{get_ipc_header}
use boardcommd.Client.Frame.RoundTrip.{
  IsRequest, frame_of, frame_of-append, length-frame_of, get_ipc_header-put_ipc_header,
  get_ipc_header-put_ipc_header_only, header_size_lem,
}
use boardcommd.Client.Dispatch.Publish.{deliver_header-IsRequest}
use boardcommd.Bus.Deliver.{deliver_header, deliver_frame}
use boardcommd.Api.{
  Sock, Res, got, and_then, read_socket, parse_deliver, out_of_limits, Poll, read_ipc_deliver,
  after_ring, frame_cap,
}
use boardcommd.Shm.Queue.{IsQueue}
use boardcommd.Shm.Read.{ring_read_next}
use boardcommd.Api.Stream.{Transfers, read_part}

-- The calls of `read` bring in the four parts of a frame, in pieces of any size.
pub record Brings (rs rest : List Reply) (c t p : ℕ) : Type 0 where
  pub after_header : List Reply
  pub after_channel : List Reply
  pub after_topic : List Reply
  pub header_in : Transfers rs 28 after_header
  pub channel_in : Transfers after_header c after_channel
  pub topic_in : Transfers after_channel t after_topic
  pub payload_in : Transfers after_topic p rest

and_then_got {ℓ κ} :
    {A : Type ℓ} {B : Type κ} (x : Res A × Sock) (a : A) (s : Sock) (f : A → Sock → Res B × Sock)
    → x ≡ (got a, s)
    → and_then x f ≡ f a s
unfolding and_then
and_then_got x a s f e = rw (e) refl

received_lem :
    (h : IpcHeader) (channel topic payload tail : Bytes) (rs rest : List Reply)
    (topic_cap payload_cap : ℕ)
    → IsRequest h channel topic payload
    → h.type ≡ ipc_deliver
    → length topic < topic_cap
    → length payload ≤ payload_cap
    → Brings rs rest h.channel_len h.topic_len h.payload_len
    → read_socket topic_cap payload_cap (record {
      replies = rs;
      stream = put_ipc_header h ++ (channel ++ (topic ++ (payload ++ tail)));
    })
      ≡ (
        got (record { topic = some topic; payload = payload }),
        record { replies = rest; stream = tail },
      )
unfolding read_socket
received_lem h channel topic payload tail rs rest topic_cap payload_cap v k a b r =
    let c = v.channel_text.fits in
    let t = v.topic_text.fits in
    let head =
      read_part rs r.after_header (put_ipc_header h) (channel ++ (topic ++ (payload ++ tail))) 28
        (sym (length-put_ipc_header h)) r.header_in in
    let g : get_ipc_header (put_ipc_header h) ≡ h =
      get_ipc_header-put_ipc_header_only h channel topic payload v in
    let t1 : (h.magic == ipc_magic) ≡ true = ground (arith, v.magic_is) in
    let t2 : (h.type == ipc_stats) ≡ false = ground (arith, k) in
    let t3 : (h.type == ipc_deliver) ≡ true = ground (arith, k) in
    let t4 : leb 32 h.channel_len || out_of_limits h topic_cap payload_cap ≡ false =
      ground (arith, v) in
    let chan =
      read_part r.after_header r.after_channel channel (topic ++ (payload ++ tail)) h.channel_len
        v.channel_is r.channel_in in
    let top =
      read_part r.after_channel r.after_topic topic (payload ++ tail) h.topic_len v.topic_is
        r.topic_in in
    let pay = read_part r.after_topic rest payload tail h.payload_len v.payload_is r.payload_in in
    and_then_got _ _ _ _ head
    ∙ rw (g, t1, t2, t3, t4)
        (and_then_got _ _ _ _ chan ∙ (and_then_got _ _ _ _ top ∙ and_then_got _ _ _ _ pay))

-- the frame of a delivery, as the bytes of a request
deliver_frame_lem :
    (m : Message)
    → IsMessage m
    → deliver_frame m ≡ frame_of (deliver_header m) m.channel m.topic m.payload
unfolding deliver_frame
deliver_frame_lem m v =
    let c = v.channel_text.fits in
    let t = v.topic_text.fits in
    rw (take_all 32 m.channel (omega arith), take_all 64 m.topic (omega arith)) refl

-- A message within the limits of the C types, with a topic, is what a program gets through the
-- socket: `read_ipc_deliver` reads from the stream exactly the frame that the bus delivered, in
-- whatever pieces it arrives, and stores the topic and the payload, if the caller's buffers have
-- room for them.
pub read_socket-deliver_frame :
    (m : Message) (tail : Bytes) (rs rest : List Reply) (topic_cap payload_cap : ℕ)
    → IsMessage m
    → 0 < length m.topic
    → length m.topic < topic_cap
    → length m.payload ≤ payload_cap
    → Brings rs rest (length m.channel) (length m.topic) (length m.payload)
    → read_socket topic_cap payload_cap (record { replies = rs; stream = deliver_frame m ++ tail })
      ≡ (
        got (record { topic = some m.topic; payload = m.payload }),
        record { replies = rest; stream = tail },
      )
read_socket-deliver_frame m tail rs rest topic_cap payload_cap v ne a b r =
    let h = deliver_header m in
    let q = deliver_header-IsRequest m v ne in
    let r' : Brings rs rest h.channel_len h.topic_len h.payload_len =
      rw (q.channel_is, q.topic_is, q.payload_is) r in
    rw (deliver_frame_lem m v, frame_of-append h m.channel m.topic m.payload tail)
      (received_lem h m.channel m.topic m.payload tail rs rest topic_cap payload_cap q refl a b r')

parse_deliver_lem :
    (h : IpcHeader) (channel topic payload : Bytes) (topic_cap payload_cap : ℕ)
    → IsRequest h channel topic payload
    → h.type ≡ ipc_deliver
    → length topic < topic_cap
    → length payload ≤ payload_cap
    → parse_deliver topic_cap payload_cap (frame_of h channel topic payload)
      ≡ got (record { topic = some topic; payload = payload })
unfolding parse_deliver
parse_deliver_lem h channel topic payload topic_cap payload_cap v k a b =
    let c = v.channel_text.fits in
    let t = v.topic_text.fits in
    let frame = frame_of h channel topic payload in
    let n = length-frame_of h channel topic payload in
    let g =
      get_ipc_header-put_ipc_header h channel topic payload (channel ++ (topic ++ payload)) v in
    let size = header_size_lem h.version v.version_is in
    let t0 : ltb (length frame) 28 ≡ false = ground (arith, n) in
    let t1 : not (h.magic == ipc_magic) || not (h.type == ipc_deliver) ≡ false =
      ground (arith, v.magic_is, k) in
    let t2 : out_of_limits h topic_cap payload_cap ≡ false = ground (arith, v) in
    let d1 : drop (28 + h.channel_len) frame ≡ topic ++ payload =
      sym (drop_two 28 h.channel_len (28 + h.channel_len) frame refl)
      ∙ (ap (drop h.channel_len)
            (drop-append (put_ipc_header h) _ 28 (sym (length-put_ipc_header h)))
          ∙ drop-append channel (topic ++ payload) h.channel_len v.channel_is) in
    let d2 : drop (28 + h.channel_len + h.topic_len) frame ≡ payload =
      sym (drop_two (28 + h.channel_len) h.topic_len (28 + h.channel_len + h.topic_len) frame refl)
      ∙ (ap (drop h.topic_len) d1 ∙ drop-append topic payload h.topic_len v.topic_is) in
    rw
      (
        t0,
        g,
        t1,
        t2,
        size,
        d1,
        d2,
        take-append topic payload h.topic_len v.topic_is,
        take_all h.payload_len payload (omega (arith, v.payload_is)),
      )
      refl

-- The same through shared memory: from a ring that holds the frame of the message as the oldest,
-- `read_ipc_deliver` takes that frame, whatever `poll` would say and whatever the socket holds; it
-- stores the topic and the payload and leaves the socket alone, and the ring holds the other frames.
pub read_ipc_deliver-deliver_frame :
    (m : Message) (ms : List Bytes) (rx : Ring) (p : Poll) (s : Sock) (topic_cap payload_cap : ℕ)
    → IsMessage m
    → 0 < length m.topic
    → length m.topic < topic_cap
    → length m.payload ≤ payload_cap
    → IsQueue rx (deliver_frame m ∷ ms)
    → (rx' : Ring) × (read_ipc_deliver (some rx) p topic_cap payload_cap s
        ≡ (got (record { topic = some m.topic; payload = m.payload }), (some rx', s)))
      × IsQueue rx' ms
unfolding read_ipc_deliver
read_ipc_deliver-deliver_frame m ms rx p s topic_cap payload_cap v ne a b q =
    let d = deliver_header-IsRequest m v ne in
    let n = length-frame_of (deliver_header m) m.channel m.topic m.payload in
    let c = v.channel_text.fits in
    let t = v.topic_text.fits in
    let e = deliver_frame_lem m v in
    let room : length (deliver_frame m) ≤ frame_cap = rw (e) (omega (arith, n, v.payload_fits)) in
    let (rx', read, left) = ring_read_next rx (deliver_frame m) ms frame_cap q room in
    let parsed =
      parse_deliver_lem (deliver_header m) m.channel m.topic m.payload topic_cap payload_cap d refl
        a b in
    (
      rx',
      ap
            (λ (rc, r, out).
              let (x, s') = after_ring rc out topic_cap payload_cap p s in (x, (some r, s')))
            read
          ∙ ap (λ x. (x, (some rx', s))) (ap (parse_deliver topic_cap payload_cap) e ∙ parsed),
      left,
    )
