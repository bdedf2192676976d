-- ===== src/Api.antt =====
-- The client library, api/bc_client.c: how it talks to the daemon's socket.
pub mod Build
pub mod Send
pub mod Stream
pub mod Read
pub mod Control
mod Tests
use boardcommd.Base.{
  ℕ, zero, suc, ◌+◌, ◌-◌, Bool, true, false, ◌&&◌, ◌||◌, not, List, [], ◌∷◌, ◌++◌, Bytes, Option,
  none, some, ◌==◌, ltb, leb, length, take, drop, u16, u32, if◌then◌else◌,
}
use boardcommd.Types.{Status, ok, invalid, io, nomem, not_found, timeout, Result, done, fail}
use boardcommd.Ipc.{
  IpcHeader, put_ipc_header, ipc_header_size, ipc_magic, ipc_version, ipc_publish, ipc_deliver,
  ipc_stats,
}
use boardcommd.Shm.{Ring, ring_read}
use boardcommd.Client.{Reply, took, interrupted, would_block, broken}
use boardcommd.Client.Frame.{get_ipc_header}

-- `bc_publish_opts_t`
pub record Opts : Type 0 where
  pub dst_node : ℕ
  pub qos : ℕ
  pub flags : ℕ

-- the options behind a pointer; the header stays zero for NULL.
abbrev pub opts_of : Option Opts → Opts
opts_of none = record { dst_node = 0; qos = 0; flags = 0 }
opts_of (some o) = o

-- the text behind a pointer; NULL and "" are not told apart.
abbrev pub text_of : Option Bytes → Bytes
text_of none = []
text_of (some t) = t

-- the header that `build_ipc_frame` fills in
abbrev pub header_of : ℕ → Bytes → Bytes → ℕ → Opts → IpcHeader
header_of type channel topic len o = record {
  magic = ipc_magic;
  version = ipc_version;
  type = type;
  topic_len = u16 (length topic);
  channel_len = u16 (length channel);
  payload_len = u32 len;
  dst_node = o.dst_node;
  qos = o.qos;
  flags = o.flags;
  seq = 0;
}

-- `build_ipc_frame`, for a payload that is not NULL, in a buffer of `cap` bytes
unfoldable pub build_ipc_frame :
    ℕ → ℕ → Option Bytes → Option Bytes → Bytes → Option Opts → Result Bytes
build_ipc_frame cap type channel topic payload opts =
    let c = text_of channel in
    let t = text_of topic in
    if length t == 0
    then fail invalid
    else if ltb 1400 (length payload)
    then fail invalid
    else if leb 64 (length t)
    then fail invalid
    else if leb 32 (length c)
    then fail invalid
    else if ltb cap (28 + length c + length t + length payload)
    then fail invalid
    else done (
        put_ipc_header (header_of type c t (length payload) (opts_of opts))
        ++ (c ++ (t ++ payload)))

-- the size of the buffer of `send_ipc_message` and of `read_ipc_deliver`
abbrev pub frame_cap : ℕ
frame_cap = 1524

-- `write_all`, with the replies of its calls of `send`: the status, if it has returned, and the
-- bytes that went out.
unfoldable pub write_all : List Reply → Bytes → Option Status × Bytes
write_all [] [] = (some ok, [])
write_all [] (b ∷ bs) = (none, [])
write_all (r ∷ rs) [] = (some ok, [])
write_all (took zero ∷ rs) (b ∷ bs) = (some io, [])
write_all (took (suc n) ∷ rs) (b ∷ bs) =
    let (rc, out) = write_all rs (drop (suc n) (b ∷ bs)) in (rc, take (suc n) (b ∷ bs) ++ out)
write_all (interrupted ∷ rs) (b ∷ bs) = write_all rs (b ∷ bs)
write_all (would_block ∷ rs) (b ∷ bs) = (some io, [])
write_all (broken ∷ rs) (b ∷ bs) = (some io, [])

-- The receiving end of a socket: what the calls of `read` will reply, and the bytes to come.
pub record Sock : Type 0 where
  pub replies : List Reply
  pub stream : Bytes

-- what a read gives: a value, a status, or nothing yet
pub data Res {ℓ} (A : Type ℓ) : Type ℓ where
  got : A → Res A
  stopped : Status → Res A
  waiting : Res A

-- the loop of `read_all`, with `n` bytes to read; `took k` gives the next `k` bytes.
unfoldable pub read_from : List Reply → ℕ → Bytes → Res Bytes × Sock
read_from rs zero s = (got [], record { replies = rs; stream = s })
read_from [] (suc n) s = (waiting, record { replies = []; stream = s })
read_from (took zero ∷ rs) (suc n) s = (stopped io, record { replies = rs; stream = s })
read_from (took (suc k) ∷ rs) (suc n) s =
    let (r, s') = read_from rs (n - k) (drop (suc k) s) in
    elim r [
      | got bs ↦ (got (take (suc k) s ++ bs), s')
      | stopped e ↦ (stopped e, s')
      | waiting ↦ (waiting, s')
    ]
read_from (interrupted ∷ rs) (suc n) s = read_from rs (suc n) s
read_from (would_block ∷ rs) (suc n) s = (stopped io, record { replies = rs; stream = s })
read_from (broken ∷ rs) (suc n) s = (stopped io, record { replies = rs; stream = s })

-- `read_all`
abbrev pub read_all : ℕ → Sock → Res Bytes × Sock
read_all n s = read_from s.replies n s.stream

-- the next step, unless the last one failed
unfoldable pub and_then {ℓ κ} :
    {A : Type ℓ} {B : Type κ} → Res A × Sock → (A → Sock → Res B × Sock) → Res B × Sock
and_then (got a, s) f = f a s
and_then (stopped e, s) f = (stopped e, s)
and_then (waiting, s) f = (waiting, s)

-- What `read_ipc_deliver` stores: the topic, if there is one, and the payload.
pub record Received : Type 0 where
  pub topic : Option Bytes
  pub payload : Bytes

-- the limits that both ways of reading check
abbrev pub out_of_limits : IpcHeader → ℕ → ℕ → Bool
out_of_limits h topic_cap payload_cap =
    (h.topic_len == 0)
    || (leb 64 h.topic_len
        || (ltb 1400 h.payload_len || (leb topic_cap h.topic_len || ltb payload_cap h.payload_len)))

-- `read_ipc_deliver` from the socket, once `poll` says that there is something
unfoldable pub read_socket : ℕ → ℕ → Sock → Res Received × Sock
read_socket topic_cap payload_cap s0 = and_then (read_all 28 s0) λ head s1.
    let h = get_ipc_header head in
    if not (h.magic == ipc_magic)
    then (stopped io, s1)
    else if h.type == ipc_stats
    then and_then (read_all h.payload_len s1)
        (λ p s2. (got (record { topic = none; payload = p }), s2))
    else if not (h.type == ipc_deliver)
    then (stopped io, s1)
    else if leb 32 h.channel_len || out_of_limits h topic_cap payload_cap
    then (stopped io, s1)
    else and_then (read_all h.channel_len s1) λ c s2. and_then (read_all h.topic_len s2) λ t s3.
      and_then (read_all h.payload_len s3)
        λ p s4. (got (record { topic = some t; payload = p }), s4)

-- the label `parse_frame`: a frame that came through the ring
unfoldable pub parse_deliver : ℕ → ℕ → Bytes → Res Received
parse_deliver topic_cap payload_cap frame =
    let h = get_ipc_header frame in
    let size = ipc_header_size h.version in
    if ltb (length frame) 28
    then stopped io
    else if not (h.magic == ipc_magic) || not (h.type == ipc_deliver)
    then stopped io
    else if out_of_limits h topic_cap payload_cap
    then stopped io
    else got (record {
      topic = some (take h.topic_len (drop (size + h.channel_len) frame));
      payload = take h.payload_len (drop (size + h.channel_len + h.topic_len) frame);
    })

-- What `poll` says after it has been called again for EINTR; `hung_up` is POLLERR, POLLHUP or
-- POLLNVAL.
pub data Poll : Type 0 where
  ready : Poll
  timed_out : Poll
  poll_failed : Poll
  hung_up : Poll

-- the rest of `read_ipc_deliver`, when no ring gave a frame
abbrev pub poll_socket : Poll → ℕ → ℕ → Sock → Res Received × Sock
poll_socket ready topic_cap payload_cap s = read_socket topic_cap payload_cap s
poll_socket timed_out topic_cap payload_cap s = (stopped timeout, s)
poll_socket poll_failed topic_cap payload_cap s = (stopped io, s)
poll_socket hung_up topic_cap payload_cap s = (stopped io, s)

-- what a read does after `bc_shm_ring_read` returned: a frame is taken apart, BC_ERR_NOT_FOUND
-- goes on to the socket, and any other status is returned.
abbrev pub after_ring : Status → Option Bytes → ℕ → ℕ → Poll → Sock → Res Received × Sock
after_ring ok (some frame) topic_cap payload_cap p s =
    (parse_deliver topic_cap payload_cap frame, s)
after_ring not_found out topic_cap payload_cap p s = poll_socket p topic_cap payload_cap s
after_ring rc out topic_cap payload_cap p s = (stopped rc, s)

-- `read_ipc_deliver`, for a handle and buffers that are there; the ring is `shm->rx`, if shared
-- memory is in use.
unfoldable pub read_ipc_deliver :
    Option Ring → Poll → ℕ → ℕ → Sock → Res Received × (Option Ring × Sock)
read_ipc_deliver none p topic_cap payload_cap s =
    let (r, s') = poll_socket p topic_cap payload_cap s in (r, (none, s'))
read_ipc_deliver (some rx) p topic_cap payload_cap s =
    let (rc, rx', out) = ring_read rx frame_cap in
    let (r, s') = after_ring rc out topic_cap payload_cap p s in (r, (some rx', s'))

-- a frame that is nothing but a header: SHM_SETUP, SHM_KICK and STATS
abbrev pub control_header : ℕ → IpcHeader
control_header type = record {
  magic = ipc_magic;
  version = ipc_version;
  type = type;
  topic_len = 0;
  channel_len = 0;
  payload_len = 0;
  dst_node = 0;
  qos = 0;
  flags = 0;
  seq = 0;
}
