-- ===== src/Protocol.antt =====
-- src/daemon/protocol.c: the frames that travel between boards. A frame is a header of 36 bytes in
-- the byte order of the host (little-endian here), then the channel, the topic and the payload.
pub mod Layout
pub mod RoundTrip
pub mod Accept
pub mod Stream
mod Tests
use boardcommd.Base.{
  ℕ, ◌+◌, ◌≡◌, Bool, true, false, ◌&&◌, ◌||◌, not, List, [], ◌∷◌, ◌++◌, Bytes, ◌==◌, ltb, leb,
  length, take, drop, cstr, u16, u32, min, if◌then◌else◌, Option, none, some,
}
use boardcommd.Crc.{crc32}
use boardcommd.Types.{
  Status, invalid, not_found, ok, Result, done, fail, Message, max_channel_len, max_topic_len,
  max_payload_len,
}
use Layout.{Header, put_header, get_header, header_size, frame_magic, frame_version}

abbrev pub max_frame_len : ℕ
max_frame_len = 1600

-- the header that `bc_protocol_encode` fills in
abbrev pub header_of : Message → Header
header_of m = record {
  magic = frame_magic;
  version = frame_version;
  header_len = header_size;
  src_node = m.src_node;
  dst_node = m.dst_node;
  flags = m.flags;
  qos = m.qos;
  seq = m.seq;
  channel_len = u16 (length m.channel);
  topic_len = u16 (length m.topic);
  payload_len = u32 (length m.payload);
  checksum = crc32 m.payload;
}

-- `bc_protocol_encode`; the frame is the bytes of `frame->data` up to `frame->len`.
unfoldable pub encode : Message → Result Bytes
encode m =
    let channel_len = min (length m.channel) max_channel_len in
    let topic_len = min (length m.topic) max_topic_len in
    let total_len = header_size + channel_len + topic_len + length m.payload in
    if leb max_channel_len channel_len
    then fail invalid
    else if (topic_len == 0)
        || (leb max_topic_len topic_len || ltb max_payload_len (length m.payload))
    then fail invalid
    else if ltb max_frame_len total_len
    then fail invalid
    else done (put_header (header_of m) ++ (m.channel ++ (m.topic ++ m.payload)))

-- the length that a header announces
abbrev pub total_len : Header → ℕ
total_len h = header_size + h.channel_len + h.topic_len + h.payload_len

-- the checks on a header that `bc_protocol_frame_length` makes, up to the total length
unfoldable pub frame_length_of : Header → ℕ → Status × Option ℕ
frame_length_of h len =
    if not (h.magic == frame_magic) || not (h.version == frame_version)
    then (invalid, none)
    else if not (h.header_len == header_size)
    then (invalid, none)
    else if leb max_channel_len h.channel_len
    then (invalid, none)
    else if (h.topic_len == 0) || leb max_topic_len h.topic_len
    then (invalid, none)
    else if ltb max_payload_len h.payload_len
    then (invalid, none)
    else if ltb max_frame_len (total_len h)
    then (invalid, none)
    else ((if leb (total_len h) len then ok else not_found), some (total_len h))

-- `bc_protocol_frame_length`: the status, and what is stored in `*frame_len`, if anything is. The
-- bytes are the `len` bytes received so far.
unfoldable pub frame_length : Bytes → Status × Option ℕ
unfolding frame_length_of
frame_length bs =
    if ltb (length bs) header_size
    then (not_found, none)
    else frame_length_of (get_header bs) (length bs)

-- the message that `bc_protocol_decode` builds behind its checks
abbrev pub message_of : Header → Bytes → Message
message_of h bs = record {
  src_node = h.src_node;
  dst_node = h.dst_node;
  flags = h.flags;
  qos = h.qos;
  seq = h.seq;
  channel = cstr (take h.channel_len (drop header_size bs));
  topic = cstr (take h.topic_len (drop (header_size + h.channel_len) bs));
  payload = take h.payload_len (drop (header_size + h.channel_len + h.topic_len) bs);
}

unfoldable pub decode_with : Header → Bytes → Result Message
decode_with h bs =
    if not (h.magic == frame_magic) || not (h.version == frame_version)
    then fail invalid
    else if leb max_channel_len h.channel_len
    then fail invalid
    else if (h.topic_len == 0) || leb max_topic_len h.topic_len
    then fail invalid
    else if ltb max_payload_len h.payload_len
    then fail invalid
    else if not (h.header_len == header_size)
    then fail invalid
    else if ltb (length bs) (total_len h)
    then fail invalid
    else if not (crc32 (message_of h bs).payload == h.checksum)
    then fail invalid
    else done (message_of h bs)

-- `bc_protocol_decode`
unfoldable pub decode : Bytes → Result Message
unfolding decode_with
decode bs = if ltb (length bs) header_size then fail invalid else decode_with (get_header bs) bs
