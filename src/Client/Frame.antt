-- ===== src/Client/Frame.antt =====
-- The frames that a client sends: the checks of `process_frame_buffer` and of `process_one_message`
-- of src/daemon/client_manager.c.
pub mod RoundTrip
use boardcommd.Base.{
  ℕ, ◌+◌, ◌-◌, Bool, ◌&&◌, ◌||◌, List, [], ◌∷◌, ◌++◌, Bytes, ◌==◌, ltb, leb, length, take, drop,
  cstr, rd16, rd32, if◌then◌else◌, not,
}
use boardcommd.Types.{Status, ok, invalid, not_found, Result, done, fail}
use boardcommd.Ipc.{IpcHeader, ipc_header_size, ipc_magic}

-- `memcpy(&header, data, sizeof(header))`. A field behind the bytes received is read from the rest
-- of the buffer in C; it is 0 here, and is not looked at, since the length is checked first.
unfoldable pub get_ipc_header : Bytes → IpcHeader
get_ipc_header bs = record {
  magic = rd32 bs;
  version = rd16 (drop 4 bs);
  type = rd16 (drop 6 bs);
  topic_len = rd16 (drop 8 bs);
  channel_len = rd16 (drop 10 bs);
  payload_len = rd32 (drop 12 bs);
  dst_node = rd32 (drop 16 bs);
  qos = rd16 (drop 20 bs);
  flags = rd16 (drop 22 bs);
  seq = rd32 (drop 24 bs);
}

-- the length of the frame that a header announces
abbrev pub frame_total : IpcHeader → ℕ
frame_total h = ipc_header_size h.version + h.channel_len + h.topic_len + h.payload_len

-- What `process_frame_buffer` hands on.
pub record Request : Type 0 where
  pub header : IpcHeader
  pub channel : Bytes
  pub topic : Bytes
  pub payload : Bytes

abbrev pub request_of : IpcHeader → Bytes → Request
request_of h frame = record {
  header = h;
  channel = cstr (take h.channel_len frame);
  topic = cstr (take h.topic_len (drop h.channel_len frame));
  payload = take h.payload_len (drop (h.channel_len + h.topic_len) frame);
}

-- `process_frame_buffer` up to the call of `process_ipc_payload`
unfoldable pub parse_frame : Bytes → Result Request
parse_frame bs =
    let h = get_ipc_header bs in
    if ltb (length bs) 16
    then fail not_found
    else if not (h.magic == ipc_magic)
    then fail invalid
    else if ltb (length bs) (ipc_header_size h.version)
    then fail not_found
    else if leb 32 h.channel_len
        || ((h.topic_len == 0) || (leb 64 h.topic_len || ltb 1400 h.payload_len))
    then fail invalid
    else if ltb (length bs) (frame_total h)
    then fail not_found
    else done (request_of h (drop (ipc_header_size h.version) bs))

-- `sizeof(bc_ipc_header_t) + BC_MAX_CHANNEL_LEN + BC_MAX_TOPIC_LEN + BC_MAX_PAYLOAD_LEN`
abbrev pub client_frame_max : ℕ
client_frame_max = 1524

-- the first part of `process_one_message`: the length of the frame at the head of `rx_buf`
unfoldable pub next_frame : Bytes → Result ℕ
next_frame rx =
    let h = get_ipc_header rx in
    if ltb (length rx) 16
    then fail not_found
    else if not (h.magic == ipc_magic)
    then fail invalid
    else if ltb client_frame_max (frame_total h) || ltb (length rx) (frame_total h)
    then (if ltb (length rx) (frame_total h) then fail not_found else fail invalid)
    else done (frame_total h)
