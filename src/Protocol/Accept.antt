-- ===== src/Protocol/Accept.antt =====
-- What `bc_protocol_decode` accepts.
use boardcommd.Base.{
  ℕ, ◌+◌, ◌<◌, ◌≤◌, ◌≡◌, ap, Bytes, length, take, drop, cstr, length-cstr, cstr-no_nul, length-take,
  length-drop, IsByte, IsText, All, All-drop, rd16-lt, rd32-lt, arith,
}
use boardcommd.Crc.{crc32}
use boardcommd.Types.{Message, IsMessage, done}
use boardcommd.Protocol.Layout.{Header, IsHeader, get_header}
use boardcommd.Protocol.{decode, message_of, total_len}

-- the header of a frame whose bytes are bytes
get_header-IsHeader : (bs : Bytes) → All IsByte bs → IsHeader (get_header bs)
unfolding get_header
get_header-IsHeader bs h = record {
  magic_fits = rd32-lt bs h;
  version_fits = rd16-lt _ (All-drop IsByte 4 bs h);
  header_len_fits = rd16-lt _ (All-drop IsByte 6 bs h);
  src_node_fits = rd32-lt _ (All-drop IsByte 8 bs h);
  dst_node_fits = rd32-lt _ (All-drop IsByte 12 bs h);
  flags_fit = rd16-lt _ (All-drop IsByte 16 bs h);
  qos_fits = rd16-lt _ (All-drop IsByte 18 bs h);
  seq_fits = rd32-lt _ (All-drop IsByte 20 bs h);
  channel_len_fits = rd16-lt _ (All-drop IsByte 24 bs h);
  topic_len_fits = rd16-lt _ (All-drop IsByte 26 bs h);
  payload_len_fits = rd32-lt _ (All-drop IsByte 28 bs h);
  checksum_fits = rd32-lt _ (All-drop IsByte 32 bs h);
}

-- the string in a buffer of `n` bytes, cut to `k` of them
cstr-take-IsText : (n k : ℕ) (bs : Bytes) → k < n → IsText n (cstr (take k bs))
cstr-take-IsText n k bs h = record {
  fits = omega (arith, length-cstr (take k bs), length-take k bs);
  no_nul = cstr-no_nul (take k bs);
}

message_of-IsMessage :
    (h : Header) (bs : Bytes)
    → IsHeader h
    → h.channel_len < 32
    → h.topic_len < 64
    → h.payload_len ≤ 1400
    → IsMessage (message_of h bs)
message_of-IsMessage h bs v c t p = record {
  src_node_fits = v.src_node_fits;
  dst_node_fits = v.dst_node_fits;
  flags_fit = v.flags_fit;
  qos_fits = v.qos_fits;
  seq_fits = v.seq_fits;
  channel_text = cstr-take-IsText 32 h.channel_len _ c;
  topic_text = cstr-take-IsText 64 h.topic_len _ t;
  payload_fits =
      omega (arith, length-take h.payload_len (drop (36 + h.channel_len + h.topic_len) bs));
}

-- the checks of `bc_protocol_decode` that passed
record Accepted (bs : Bytes) (m : Message) : Type 0 where
  enough : 36 ≤ length bs
  channel_in : (get_header bs).channel_len < 32
  topic_in : (get_header bs).topic_len < 64
  topic_pos : 0 < (get_header bs).topic_len
  payload_in : (get_header bs).payload_len ≤ 1400
  whole_in : total_len (get_header bs) ≤ length bs
  is : m ≡ message_of (get_header bs) bs
  checked : crc32 m.payload ≡ (get_header bs).checksum

decode-Accepted : (bs : Bytes) (m : Message) → decode bs ≡ done m → Accepted bs m
unfolding decode
decode-Accepted bs m e = ground arith

-- Whatever bytes come in, a message that `bc_protocol_decode` accepts lies within the limits of
-- `bc_message_t`, its payload has the length that the header announced and the checksum of the
-- header, and all that was read lies within the bytes received.
pub decode-IsMessage :
    (bs : Bytes) (m : Message)
    → All IsByte bs
    → decode bs ≡ done m
    → IsMessage m
      × (length m.payload ≡ (get_header bs).payload_len)
      × (crc32 m.payload ≡ (get_header bs).checksum)
      × (total_len (get_header bs) ≤ length bs)
decode-IsMessage bs m b e =
    let a : Accepted bs m = decode-Accepted bs m e in
    let h = get_header bs in
    (
      rw a.is (
          message_of-IsMessage h bs (get_header-IsHeader bs b) a.channel_in a.topic_in
            a.payload_in),
      omega (
        arith,
        ap (λ (n : Message). length n.payload) a.is,
        length-take h.payload_len (drop (36 + h.channel_len + h.topic_len) bs),
        length-drop (36 + h.channel_len + h.topic_len) bs,
        a.whole_in,
      ),
      a.checked,
      a.whole_in,
    )
