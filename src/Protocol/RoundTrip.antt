-- ===== src/Protocol/RoundTrip.antt =====
-- `bc_protocol_encode` against `bc_protocol_decode`.
use boardcommd.Base.{
  ◌+◌, ◌<◌, ◌≤◌, ◌≡◌, ◌≢◌, refl, sym, ap, [], ◌∷◌, ◌++◌, Bytes, length, length-append, take, drop,
  take-drop, append_assoc, cstr_of_no_nul, arith,
}
use boardcommd.Crc.{crc32-lt}
use boardcommd.Types.{Message, IsMessage, done, fail, invalid}
use boardcommd.Protocol.Layout.{IsHeader, put_header, length-put_header, get_header-put_header}
use boardcommd.Protocol.{encode, decode, header_of, message_of}

-- What `bc_protocol_encode` asks of a message.
pub record IsSendable (m : Message) : Type 0 where
  pub channel_fits : length m.channel < 32
  pub topic_pos : 0 < length m.topic
  pub topic_fits : length m.topic < 64
  pub payload_fits : length m.payload ≤ 1400

abbrev pub frame_of : Message → Bytes
frame_of m = put_header (header_of m) ++ (m.channel ++ (m.topic ++ m.payload))

pub encode_done : (m : Message) → IsSendable m → encode m ≡ done (frame_of m)
unfolding encode
encode_done m s = ground arith

encode_fail : (m : Message) → ¬ IsSendable m → encode m ≡ fail invalid
unfolding encode
encode_fail m s = ground arith

pub header_of-IsHeader : (m : Message) → IsMessage m → IsHeader (header_of m)
header_of-IsHeader m v = omega (arith, crc32-lt m.payload)

pub length-frame_of :
    (m : Message) → length (frame_of m) ≡ 36 + length m.channel + length m.topic + length m.payload
length-frame_of m = omega (
  arith,
  length-append (put_header (header_of m)) (m.channel ++ (m.topic ++ m.payload)),
  length-put_header (header_of m),
  length-append m.channel (m.topic ++ m.payload),
  length-append m.topic m.payload,
)

-- the three parts behind the header
module _ (h c t p rest : Bytes) where
  abbrev whole : Bytes
  whole = (h ++ (c ++ (t ++ p))) ++ rest

  part_channel : take (length c) (drop (length h) whole) ≡ c
  part_channel = take-drop h c (t ++ (p ++ rest)) (simp append_assoc) refl refl

  part_topic : take (length t) (drop (length h + length c) whole) ≡ t
  part_topic = take-drop (h ++ c) t (p ++ rest) (simp append_assoc) (sym (length-append h c)) refl

  part_payload : take (length p) (drop (length h + length c + length t) whole) ≡ p
  part_payload =
      take-drop ((h ++ c) ++ t) p rest {w = whole} (simp append_assoc)
        (omega (arith, length-append (h ++ c) t, length-append h c)) refl

message_of-frame_of :
    (m : Message) (rest : Bytes) → IsMessage m → message_of (header_of m) (frame_of m ++ rest) ≡ m
message_of-frame_of m rest v = ground (
  arith,
  part_channel (put_header (header_of m)) m.channel m.topic m.payload rest,
  part_topic (put_header (header_of m)) m.channel m.topic m.payload rest,
  part_payload (put_header (header_of m)) m.channel m.topic m.payload rest,
  length-put_header (header_of m),
  cstr_of_no_nul m.channel v.channel_text.no_nul,
  cstr_of_no_nul m.topic v.topic_text.no_nul,
)

decode-frame_of :
    (m : Message) (rest : Bytes) → IsMessage m → IsSendable m → decode (frame_of m ++ rest) ≡ done m
unfolding decode
decode-frame_of m rest v s = ground (
  arith,
  get_header-put_header (header_of m) ((m.channel ++ (m.topic ++ m.payload)) ++ rest)
      (header_of-IsHeader m v),
  append_assoc (put_header (header_of m)) (m.channel ++ (m.topic ++ m.payload)) rest,
  message_of-frame_of m rest v,
  length-append (frame_of m) rest,
  length-frame_of m,
)

pub IsMessage-IsSendable : (m : Message) → IsMessage m → m.topic ≢ [] → IsSendable m
IsMessage-IsSendable m v ne = sendable m.topic refl
  where
    sendable : (t : Bytes) → m.topic ≡ t → IsSendable m
    sendable [] e = absurd (ne e)
    sendable (c ∷ cs) e = omega (arith, ap length e)

-- A message that the C types allow, with a topic, is encoded; its frame is at most 1600 bytes long,
-- and decoding the frame, whatever bytes follow it, gives the message back.
pub decode-encode :
    (m : Message) (rest : Bytes)
    → IsMessage m
    → m.topic ≢ []
    → (f : Bytes) × (encode m ≡ done f) × (length f ≤ 1600) × (decode (f ++ rest) ≡ done m)
decode-encode m rest v ne =
    let s : IsSendable m = IsMessage-IsSendable m v ne in
    (frame_of m, encode_done m s, omega (arith, length-frame_of m, s), decode-frame_of m rest v s)
