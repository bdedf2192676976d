-- ===== src/Protocol/Tests.antt =====
-- Runs of the frame functions, and their theorems at concrete inputs.
use boardcommd.Base.{
  ◌≤◌, ◌≡◌, ◌≢◌, refl, [], ◌∷◌, ◌++◌, Bytes, length, take, arith, some, none, cstr,
}
use boardcommd.Crc.{crc32}
use boardcommd.Types.{Message, IsMessage, done, ok, not_found, invalid}
use boardcommd.Protocol.Layout.{get_header, put_header}
use boardcommd.Protocol.{encode, decode, frame_length, total_len}
use boardcommd.Protocol.RoundTrip.{decode-encode}
use boardcommd.Protocol.Accept.{decode-IsMessage}

abbrev hello : Message
hello = record {
  src_node = 1;
  dst_node = 0;
  flags = 0;
  qos = 1;
  seq = 7;
  channel = [];
  topic = b'd' ∷ b'e' ∷ [];
  payload = 5 ∷ 0 ∷ 255 ∷ [];
}

hello-IsMessage : IsMessage hello
hello-IsMessage = ground arith

hello-topic : hello.topic ≢ []
hello-topic e = cc

abbrev frame : Bytes
frame =
    0x52 ∷ 0x46 ∷ 0x43 ∷ 0x42 ∷ 1 ∷ 0 ∷ 36 ∷ 0 ∷ 1 ∷ 0 ∷ 0 ∷ 0 ∷ 0 ∷ 0 ∷ 0 ∷ 0 ∷ 0 ∷ 0 ∷ 1 ∷ 0 ∷ 7
    ∷ 0 ∷ 0 ∷ 0 ∷ 0 ∷ 0 ∷ 2 ∷ 0 ∷ 3 ∷ 0 ∷ 0 ∷ 0 ∷ 116 ∷ 244 ∷ 136 ∷ 212 ∷ b'd' ∷ b'e' ∷ 5 ∷ 0 ∷ 255
    ∷ []

encode-hello : encode hello ≡ done frame
unfolding encode put_header crc32
encode-hello = refl

frame_length_runs :
    (frame_length (take 35 frame) ≡ (not_found, none))
    × (frame_length (take 36 frame) ≡ (not_found, some 41))
    × (frame_length (frame ++ (1 ∷ [])) ≡ (ok, some 41))
    × (frame_length (0 ∷ frame) ≡ (invalid, none))
unfolding frame_length get_header
frame_length_runs = (refl, refl, refl, refl)

decode-frame : decode frame ≡ done hello
unfolding decode get_header crc32 cstr
decode-frame = refl

decode-encode_example :
    (f : Bytes) × (encode hello ≡ done f)
    × (length f ≤ 1600)
    × (decode (f ++ (9 ∷ [])) ≡ done hello)
decode-encode_example = decode-encode hello (9 ∷ []) hello-IsMessage hello-topic

decode-IsMessage_example :
    IsMessage hello
    × (length hello.payload ≡ (get_header frame).payload_len)
    × (crc32 hello.payload ≡ (get_header frame).checksum)
    × (total_len (get_header frame) ≤ length frame)
decode-IsMessage_example = decode-IsMessage frame hello (omega arith) decode-frame
