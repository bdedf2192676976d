-- ===== src/Protocol/Stream.antt =====
-- `bc_protocol_frame_length` on a byte stream, as the TCP and UART receivers call it.
use boardcommd.Base.{
  ℕ, ◌-◌, ◌≤◌, ◌≡◌, ◌≢◌, [], ◌++◌, Bytes, length, length-take, take, take-append_ge, append_assoc,
  arith, some, none, ltb, leb, if◌then◌else◌, inl, inr, Bool-cases, ◌↔◌,
}
use boardcommd.Crc.{crc32}
use boardcommd.Types.{Message, IsMessage, done, ok, not_found}
use boardcommd.Protocol.Layout.{
  Header, IsHeader, put_header, get_header, get_header-put_header, length-put_header,
}
use boardcommd.Protocol.{encode, decode, frame_length, frame_length_of, header_of, message_of}
use boardcommd.Protocol.RoundTrip.{
  IsSendable, IsMessage-IsSendable, frame_of, length-frame_of, encode_done, header_of-IsHeader,
}

-- the header is there as soon as 36 bytes are
get_header-take :
    (h : Header) (rest : Bytes) (k : ℕ)
    → IsHeader h
    → 36 ≤ k
    → get_header (take k (put_header h ++ rest)) ≡ h
get_header-take h rest k v p =
    rw (take-append_ge (put_header h) rest k (omega (arith, length-put_header h)))
      (get_header-put_header h (take (k - length (put_header h)) rest) v)

frame_length_of-header_of :
    (m : Message) (n : ℕ)
    → IsSendable m
    → frame_length_of (header_of m) n
      ≡ ((if leb (length (frame_of m)) n then ok else not_found), some (length (frame_of m)))
unfolding frame_length_of
frame_length_of-header_of m n s = ground (arith, length-frame_of m)

-- The first `k` bytes of a stream that starts with the frame of a message: under 36 bytes the
-- length is not known, from there on it is the frame's, and BC_OK says that the frame is complete.
pub frame_length-encode :
    (m : Message) (f rest : Bytes) (k : ℕ)
    → IsMessage m
    → m.topic ≢ []
    → encode m ≡ done f
    → k ≤ length (f ++ rest)
    → frame_length (take k (f ++ rest)) ≡ (
        if ltb k 36
        then (not_found, none)
        else ((if leb (length f) k then ok else not_found), some (length f)))
unfolding frame_length
frame_length-encode m f rest k v ne e h =
    let s : IsSendable m = IsMessage-IsSendable m v ne in
    let same : f ≡ frame_of m = ground (arith, encode_done m s) in
    let body = m.channel ++ (m.topic ++ m.payload) in
    let len : length (take k (f ++ rest)) ≡ k = omega (arith, length-take k (f ++ rest)) in
    rw len (elim (Bool-cases (ltb k 36)) [
      | inl short ↦ rw short
      | inr long ↦
          rw (long, same)
            (rw (append_assoc (put_header (header_of m)) body rest) (
              rw
                (get_header-take (header_of m) (body ++ rest) k (header_of-IsHeader m v)
                  (ground arith))
                (frame_length_of-header_of m k s)))
    ])

-- `bc_protocol_decode` accepts the bytes received so far exactly when `bc_protocol_frame_length`
-- returns BC_OK for them and the checksum of the payload is the header's.
pub decode_iff_frame_length :
    (bs : Bytes)
    → ((m : Message) × (decode bs ≡ done m))
      ↔ ((frame_length bs).0 ≡ ok)
        × (crc32 (message_of (get_header bs) bs).payload ≡ (get_header bs).checksum)
unfolding decode frame_length
decode_iff_frame_length bs = (
  λ (m, e). (ground arith, ground arith),
  λ (a, c). (message_of (get_header bs) bs, ground arith),
)
