-- ===== src/Daemon/Stream.antt =====
-- `process_transport_frames` of src/daemon/main.c on a stream of encoded messages.
use boardcommd.Base.{
  ℕ, zero, suc, ◌<◌, ◌≤◌, ◌≡◌, ◌≢◌, refl, sym, ap, ◌∙◌, true, false, List, [], ◌∷◌, ◌++◌, Bytes,
  some, ltb, leb, length, take_all, take-append, drop-append, append-nil, append_assoc,
  length-append, arith,
}
use boardcommd.Types.{ok, not_found, Message, IsMessage, Result, done, fail}
use boardcommd.Protocol.{encode, frame_length, decode}
use boardcommd.Protocol.RoundTrip.{
  frame_of, encode_done, length-frame_of, IsMessage-IsSendable, decode-encode,
}
use boardcommd.Protocol.Stream.{frame_length-encode}
use boardcommd.Daemon.{process_transport_frames}

-- The bytes are the frames of the messages, one after the other.
pub data Encoded : List Message → Bytes → Type 0 where
  no_frames : Encoded [] []
  frame :
      (m : Message) (ms : List Message) (f bs : Bytes)
      → IsMessage m
      → m.topic ≢ []
      → encode m ≡ done f
      → Encoded ms bs
      → Encoded (m ∷ ms) (f ++ bs)

abbrev done_bytes : Result Bytes → Bytes
done_bytes (done f) = f
done_bytes (fail e) = []

pub encode-frame_of :
    (m : Message) (f : Bytes) → IsMessage m → m.topic ≢ [] → encode m ≡ done f → f ≡ frame_of m
encode-frame_of m f v ne e = ap done_bytes (sym e ∙ encode_done m (IsMessage-IsSendable m v ne))

-- the limits of a frame
pub frame_bounds :
    (m : Message) (f : Bytes)
    → IsMessage m
    → m.topic ≢ []
    → encode m ≡ done f
    → (36 ≤ length f) × (length f ≤ 1600)
frame_bounds m f v ne e =
    let c = v.channel_text.fits in
    let t = v.topic_text.fits in
    rw (encode-frame_of m f v ne e)
      (omega (arith, length-frame_of m), omega (arith, length-frame_of m, v.payload_fits))

-- A frame at the head of the bytes is found and decoded.
pub head_frame :
    (m : Message) (f rest : Bytes)
    → IsMessage m
    → m.topic ≢ []
    → encode m ≡ done f
    → (frame_length (f ++ rest) ≡ (ok, some (length f))) × (decode f ≡ done m)
head_frame m f rest v ne e =
    let (least, most) = frame_bounds m f v ne e in
    let n = length-append f rest in
    let found = frame_length-encode m f rest (length (f ++ rest)) v ne e (omega arith) in
    let whole = take_all (length (f ++ rest)) (f ++ rest) (omega arith) in
    let t1 : ltb (length (f ++ rest)) 36 ≡ false = ground (arith, n, least) in
    let t2 : leb (length f) (length (f ++ rest)) ≡ true = ground (arith, n) in
    let (g, e', short, d) = decode-encode m [] v ne in
    let same : f ≡ g = ap done_bytes (sym e ∙ e') in
    (
      ap frame_length (sym whole) ∙ (found ∙ rw (t1, t2) refl),
      ap decode (same ∙ sym (append-nil g)) ∙ d,
    )

module _ {S : Type 0} (handle : Message → S → S) where
  -- the messages, handled in order
  abbrev pub handle_all : List Message → S → S
  handle_all [] s = s
  handle_all (m ∷ ms) s = handle_all ms (handle m s)

  -- one round of the loop
  round_lem :
      (n : ℕ) (m : Message) (f rest : Bytes) (s : S)
      → IsMessage m
      → m.topic ≢ []
      → encode m ≡ done f
      → process_transport_frames handle (suc n) (f ++ rest) s
        ≡ process_transport_frames handle n rest (handle m s)
  unfolding process_transport_frames
  round_lem n m f rest s v ne e =
      let (found, decoded) = head_frame m f rest v ne e in
      let longer : ltb (length (f ++ rest)) (length f) ≡ false =
        ground (arith, length-append f rest) in
      rw
        (
          found,
          take-append f rest (length f) refl,
          drop-append f rest (length f) refl,
          decoded,
          longer,
        )
        refl

  nothing_whole :
      (n : ℕ) (tail : Bytes) (s : S)
      → (frame_length tail).0 ≡ not_found
      → process_transport_frames handle (suc n) tail s ≡ (some ok, (tail, s))
  unfolding process_transport_frames
  nothing_whole n tail s t = rw (t) refl

  -- A buffer that holds the frames of any number of messages, and behind them a beginning of a frame
  -- whose length is not known or that is not complete: with more rounds than messages,
  -- `process_transport_frames` returns BC_OK, has handed the messages to the bus, each of them once
  -- and in order, and keeps the beginning.
  pub process_transport_frames-Encoded :
      (n : ℕ) (ms : List Message) (bs tail : Bytes) (s : S)
      → Encoded ms bs
      → (frame_length tail).0 ≡ not_found
      → length ms < n
      → process_transport_frames handle n (bs ++ tail) s ≡ (some ok, (tail, handle_all ms s))
  process_transport_frames-Encoded zero ms bs tail s v t k = elim k [ ]
  process_transport_frames-Encoded (suc n) [] bs tail s no_frames t k = nothing_whole n tail s t
  process_transport_frames-Encoded (suc n) (m ∷ ms) bs tail s (frame _ _ f rest v ne e more) t k =
      ap (λ x. process_transport_frames handle (suc n) x s) (append_assoc f rest tail)
      ∙ (round_lem n m f (rest ++ tail) s v ne e
          ∙ process_transport_frames-Encoded n ms rest tail (handle m s) more t (omega arith))
