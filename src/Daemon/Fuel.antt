-- ===== src/Daemon/Fuel.antt =====
-- `process_transport_frames` of src/daemon/main.c returns.
use boardcommd.Base.{
  ℕ, zero, suc, ◌≤◌, ◌<◌, ◌≡◌, refl, Bool, true, false, Bytes, Option, ltb, length, length-drop,
  take, drop, arith,
}
use boardcommd.Types.{Status, ok, not_found, Message, Result, done, fail}
use boardcommd.Protocol.{frame_length, frame_length_of, decode}
use boardcommd.Client.Receive.Fuel.{Returns}
use boardcommd.Daemon.{length_of, handled, after_decode, after_length, process_transport_frames}

frame_length_ge : (rx : Bytes) → (frame_length rx).0 ≡ ok → 36 ≤ length_of (frame_length rx).1
unfolding frame_length frame_length_of
frame_length_ge rx e = ground (arith, e)

module _ {S : Type 0} (handle : Message → S → S) where
  after_decode-Returns :
      (r : Result Message) (rest : Option Status × (Bytes × S)) (t : Bytes × S)
      → Returns rest
      → Returns (after_decode handle r rest t)
  after_decode-Returns (done m) rest t h = h
  after_decode-Returns (fail e) rest t h = (_, refl)

  after_length-Returns :
      (rc : Status) (longer : Bool) (decoded : Option Status × (Bytes × S)) (t : Bytes × S)
      → (rc ≡ ok → longer ≡ false → Returns decoded)
      → Returns (after_length handle rc longer decoded t)
  after_length-Returns ok true decoded t h = (_, refl)
  after_length-Returns ok false decoded t h = h refl refl
  after_length-Returns not_found longer decoded t h = (_, refl)
  after_length-Returns rc longer decoded t h = (_, refl)

  -- `process_transport_frames` returns, whatever bytes came in: a round that goes on has taken a frame
  -- out of the buffer, so that one round more than there are bytes is enough.
  pub process_transport_frames-Returns :
      (n : ℕ) (rx : Bytes) (s : S)
      → length rx < n
      → Returns (process_transport_frames handle n rx s)
  unfolding process_transport_frames
  process_transport_frames-Returns zero rx s h = elim h [ ]
  process_transport_frames-Returns (suc n) rx s h =
      let (rc, len) = frame_length rx in
      let msg = decode (take (length_of len) rx) in
      let next = handled handle msg s in
      after_length-Returns rc (ltb (length rx) (length_of len)) _ (rx, s)
        (λ e whole.
          after_decode-Returns msg
            (process_transport_frames handle n (drop (length_of len) rx) next) (rx, s)
            (process_transport_frames-Returns n (drop (length_of len) rx) next
              (ground (arith, length-drop (length_of len) rx, frame_length_ge rx e))))
