-- ===== src/Client/Receive/Serve.antt =====
-- `process_messages` of src/daemon/client_manager.c against a list of requests.
use boardcommd.Base.{
  ℕ, zero, suc, ◌<◌, ◌≡◌, refl, sym, ap, ◌∙◌, List, [], ◌∷◌, ◌++◌, Bytes, Option, some, length, All,
  append_assoc, append-nil, take-append, drop-append, arith,
}
use boardcommd.Types.{Status, ok, not_found, done, fail}
use boardcommd.Client.Frame.{Request, parse_frame, next_frame}
use boardcommd.Client.Frame.RoundTrip.{IsRequest, frame_of, parse_frame-frame_of}
use boardcommd.Client.Receive.{
  handle_parsed, process_frame_buffer, consume, process_one_message, next_message, process_messages,
}

-- A request that the client library can send.
abbrev pub CanSend : Request → Type 0
CanSend r = IsRequest r.header r.channel r.topic r.payload

abbrev pub bytes_of : Request → Bytes
bytes_of r = frame_of r.header r.channel r.topic r.payload

-- the bytes of the requests, one after the other
abbrev pub stream : List Request → Bytes
stream [] = []
stream (r ∷ rs) = bytes_of r ++ stream rs

module _ {S : Type 0} (handle : Request → S → Status × S) where
  -- What the loop should make of the request `r`, with the others behind it: it goes on as long as
  -- all is well, and keeps a request that failed. BC_ERR_NOT_FOUND is not passed on.
  abbrev pub go_on :
      Status → Status × (List Request × S) → List Request × S → Status × (List Request × S)
  go_on ok rest t = rest
  go_on not_found rest t = (ok, t)
  go_on other rest t = (other, t)

  -- the requests, handled in order
  abbrev pub serve : List Request → S → Status × (List Request × S)
  serve [] s = (ok, ([], s))
  serve (r ∷ rs) s = let (rc, s') = handle r s in go_on rc (serve rs s') (r ∷ rs, s')

  -- what is left of a buffer that ends in `tail`
  abbrev pub buffer : Bytes → Status × (List Request × S) → Option Status × (Bytes × S)
  buffer tail (rc, (left, s)) = (some rc, (stream left ++ tail, s))

  pub process_frame_buffer-bytes_of :
      (r : Request) (s : S) → CanSend r → process_frame_buffer handle (bytes_of r) s ≡ handle r s
  unfolding process_frame_buffer
  process_frame_buffer-bytes_of r s v =
      let (parsed, _) = parse_frame-frame_of r.header r.channel r.topic r.payload [] v in
      let e : parse_frame (bytes_of r) ≡ done r =
        ap parse_frame (sym (append-nil (bytes_of r))) ∙ parsed in
      ap (λ x. handle_parsed handle x s) e

  pub one_lem :
      (r : Request) (more : Bytes) (s : S)
      → CanSend r
      → process_one_message handle (bytes_of r ++ more) s ≡ (
          let (rc, s') = handle r s in
          consume handle rc (length (bytes_of r)) (bytes_of r ++ more) s')
  unfolding process_one_message
  one_lem r more s v =
      let (_, next) = parse_frame-frame_of r.header r.channel r.topic r.payload more v in
      rw
        (
          next,
          take-append (bytes_of r) more (length (bytes_of r)) refl,
          process_frame_buffer-bytes_of r s v,
        )
        refl

  -- a round of the loop, for the status that the request was handled with
  round_lem :
      (rc : Status) (n : ℕ) (r : Request) (rs : List Request) (tail : Bytes) (s : S)
      → process_messages handle n (stream rs ++ tail) s ≡ buffer tail (serve rs s)
      → (let (rc', (rx', s')) =
            consume handle rc (length (bytes_of r)) (bytes_of r ++ (stream rs ++ tail)) s in
          next_message handle rc' (process_messages handle n rx' s') (rx', s'))
        ≡ buffer tail (go_on rc (serve rs s) (r ∷ rs, s))
  round_lem ok n r rs tail s h =
      rw (drop-append (bytes_of r) (stream rs ++ tail) (length (bytes_of r)) refl) h
  round_lem other n r rs tail s h = rw (append_assoc (bytes_of r) (stream rs) tail) refl

  -- A receive buffer that holds the frames of any number of requests, and behind them the beginning
  -- of another: with more rounds than requests, `process_messages` handles the requests in order and
  -- each of them once, up to the first that is not BC_OK. It keeps the frame of that one and all the
  -- bytes behind it, and returns its status, but BC_OK for BC_ERR_NOT_FOUND; if there is none, it
  -- returns BC_OK and keeps the beginning of the next frame.
  pub process_messages-serve :
      (n : ℕ) (rs : List Request) (tail : Bytes) (s : S)
      → All CanSend rs
      → next_frame tail ≡ fail not_found
      → length rs < n
      → process_messages handle n (stream rs ++ tail) s ≡ buffer tail (serve rs s)
  unfolding process_messages process_one_message
  process_messages-serve zero rs tail s v h k = elim k [ ]
  process_messages-serve (suc n) [] tail s v h k = rw (h) refl
  process_messages-serve (suc n) (r ∷ rs) tail s (v, vs) h k =
      let (rc, s') = handle r s in
      let same = append_assoc (bytes_of r) (stream rs) tail in
      let e = ap (λ x. process_one_message handle x s) same ∙ one_lem r (stream rs ++ tail) s v in
      ap (λ (rc, (rx', s')). next_message handle rc (process_messages handle n rx' s') (rx', s')) e
      ∙ round_lem rc n r rs tail s' (process_messages-serve n rs tail s' vs h (omega arith))
