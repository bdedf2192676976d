-- ===== src/Client/Pending.antt =====
-- The bytes that wait to be sent to a client: `enqueue_client_tx` and `flush_client_tx` of
-- src/daemon/client_manager.c.
use boardcommd.Base.{
  ℕ, zero, suc, ◌+◌, ◌-◌, ◌<◌, ◌≤◌, ◌≡◌, ◌≢◌, inl, inr, refl, sym, ap, ◌∙◌, Bool, true, false, ◌&&◌,
  List, [], ◌∷◌, ◌++◌, Bytes, Option, ◌==◌, ltb, leb, length, get_or, if_intro, arith, append_assoc,
  Bool-cases,
}
use boardcommd.Types.{Status, ok}
use boardcommd.Client.{
  tx_cap, Tx, move_down, copy_to, slice, Reply, took, interrupted, would_block, broken, advance,
  append_tx, enqueue_client_tx, flush_client_tx,
}

-- What lies in the buffer lies within its 4 MiB.
pub record IsTx (t : Tx) : Type 0 where
  pub within : t.off + t.len ≤ tx_cap

-- the bytes that wait
abbrev pub pending : Tx → Bytes
pending t = slice t.buf t.off t.len

slice-length : (buf : ℕ → ℕ) (off n : ℕ) → length (slice buf off n) ≡ n
slice-length buf off zero = refl
slice-length buf off (suc n) = ap suc (slice-length buf (off + 1) n)

-- Two buffers that agree on a stretch have the same slice there.
slice-ext :
    (a b : ℕ → ℕ) (p q n : ℕ)
    → ((i : ℕ) → i < n → a (p + i) ≡ b (q + i))
    → slice a p n ≡ slice b q n
slice-ext a b p q zero h = refl
slice-ext a b p q (suc n) h =
    let first : a p ≡ b q = ap a (omega arith) ∙ (h 0 (omega arith) ∙ ap b (omega arith)) in
    rw (first) (
      ap (◌∷◌ (b q)) (
        slice-ext a b (p + 1) (q + 1) n
          (λ i k. ap a (omega arith) ∙ (h (suc i) (omega arith) ∙ ap b (omega arith)))))

pub slice-append :
    (buf : ℕ → ℕ) (p m n : ℕ) → slice buf p (m + n) ≡ slice buf p m ++ slice buf (p + m) n
slice-append buf p zero n =
    let e : p + 0 ≡ p = omega arith in let f : 0 + n ≡ n = omega arith in rw (e, f) refl
slice-append buf p (suc m) n =
    let e : suc m + n ≡ suc (m + n) = omega arith in
    let f : p + suc m ≡ p + 1 + m = omega arith in
    rw (e, f) (ap (◌∷◌ (buf p)) (slice-append buf (p + 1) m n))

slice-get_or :
    (buf : ℕ → ℕ) (p : ℕ) (bs : Bytes)
    → ((i : ℕ) → i < length bs → buf (p + i) ≡ get_or bs i 0)
    → slice buf p (length bs) ≡ bs
slice-get_or buf p [] h = refl
slice-get_or buf p (b ∷ bs) h =
    let first : buf p ≡ b = ap buf (omega arith) ∙ h 0 (omega arith) in
    rw (first) (
      ap (◌∷◌ b)
        (slice-get_or buf (p + 1) bs (λ i k. ap buf (omega arith) ∙ h (suc i) (omega arith))))

pub slice-copy_to :
    (buf : ℕ → ℕ) (at : ℕ) (bs : Bytes) → slice (copy_to buf at bs) at (length bs) ≡ bs
slice-copy_to buf at bs = slice-get_or (copy_to buf at bs) at bs (λ i h. copied buf at bs i h)
  where
    copied :
        (buf : ℕ → ℕ) (at : ℕ) (bs : Bytes) (i : ℕ)
        → i < length bs
        → copy_to buf at bs (at + i) ≡ get_or bs i 0
    copied buf at bs i h =
        let a : leb at (at + i) ≡ true = ground arith in
        let b : ltb (at + i) (at + length bs) ≡ true = ground arith in
        let c : at + i - at ≡ i = omega arith in rw (a, b, c) refl

-- What is written behind a slice leaves it alone.
pub slice_before :
    (buf : ℕ → ℕ) (p n at : ℕ) (bs : Bytes)
    → p + n ≤ at
    → slice (copy_to buf at bs) p n ≡ slice buf p n
slice_before buf p n at bs h =
    slice-ext (copy_to buf at bs) buf p p n (λ i k. below buf at bs (p + i) (omega arith))
  where
    below : (buf : ℕ → ℕ) (at : ℕ) (bs : Bytes) (j : ℕ) → j < at → copy_to buf at bs j ≡ buf j
    below buf at bs j h = let a : leb at j ≡ false = ground arith in rw (a) refl

slice-move_down : (buf : ℕ → ℕ) (off n : ℕ) → slice (move_down buf off n) 0 n ≡ slice buf off n
slice-move_down buf off n = slice-ext (move_down buf off n) buf 0 off n (λ i k. moved buf off n i k)
  where
    moved : (buf : ℕ → ℕ) (off n i : ℕ) → i < n → move_down buf off n (0 + i) ≡ buf (off + i)
    moved buf off n i k =
        let a : ltb (0 + i) n ≡ true = ground arith in
        let b : 0 + i ≡ i = omega arith in rw (a, b) refl

-- the bytes that wait after an append
pending_appended :
    (t : Tx) (bs : Bytes)
    → slice (copy_to t.buf (t.off + t.len) bs) t.off (t.len + length bs) ≡ pending t ++ bs
pending_appended t bs =
    slice-append (copy_to t.buf (t.off + t.len) bs) t.off t.len (length bs)
    ∙ rw
        (
          slice_before t.buf t.off t.len (t.off + t.len) bs (omega arith),
          slice-copy_to t.buf (t.off + t.len) bs,
        )
        refl

-- What `enqueue_client_tx` leaves, by the room there is for the bytes.
pub data Enqueued (t : Tx) (bs : Bytes) (rc : Status) (t' : Tx) : Type 0 where
  queued : t.len + length bs ≤ tx_cap → IsTx t' → pending t' ≡ pending t ++ bs → Enqueued t bs rc t'
  refused :
      tx_cap < t.len + length bs → rc ≢ ok → IsTx t' → pending t' ≡ pending t → Enqueued t bs rc t'

-- No reply of `send` says that it took more than it was given.
abbrev pub Honest : List Reply → ℕ → Type 0
Honest [] n = Unit
Honest (took k ∷ rs) n = (k ≤ n) × Honest rs (n - k)
Honest (interrupted ∷ rs) n = Honest rs n
Honest (would_block ∷ rs) n = Unit
Honest (broken ∷ rs) n = Unit

-- What a run of `flush_client_tx` sent and left.
pub record Flushed (t : Tx) (out : Bytes) (t' : Tx) : Type 0 where
  pub is_tx : IsTx t'
  pub in_order : out ++ pending t' ≡ pending t

pending-advance : (t : Tx) (n : ℕ) → pending (advance t n) ≡ slice t.buf (t.off + n) (t.len - n)
pending-advance t n = elim (Bool-cases (t.len - n == 0)) [
  | inl all ↦ let e : t.len - n ≡ 0 = ground arith in rw (e) refl
  | inr some_left ↦ rw (some_left) refl
]

advance-slice :
    (t : Tx) (n : ℕ) → n ≤ t.len → slice t.buf t.off n ++ pending (advance t n) ≡ pending t
advance-slice t n h =
    let e : n + (t.len - n) ≡ t.len = omega arith in
    ap (λ x. slice t.buf t.off n ++ x) (pending-advance t n)
    ∙ sym (slice-append t.buf t.off n (t.len - n))
    ∙ ap (slice t.buf t.off) e

advance-IsTx : (t : Tx) (n : ℕ) → IsTx t → n ≤ t.len → IsTx (advance t n)
advance-IsTx t n i h = record { within = let w = i.within in ground arith }

-- what `flush_client_tx` returns when it makes no further call
abbrev Done : {W : Type 0} → Tx → Option Status × Bytes × (Tx × W) → Type 0
Done t (rc, out, (t', w)) = Flushed t out t'

idle : (t : Tx) → IsTx t → Flushed t [] t
idle t i = record { is_tx = i; in_order = refl }

-- The same, for a queue of the same bytes.
moved-Enqueued :
    (t moved : Tx) (bs : Bytes) (rc : Status) (t' : Tx)
    → moved.len ≡ t.len
    → pending moved ≡ pending t
    → Enqueued moved bs rc t'
    → Enqueued t bs rc t'
moved-Enqueued t moved bs rc t' n p (queued h i e) =
    queued (omega arith) i (e ∙ ap (λ x. x ++ bs) p)
moved-Enqueued t moved bs rc t' n p (refused h bad i e) = refused (omega arith) bad i (e ∙ p)

module _ {W : Type 0} (reactor_mod : Bool → W → Status × W) where
  append_tx-Enqueued :
      (t : Tx) (bs : Bytes) (w : W)
      → IsTx t
      → (t.off ≢ 0 → t.off + t.len + length bs ≤ tx_cap)
      → let (rc, (t', w')) = append_tx reactor_mod t bs w in Enqueued t bs rc t'
  append_tx-Enqueued t bs w i room = elim (Bool-cases (ltb tx_cap (t.off + t.len + length bs))) [
    | inl over ↦ rw (over) (refused (ground arith) (λ e. ground arith) i refl)
    | inr under ↦
        rw (under)
          (queued (ground arith) (record { within = ground arith }) (pending_appended t bs))
  ]

  pub enqueue_client_tx_lem :
      (t : Tx) (bs : Bytes) (w : W)
      → IsTx t
      → let (rc, (t', w')) = enqueue_client_tx reactor_mod t bs w in Enqueued t bs rc t'
  unfolding enqueue_client_tx
  enqueue_client_tx_lem t bs w i = elim (Bool-cases (ltb tx_cap (length bs))) [
    | inl long ↦ rw (long) (refused (ground arith) (λ e. ground arith) i refl)
    | inr short ↦ elim (Bool-cases (ltb 0 t.off && ltb tx_cap (t.off + t.len + length bs))) [
      | inl move ↦
          let moved : Tx = record t { off = 0; buf = move_down t.buf t.off t.len } in
          rw (short, move)
            (moved-Enqueued t moved bs _ _ refl (slice-move_down t.buf t.off t.len) (
              append_tx-Enqueued moved bs w (record { within = omega arith })
                (λ h. absurd (h refl))))
      | inr stay ↦ rw (short, stay) (append_tx-Enqueued t bs w i (λ h. ground arith))
    ]
  ]

  -- `flush_client_tx` on a queue that lies within its buffer, whatever `send` replies, as long as it
  -- takes no more than it is given: what goes out and what still waits are together what waited, in
  -- order and with nothing lost or sent twice, and the queue lies within its buffer again.
  pub flush_client_tx-Flushed :
      (rs : List Reply) (t : Tx) (w : W)
      → IsTx t
      → Honest rs t.len
      → let (rc, out, (t', w')) = flush_client_tx reactor_mod rs t w in Flushed t out t'
  unfolding flush_client_tx
  flush_client_tx-Flushed [] t w i h =
      if_intro (Done t) (t.len == 0) (λ _. idle t i) (λ _. idle t i)
  flush_client_tx-Flushed (took zero ∷ rs) t w i h =
      if_intro (Done t) (t.len == 0) (λ _. idle t i) (λ _. idle t i)
  flush_client_tx-Flushed (took (suc n) ∷ rs) t w i (k, h) =
      let f = flush_client_tx-Flushed rs (advance t (suc n)) w (advance-IsTx t (suc n) i k) h in
      if_intro (Done t) (t.len == 0) (λ _. idle t i)
        (λ _. record {
          is_tx = f.is_tx;
          in_order =
              append_assoc (slice t.buf t.off (suc n)) _ _
              ∙ (ap (λ x. slice t.buf t.off (suc n) ++ x) f.in_order ∙ advance-slice t (suc n) k);
        })
  flush_client_tx-Flushed (interrupted ∷ rs) t w i h =
      if_intro (Done t) (t.len == 0) (λ _. idle t i) (λ _. flush_client_tx-Flushed rs t w i h)
  flush_client_tx-Flushed (would_block ∷ rs) t w i h =
      if_intro (Done t) (t.len == 0) (λ _. idle t i) (λ _. idle t i)
  flush_client_tx-Flushed (broken ∷ rs) t w i h =
      if_intro (Done t) (t.len == 0) (λ _. idle t i) (λ _. idle t i)
