-- ===== src/Fragment/Slots.antt =====
-- `find_slot`: a slot that holds the message, or else the first free one.
use boardcommd.Base.{
  ℕ, zero, suc, ◌+◌, ◌<◌, ◌≡◌, refl, ap, ◌∙◌, ◌≢◌, ◌⊎◌, inl, inr, Bool-cases, dec_lt, Bool, true,
  false, [], ◌∷◌, length, get_or, set, All, arith, Option, none, some, if◌then◌else◌,
}
use boardcommd.Fragment.{Slot, Reasm, empty_slot, holds, find_from, find_slot}

-- No slot collects the message `seq` of the node `src`.
abbrev pub NoSlot : Reasm → ℕ → ℕ → Type 0
NoSlot r seq src = All (λ s. holds s seq src ≡ false) r

find_from_free :
    (r : Reasm) (i j seq src : ℕ) → NoSlot r seq src → find_from r i (some j) seq src ≡ some j
unfolding find_from
find_from_free [] i j seq src h = refl
find_from_free (s ∷ r) i j seq src h = rw h.0 (find_from_free r (i + 1) j seq src h.1)

-- Where a slot is free, `find_from` gives a free one.
find_from-none :
    (r : Reasm) (i f seq src : ℕ)
    → NoSlot r seq src
    → f < length r
    → (get_or r f empty_slot).active ≡ false
    → (k : ℕ) × (find_from r i none seq src ≡ some (i + k))
      × (k < length r)
      × ((get_or r k empty_slot).active ≡ false)
unfolding find_from
find_from-none [] i f seq src h lt e = elim lt [ ]
find_from-none (s ∷ r) i zero seq src h lt e =
    (0, ground (arith, find_from_free r (i + 1) i seq src h.1), omega arith, e)
find_from-none (s ∷ r) i (suc f) seq src h lt e =
    let (k, found, k_in, free) = find_from-none r (i + 1) f seq src h.1 (omega arith) e in
    pick s.active refl k found k_in free
  where
    pick :
        (b : Bool)
        → s.active ≡ b
        → (k : ℕ) → find_from r (i + 1) none seq src ≡ some (i + 1 + k)
        → k < length r
        → (get_or r k empty_slot).active ≡ false
        → (k : ℕ) × (find_from (s ∷ r) i none seq src ≡ some (i + k))
          × (k < length (s ∷ r))
          × ((get_or (s ∷ r) k empty_slot).active ≡ false)
    pick true a k found k_in free = (suc k, ground arith, omega arith, free)
    pick false a k found k_in free =
        (0, ground (arith, find_from_free r (i + 1) i seq src h.1), omega arith, a)

find_from_held :
    (r : Reasm) (i k seq src : ℕ) (free : Option ℕ) (s : Slot)
    → NoSlot r seq src
    → k < length r
    → holds s seq src ≡ true
    → find_from (set r k s) i free seq src ≡ some (i + k)
unfolding find_from
find_from_held [] i k seq src free s h lt e = elim lt [ ]
find_from_held (x ∷ r) i zero seq src free s h lt e = rw e (ground arith)
find_from_held (x ∷ r) i (suc k) seq src free s h lt e = rw h.0 (
    find_from_held r (i + 1) k seq src _ s h.1 (omega arith) e
    ∙ ap some {x = i + 1 + k} (omega arith))

pub find_slot_free :
    (r : Reasm) (f seq src : ℕ)
    → NoSlot r seq src
    → f < length r
    → (get_or r f empty_slot).active ≡ false
    → (k : ℕ) × (find_slot r seq src ≡ some k)
      × (k < length r)
      × ((get_or r k empty_slot).active ≡ false)
unfolding find_slot
find_slot_free r f seq src h lt e =
    let (k, found, k_in, free) = find_from-none r 0 f seq src h lt e in
    (k, found ∙ ap some {x = 0 + k} (omega arith), k_in, free)

pub find_slot_held :
    (r : Reasm) (k seq src : ℕ) (s : Slot)
    → NoSlot r seq src
    → k < length r
    → holds s seq src ≡ true
    → find_slot (set r k s) seq src ≡ some k
unfolding find_slot
find_slot_held r k seq src s h lt e =
    find_from_held r 0 k seq src none s h lt e ∙ ap some {x = 0 + k} (omega arith)

pub NoSlot-set :
    (r : Reasm) (k seq src : ℕ) (s : Slot)
    → NoSlot r seq src
    → holds s seq src ≡ false
    → NoSlot (set r k s) seq src
NoSlot-set [] k seq src s h e = tt
NoSlot-set (x ∷ r) zero seq src s h e = (e, h.1)
NoSlot-set (x ∷ r) (suc k) seq src s h e = (h.0, NoSlot-set r k seq src s h.1 e)

-- the first free slot, one slot further on
abbrev next_free : Option ℕ → Bool → ℕ → Option ℕ
next_free free active i = elim free [ some j ↦ some j | none ↦ if active then none else some i ]

next_free-ne :
    (free : Option ℕ) (active : Bool) (i k : ℕ)
    → free ≢ some k
    → (active ≡ true) ⊎ (i ≢ k)
    → next_free free active i ≢ some k
next_free-ne (some j) active i k h g e = h e
next_free-ne none true i k h g e = cc
next_free-ne none false i k h (inl g) e = cc
next_free-ne none false i k h (inr g) e = g (ground arith)

find_from_below :
    (r : Reasm) (i seq src : ℕ) (free : Option ℕ) (k : ℕ)
    → free ≢ some k
    → k < i
    → find_from r i free seq src ≢ some k
unfolding find_from
find_from_below [] i seq src free k h lt = h
find_from_below (s ∷ r) i seq src free k h lt = elim (Bool-cases (holds s seq src)) [
  | inl held ↦ rw held (λ e. absurd (ground arith))
  | inr other ↦
      let lt' : i ≢ k = λ e. absurd (omega arith) in
      rw other (
        find_from_below r (i + 1) seq src _ k (next_free-ne free s.active i k h (inr lt'))
          (omega arith))
]

-- A slot that collects another message is not chosen.
find_from_other :
    (r : Reasm) (i j seq src : ℕ) (free : Option ℕ)
    → (get_or r j empty_slot).active ≡ true
    → holds (get_or r j empty_slot) seq src ≡ false
    → free ≢ some (i + j)
    → find_from r i free seq src ≢ some (i + j)
unfolding find_from
find_from_other [] i j seq src free a h ne = ne
find_from_other (s ∷ r) i zero seq src free a h ne = rw h (
    find_from_below r (i + 1) seq src _ (i + 0) (next_free-ne free s.active i (i + 0) ne (inl a))
      (omega arith))
find_from_other (s ∷ r) i (suc j) seq src free a h ne = elim (Bool-cases (holds s seq src)) [
  | inl held ↦ rw held (λ e. absurd (ground arith))
  | inr other ↦
      let shift : i + suc j ≡ i + 1 + j = omega arith in
      let apart : i ≢ i + suc j = λ e. absurd (omega arith) in
      let go =
        find_from_other r (i + 1) j seq src (next_free free s.active i) a h
          (rw (← shift) (next_free-ne free s.active i (i + suc j) ne (inr apart))) in
      rw (other, shift) go
]

pub find_slot_other :
    (r : Reasm) (j seq src : ℕ)
    → (get_or r j empty_slot).active ≡ true
    → holds (get_or r j empty_slot) seq src ≡ false
    → find_slot r seq src ≢ some j
unfolding find_slot
find_slot_other r j seq src a h e =
    find_from_other r 0 j seq src none a h (λ x. cc) (e ∙ ap some {x = j} (omega arith))

find_from-lt :
    (r : Reasm) (i seq src : ℕ) (free : Option ℕ) (k : ℕ)
    → free ≢ some k
    → find_from r i free seq src ≡ some k
    → k < i + length r
unfolding find_from
find_from-lt [] i seq src free k h e = absurd (h e)
find_from-lt (s ∷ r) i seq src free k h e = elim (Bool-cases (holds s seq src)) [
  | inl held ↦ let at_i : some i ≡ some k = rw held at e in ground arith
  | inr other ↦ elim (dec_lt i (suc k)) [
    | yes p ↦ elim (dec_lt i k) [
      | yes q ↦
          let apart : i ≢ k = λ x. absurd (omega arith) in
          omega (
            arith,
            find_from-lt r (i + 1) seq src _ k (next_free-ne free s.active i k h (inr apart))
                (rw other at e),
          )
      | no q ↦ omega arith
    ]
    | no p ↦ omega arith
  ]
]

-- The slot that is found is one of the table.
pub find_slot-lt : (r : Reasm) (seq src k : ℕ) → find_slot r seq src ≡ some k → k < length r
unfolding find_slot
find_slot-lt r seq src k e = omega (arith, find_from-lt r 0 seq src none k (λ x. cc) e)
