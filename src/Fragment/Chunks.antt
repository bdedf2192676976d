-- ===== src/Fragment/Chunks.antt =====
-- The two fragments of a long message, and what each does to the slot it is fed to.
use boardcommd.Base.{
  ℕ, zero, suc, ◌+◌, ◌-◌, ◌*◌, ◌<◌, ◌≤◌, ◌≡◌, refl, sym, ◌∙◌, true, false, [], ◌∷◌, ◌++◌, Bytes,
  length, length-append, length-take, length-drop, take, drop, take-append, drop-append, take_all,
  take-append-drop, get_or, set, append_assoc, arith, none, some, if◌then◌else◌, not, ltb, ◌==◌,
  ◌&&◌, le→ltb, if_lt, if_ge,
}
use boardcommd.Types.{Message, IsMessage, ok, not_found}
use boardcommd.Fragment.{
  Slot, Reasm, empty_slot, blit, open_slot, store, assembled, feed_slot, feed, frag_index,
  frag_total, find_slot, piece,
}

-- Two chunks that lie side by side in a buffer, written in either order, are read as one.
module _ (buf a b : Bytes) (n k : ℕ) (at : k ≡ length a) (size : n ≡ length a + length b) where
  whole : (rest : Bytes) → take n ((a ++ b) ++ rest) ≡ a ++ b
  whole rest = take-append (a ++ b) rest n (size ∙ sym (length-append a b))

  pub blit-blit : take n (blit (blit buf 0 a) k b) ≡ a ++ b
  blit-blit =
      let first : take k (blit buf 0 a) ≡ a = take-append a _ k at in
      rw (first, ← append_assoc a b _) (whole _)

  pub blit-blit_swapped : length a ≤ length buf → take n (blit (blit buf k b) 0 a) ≡ a ++ b
  blit-blit_swapped h =
      let rest : Bytes = drop (k + length b) buf in
      let behind : drop (0 + length a) (take k buf ++ (b ++ rest)) ≡ b ++ rest =
        drop-append (take k buf) (b ++ rest) (0 + length a) (omega (arith, length-take k buf)) in
      rw (behind, ← append_assoc a b _) (whole rest)

-- the chunk of fragment `i`
abbrev pub chunk : Message → ℕ → Bytes
chunk m i = take 1392 (drop (i * 1392) m.payload)

-- A message that is cut in two.
pub record IsLong (m : Message) : Type 0 where
  pub is : IsMessage m
  pub long : 1392 < length m.payload

pub length-chunk_zero : (m : Message) → IsLong m → length (chunk m 0) ≡ 1392
length-chunk_zero m v = omega (arith, length-take 1392 m.payload, v.long)

pub length-chunk_one : (m : Message) → IsLong m → length (chunk m 1) ≡ length m.payload - 1392
length-chunk_one m v =
    omega
      (arith, length-take 1392 (drop 1392 m.payload), length-drop 1392 m.payload, v.is.payload_fits)

pub chunk-append : (m : Message) → IsLong m → chunk m 0 ++ chunk m 1 ≡ m.payload
chunk-append m v =
    rw
      (take_all 1392 (drop 1392 m.payload)
        (omega (arith, length-drop 1392 m.payload, v.is.payload_fits)))
      (take-append-drop 1392 m.payload)

pub piece_head :
    (m : Message) (i : ℕ)
    → i < 2
    → (frag_index (piece m 2 i) ≡ i)
      × (frag_total (piece m 2 i) ≡ 2)
      × (8 ≤ length (piece m 2 i).payload)
unfolding piece
piece_head m i h = omega arith

pub drop-piece : (m : Message) (i : ℕ) → drop 8 (piece m 2 i).payload ≡ chunk m i
unfolding piece
drop-piece m i = refl

-- `feed` once the slot is known
pub feed_found :
    (r : Reasm) (m : Message) (i k : ℕ)
    → i < 2
    → find_slot r m.seq m.src_node ≡ some k
    → feed r (piece m 2 i) ≡ (
        let (rc, s, out) = feed_slot (get_or r k empty_slot) (piece m 2 i) i 2 in
        (rc, set r k s, out))
unfolding feed
feed_found r m i k h e =
    let (index, total, enough) = piece_head m i h in
    let same : find_slot r (piece m 2 i).seq (piece m 2 i).src_node ≡ some k = unfold piece in e in
    rw (same, index, total) (ground (arith, enough))

-- the slot after the first fragment, `i`
abbrev pub half : Slot → Message → ℕ → Slot
half s m i = store (open_slot s (piece m 2 i) 2) i (chunk m i)

-- and after the second, `j`
abbrev pub full : Slot → Message → ℕ → ℕ → Slot
full s m i j = store (half s m i) j (chunk m j)

-- `feed_slot` where no check fails
pub feed_slot_stored :
    (s : Slot) (frag : Message) (index total : ℕ)
    → (s.active && not (s.total == total)) ≡ false
    → index * 1392 + length (drop 8 frag.payload) ≤ 1400
    → get_or (open_slot s frag total).bitmap index 0 ≡ 0
    → let s2 = store (open_slot s frag total) index (drop 8 frag.payload) in
      feed_slot s frag index total ≡ (
        if ltb s2.received s2.total
        then (not_found, s2, none)
        else (ok, record s2 { active = false }, some (assembled s2)))
unfolding feed_slot
feed_slot_stored s frag index total a b c = rw (a, le→ltb _ _ b, c)

pub open_slot_free :
    (s : Slot) (m : Message) (i : ℕ)
    → s.active ≡ false
    → let t = open_slot s (piece m 2 i) 2 in
      (t.active ≡ true)
      × (t.total ≡ 2)
      × (t.received ≡ 0)
      × (t.bitmap ≡ 0 ∷ 0 ∷ [])
      × (t.payload ≡ s.payload)
      × (t.payload_len ≡ 0)
unfolding open_slot
open_slot_free s m i a = ground arith

pub open_slot_busy :
    (s : Slot) (m : Message) (i : ℕ) → s.active ≡ true → open_slot s (piece m 2 i) 2 ≡ s
unfolding open_slot
open_slot_busy s m i a = ground arith

pub half_state :
    (s : Slot) (m : Message) (i : ℕ)
    → s.active ≡ false
    → let t = half s m i in
      (t.active ≡ true) × (t.total ≡ 2) × (t.received ≡ 1) × (t.bitmap ≡ set (0 ∷ 0 ∷ []) i 1)
unfolding store
half_state s m i a = ground (arith, open_slot_free s m i a)

pub length-chunk : (m : Message) (i : ℕ) → IsLong m → i < 2 → i * 1392 + length (chunk m i) ≤ 1400
length-chunk m zero v h = omega (arith, length-chunk_zero m v)
length-chunk m (suc zero) v h = omega (arith, length-chunk_one m v, v.is.payload_fits)
length-chunk m (suc (suc i)) v h = absurd (omega arith)

pub feed_slot_first :
    (s : Slot) (m : Message) (i : ℕ)
    → IsLong m
    → i < 2
    → s.active ≡ false
    → feed_slot s (piece m 2 i) i 2 ≡ (not_found, half s m i, none)
feed_slot_first s m i v h a =
    let (on, two, count, bits, _, _) = open_slot_free s m i a in
    let (on', two', one, bits') = half_state s m i a in
    feed_slot_stored s (piece m 2 i) i 2 (rw a) (rw (drop-piece m i) (length-chunk m i v h))
      (rw bits (ground arith))
    ∙ rw (drop-piece m i, one, two') refl

-- The second of two chunks `a`, `b` that lie side by side is stored in a slot that has the first.
module _ (t : Slot) (buf a b : Bytes) (first : length a ≡ 1392) where
  abbrev pub Joined : Slot → Type 0
  Joined u = (u.payload_len ≡ length (a ++ b)) × (take u.payload_len u.payload ≡ a ++ b)

  pub store_last :
      0 < length b → t.payload ≡ blit buf 0 a → t.payload_len ≡ 0 + length a → Joined (store t 1 b)
  unfolding store
  store_last h bytes len =
      let size : (if ltb t.payload_len (1392 + length b) then 1392 + length b else t.payload_len)
          ≡ 1392 + length b =
        if_lt t.payload_len (1392 + length b) (omega (arith, len, first)) in
      let sum : length (a ++ b) ≡ 1392 + length b = omega (arith, length-append a b) in
      (
        size ∙ sym sum,
        rw (size, bytes)
            (blit-blit buf a b (1392 + length b) 1392 (sym first) (omega (arith, first))),
      )

  pub store_first :
      length buf ≡ 1400
      → t.payload ≡ blit buf 1392 b
      → t.payload_len ≡ 1392 + length b
      → 0 < length b
      → Joined (store t 0 a)
  unfolding store
  store_first room bytes len h =
      let size : (if ltb t.payload_len (0 + length a) then 0 + length a else t.payload_len)
          ≡ 1392 + length b =
        if_ge t.payload_len (0 + length a) (omega (arith, len, first)) ∙ len in
      let sum : length (a ++ b) ≡ 1392 + length b = omega (arith, length-append a b) in
      (
        size ∙ sym sum,
        rw (size, bytes)
            (blit-blit_swapped buf a b (1392 + length b) 1392 (sym first) (omega (arith, first))
              (omega arith)),
      )
