-- ===== src/Fragment/Leak.antt =====
-- What `bc_reasm_feed` does to the slots of other messages, and slots that are never free again.
use boardcommd.Base.{
  ℕ, zero, suc, ◌<◌, ◌≤◌, ◌≡◌, ◌≢◌, refl, ◌∙◌, ap, true, false, List, [], ◌∷◌, length, get_or,
  get_or-set_ne, set, All, arith, Option, none, some, Option-cases, inl, inr, drop,
}
use boardcommd.Types.{Status, Message, IsMessage, ok}
use boardcommd.Fragment.{
  Slot, Reasm, Fed, empty_slot, holds, find_slot, open_slot, store, feed_slot, feed, frag_index,
  frag_total,
}
use boardcommd.Fragment.Slots.{find_slot_other, find_slot-lt}
use boardcommd.Fragment.Invariant.{
  IsSlot, IsReasm, Counts, feed_slot_cases, open_slot-IsSlot, store-IsSlot, feed-IsReasm,
  All-get_or, empty-IsSlot,
}

-- A fragment changes no slot that is collecting another message, whatever the fragment holds.
pub feed_other :
    (r : Reasm) (frag : Message) (j : ℕ)
    → (get_or r j empty_slot).active ≡ true
    → holds (get_or r j empty_slot) frag.seq frag.src_node ≡ false
    → get_or (feed r frag).1 j empty_slot ≡ get_or r j empty_slot
unfolding feed
feed_other r frag j a h = elim (Option-cases (find_slot r frag.seq frag.src_node)) [
  | inl missing ↦ rw missing (ground arith)
  | inr (k, found) ↦
      let apart : k ≢ j = λ e. find_slot_other r j frag.seq frag.src_node a h (found ∙ ap some e) in
      let s' = (feed_slot (get_or r k empty_slot) frag (frag_index frag) (frag_total frag)).1 in
      rw found (ground (arith, get_or-set_ne r k j s' empty_slot apart))
]

-- A slot for a message that was announced in three or more fragments.
pub record IsJammed (s : Slot) : Type 0 where
  pub active : s.active ≡ true
  pub many : 3 ≤ s.total

Counts-le : (bm : List ℕ) (n : ℕ) → Counts bm n → n ≤ 2
Counts-le (a ∷ b ∷ []) n c = omega arith
Counts-le [] n c = absurd c
Counts-le (a ∷ []) n c = absurd c
Counts-le (a ∷ b ∷ d ∷ bm) n c = absurd c

record StaysJammed (f : Fed) : Type 0 where
  jammed : IsJammed f.1
  refused : f.0 ≢ ok
  out : f.2 ≡ none

open_slot_active :
    (s : Slot) (frag : Message) (total : ℕ) → s.active ≡ true → open_slot s frag total ≡ s
unfolding open_slot
open_slot_active s frag total a = ground arith

store-IsJammed : (s : Slot) (i : ℕ) (c : List ℕ) → IsJammed s → IsJammed (store s i c)
unfolding store
store-IsJammed s i c j = record { active = j.active; many = j.many }

feed_slot-StaysJammed :
    (s : Slot) (frag : Message) (index total : ℕ)
    → IsSlot s
    → IsMessage frag
    → IsJammed s
    → StaysJammed (feed_slot s frag index total)
feed_slot-StaysJammed s frag index total v m j =
    let s1 = open_slot s frag total in
    let j1 : IsJammed s1 = rw (open_slot_active s frag total j.active) j in
    let j2 : IsJammed (store s1 index (drop 8 frag.payload)) = store-IsJammed s1 _ _ j1 in
    feed_slot_cases StaysJammed s frag index total
      (record { jammed = j; refused = λ e. cc; out = refl })
      (record { jammed = j1; refused = λ e. cc; out = refl })
      (record { jammed = j1; refused = λ e. cc; out = refl })
      (λ fits fresh more. record { jammed = j2; refused = λ e. cc; out = refl })
      λ fits fresh enough.
        let v2 =
          store-IsSlot s1 index (drop 8 frag.payload) (open_slot-IsSlot s frag total v m) fits
            fresh in
        absurd (omega (arith, Counts-le _ _ v2.counted, j2.many, enough))

get_or-IsJammed :
    (r : Reasm) (i : ℕ) → All IsJammed r → i < length r → IsJammed (get_or r i empty_slot)
get_or-IsJammed [] i h lt = elim lt [ ]
get_or-IsJammed (s ∷ r) zero h lt = h.0
get_or-IsJammed (s ∷ r) (suc i) h lt = get_or-IsJammed r i h.1 (omega arith)

set-IsJammed :
    (r : Reasm) (i : ℕ) (s : Slot) → All IsJammed r → IsJammed s → All IsJammed (set r i s)
set-IsJammed [] i s h j = tt
set-IsJammed (x ∷ r) zero s h j = (j, h.1)
set-IsJammed (x ∷ r) (suc i) s h j = (h.0, set-IsJammed r i s h.1 j)

record JammedStep (f : Status × Reasm × Option Message) : Type 0 where
  jammed : All IsJammed f.1
  refused : f.0 ≢ ok
  out : f.2 ≡ none

feed-JammedStep :
    (r : Reasm) (frag : Message)
    → IsReasm r
    → IsMessage frag
    → All IsJammed r
    → JammedStep (feed r frag)
unfolding feed
feed-JammedStep r frag w m j = elim (Option-cases (find_slot r frag.seq frag.src_node)) [
  | inl missing ↦ rw missing (ground (arith, j))
  | inr (k, found) ↦
      let s = get_or r k empty_slot in
      let f =
        feed_slot-StaysJammed s frag (frag_index frag) (frag_total frag)
          (All-get_or r k w.all_slots empty-IsSlot) m
          (get_or-IsJammed r k j (find_slot-lt r frag.seq frag.src_node k found)) in
      let j' = set-IsJammed r k _ j f.jammed in rw found (ground (arith, j, j', f))
]

-- The messages that the table gives out while the fragments of a list come in.
unfoldable pub feed_all : Reasm → List Message → List (Option Message)
feed_all r [] = []
feed_all r (frag ∷ frags) = let (rc, r', out) = feed r frag in out ∷ feed_all r' frags

-- The bug: once each of the 16 slots has taken a fragment of a message announced in three or more
-- fragments, which no frame can complete, no fragments that come in later, of whatever messages,
-- ever give a message again.
pub feed_all_jammed :
    (r : Reasm) (frags : List Message)
    → IsReasm r
    → All IsJammed r
    → All IsMessage frags
    → All (λ out. out ≡ none) (feed_all r frags)
unfolding feed_all
feed_all_jammed r [] w j m = tt
feed_all_jammed r (frag ∷ frags) w j m =
    let s = feed-JammedStep r frag w m.0 j in
    (s.out, feed_all_jammed (feed r frag).1 frags (feed-IsReasm r frag w m.0).0 s.jammed m.1)
