-- ===== src/Fragment/Invariant.antt =====
-- The invariant of the reassembly slots: every access to `bitmap` and `payload` is in bounds.
use boardcommd.Base.{
  ℕ, zero, suc, ◌+◌, ◌*◌, ◌<◌, ◌≤◌, ◌≡◌, ◌≢◌, refl, false, List, [], ◌∷◌, ◌++◌, Bytes, length,
  length-append, length-take, length-drop, length-set, take, drop, get_or, set, u16, All, All-take,
  IsText, arith, Option, none, some, Option-cases, inl, inr, All-replicate, if_intro,
}
use boardcommd.Types.{Status, Message, IsMessage, ok, invalid, not_found}
use boardcommd.Fragment.{
  Slot, Reasm, Fed, empty_slot, reasm_init, blit, open_slot, store, assembled, feed_slot, feed,
  frag_index, frag_total, find_slot,
}

-- Two marks, and their number.
abbrev pub Counts : List ℕ → ℕ → Type 0
Counts (a ∷ b ∷ []) n = (a ≤ 1) × (b ≤ 1) × (n ≡ a + b)
Counts _ n = ⊥

pub record IsSlot (s : Slot) : Type 0 where
  pub counted : Counts s.bitmap s.received
  pub buffer : length s.payload ≡ 1400
  pub len_in : s.payload_len ≤ 1400
  pub holds_message : IsMessage (assembled s)

pub record IsReasm (r : Reasm) : Type 0 where
  pub slots : length r ≡ 16
  pub all_slots : All IsSlot r

pub length-blit :
    (buf : Bytes) (off : ℕ) (bs : Bytes)
    → off + length bs ≤ length buf
    → length (blit buf off bs) ≡ length buf
length-blit buf off bs h = omega (
  arith,
  length-append (take off buf) (bs ++ drop (off + length bs) buf),
  length-append bs (drop (off + length bs) buf),
  length-take off buf,
  length-drop (off + length bs) buf,
)

set-Counts :
    (bm : List ℕ) (index n : ℕ)
    → index < 2
    → get_or bm index 0 ≡ 0
    → Counts bm n
    → Counts (set bm index 1) (u16 (n + 1))
set-Counts (a ∷ b ∷ []) zero n h e c = omega arith
set-Counts (a ∷ b ∷ []) (suc zero) n h e c = omega arith
set-Counts (a ∷ b ∷ []) (suc (suc i)) n h e c = absurd (omega arith)
set-Counts [] i n h e c = absurd c
set-Counts (a ∷ []) i n h e c = absurd c
set-Counts (a ∷ b ∷ d ∷ bm) i n h e c = absurd c

pub take-IsText : (n k : ℕ) (s : Bytes) → k < n → IsText n s → IsText n (take k s)
take-IsText n k s h t = record {
  fits = omega (arith, length-take k s, t.fits);
  no_nul = All-take (λ c. c ≢ 0) k s t.no_nul;
}

-- The message in a slot needs its header fields and any payload that is short enough.
assembled-IsMessage :
    (s t : Slot)
    → IsMessage (assembled s)
    → t.src_node ≡ s.src_node
    → t.dst_node ≡ s.dst_node
    → t.qos ≡ s.qos
    → t.seq ≡ s.seq
    → t.topic ≡ s.topic
    → t.channel ≡ s.channel
    → t.payload_len ≤ 1400
    → IsMessage (assembled t)
assembled-IsMessage s t v a b c d e f h = record {
  src_node_fits = omega (arith, v.src_node_fits);
  dst_node_fits = omega (arith, v.dst_node_fits);
  flags_fit = omega arith;
  qos_fits = omega (arith, v.qos_fits);
  seq_fits = omega (arith, v.seq_fits);
  channel_text = rw f v.channel_text;
  topic_text = rw e v.topic_text;
  payload_fits = omega (arith, length-take t.payload_len t.payload);
}

pub open_slot-IsSlot :
    (s : Slot) (frag : Message) (total : ℕ)
    → IsSlot s
    → IsMessage frag
    → IsSlot (open_slot s frag total)
unfolding open_slot
open_slot-IsSlot s frag total v m =
    if_intro IsSlot s.active (λ _. v)
      λ _. record {
        counted = omega arith;
        buffer = v.buffer;
        len_in = omega arith;
        holds_message = record {
          src_node_fits = m.src_node_fits;
          dst_node_fits = m.dst_node_fits;
          flags_fit = omega arith;
          qos_fits = m.qos_fits;
          seq_fits = m.seq_fits;
          channel_text = cut 32 31 (omega arith) m.channel_text;
          topic_text = cut 64 63 (omega arith) m.topic_text;
          payload_fits = omega arith;
        };
      }
  where
    cut : (n k : ℕ) {t : Bytes} → k < n → IsText n t → IsText n (take k (take k t))
    cut n k h t = take-IsText n k _ h (take-IsText n k _ h t)

pub store-IsSlot :
    (s : Slot) (index : ℕ) (chunk : Bytes)
    → IsSlot s
    → index * 1392 + length chunk ≤ 1400
    → get_or s.bitmap index 0 ≡ 0
    → IsSlot (store s index chunk)
unfolding store
store-IsSlot s index chunk v h e = record {
  counted = set-Counts s.bitmap index s.received (omega arith) e v.counted;
  buffer = omega (arith, length-blit s.payload (index * 1392) chunk, v.buffer);
  len_in = ground (arith, v.len_in);
  holds_message =
      assembled-IsMessage s (store s index chunk) v.holds_message refl refl refl refl refl refl
        (ground (arith, v.len_in));
}

abbrev pub IsOut : Option Message → Type 0
IsOut none = Unit
IsOut (some m) = IsMessage m

record IsFed (f : Fed) : Type 0 where
  slot : IsSlot f.1
  out : IsOut f.2

closed-IsSlot : (s : Slot) → IsSlot s → IsSlot (record s { active = false })
closed-IsSlot s v = record {
  counted = v.counted;
  buffer = v.buffer;
  len_in = v.len_in;
  holds_message = v.holds_message;
}

-- A chunk goes into a slot only where it fits, and only once.
pub feed_slot_cases :
    (P : Fed → Type 0) (s : Slot) (frag : Message) (index total : ℕ)
    → let chunk = drop 8 frag.payload in
      let s1 = open_slot s frag total in
      let s2 = store s1 index chunk in
      P (invalid, s, none)
      → P (invalid, s1, none)
      → P (not_found, s1, none)
      → (index * 1392 + length chunk ≤ 1400
          → get_or s1.bitmap index 0 ≡ 0
          → s2.received < s2.total
          → P (not_found, s2, none))
      → (index * 1392 + length chunk ≤ 1400
          → get_or s1.bitmap index 0 ≡ 0
          → s2.total ≤ s2.received
          → P (ok, record s2 { active = false }, some (assembled s2)))
      → P (feed_slot s frag index total)
unfolding feed_slot
feed_slot_cases P s frag index total a b c d e = ground arith

feed_slot-IsFed :
    (s : Slot) (frag : Message) (index total : ℕ)
    → IsSlot s
    → IsMessage frag
    → IsFed (feed_slot s frag index total)
feed_slot-IsFed s frag index total v m =
    let v1 = open_slot-IsSlot s frag total v m in
    let v2 = store-IsSlot (open_slot s frag total) index (drop 8 frag.payload) v1 in
    feed_slot_cases IsFed s frag index total (record { slot = v; out = tt })
      (record { slot = v1; out = tt }) (record { slot = v1; out = tt })
      (λ fits fresh _. record { slot = v2 fits fresh; out = tt })
      λ fits fresh _. record {
        slot = closed-IsSlot _ (v2 fits fresh);
        out = (v2 fits fresh).holds_message;
      }

pub All-get_or :
    (r : List Slot) (i : ℕ) → All IsSlot r → IsSlot empty_slot → IsSlot (get_or r i empty_slot)
All-get_or [] i h d = d
All-get_or (s ∷ r) zero h d = h.0
All-get_or (s ∷ r) (suc i) h d = All-get_or r i h.1 d

All-set : (r : List Slot) (i : ℕ) (s : Slot) → All IsSlot r → IsSlot s → All IsSlot (set r i s)
All-set [] i s h v = tt
All-set (x ∷ r) zero s h v = (v, h.1)
All-set (x ∷ r) (suc i) s h v = (h.0, All-set r i s h.1 v)

pub empty-IsSlot : IsSlot empty_slot
empty-IsSlot = omega arith

-- `bc_reasm_init` makes a table that keeps the invariant.
pub reasm_init-IsReasm : IsReasm reasm_init
unfolding reasm_init
reasm_init-IsReasm =
    let e = empty-IsSlot in record { slots = refl; all_slots = All-replicate IsSlot 16 e }

record IsStep (f : Status × Reasm × Option Message) : Type 0 where
  reasm : IsReasm f.1
  out : IsOut f.2

feed-IsStep : (r : Reasm) (frag : Message) → IsReasm r → IsMessage frag → IsStep (feed r frag)
unfolding feed
feed-IsStep r frag v m = elim (Option-cases (find_slot r frag.seq frag.src_node)) [
  | inl missing ↦ rw missing (ground (arith, v))
  | inr (i, at_i) ↦
      let s = get_or r i empty_slot in
      let f =
        feed_slot-IsFed s frag (frag_index frag) (frag_total frag)
          (All-get_or r i v.all_slots empty-IsSlot) m in
      let s' = (feed_slot s frag (frag_index frag) (frag_total frag)).1 in
      let v' : IsReasm (set r i s') = record {
        slots = omega (arith, length-set r i s', v.slots);
        all_slots = All-set r i s' v.all_slots f.slot;
      } in
      rw at_i (ground (arith, v, v', f))
]

-- On every branch, `bc_reasm_feed` keeps the table well formed: in each slot the payload buffer
-- has its 1400 bytes and the two marks agree with the count; and a message that it returns lies
-- within the limits of `bc_message_t`.
pub feed-IsReasm :
    (r : Reasm) (frag : Message)
    → IsReasm r
    → IsMessage frag
    → IsReasm (feed r frag).1 × IsOut (feed r frag).2
feed-IsReasm r frag v m = let f = feed-IsStep r frag v m in (f.reasm, f.out)
