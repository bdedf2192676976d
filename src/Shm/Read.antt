-- ===== src/Shm/Read.antt =====
-- `bc_shm_ring_peek_len` and `bc_shm_ring_read` of src/shm/bc_shm.c against a queue of messages.
use boardcommd.Base.{
  ap, ℕ, ◌+◌, ◌-◌, ◌%◌, ◌<◌, ◌≤◌, ◌≡◌, refl, sym, ◌∙◌, subst, true, false, List, [], ◌∷◌, ◌++◌,
  Bytes, length, length-append, u32, u32_mod, arith, le32, rd32, ltb, Option, some, none, dec_le,
}
use boardcommd.Types.{Status, ok, invalid, not_found}
use boardcommd.Shm.{ring_size, ring_data, load_bytes, ring_peek_len, ring_read}
use boardcommd.Shm.{Ring}
use boardcommd.Shm.Window.{Window, Window-drop, Window-take, Window-cong, load_bytes_lem}
use boardcommd.Shm.Queue.{IsRing, IsQueue, framed, frames}
use boardcommd.Shm.Write.{ring, ring_lem}

peek_next :
    (head tail : ℕ) (mem : ℕ → ℕ) (m bs : Bytes)
    → length m < u32_mod
    → IsRing (ring head tail mem) (framed m ++ bs)
    → ring_peek_len (ring head tail mem) ≡ (ok, some (length m))
unfolding ring_peek_len
peek_next head tail mem m bs h i =
    let len = le32 (length m) in
    let n : length (framed m ++ bs) ≡ 4 + length m + length bs =
      length-append (framed m) bs ∙ omega arith in
    let l : load_bytes mem ring_size (tail % ring_size) 0 4 ≡ len =
      load_bytes_lem mem (tail % ring_size) 0 tail len (omega arith) (omega arith)
        (Window-take mem tail len (m ++ bs) i.held) in
    let v : rd32 len ≡ length m = omega arith in
    let a : ltb (ring_data (ring head tail mem)) 4 ≡ false = ground (arith, i.used) in
    let b : ltb (ring_data (ring head tail mem)) (4 + length m) ≡ false = ground (arith, i.used) in
    rw (l, v, a, b) refl

read_next :
    (head tail : ℕ) (mem : ℕ → ℕ) (m bs : Bytes) (room : ℕ)
    → 4 + length m ≤ ring_size
    → length m ≤ room
    → IsRing (ring head tail mem) (framed m ++ bs)
    → ring_read (ring head tail mem) room
      ≡ (ok, ring head (u32 (tail + u32 (4 + u32 (length m)))) mem, some m)
unfolding ring_read
read_next head tail mem m bs room h k i =
    let c : ltb room (length m) ≡ false = ground arith in
    let w : Window mem (tail + 4) m =
      Window-take mem (tail + 4) m bs
        (Window-drop mem tail (tail + 4) (le32 (length m)) (m ++ bs) refl i.held) in
    let l : load_bytes mem ring_size (u32 (tail + 4) % ring_size) 0 (length m) ≡ m =
      load_bytes_lem mem (u32 (tail + 4) % ring_size) 0 (tail + 4) m (omega arith) (omega arith)
        w in
    rw (ring_read, peek_next head tail mem m bs (omega arith) i, c, l) refl

read_short :
    (head tail : ℕ) (mem : ℕ → ℕ) (m bs : Bytes) (room : ℕ)
    → length m < u32_mod
    → room < length m
    → IsRing (ring head tail mem) (framed m ++ bs)
    → ring_read (ring head tail mem) room ≡ (invalid, ring head tail mem, none)
unfolding ring_read
read_short head tail mem m bs room h k i =
    let c : ltb room (length m) ≡ true = ground arith in
    rw (ring_read, peek_next head tail mem m bs h i, c) refl

peek_none :
    (head tail : ℕ) (mem : ℕ → ℕ)
    → IsRing (ring head tail mem) []
    → ring_peek_len (ring head tail mem) ≡ (not_found, none)
unfolding ring_peek_len
peek_none head tail mem i =
    let a : ltb (ring_data (ring head tail mem)) 4 ≡ true = ground (arith, i.used) in rw (a) refl

read_none :
    (head tail : ℕ) (mem : ℕ → ℕ) (room : ℕ)
    → IsRing (ring head tail mem) []
    → ring_read (ring head tail mem) room ≡ (not_found, ring head tail mem, none)
unfolding ring_read
read_none head tail mem room i =
    rw (ring_read, peek_none head tail mem i, peek_none head tail mem i) refl

-- the number of bytes in the ring after `tail` has moved on
retreated :
    (head tail n k : ℕ)
    → head < u32_mod
    → tail < u32_mod
    → 4 + k + n ≤ ring_size
    → u32 (head + u32_mod - tail) ≡ 4 + k + n
    → u32 (head + u32_mod - u32 (tail + u32 (4 + u32 k))) ≡ n
retreated head tail n k h t f e = omega arith

read-IsRing :
    (head tail : ℕ) (mem : ℕ → ℕ) (m bs : Bytes)
    → IsRing (ring head tail mem) (framed m ++ bs)
    → IsRing (ring head (u32 (tail + u32 (4 + u32 (length m)))) mem) bs
read-IsRing head tail mem m bs i =
    let n : length (framed m ++ bs) ≡ 4 + length m + length bs =
      length-append (framed m) bs ∙ omega arith in
    let f : 4 + length m + length bs ≤ ring_size = subst (λ x. x ≤ ring_size) n i.fits in
    let k : tail + 4 + length m ≡ tail + length (framed m) = omega arith in
    let w : Window mem (tail + 4 + length m) bs =
      Window-drop mem tail (tail + 4 + length m) (framed m) bs k i.held in
    record {
      size_is = refl;
      head_fits = i.head_fits;
      tail_fits = omega arith;
      used = retreated head tail (length bs) (length m) i.head_fits i.tail_fits f (i.used ∙ n);
      fits = omega arith;
      held = Window-cong mem (tail + 4 + length m) _ bs (omega arith) w;
    }

pub ring_read_next :
    (r : Ring) (m : Bytes) (rest : List Bytes) (room : ℕ)
    → IsQueue r (m ∷ rest)
    → length m ≤ room
    → (r' : Ring) × (ring_read r room ≡ (ok, r', some m)) × IsQueue r' rest
ring_read_next r m rest room i h =
    let bs = frames rest in
    let same = ring_lem r (framed m ++ bs) i in
    let j : IsRing (ring r.head r.tail r.bytes) (framed m ++ bs) =
      subst (λ s. IsRing s (framed m ++ bs)) (sym same) i in
    let n : length (framed m ++ bs) ≡ 4 + length m + length bs =
      length-append (framed m) bs ∙ omega arith in
    let f : 4 + length m + length bs ≤ ring_size = subst (λ x. x ≤ ring_size) n i.fits in
    (
      ring r.head (u32 (r.tail + u32 (4 + u32 (length m)))) r.bytes,
      ap (λ s. ring_read s room) (sym same)
          ∙ read_next r.head r.tail r.bytes m bs room (omega arith) h j,
      read-IsRing r.head r.tail r.bytes m bs j,
    )

pub ring_read_empty : (r : Ring) (room : ℕ) → IsQueue r [] → ring_read r room ≡ (not_found, r, none)
ring_read_empty r room i =
    let same = ring_lem r [] i in
    let j : IsRing (ring r.head r.tail r.bytes) [] = subst (λ s. IsRing s []) (sym same) i in
    ap (λ s. ring_read s room) (sym same)
    ∙ (read_none r.head r.tail r.bytes room j ∙ ap (λ s. (not_found, s, none)) same)

-- What a read with room for `room` bytes gives, by the queue.
pub data Taken (r : Ring) (room : ℕ) (ms : List Bytes) (rc : Status) (r' : Ring)
    (out : Option Bytes) : Type 0 where
  taken :
      (m : Bytes) (rest : List Bytes)
      → ms ≡ m ∷ rest
      → length m ≤ room
      → rc ≡ ok
      → out ≡ some m
      → IsQueue r' rest
      → Taken r room ms rc r' out
  no_room :
      (m : Bytes) (rest : List Bytes)
      → ms ≡ m ∷ rest
      → room < length m
      → rc ≡ invalid
      → out ≡ none
      → r' ≡ r
      → Taken r room ms rc r' out
  no_message : ms ≡ [] → rc ≡ not_found → out ≡ none → r' ≡ r → Taken r room ms rc r' out

-- `bc_shm_ring_read` on a ring that holds a queue of messages, whatever the 32-bit positions are:
-- the oldest message comes out and the ring holds the others, if the caller's buffer has room for
-- it; if not, BC_ERR_INVALID, and on an empty queue BC_ERR_NOT_FOUND, with the ring as it was.
pub ring_read_lem :
    (r : Ring) (ms : List Bytes) (room : ℕ)
    → IsQueue r ms
    → let (rc, r', out) = ring_read r room in Taken r room ms rc r' out
ring_read_lem r [] room i = rw (ring_read_empty r room i) (no_message refl refl refl refl)
ring_read_lem r (m ∷ rest) room i =
    let bs = frames rest in
    let same = ring_lem r (framed m ++ bs) i in
    let j : IsRing (ring r.head r.tail r.bytes) (framed m ++ bs) =
      subst (λ s. IsRing s (framed m ++ bs)) (sym same) i in
    let n : length (framed m ++ bs) ≡ 4 + length m + length bs =
      length-append (framed m) bs ∙ omega arith in
    let f : 4 + length m + length bs ≤ ring_size = subst (λ x. x ≤ ring_size) n i.fits in
    elim (dec_le (length m) room) [
      | yes h ↦
          let (r', e, q) = ring_read_next r m rest room i h in
          rw (e) (taken m rest refl h refl refl q)
      | no h ↦
          let e = read_short r.head r.tail r.bytes m bs room (omega arith) (omega arith) j in
          subst (λ s. let (rc, r', out) = ring_read s room in Taken r room (m ∷ rest) rc r' out)
            same (rw (e) (no_room m rest refl (omega arith) refl refl same))
    ]
