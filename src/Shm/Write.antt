-- ===== src/Shm/Write.antt =====
-- `bc_shm_ring_write` of src/shm/bc_shm.c against a queue of messages.
use boardcommd.Base.{
  ℕ, ◌+◌, ◌-◌, ◌%◌, ◌<◌, ◌≤◌, ◌≡◌, ◌≢◌, inl, inr, refl, sym, ap, ◌∙◌, subst, Bool-cases, true,
  false, List, [], ◌∷◌, ◌++◌, Bytes, length, length-append, u32, u32_mod, arith, le32, ltb, dec_le,
}
use boardcommd.Types.{Status, ok}
use boardcommd.Shm.{Ring, ring_size, ring_data, ring_space, store_bytes, ring_write}
use boardcommd.Shm.Queue.{IsRing, IsQueue, framed, frames, frames-append, head_at, written}

-- a ring of the full size
abbrev pub ring : ℕ → ℕ → (ℕ → ℕ) → Ring
ring head tail mem = record { head = head; tail = tail; size = ring_size; bytes = mem }

pub ring_lem : (r : Ring) (bs : Bytes) → IsRing r bs → ring r.head r.tail r.bytes ≡ r
ring_lem r bs i =
    ap (λ s. record { head = r.head; tail = r.tail; size = s; bytes = r.bytes }) (sym i.size_is)

write_fits :
    (head tail : ℕ) (mem : ℕ → ℕ) (m : Bytes) (n : ℕ)
    → ring_data (ring head tail mem) ≡ n
    → n + (4 + length m) ≤ ring_size
    → ring_write (ring head tail mem) m ≡ (
      ok,
      ring (u32 (head + u32 (4 + u32 (length m)))) tail (
          store_bytes
            (store_bytes mem ring_size (head % ring_size) 0 (le32 (length m)))
            ring_size
            (u32 (head % ring_size + 4) % ring_size)
            0
            m),
    )
unfolding ring_write
write_fits head tail mem m n e h =
    let a : ltb (ring_size - 4) (length m) ≡ false = ground arith in
    let b : ltb (ring_space (ring head tail mem)) (4 + length m) ≡ false = ground arith in
    rw (a, b) refl

write_full :
    (head tail : ℕ) (mem : ℕ → ℕ) (m : Bytes) (n : ℕ)
    → ring_data (ring head tail mem) ≡ n
    → n ≤ ring_size
    → ring_size < n + (4 + length m)
    → ((ring_write (ring head tail mem) m).0 ≢ ok)
      × ((ring_write (ring head tail mem) m).1 ≡ ring head tail mem)
unfolding ring_write
write_full head tail mem m n e k h =
    let b : ltb (ring_space (ring head tail mem)) (4 + length m) ≡ true = ground arith in
    elim (Bool-cases (ltb (ring_size - 4) (length m))) [
      | inl long ↦ rw (long) (λ x. ground arith, refl)
      | inr short ↦ rw (short, b) (λ x. ground arith, refl)
    ]

-- the number of bytes in the ring after `head` has moved on
advanced :
    (head tail n k : ℕ)
    → head < u32_mod
    → tail < u32_mod
    → u32 (head + u32_mod - tail) ≡ n
    → n + (4 + k) ≤ ring_size
    → u32 (u32 (head + u32 (4 + u32 k)) + u32_mod - tail) ≡ n + (4 + k)
advanced head tail n k h t e f = omega arith

pub write-IsRing :
    (head tail : ℕ) (mem : ℕ → ℕ) (m bs : Bytes)
    → IsRing (ring head tail mem) bs
    → length bs + (4 + length m) ≤ ring_size
    → IsRing ((ring_write (ring head tail mem) m).1) (bs ++ framed m)
write-IsRing head tail mem m bs i h =
    let n : length (bs ++ framed m) ≡ length bs + (4 + length m) =
      length-append bs (framed m) ∙ omega arith in
    rw (write_fits head tail mem m (length bs) i.used h) (record {
      size_is = refl;
      head_fits = omega arith;
      tail_fits = i.tail_fits;
      used = advanced head tail (length bs) (length m) i.head_fits i.tail_fits i.used h ∙ sym n;
      fits = rw (n) h;
      held =
          written mem head tail bs m (head_at head tail (length bs) i.head_fits i.tail_fits i.used)
            h i.held;
    })

-- What a write of `m` leaves, by the room there is behind the messages `ms`.
pub data Written (r : Ring) (ms : List Bytes) (m : Bytes) (rc : Status) (r' : Ring) : Type 0 where
  accepted :
      length (frames ms) + (4 + length m) ≤ ring_size
      → rc ≡ ok
      → IsQueue r' (ms ++ (m ∷ []))
      → Written r ms m rc r'
  rejected :
      ring_size < length (frames ms) + (4 + length m) → rc ≢ ok → r' ≡ r → Written r ms m rc r'

-- `bc_shm_ring_write` on a ring that holds a queue of messages, whatever the 32-bit positions are
-- and wherever the data wraps round: the message is put at the end of the queue and BC_OK returned
-- exactly when the 32 MiB have room for it and its length; else the ring stays as it was.
pub ring_write_lem :
    (r : Ring) (ms : List Bytes) (m : Bytes)
    → IsQueue r ms
    → let (rc, r') = ring_write r m in Written r ms m rc r'
ring_write_lem r ms m i =
    let bs = frames ms in
    let same = ring_lem r bs i in
    let j : IsRing (ring r.head r.tail r.bytes) bs = subst (λ s. IsRing s bs) (sym same) i in
    elim (dec_le (length bs + (4 + length m)) ring_size) [
      | yes h ↦
          let q : IsRing ((ring_write (ring r.head r.tail r.bytes) m).1) (frames (ms ++ (m ∷ []))) =
            rw (frames-append ms m) (write-IsRing r.head r.tail r.bytes m bs j h) in
          subst (λ s. Written r ms m ((ring_write s m).0) ((ring_write s m).1)) same
            (accepted h (ap (λ x. x.0) (write_fits r.head r.tail r.bytes m (length bs) j.used h)) q)
      | no h ↦
          let (bad, kept) =
            write_full r.head r.tail r.bytes m (length bs) j.used j.fits (omega arith) in
          subst (λ s. Written r ms m ((ring_write s m).0) ((ring_write s m).1)) same
            (rejected (omega arith) bad (kept ∙ same))
    ]
