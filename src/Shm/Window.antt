-- ===== src/Shm/Window.antt =====
-- Bytes that lie one after the other in a ring of 32 MiB, and the loops that write and read them.
use boardcommd.Base.{
  ℕ, ◌+◌, ◌%◌, ◌<◌, ◌≤◌, ◌≡◌, ◌≢◌, refl, sym, ap, ◌∙◌, subst, [], ◌∷◌, ◌++◌, Bytes, length, u32,
  u32_mod, arith,
}
use boardcommd.Shm.{ring_size, put, store_bytes, load_bytes}

-- The bytes stand at the positions from `p` on, each taken modulo the size of the ring.
abbrev pub Window : (ℕ → ℕ) → ℕ → Bytes → Type 0
Window mem p [] = Unit
Window mem p (b ∷ bs) = (mem (p % ring_size) ≡ b) × Window mem (p + 1) bs

pub Window-append :
    (mem : ℕ → ℕ) (p q : ℕ) (xs ys : Bytes)
    → q ≡ p + length xs
    → Window mem p xs
    → Window mem q ys
    → Window mem p (xs ++ ys)
Window-append mem p q [] ys e v w = subst (λ n. Window mem n ys) (e ∙ omega arith) w
Window-append mem p q (x ∷ xs) ys e (a, v) w =
    (a, Window-append mem (p + 1) q xs ys (omega arith) v w)

pub Window-drop :
    (mem : ℕ → ℕ) (p q : ℕ) (xs ys : Bytes)
    → q ≡ p + length xs
    → Window mem p (xs ++ ys)
    → Window mem q ys
Window-drop mem p q [] ys e w = subst (λ n. Window mem n ys) (omega arith) w
Window-drop mem p q (x ∷ xs) ys e (a, w) = Window-drop mem (p + 1) q xs ys (omega arith) w

pub Window-take : (mem : ℕ → ℕ) (p : ℕ) (xs ys : Bytes) → Window mem p (xs ++ ys) → Window mem p xs
Window-take mem p [] ys w = tt
Window-take mem p (x ∷ xs) ys (a, w) = (a, Window-take mem (p + 1) xs ys w)

-- Positions that are equal modulo the size are the same.
pub Window-cong :
    (mem : ℕ → ℕ) (p q : ℕ) (bs : Bytes)
    → p % ring_size ≡ q % ring_size
    → Window mem p bs
    → Window mem q bs
Window-cong mem p q [] e w = tt
Window-cong mem p q (b ∷ bs) e (a, w) =
    (ap mem (sym e) ∙ a, Window-cong mem (p + 1) (q + 1) bs (omega arith) w)

put-Window :
    (mem : ℕ → ℕ) (p q v : ℕ) (bs : Bytes)
    → p + length bs ≤ q
    → q < p + ring_size
    → Window mem p bs
    → Window (put mem (q % ring_size) v) p bs
put-Window mem p q v [] h k w = tt
put-Window mem p q v (b ∷ bs) h k (a, w) =
    let ne : p % ring_size ≢ q % ring_size = omega arith in
    (ground arith, put-Window mem (p + 1) q v bs (omega arith) (omega arith) w)

-- What is written behind a window, within the size of the ring, leaves the window alone.
pub store_bytes_behind :
    (mem : ℕ → ℕ) (base i p q : ℕ) (xs bs : Bytes)
    → q % ring_size ≡ (base + i) % ring_size
    → base + i + length bs < u32_mod
    → p + length xs ≤ q
    → q + length bs ≤ p + ring_size
    → Window mem p xs
    → Window (store_bytes mem ring_size base i bs) p xs
unfolding store_bytes
store_bytes_behind mem base i p q xs [] e f h k w = w
store_bytes_behind mem base i p q xs (b ∷ bs) e f h k w =
    let at : u32 (base + i) % ring_size ≡ q % ring_size = omega arith in
    rw (at) (
      store_bytes_behind (put mem (q % ring_size) b) base (i + 1) p (q + 1) xs bs (omega arith)
        (omega arith) (omega arith) (omega arith) (put-Window mem p q b xs h (omega arith) w))

-- The bytes written are there.
pub store_bytes-Window :
    (mem : ℕ → ℕ) (base i q : ℕ) (bs : Bytes)
    → q % ring_size ≡ (base + i) % ring_size
    → base + i + length bs < u32_mod
    → length bs ≤ ring_size
    → Window (store_bytes mem ring_size base i bs) q bs
unfolding store_bytes
store_bytes-Window mem base i q [] e f k = tt
store_bytes-Window mem base i q (b ∷ bs) e f k =
    let at : u32 (base + i) % ring_size ≡ q % ring_size = omega arith in
    let first : Window (put mem (q % ring_size) b) q (b ∷ []) = (ground arith, tt) in
    subst (λ n. Window (store_bytes (put mem n b) ring_size base (i + 1) bs) q (b ∷ bs)) (sym at)
      (
        (store_bytes_behind (put mem (q % ring_size) b) base (i + 1) q (q + 1) (b ∷ []) bs
            (omega arith) (omega arith) (omega arith) (omega arith) first).0,
        store_bytes-Window (put mem (q % ring_size) b) base (i + 1) (q + 1) bs (omega arith)
            (omega arith) (omega arith),
      )

-- Reading gives the bytes of a window.
pub load_bytes_lem :
    (mem : ℕ → ℕ) (base i q : ℕ) (bs : Bytes)
    → q % ring_size ≡ (base + i) % ring_size
    → base + i + length bs < u32_mod
    → Window mem q bs
    → load_bytes mem ring_size base i (length bs) ≡ bs
unfolding load_bytes
load_bytes_lem mem base i q [] e f w = refl
load_bytes_lem mem base i q (b ∷ bs) e f (a, w) =
    let at : u32 (base + i) % ring_size ≡ q % ring_size = omega arith in
    rw (at, a)
      (ap (◌∷◌ b) (load_bytes_lem mem base (i + 1) (q + 1) bs (omega arith) (omega arith) w))
