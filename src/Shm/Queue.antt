-- ===== src/Shm/Queue.antt =====
-- A ring of src/shm/bc_shm.c as a queue of messages.
use boardcommd.Base.{
  ℕ, ◌+◌, ◌-◌, ◌%◌, ◌<◌, ◌≤◌, ◌≡◌, refl, sym, ap, ◌∙◌, subst, List, [], ◌∷◌, ◌++◌, Bytes, length,
  length-append, u32, u32_mod, arith, le32, rd32, append_assoc, append-nil,
}
use boardcommd.Shm.{Ring, ring_size, ring_data, store_bytes}
use boardcommd.Shm.Window.{Window, Window-append, store_bytes_behind, store_bytes-Window}

-- The bytes between `tail` and `head` are `bs`.
pub record IsRing (r : Ring) (bs : Bytes) : Type 0 where
  pub size_is : r.size ≡ ring_size
  pub head_fits : r.head < u32_mod
  pub tail_fits : r.tail < u32_mod
  pub used : ring_data r ≡ length bs
  pub fits : length bs ≤ ring_size
  pub held : Window r.bytes r.tail bs

-- a message with its length before it
abbrev pub framed : Bytes → Bytes
framed m = le32 (length m) ++ m

-- the messages of a queue, the oldest first
abbrev pub frames : List Bytes → Bytes
frames [] = []
frames (m ∷ ms) = framed m ++ frames ms

pub frames-append : (ms : List Bytes) (m : Bytes) → frames (ms ++ (m ∷ [])) ≡ frames ms ++ framed m
frames-append [] m = append-nil (framed m)
frames-append (n ∷ ns) m =
    ap (λ x. framed n ++ x) (frames-append ns m)
    ∙ sym (append_assoc (framed n) (frames ns) (framed m))

-- The ring holds the messages of the queue.
abbrev pub IsQueue : Ring → List Bytes → Type 0
IsQueue r ms = IsRing r (frames ms)

pub rd32-le32 : (n : ℕ) (rest : Bytes) → n < u32_mod → rd32 (le32 n ++ rest) ≡ n
rd32-le32 n rest h = omega arith

-- where `head` stands among the positions counted from `tail`
pub head_at :
    (head tail n : ℕ)
    → head < u32_mod
    → tail < u32_mod
    → u32 (head + u32_mod - tail) ≡ n
    → (tail + n) % ring_size ≡ head % ring_size
head_at head tail n h t e = omega arith

-- the memory after a message is written behind the bytes that are there
pub written :
    (mem : ℕ → ℕ) (head tail : ℕ) (bs m : Bytes)
    → (tail + length bs) % ring_size ≡ head % ring_size
    → length bs + (4 + length m) ≤ ring_size
    → Window mem tail bs
    → Window
        (store_bytes
          (store_bytes mem ring_size (head % ring_size) 0 (le32 (length m)))
          ring_size
          (u32 (head % ring_size + 4) % ring_size)
          0
          m)
        tail
        (bs ++ framed m)
written mem head tail bs m e h w =
    let q = tail + length bs in
    let len = le32 (length m) in
    let after = u32 (head % ring_size + 4) % ring_size in
    let mem1 = store_bytes mem ring_size (head % ring_size) 0 len in
    let old : Window mem1 tail bs =
      store_bytes_behind mem (head % ring_size) 0 tail q bs len (omega arith) (omega arith)
        (omega arith) (omega arith) w in
    let lens : Window mem1 q len =
      store_bytes-Window mem (head % ring_size) 0 q len (omega arith) (omega arith) (omega arith) in
    let both : Window mem1 tail (bs ++ len) = Window-append mem1 tail q bs len refl old lens in
    let n : length (bs ++ len) ≡ length bs + 4 = length-append bs len in
    let kept : Window (store_bytes mem1 ring_size after 0 m) tail (bs ++ len) =
      store_bytes_behind mem1 after 0 tail (q + 4) (bs ++ len) m (omega arith) (omega arith)
        (rw (n) (omega arith)) (omega arith) both in
    let new : Window (store_bytes mem1 ring_size after 0 m) (q + 4) m =
      store_bytes-Window mem1 after 0 (q + 4) m (omega arith) (omega arith) (omega arith) in
    subst (Window (store_bytes mem1 ring_size after 0 m) tail) (append_assoc bs len m) (
      Window-append (store_bytes mem1 ring_size after 0 m) tail (q + 4) (bs ++ len) m
        (rw (n) (omega arith)) kept new)
