-- ===== src/Shm.antt =====
-- The rings of src/shm/bc_shm.c, in which a daemon and a client pass frames through shared memory.
pub mod Window
pub mod Queue
pub mod Write
pub mod Read
mod Tests
use boardcommd.Base.{
  ℕ, zero, suc, ◌+◌, ◌-◌, ◌%◌, List, [], ◌∷◌, Bytes, Option, none, some, ◌==◌, ltb, length, u32,
  u32_mod, le32, rd32, if◌then◌else◌,
}
use boardcommd.Types.{Status, ok, invalid, nomem, not_found}

-- BC_SHM_RING_SIZE
abbrev pub ring_size : ℕ
ring_size = 33554432

-- `bc_shm_ring_t`; `bytes` is its `data` and gives the byte at each index.
pub record Ring : Type 0 where
  pub head : ℕ
  pub tail : ℕ
  pub size : ℕ
  pub bytes : ℕ → ℕ

-- `init_ring`; the memory of a new file is zero.
abbrev pub init_ring : ℕ → Ring
init_ring size = record { head = 0; tail = 0; size = size; bytes = λ _. 0 }

abbrev pub ring_data : Ring → ℕ
ring_data r = u32 (r.head + u32_mod - r.tail)

abbrev pub ring_space : Ring → ℕ
ring_space r = u32 (r.size + u32_mod - ring_data r)

-- an assignment to one byte
abbrev pub put : (ℕ → ℕ) → ℕ → ℕ → ℕ → ℕ
put mem i v j = if j == i then v else mem j

-- the loops of `bc_shm_ring_write` from round `i` on
unfoldable pub store_bytes : (ℕ → ℕ) → ℕ → ℕ → ℕ → Bytes → ℕ → ℕ
store_bytes mem size base i [] = mem
store_bytes mem size base i (b ∷ bs) =
    store_bytes (put mem (u32 (base + i) % size) b) size base (i + 1) bs

-- the loops that read, from round `i` on, with `n` rounds left
unfoldable pub load_bytes : (ℕ → ℕ) → ℕ → ℕ → ℕ → ℕ → Bytes
load_bytes mem size base i zero = []
load_bytes mem size base i (suc n) =
    mem (u32 (base + i) % size) ∷ load_bytes mem size base (i + 1) n

-- `bc_shm_ring_write`
unfoldable pub ring_write : Ring → Bytes → Status × Ring
ring_write r bs =
    let head = r.head % r.size in
    let after = u32 (head + 4) % r.size in
    let cells = store_bytes r.bytes r.size head 0 (le32 (length bs)) in
    if ltb (ring_size - 4) (length bs)
    then (invalid, r)
    else if ltb (ring_space r) (4 + length bs)
    then (nomem, r)
    else (
      ok,
      record r {
        bytes = store_bytes cells r.size after 0 bs;
        head = u32 (r.head + u32 (4 + u32 (length bs)));
      },
    )

-- `bc_shm_ring_peek_len`: the status, and what is stored in `*out_len`
unfoldable pub ring_peek_len : Ring → Status × Option ℕ
ring_peek_len r =
    let avail = ring_data r in
    let len = rd32 (load_bytes r.bytes r.size (r.tail % r.size) 0 4) in
    if ltb avail 4
    then (not_found, none)
    else if ltb avail (4 + len)
    then (not_found, none)
    else (ok, some len)

-- `bc_shm_ring_read`; `cap` is the room in the caller's buffer.
unfoldable pub ring_read : Ring → ℕ → Status × Ring × Option Bytes
ring_read r cap =
    let (rc, out) = ring_peek_len r in
    elim out [
      | none ↦ (rc, r, none)
      | some len ↦
          let taken = load_bytes r.bytes r.size (u32 (r.tail + 4) % r.size) 0 len in
          if ltb cap len
          then (invalid, r, none)
          else (ok, record r { tail = u32 (r.tail + u32 (4 + u32 len)) }, some taken)
    ]
