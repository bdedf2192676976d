-- ===== src/Crc.antt =====
-- The CRC-32 of src/daemon/protocol.c and api/bc_file.c: the same loop stands in both files.
mod Tests
use boardcommd.Base.{
  ℕ, zero, suc, ◌+◌, ◌-◌, ◌/◌, ◌<◌, ◌≡◌, arith, refl, [], ◌∷◌, ◌++◌, Bytes, u32_mod, u32, bit_and,
  bit_xor,
}

-- `mask = 0u - (crc & 1u); crc = (crc >> 1) ^ (0xedb88320u & mask)`
bit_step : ℕ → ℕ
bit_step crc =
    let mask = u32 (0 + u32_mod - bit_and crc 1) in bit_xor (crc / 2) (bit_and 0xedb88320 mask)

bit_steps : ℕ → ℕ → ℕ
unfolding bit_step
bit_steps zero crc = crc
bit_steps (suc n) crc = bit_steps n (bit_step crc)

-- `bc_file_crc32_update`, and the loop of `bc_crc32`
unfoldable pub crc32_update : ℕ → Bytes → ℕ
unfolding bit_steps
crc32_update crc [] = crc
crc32_update crc (b ∷ bs) = crc32_update (bit_steps 8 (bit_xor crc b)) bs

-- `~` on `uint32_t`
abbrev pub not32 : ℕ → ℕ
not32 n = 4294967295 - n

abbrev pub crc32_start : ℕ
crc32_start = 0xffffffff

-- `bc_crc32`
unfoldable pub crc32 : Bytes → ℕ
unfolding crc32_update
crc32 bs = not32 (crc32_update crc32_start bs)

pub crc32-lt : (bs : Bytes) → crc32 bs < u32_mod
unfolding crc32
crc32-lt bs = omega arith

-- The checksum of data that comes in pieces is the checksum of the whole.
pub crc32_update-append :
    (crc : ℕ) (xs ys : Bytes) → crc32_update crc (xs ++ ys) ≡ crc32_update (crc32_update crc xs) ys
unfolding crc32_update
crc32_update-append crc [] ys = refl
crc32_update-append crc (x ∷ xs) ys = crc32_update-append (bit_steps 8 (bit_xor crc x)) xs ys
