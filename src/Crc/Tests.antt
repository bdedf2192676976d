-- ===== src/Crc/Tests.antt =====
-- Runs of the checksum.
use boardcommd.Base.{◌≡◌, refl, [], ◌∷◌}
use boardcommd.Crc.{crc32}

-- the check value of CRC-32, of "123456789"
check_value : crc32 (0x31 ∷ 0x32 ∷ 0x33 ∷ 0x34 ∷ 0x35 ∷ 0x36 ∷ 0x37 ∷ 0x38 ∷ 0x39 ∷ []) ≡ 0xcbf43926
unfolding crc32
check_value = refl
