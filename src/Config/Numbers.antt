-- ===== src/Config/Numbers.antt =====
-- `int` values, and `atoi` of the C library on strings of any bytes.
use boardcommd.Base.{
  ℕ, zero, suc, ◌+◌, ◌-◌, ◌*◌, Bool, true, false, ◌&&◌, ◌||◌, [], ◌∷◌, Bytes, ◌==◌, leb,
  if◌then◌else◌,
}

-- `negsuc n` is -(n + 1).
pub data ℤ : Type 0 where
  pos : ℕ → ℤ
  negsuc : ℕ → ℤ

abbrev pub is_neg : ℤ → Bool
is_neg (pos n) = false
is_neg (negsuc n) = true

abbrev pub is_positive : ℤ → Bool
is_positive (pos zero) = false
is_positive (pos (suc n)) = true
is_positive (negsuc n) = false

-- the value of a number that is not negative
abbrev pub pos_value : ℤ → ℕ
pos_value (pos n) = n
pos_value (negsuc n) = 0

-- - n
abbrev pub minus : ℕ → ℤ
minus zero = pos 0
minus (suc n) = negsuc n

-- `isspace` in the C locale
abbrev pub is_space : ℕ → Bool
is_space c = (c == 32) || (leb 9 c && leb c 13)

abbrev pub is_digit : ℕ → Bool
is_digit c = leb 48 c && leb c 57

unfoldable pub skip_space : Bytes → Bytes
skip_space [] = []
skip_space (c ∷ cs) = let rest = skip_space cs in if is_space c then rest else c ∷ cs

-- the value of the digits that a text starts with, behind those that gave `acc`
unfoldable pub digits_value : ℕ → Bytes → ℕ
digits_value acc [] = acc
digits_value acc (c ∷ cs) =
    let rest = digits_value (acc * 10 + (c - 48)) cs in if is_digit c then rest else acc

unfoldable pub signed_value : Bytes → ℤ
unfolding digits_value
signed_value [] = pos 0
signed_value (c ∷ cs) =
    if c == b'-'
    then minus (digits_value 0 cs)
    else if c == b'+'
    then pos (digits_value 0 cs)
    else pos (digits_value 0 (c ∷ cs))

-- `atoi`. Its behaviour outside the range of `int` is undefined; here it is the value written.
unfoldable pub atoi : Bytes → ℤ
unfolding skip_space signed_value
atoi s = signed_value (skip_space s)
