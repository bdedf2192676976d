-- ===== src/Base/Memory.antt =====
-- Bytes, little-endian fields, C strings and 32-bit words.
use Prim.Native.Nat.{ℕ, zero, suc, ◌+◌, ◌*◌, ◌/◌, ◌%◌, ◌≤◌, ◌<◌}
use Prim.Native.Char.{code}
use Prim.Native.String.{String}
use mathlib.Core.Path.{◌≡◌, refl, ap}
use mathlib.Core.Logic.{◌≢◌, ◌↔◌}
use mathlib.Core.Bool.{Bool, true, false, ◌&&◌}
use mathlib.Core.List.{List, [], ◌∷◌, ◌++◌}
use native.Mathlib.Omega.{arith}
use boardcommd.Base.Tests.{◌==◌}
use boardcommd.Base.Lists.{length, All}

abbrev pub Bytes : Type 0
Bytes = List ℕ

-- The bytes of a text literal; every literal is ASCII.
abbrev pub codes : String → Bytes
codes String.[] = []
codes (String.◌∷◌ c s) = code c ∷ codes s

abbrev pub u16_mod : ℕ
u16_mod = 65536

abbrev pub u32_mod : ℕ
u32_mod = 4294967296

abbrev pub u32 : ℕ → ℕ
u32 n = n % u32_mod

abbrev pub u16 : ℕ → ℕ
u16 n = n % u16_mod

-- The bytes of a `uint16_t` and of a `uint32_t` in memory.
abbrev pub le16 : ℕ → Bytes
le16 n = n % 256 ∷ n / 256 % 256 ∷ []

abbrev pub le32 : ℕ → Bytes
le32 n = n % 256 ∷ n / 256 % 256 ∷ n / 65536 % 256 ∷ n / 16777216 % 256 ∷ []

-- `memcpy` of a field out of a buffer; the callers check the length first.
abbrev pub rd16 : Bytes → ℕ
rd16 (a ∷ b ∷ _) = a + 256 * b
rd16 _ = 0

abbrev pub rd32 : Bytes → ℕ
rd32 (a ∷ b ∷ c ∷ d ∷ _) = a + 256 * b + 65536 * c + 16777216 * d
rd32 _ = 0

-- The string that a `char` array holds: the bytes before the first NUL.
unfoldable pub cstr : Bytes → Bytes
cstr [] = []
cstr (zero ∷ cs) = []
cstr (suc c ∷ cs) = suc c ∷ cstr cs

-- `strcmp(a, b) == 0`
unfoldable pub str_eq : Bytes → Bytes → Bool
str_eq [] [] = true
str_eq [] (y ∷ ys) = false
str_eq (x ∷ xs) [] = false
str_eq (x ∷ xs) (y ∷ ys) = (x == y) && str_eq xs ys

-- What a `char` array of `n` bytes can hold, with its NUL.
pub record IsText (n : ℕ) (s : Bytes) : Type 0 where
  pub fits : length s < n
  pub no_nul : All (λ c. c ≢ 0) s

abbrev pub IsByte : ℕ → Type 0
IsByte b = b < 256

pub rd16-le16 : (n : ℕ) (rest : Bytes) → n < u16_mod → rd16 (le16 n ++ rest) ≡ n
rd16-le16 n rest h = omega arith

pub rd32-le32 : (n : ℕ) (rest : Bytes) → n < u32_mod → rd32 (le32 n ++ rest) ≡ n
rd32-le32 n rest h = omega arith

pub str_eq_iff : (a b : Bytes) → (str_eq a b ≡ true) ↔ (a ≡ b)
unfolding str_eq
str_eq_iff [] [] = ground arith
str_eq_iff [] (y ∷ ys) = ground arith
str_eq_iff (x ∷ xs) [] = ground arith
str_eq_iff (x ∷ xs) (y ∷ ys) = ground (arith, str_eq_iff xs ys)

pub str_eq_self : (a : Bytes) → str_eq a a ≡ true
str_eq_self a = (str_eq_iff a a).1 refl

pub cstr_of_no_nul : (s : Bytes) → All (λ c. c ≢ 0) s → cstr s ≡ s
unfolding cstr
cstr_of_no_nul [] h = refl
cstr_of_no_nul (zero ∷ cs) h = absurd (h.0 refl)
cstr_of_no_nul (suc c ∷ cs) h = ap (◌∷◌ (suc c)) (cstr_of_no_nul cs h.1)

pub cstr-no_nul : (s : Bytes) → All (λ c. c ≢ 0) (cstr s)
unfolding cstr
cstr-no_nul [] = tt
cstr-no_nul (zero ∷ cs) = tt
cstr-no_nul (suc c ∷ cs) = (λ e. omega arith, cstr-no_nul cs)

pub length-cstr : (s : Bytes) → length (cstr s) ≤ length s
unfolding cstr
length-cstr [] = omega arith
length-cstr (zero ∷ cs) = omega arith
length-cstr (suc c ∷ cs) = omega (arith, length-cstr cs)

pub rd16-lt : (bs : Bytes) → All IsByte bs → rd16 bs < u16_mod
rd16-lt [] h = omega arith
rd16-lt (a ∷ []) h = omega arith
rd16-lt (a ∷ b ∷ bs) h = omega arith

pub rd32-lt : (bs : Bytes) → All IsByte bs → rd32 bs < u32_mod
rd32-lt [] h = omega arith
rd32-lt (a ∷ []) h = omega arith
rd32-lt (a ∷ b ∷ []) h = omega arith
rd32-lt (a ∷ b ∷ c ∷ []) h = omega arith
rd32-lt (a ∷ b ∷ c ∷ d ∷ bs) h = omega arith
