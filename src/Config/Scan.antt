-- ===== src/Config/Scan.antt =====
-- `sscanf` and `fgets` of the C library, as far as bc_config_load of src/daemon/config.c uses them.
use boardcommd.Base.{
  ℕ, zero, suc, ◌-◌, ◌%◌, ◌≤◌, Bool, List, [], ◌∷◌, Bytes, Option, none, some, ◌==◌, length, get_or,
  arith, if◌then◌else◌, if_intro, u32_mod,
}
use boardcommd.Config.Numbers.{ℤ, pos, negsuc, minus, is_space, is_digit, skip_space, digits_value}

-- The directives of a format: white space, a character, `%ns`, `%u` and `%d`.
pub data Directive : Type 0 where
  space : Directive
  literal : ℕ → Directive
  word : ℕ → Directive
  unsigned : Directive
  signed : Directive

-- What a conversion stores.
pub data Field : Type 0 where
  text : Bytes → Field
  number : ℤ → Field

-- a format that begins with a word
abbrev pub literals : Bytes → List Directive → List Directive
literals [] ds = ds
literals (c ∷ cs) ds = literal c ∷ literals cs ds

-- At most `n` characters that are no white space, and what follows them.
unfoldable pub take_word : ℕ → Bytes → Bytes × Bytes
take_word zero s = ([], s)
take_word (suc n) [] = ([], [])
take_word (suc n) (c ∷ cs) =
    let (w, rest) = take_word n cs in if is_space c then ([], c ∷ cs) else (c ∷ w, rest)

-- what follows the digits that a text starts with
unfoldable pub skip_digits : Bytes → Bytes
skip_digits [] = []
skip_digits (c ∷ cs) = let rest = skip_digits cs in if is_digit c then rest else c ∷ cs

abbrev pub starts_with_digit : Bytes → Bool
starts_with_digit [] = Bool.false
starts_with_digit (c ∷ cs) = is_digit c

-- digits behind a sign, if there are any
abbrev pub scan_digits : (ℕ → ℤ) → Bytes → Option (ℤ × Bytes)
scan_digits sign s =
    if starts_with_digit s then some (sign (digits_value 0 s), skip_digits s) else none

-- A decimal number with its sign. What does not fit a `long` is left open by C; here it is the
-- value written.
unfoldable pub scan_number : Bytes → Option (ℤ × Bytes)
scan_number [] = none
scan_number (c ∷ cs) =
    if c == b'-'
    then scan_digits minus cs
    else if c == b'+'
    then scan_digits pos cs
    else scan_digits pos (c ∷ cs)

-- the value of an `unsigned int` that is given a number
abbrev pub to_unsigned : ℤ → ℕ
to_unsigned (pos n) = n % u32_mod
to_unsigned (negsuc n) = u32_mod - 1 - n % u32_mod

-- `sscanf`: the fields that are stored; their number is the value returned.
unfoldable pub scan : List Directive → Bytes → List Field
scan [] s = []
scan (space ∷ ds) s = scan ds (skip_space s)
scan (literal c ∷ ds) [] = []
scan (literal c ∷ ds) (x ∷ xs) = let rest = scan ds xs in if x == c then rest else []
scan (word n ∷ ds) s =
    let (w, later) = take_word n (skip_space s) in
    let rest = scan ds later in if length w == 0 then [] else text w ∷ rest
scan (unsigned ∷ ds) s = elim (scan_number (skip_space s)) [
  | none ↦ []
  | some (n, later) ↦ number (pos (to_unsigned n)) ∷ scan ds later
]
scan (signed ∷ ds) s = elim (scan_number (skip_space s)) [
  | none ↦ []
  | some (n, later) ↦ number n ∷ scan ds later
]

-- the variable that field `i` is stored in, which is empty or 0 before
abbrev pub text_at : List Field → ℕ → Bytes
text_at [] i = []
text_at (text w ∷ fs) zero = w
text_at (number n ∷ fs) zero = []
text_at (f ∷ fs) (suc i) = text_at fs i

abbrev pub number_at : List Field → ℕ → ℤ
number_at [] i = pos 0
number_at (text w ∷ fs) zero = pos 0
number_at (number n ∷ fs) zero = n
number_at (f ∷ fs) (suc i) = number_at fs i

-- A line of at most `n` more characters, and what follows it.
unfoldable pub take_line : ℕ → Bytes → Bytes × Bytes
take_line zero s = ([], s)
take_line (suc n) [] = ([], [])
take_line (suc n) (c ∷ cs) =
    let (l, rest) = take_line n cs in if c == 10 then (c ∷ [], cs) else (c ∷ l, rest)

-- the characters before the first NUL
unfoldable pub c_string : Bytes → Bytes
c_string [] = []
c_string (c ∷ cs) = let rest = c_string cs in if c == 0 then [] else c ∷ rest

-- What `fgets` with a buffer of 256 bytes gives for a file, call by call, in at most
-- `n` calls: each line as the functions on strings read it.
unfoldable pub fgets_lines : ℕ → Bytes → List Bytes
fgets_lines zero s = []
fgets_lines (suc n) [] = []
fgets_lines (suc n) (c ∷ cs) =
    let (l, rest) = take_line 255 (c ∷ cs) in c_string l ∷ fgets_lines n rest

length-take_word : (n : ℕ) (s : Bytes) → length ((take_word n s).0) ≤ n
unfolding take_word
length-take_word zero s = omega arith
length-take_word (suc n) [] = omega arith
length-take_word (suc n) (c ∷ cs) =
    if_intro (λ (p : Bytes × Bytes). length (p.0) ≤ suc n) (is_space c) (λ _. omega arith)
      (λ _. omega (arith, length-take_word n cs))

-- the lengths that the conversions of a format allow
abbrev pub widths : List Directive → List ℕ
widths [] = []
widths (space ∷ ds) = widths ds
widths (literal c ∷ ds) = widths ds
widths (word n ∷ ds) = n ∷ widths ds
widths (unsigned ∷ ds) = 0 ∷ widths ds
widths (signed ∷ ds) = 0 ∷ widths ds

number_fits :
    (ds : List Directive) (o : Option (ℤ × Bytes)) (value : ℤ → ℤ) (i : ℕ)
    → ((s : Bytes) (j : ℕ) → length (text_at (scan ds s) j) ≤ get_or (widths ds) j 0)
    → length (text_at (elim o [ none ↦ [] | some (n, later) ↦ number (value n) ∷ scan ds later ]) i)
      ≤ get_or (0 ∷ widths ds) i 0
number_fits ds none value i h = omega arith
number_fits ds (some (n, later)) value zero h = omega arith
number_fits ds (some (n, later)) value (suc i) h = h later i

-- A field is no longer than its conversion allows.
pub text_at-scan :
    (ds : List Directive) (s : Bytes) (i : ℕ)
    → length (text_at (scan ds s) i) ≤ get_or (widths ds) i 0
unfolding scan
text_at-scan [] s i = omega arith
text_at-scan (space ∷ ds) s i = text_at-scan ds (skip_space s) i
text_at-scan (literal c ∷ ds) [] i = omega arith
text_at-scan (literal c ∷ ds) (x ∷ xs) i =
    if_intro (λ (fs : List Field). length (text_at fs i) ≤ get_or (widths ds) i 0) (x == c)
      (λ _. text_at-scan ds xs i) (λ _. omega arith)
text_at-scan (word n ∷ ds) s zero =
    if_intro (λ (fs : List Field). length (text_at fs 0) ≤ n)
      (length ((take_word n (skip_space s)).0) == 0) (λ _. omega arith)
      (λ _. length-take_word n (skip_space s))
text_at-scan (word n ∷ ds) s (suc i) =
    let w = take_word n (skip_space s) in
    if_intro (λ (fs : List Field). length (text_at fs (suc i)) ≤ get_or (widths ds) i 0)
      (length (w.0) == 0) (λ _. omega arith) (λ _. text_at-scan ds (w.1) i)
text_at-scan (unsigned ∷ ds) s i =
    number_fits ds (scan_number (skip_space s)) (λ n. pos (to_unsigned n)) i (text_at-scan ds)
text_at-scan (signed ∷ ds) s i =
    number_fits ds (scan_number (skip_space s)) (λ n. n) i (text_at-scan ds)
