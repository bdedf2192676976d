-- ===== src/Topic/Sound.antt =====
-- The matcher decides a relation between patterns and topics.
use boardcommd.Base.{
  ℕ, zero, suc, ◌-◌, ◌≡◌, ◌↔◌, inl, inr, refl, ap, subst, true, ◌&&◌, [], ◌∷◌, ◌++◌, Option, none,
  some, Bytes, str_eq, str_eq_iff, ◌==◌, ltb, length, length-append, get_or, if◌then◌else◌, arith,
  Bool-cases,
}
use boardcommd.Topic.{strn_eq, star, topic_matches, topic_matches_ptr}

-- A topic fits a pattern that is equal to it, or that is one of its prefixes with '*' behind it.
pub data Fits (pattern topic : Bytes) : Type 0 where
  exact : pattern ≡ topic → Fits pattern topic
  wild : (pre rest : Bytes) → pattern ≡ pre ++ star → topic ≡ pre ++ rest → Fits pattern topic

abbrev IsWild : Bytes → Type 0
IsWild p = (pre : Bytes) × (p ≡ pre ++ star)

cons-IsWild : (x : ℕ) {p : Bytes} → IsWild p → IsWild (x ∷ p)
cons-IsWild x (pre, e) = (x ∷ pre, ap (◌∷◌ x) e)

-- the test of the last byte, at index `i`
ends-IsWild : (p : Bytes) (i : ℕ) → suc i ≡ length p → get_or p i 0 ≡ b'*' → IsWild p
ends-IsWild [] i h e = absurd (omega arith)
ends-IsWild (x ∷ []) zero h e = ([], ap (λ c. c ∷ []) e)
ends-IsWild (x ∷ []) (suc i) h e = absurd (omega arith)
ends-IsWild (x ∷ y ∷ p) zero h e = absurd (omega arith)
ends-IsWild (x ∷ y ∷ p) (suc i) h e = cons-IsWild x (ends-IsWild (y ∷ p) i (omega arith) e)

wild_ends : (pre : Bytes) → get_or (pre ++ star) (length pre) 0 ≡ b'*'
wild_ends [] = refl
wild_ends (x ∷ pre) = wild_ends pre

-- the comparison of all but the last byte
strn_eq_sound :
    (pre topic : Bytes)
    → strn_eq (length pre) (pre ++ star) topic ≡ true
    → (rest : Bytes) × (topic ≡ pre ++ rest)
unfolding strn_eq
strn_eq_sound [] topic e = (topic, refl)
strn_eq_sound (x ∷ pre) [] e = absurd (ground arith)
strn_eq_sound (x ∷ pre) (y ∷ ys) e =
    let (rest, t) = strn_eq_sound pre ys (ground arith) in (rest, ground arith)

strn_eq_complete : (pre rest : Bytes) → strn_eq (length pre) (pre ++ star) (pre ++ rest) ≡ true
unfolding strn_eq
strn_eq_complete [] rest = refl
strn_eq_complete (x ∷ pre) rest = ground (arith, strn_eq_complete pre rest)

length-star : (pre : Bytes) → length (pre ++ star) - 1 ≡ length pre
length-star pre = omega (arith, length-append pre star)

-- what the code does on a pattern that ends in '*'
topic_matches_wild :
    (pre topic : Bytes)
    → topic_matches (pre ++ star) topic
      ≡ (if str_eq (pre ++ star) star then true else strn_eq (length pre) (pre ++ star) topic)
unfolding topic_matches
topic_matches_wild pre topic =
    rw (length-star pre, wild_ends pre) (ground (arith, length-append pre star))

-- `bc_topic_matches` returns 1 only for a topic that fits the pattern.
pub topic_matches_sound : (p t : Bytes) → topic_matches p t ≡ true → Fits p t
unfolding topic_matches
topic_matches_sound p t e = elim (Bool-cases (str_eq p star)) [
  | inl all ↦ wild [] t ((str_eq_iff p star).0 all) refl
  | inr part ↦ elim (Bool-cases (ltb 0 (length p) && (get_or p (length p - 1) 0 == b'*'))) [
    | inl last ↦
        let (pre, q) = ends-IsWild p (length p - 1) (ground arith) (ground arith) in
        let run : strn_eq (length p - 1) p t ≡ true = ground arith in
        let at_pre : strn_eq (length (pre ++ star) - 1) (pre ++ star) t ≡ true =
          subst (λ u. strn_eq (length u - 1) u t ≡ true) q run in
        let (rest, r) = strn_eq_sound pre t (rw (length-star pre) at at_pre) in wild pre rest q r
    | inr plain ↦ exact ((str_eq_iff p t).0 (ground arith))
  ]
]

wild_complete : (pre rest : Bytes) → topic_matches (pre ++ star) (pre ++ rest) ≡ true
wild_complete pre rest =
    ground (arith, topic_matches_wild pre (pre ++ rest), strn_eq_complete pre rest)

pub topic_matches_complete : (p t : Bytes) → Fits p t → topic_matches p t ≡ true
unfolding topic_matches
topic_matches_complete p t (wild pre rest e f) = rw (e, f) (wild_complete pre rest)
topic_matches_complete p t (exact e) =
    elim (Bool-cases (ltb 0 (length p) && (get_or p (length p - 1) 0 == b'*'))) [
      | inl last ↦
          let (pre, q) = ends-IsWild p (length p - 1) (ground arith) (ground arith) in
          rw (← e, q) (wild_complete pre star)
      | inr plain ↦ ground (arith, str_eq_iff p t)
    ]

-- `bc_topic_matches` returns 1 exactly when neither pointer is NULL and the topic is the pattern,
-- or the pattern is some prefix with '*' behind it and the topic starts with that prefix.
pub topic_matches_iff :
    (pattern topic : Option Bytes)
    → (topic_matches_ptr pattern topic ≡ true)
      ↔ ((p : Bytes) × (t : Bytes) × (pattern ≡ some p) × (topic ≡ some t) × Fits p t)
unfolding topic_matches_ptr
topic_matches_iff none topic = (λ e. absurd (ground arith), λ h. absurd (ground arith))
topic_matches_iff (some p) none = (λ e. absurd (ground arith), λ h. absurd (ground arith))
topic_matches_iff (some p) (some t) = (
  λ e. (p, t, refl, refl, topic_matches_sound p t e),
  λ (q, u, a, b, m). ground (arith, topic_matches_complete q u m),
)
