-- ===== src/Topic.antt =====
-- src/daemon/topic_match.c: a pattern is a topic, or a prefix of topics followed by '*'.
pub mod Sound
mod Tests
use boardcommd.Base.{
  ℕ, zero, suc, ◌-◌, Bool, true, false, ◌&&◌, List, [], ◌∷◌, Option, none, some, Bytes, str_eq,
  ◌==◌, ltb, length, get_or, if◌then◌else◌,
}

-- `strncmp(a, b, n) == 0`: at most `n` bytes are compared, and none past a NUL.
unfoldable pub strn_eq : ℕ → Bytes → Bytes → Bool
strn_eq zero xs ys = true
strn_eq (suc n) [] [] = true
strn_eq (suc n) [] (y ∷ ys) = false
strn_eq (suc n) (x ∷ xs) [] = false
strn_eq (suc n) (x ∷ xs) (y ∷ ys) = (x == y) && strn_eq n xs ys

abbrev pub star : Bytes
star = b'*' ∷ []

-- `bc_topic_matches` on two strings
unfoldable pub topic_matches : Bytes → Bytes → Bool
unfolding strn_eq str_eq
topic_matches pattern topic =
    if str_eq pattern star
    then true
    else if ltb 0 (length pattern) && (get_or pattern (length pattern - 1) 0 == b'*')
    then strn_eq (length pattern - 1) pattern topic
    else str_eq pattern topic

-- `bc_topic_matches`, where `none` is the NULL pointer
pub topic_matches_ptr : Option Bytes → Option Bytes → Bool
topic_matches_ptr none topic = false
topic_matches_ptr (some p) none = false
topic_matches_ptr (some p) (some t) = topic_matches p t
