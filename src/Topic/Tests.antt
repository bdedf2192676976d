-- ===== src/Topic/Tests.antt =====
-- Runs of the matcher, and the theorem at a concrete input.
use boardcommd.Base.{◌≡◌, ◌↔◌, refl, true, false, Bytes, [], ◌∷◌, some}
use boardcommd.Topic.{topic_matches, topic_matches_ptr}
use boardcommd.Topic.Sound.{Fits, topic_matches_iff}

-- "f*", "f/a"
abbrev pattern_f : Bytes
pattern_f = b'f' ∷ b'*' ∷ []

abbrev topic_fa : Bytes
topic_fa = b'f' ∷ b'/' ∷ b'a' ∷ []

topic_matches_runs :
    (topic_matches pattern_f topic_fa ≡ true)
    × (topic_matches topic_fa pattern_f ≡ false)
    × (topic_matches pattern_f (b'f' ∷ []) ≡ true)
    × (topic_matches topic_fa topic_fa ≡ true)
unfolding topic_matches
topic_matches_runs = (refl, refl, refl, refl)

topic_matches_iff_example :
    (topic_matches_ptr (some pattern_f) (some topic_fa) ≡ true)
    ↔ ((p : Bytes) × (t : Bytes) × (some pattern_f ≡ some p) × (some topic_fa ≡ some t) × Fits p t)
topic_matches_iff_example = topic_matches_iff (some pattern_f) (some topic_fa)
