-- ===== src/Endpoint.antt =====
-- The endpoint of a transport, `bc_parse_endpoint` of src/transport/endpoint.h.
mod Tests
use boardcommd.Base.{
  ℕ, ◌≡◌, ◌≢◌, ◌<◌, refl, ap, ◌∙◌, Bool, true, false, not, ◌||◌, List, [], ◌∷◌, ◌++◌, Bytes, Option,
  none, some, ◌==◌, leb, length, arith, All, if◌then◌else◌,
}
use boardcommd.Types.{Status, ok, invalid}
use boardcommd.Config.Numbers.{ℤ, is_positive, atoi}

-- The text in front of the last colon and behind it, which `strrchr` finds.
unfoldable pub split_last : Bytes → Option (Bytes × Bytes)
split_last [] = none
split_last (c ∷ cs) = elim (split_last cs) [
  | some (host, port) ↦ some (c ∷ host, port)
  | none ↦ if c == b':' then some ([], cs) else none
]

-- the rest of `bc_parse_endpoint`, for the text that has been split
abbrev pub host_and_port : ℕ → Option (Bytes × Bytes) → Status × Option (Bytes × ℤ)
host_and_port host_len none = (invalid, none)
host_and_port host_len (some (host, port)) =
    if (length host == 0) || leb host_len (length host)
    then (invalid, none)
    else ((if is_positive (atoi port) then ok else invalid), some (host, atoi port))

-- `bc_parse_endpoint`, with the host and the port that it has stored, if it has
unfoldable pub parse_endpoint : Bytes → ℕ → Status × Option (Bytes × ℤ)
parse_endpoint endpoint host_len = host_and_port host_len (split_last endpoint)

no_colon : (s : Bytes) → All (λ c. c ≢ b':') s → split_last s ≡ none
unfolding split_last
no_colon [] h = refl
no_colon (c ∷ cs) (h, hs) =
    let ih = no_colon cs hs in
    let t : (c == b':') ≡ false = ground (arith, h) in rw (split_last, ih, t) refl

split_last_lem :
    (host port : Bytes)
    → All (λ c. c ≢ b':') port
    → split_last (host ++ (b':' ∷ port)) ≡ some (host, port)
unfolding split_last
split_last_lem [] port h = rw (split_last, no_colon port h) refl
split_last_lem (c ∷ cs) port h = rw (split_last, split_last_lem cs port h) refl

-- An endpoint is split at its last colon: a host that fits, which may hold colons itself, and behind
-- the colon a number above 0.
pub parse_endpoint_lem :
    (host port : Bytes) (host_len : ℕ)
    → All (λ c. c ≢ b':') port
    → 0 < length host
    → length host < host_len
    → is_positive (atoi port) ≡ true
    → parse_endpoint (host ++ (b':' ∷ port)) host_len ≡ (ok, some (host, atoi port))
unfolding parse_endpoint
parse_endpoint_lem host port host_len h a b p =
    let t : (length host == 0) || leb host_len (length host) ≡ false = ground arith in
    ap (host_and_port host_len) (split_last_lem host port h) ∙ rw (t, p) refl
