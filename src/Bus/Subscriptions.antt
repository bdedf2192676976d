-- ===== src/Bus/Subscriptions.antt =====
-- The table of subscriptions: `bc_message_bus_subscribe` and `bc_message_bus_remove_client`.
use boardcommd.Base.{
  ℕ, suc, ◌+◌, ◌≡◌, inl, inr, refl, sym, ap, ◌∙◌, true, false, List, [], ◌∷◌, ◌++◌, length,
  length-append, take, take-append, get_or, get_or_middle, set, set_middle, append_assoc,
  append-nil, arith, ◌==◌, if◌then◌else◌, Bool-cases,
}
use boardcommd.Bus.{Bus, Subscription, no_subscription, compact, remove_client}

-- the subscriptions of the other clients
abbrev pub keep : ℕ → List Subscription → List Subscription
keep fd [] = []
keep fd (s ∷ ss) = if s.fd == fd then keep fd ss else s ∷ keep fd ss

-- the element after `kept` and `gap`
get_or_next :
    (kept gap rest : List Subscription) (s : Subscription) (i : ℕ)
    → i ≡ length kept + length gap
    → get_or (kept ++ (gap ++ (s ∷ rest))) i no_subscription ≡ s
get_or_next kept gap rest s i p =
    rw (p, sym (length-append kept gap), sym (append_assoc kept gap (s ∷ rest)))
      (get_or_middle (kept ++ gap) s rest no_subscription)

-- the entries between the last one kept and the next one to look at, after `s` has been copied down
abbrev pub shift : List Subscription → Subscription → List Subscription
shift [] s = []
shift (g ∷ gs) s = gs ++ (s ∷ [])

length-shift : (gap : List Subscription) (s : Subscription) → length (shift gap s) ≡ length gap
length-shift [] s = refl
length-shift (g ∷ gs) s = length-append gs (s ∷ []) ∙ omega arith

-- the array after an entry of another client has been copied down
moved_lem :
    (kept gap rest : List Subscription) (s : Subscription) (i out : ℕ)
    → i ≡ length kept + length gap
    → out ≡ length kept
    → (if out == i then kept ++ (gap ++ (s ∷ rest)) else set (kept ++ (gap ++ (s ∷ rest))) out s)
      ≡ (kept ++ (s ∷ [])) ++ (shift gap s ++ rest)
moved_lem kept [] rest s i out p q =
    let e : (out == i) ≡ true = ground arith in rw (e) (sym (append_assoc kept (s ∷ []) rest))
moved_lem kept (g ∷ gs) rest s i out p q =
    let e : (out == i) ≡ false = ground arith in
    rw (e, q, append_assoc gs (s ∷ []) rest, append_assoc kept (s ∷ []) (gs ++ (s ∷ rest)))
      (set_middle kept g (gs ++ (s ∷ rest)) s)

compact_skip :
    (subs : List Subscription) (fd n i out : ℕ) (s : Subscription)
    → get_or subs i no_subscription ≡ s
    → (s.fd == fd) ≡ true
    → compact subs fd (suc n) i out ≡ compact subs fd n (i + 1) out
unfolding compact
compact_skip subs fd n i out s p e = rw (p, e) refl

compact_keep :
    (subs : List Subscription) (fd n i out : ℕ) (s : Subscription)
    → get_or subs i no_subscription ≡ s
    → (s.fd == fd) ≡ false
    → compact subs fd (suc n) i out
      ≡ compact (if out == i then subs else set subs out s) fd n (i + 1) (out + 1)
unfolding compact
compact_keep subs fd n i out s p e = rw (p, e) refl

-- what `remove_client` keeps, by the array and the number of entries that `compact` returns
abbrev kept_of : List Subscription × ℕ → List Subscription
kept_of (subs, n) = take n subs

compact_lem :
    (fd : ℕ) (kept gap rest : List Subscription) (i out : ℕ)
    → i ≡ length kept + length gap
    → out ≡ length kept
    → kept_of (compact (kept ++ (gap ++ rest)) fd (length rest) i out) ≡ kept ++ keep fd rest
unfolding compact
compact_lem fd kept gap [] i out p q = take-append kept (gap ++ []) out q ∙ sym (append-nil kept)
compact_lem fd kept gap (s ∷ rest) i out p q =
    let next = get_or_next kept gap rest s i p in
    elim (Bool-cases (s.fd == fd)) [
      | inl same ↦
          rw
            (
              compact_skip _ fd (length rest) i out s next same,
              sym (append_assoc gap (s ∷ []) rest),
              same,
            )
            (compact_lem fd kept (gap ++ (s ∷ [])) rest (i + 1) out
              (rw (length-append gap (s ∷ [])) (omega arith)) q)
      | inr other ↦
          rw
            (
              compact_keep _ fd (length rest) i out s next other,
              moved_lem kept gap rest s i out p q,
              other,
            )
            (compact_lem fd (kept ++ (s ∷ [])) (shift gap s) rest (i + 1) (out + 1)
                (rw (length-append kept (s ∷ []), length-shift gap s) (omega arith))
                (rw (length-append kept (s ∷ [])) (omega arith))
              ∙ append_assoc kept (s ∷ []) (keep fd rest))
    ]

-- After `bc_message_bus_remove_client` the table holds the subscriptions of the other clients and
-- no other, in the order they had; nothing else of the bus changes.
pub remove_client_lem :
    (b : Bus) (fd : ℕ) → remove_client b fd ≡ record b { subscriptions = keep fd b.subscriptions }
unfolding remove_client
remove_client_lem b fd =
    ap (λ ss. record b { subscriptions = ss }) (compact_lem fd [] [] b.subscriptions 0 0 refl refl)
