-- ===== src/Bus/Table.antt =====
-- The invariant of the table of subscriptions of src/daemon/message_bus.c.
use boardcommd.Base.{
  ℕ, ◌<◌, ◌≤◌, ◌≡◌, ◌≢◌, inl, inr, refl, true, false, ◌&&◌, ◌||◌, List, [], ◌∷◌, ◌++◌, Bytes,
  length, length-append, take_all, arith, ◌==◌, leb, Bool-cases, str_eq, str_eq_self, some,
}
use boardcommd.Types.{Status, ok, nomem}
use boardcommd.Bus.{Bus, Subscription, subscribed, subscribe, max_subscriptions, remove_client}
use boardcommd.Bus.Subscriptions.{keep, remove_client_lem}

-- No two entries are the same client's subscription to the same topic.
pub data Distinct : List Subscription → Type 0 where
  distinct_nil : Distinct []
  distinct_cons :
      (s : Subscription) (ss : List Subscription)
      → subscribed ss s.fd s.topic ≡ false
      → Distinct ss
      → Distinct (s ∷ ss)

-- The table fits the array, and no entry is there twice.
pub record IsTable (ss : List Subscription) : Type 0 where
  pub fits : length ss ≤ max_subscriptions
  pub distinct : Distinct ss

str_eq_sym : (a b : Bytes) → str_eq a b ≡ str_eq b a
unfolding str_eq
str_eq_sym [] [] = refl
str_eq_sym [] (y ∷ ys) = refl
str_eq_sym (x ∷ xs) [] = refl
str_eq_sym (x ∷ xs) (y ∷ ys) = ground (arith, str_eq_sym xs ys)

subscribed-append :
    (ss : List Subscription) (s : Subscription) (fd : ℕ) (topic : Bytes)
    → subscribed (ss ++ (s ∷ [])) fd topic
      ≡ subscribed ss fd topic || ((s.fd == fd) && str_eq s.topic topic)
unfolding subscribed
subscribed-append [] s fd topic = ground arith
subscribed-append (u ∷ us) s fd topic = rw (subscribed-append us s fd topic) (ground arith)

Distinct-append :
    (ss : List Subscription) (s : Subscription)
    → Distinct ss
    → subscribed ss s.fd s.topic ≡ false
    → Distinct (ss ++ (s ∷ []))
unfolding subscribed
Distinct-append [] s d e = distinct_cons s [] refl distinct_nil
Distinct-append (u ∷ us) s (distinct_cons _ _ f d) e =
    distinct_cons u (us ++ (s ∷ []))
      (ground (arith, subscribed-append us s u.fd u.topic, str_eq_sym s.topic u.topic))
      (Distinct-append us s d (ground arith))

subscribed-keep :
    (ss : List Subscription) (fd f : ℕ) (topic : Bytes)
    → subscribed ss f topic ≡ false
    → subscribed (keep fd ss) f topic ≡ false
unfolding subscribed
subscribed-keep [] fd f topic e = refl
subscribed-keep (s ∷ ss) fd f topic e = ground (arith, subscribed-keep ss fd f topic)

Distinct-keep : (ss : List Subscription) (fd : ℕ) → Distinct ss → Distinct (keep fd ss)
Distinct-keep [] fd d = distinct_nil
Distinct-keep (s ∷ ss) fd (distinct_cons _ _ f d) = elim (Bool-cases (s.fd == fd)) [
  | inl same ↦ rw (same) (Distinct-keep ss fd d)
  | inr other ↦
      rw (other) (
        distinct_cons s (keep fd ss) (subscribed-keep ss fd s.fd s.topic f) (Distinct-keep ss fd d))
]

length-keep : (ss : List Subscription) (fd : ℕ) → length (keep fd ss) ≤ length ss
length-keep [] fd = omega arith
length-keep (s ∷ ss) fd = ground (arith, length-keep ss fd)

-- After `bc_message_bus_remove_client` the table still fits the array and has no entry twice.
pub remove_client-IsTable :
    (b : Bus) (fd : ℕ) → IsTable b.subscriptions → IsTable (remove_client b fd).subscriptions
remove_client-IsTable b fd i = rw (remove_client_lem b fd) (record {
  fits = let n = i.fits in ground (arith, length-keep b.subscriptions fd);
  distinct = Distinct-keep b.subscriptions fd i.distinct;
})

-- What `subscribe` promises of the table after it, when it returns `rc`.
pub record Subscribes (fd : ℕ) (topic : Bytes) (rc : Status) (before after : List Subscription)
    : Type 0 where
  pub table : IsTable after
  pub listed : rc ≡ ok → subscribed after fd topic ≡ true
  pub full : rc ≢ ok → (rc ≡ nomem) × ((length before ≡ max_subscriptions) × (after ≡ before))
  pub others : (f : ℕ) (t : Bytes) → subscribed before f t ≡ true → subscribed after f t ≡ true

-- the subscription that `subscribe` adds
abbrev new : ℕ → Bytes → Subscription
new fd topic = record { fd = fd; topic = topic }

add_lem :
    (ss : List Subscription) (fd : ℕ) (topic : Bytes)
    → IsTable ss
    → length ss < max_subscriptions
    → subscribed ss fd topic ≡ false
    → Subscribes fd topic ok ss (ss ++ (new fd topic ∷ []))
add_lem ss fd topic i p e = record {
  table = record {
    fits = rw (length-append ss (new fd topic ∷ [])) (omega arith);
    distinct = Distinct-append ss (new fd topic) i.distinct e;
  };
  listed =
      λ _. rw (subscribed-append ss (new fd topic) fd topic) (ground (arith, str_eq_self topic));
  full = λ h. elim (h refl) [ ];
  others = λ f t h. rw (subscribed-append ss (new fd topic) f t, h) refl;
}

full_lem :
    (ss : List Subscription) (fd : ℕ) (topic : Bytes)
    → IsTable ss
    → max_subscriptions ≤ length ss
    → Subscribes fd topic nomem ss ss
full_lem ss fd topic i p = record {
  table = i;
  listed = λ e. ground arith;
  full = λ _. (refl, (let n = i.fits in ground arith, refl));
  others = λ f t h. h;
}

there_lem :
    (ss : List Subscription) (fd : ℕ) (topic : Bytes)
    → IsTable ss
    → subscribed ss fd topic ≡ true
    → Subscribes fd topic ok ss ss
there_lem ss fd topic i e = record {
  table = i;
  listed = λ _. e;
  full = λ h. elim (h refl) [ ];
  others = λ f t h. h;
}

-- `bc_message_bus_subscribe`, for a topic that the array of 64 bytes can hold, on a table that fits
-- its array and has no entry twice: the table stays so; on BC_OK the client is subscribed to the
-- topic; any other status is BC_ERR_NOMEM, on a full table, which stays as it was; no subscription
-- is lost.
pub subscribe_lem :
    (b : Bus) (fd : ℕ) (topic : Bytes)
    → IsTable b.subscriptions
    → 0 < length topic
    → length topic < 64
    → let (rc, b') = subscribe b fd (some topic) in
      Subscribes fd topic rc b.subscriptions b'.subscriptions
unfolding subscribe
subscribe_lem b fd [] i p q = elim p [ ]
subscribe_lem b fd (c ∷ cs) i p q =
    elim (Bool-cases (leb max_subscriptions (length b.subscriptions))) [
      | inl full ↦ rw (full) (full_lem b.subscriptions fd (c ∷ cs) i (ground arith))
      | inr room ↦ elim (Bool-cases (subscribed b.subscriptions fd (c ∷ cs))) [
        | inl there ↦ rw (room, there) (there_lem b.subscriptions fd (c ∷ cs) i there)
        | inr absent ↦
            rw (room, absent, take_all 63 (c ∷ cs) (omega arith))
              (add_lem b.subscriptions fd (c ∷ cs) i (ground arith) absent)
      ]
    ]
