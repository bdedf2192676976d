-- ===== src/Bus/Local.antt =====
-- Who gets a message on this board: `bc_message_bus_deliver_local` of src/daemon/message_bus.c
-- against a list of the recipients.
use boardcommd.Base.{
  ℕ, zero, suc, ◌+◌, ◌%◌, ◌<◌, ◌≡◌, inl, inr, refl, ap, Bool, true, false, List, [], ◌∷◌, Bytes,
  length, arith, ◌==◌, ltb, if◌then◌else◌, Bool-cases, Option,
}
use boardcommd.Types.{Status, Message}
use boardcommd.Bus.{Bus, Subscription, add64}
use boardcommd.Bus.Deliver.{
  Tally, tally, Local, refused, delivered, local_result, wants, deliver_frame, hand_over,
  deliver_each, deliver_local,
}

-- the clients that a message is for, once for each subscription that matches, in their order
abbrev pub recipients : Option ℕ → Message → List Subscription → List ℕ
recipients source m [] = []
recipients source m (s ∷ ss) =
    if wants source m s then s.fd ∷ recipients source m ss else recipients source m ss

-- how often the answer was `true`, and `false`
abbrev pub successes : List Bool → ℕ
successes [] = 0
successes (true ∷ bs) = suc (successes bs)
successes (false ∷ bs) = successes bs

abbrev pub failures : List Bool → ℕ
failures [] = 0
failures (true ∷ bs) = failures bs
failures (false ∷ bs) = suc (failures bs)

-- the counters after a list of answers
abbrev add_up : Tally → List Bool → Tally
add_up t [] = t
add_up t (went ∷ rest) = add_up (tally t went) rest

add_up_lem :
    (t : Tally) (bs : List Bool)
    → let u = add_up t bs in
      (u.done ≡ t.done + successes bs)
      × ((u.matched ≡ t.matched + length bs) × (u.failed ≡ t.failed + failures bs))
add_up_lem t [] = ground arith
add_up_lem t (true ∷ bs) = ground (arith, add_up_lem (tally t true) bs)
add_up_lem t (false ∷ bs) = ground (arith, add_up_lem (tally t false) bs)

failures-successes : (bs : List Bool) → successes bs + failures bs ≡ length bs
failures-successes [] = refl
failures-successes (true ∷ bs) = ground (arith, failures-successes bs)
failures-successes (false ∷ bs) = ground (arith, failures-successes bs)

abbrev zero_tally : Tally
zero_tally = record { done = 0; matched = 0; failed = 0 }

-- the value returned, by the answers
abbrev pub outcome : List Bool → Local
outcome bs = if failures bs == 0 then delivered (length bs) else refused

local_result_lem : (bs : List Bool) → local_result (add_up zero_tally bs) ≡ outcome bs
local_result_lem bs =
    let (d, (m, f)) = add_up_lem zero_tally bs in let e = failures-successes bs in grind arith

-- the bus with `n` deliveries more
abbrev count_rx_local : ℕ → Bus → Bus
count_rx_local n b = record b { stats = record (b.stats) { rx_local = add64 b.stats.rx_local n } }

count_none :
    (b : Bus) (n : ℕ)
    → b.stats.rx_local < 18446744073709551616
    → (if ltb 0 n then count_rx_local n b else b) ≡ count_rx_local n b
count_none b zero p =
    let e : b.stats.rx_local ≡ (b.stats.rx_local + 0) % 18446744073709551616 = omega arith in
    ap (λ x. record b { stats = record (b.stats) { rx_local = x } }) e
count_none b (suc n) p = let e : ltb 0 (suc n) ≡ true = ground arith in rw (e) refl

module _ {W : Type 0} (deliver : ℕ → Bytes → W → Status × W) where
  -- One frame is handed to each client of a list, in order, whatever the calls before it returned.
  abbrev pub hand_all : Bool → List ℕ → Bytes → W → List Bool × W
  hand_all has [] frame w = ([], w)
  hand_all has (fd ∷ fds) frame w =
      let (went, w1) = hand_over deliver has fd frame w in
      let (rest, w2) = hand_all has fds frame w1 in (went ∷ rest, w2)

  deliver_each_lem :
      (has : Bool) (source : Option ℕ) (m : Message) (ss : List Subscription) (t : Tally) (w : W)
      → let (went, w') = hand_all has (recipients source m ss) (deliver_frame m) w in
        deliver_each deliver has source m ss (t, w) ≡ (add_up t went, w')
  unfolding deliver_each
  deliver_each_lem has source m [] t w = refl
  deliver_each_lem has source m (s ∷ ss) t w = elim (Bool-cases (wants source m s)) [
    | inl wanted ↦ rw (wanted) (
        let (went, w') = hand_over deliver has s.fd (deliver_frame m) w in
        deliver_each_lem has source m ss (tally t went) w')
    | inr not_wanted ↦ rw (not_wanted) (deliver_each_lem has source m ss t w)
  ]

  -- `bc_message_bus_deliver_local` hands one and the same frame to each client that has a matching
  -- subscription and is not the source, once for each such subscription, in order and whatever the
  -- calls before returned. It returns the number of those subscriptions if every call did well, and
  -- BC_ERR_NOMEM if one did not; `rx_local` counts the calls that did well, and nothing else of the
  -- bus changes.
  pub deliver_local_lem :
      (source : Option ℕ) (m : Message) (b : Bus) (w : W)
      → b.stats.rx_local < 18446744073709551616
      → let (went, w') =
          hand_all b.has_deliver (recipients source m b.subscriptions) (deliver_frame m) w in
        deliver_local deliver source m (b, w) ≡ (
          outcome went,
          (
            record b {
              stats = record (b.stats) { rx_local = add64 b.stats.rx_local (successes went) };
            },
            w',
          ),
        )
  unfolding deliver_local
  deliver_local_lem source m b w p =
      let (bs, w') =
        hand_all b.has_deliver (recipients source m b.subscriptions) (deliver_frame m) w in
      let d : (add_up zero_tally bs).done ≡ successes bs =
        ground (arith, add_up_lem zero_tally bs) in
      rw
        (
          deliver_each_lem b.has_deliver source m b.subscriptions zero_tally w,
          local_result_lem bs,
          d,
        )
        (ap (λ b'. (outcome bs, (b', w'))) (count_none b (successes bs) p))
