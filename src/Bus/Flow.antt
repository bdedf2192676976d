-- ===== src/Bus/Flow.antt =====
-- What `bc_message_bus_handle_inbound` of src/daemon/message_bus.c keeps, step by step: a property
-- that the counters, the sends, the deliveries and the reassembly keep.
use boardcommd.Base.{
  ℕ, ◌≡◌, refl, Bool, true, false, not, List, [], ◌∷◌, Bytes, ◌==◌, ◌&&◌, ltb, if◌then◌else◌,
  if_intro, Option, some, none,
}
use boardcommd.Types.{Status, ok, not_found, Message, flag_ack, flag_fragment, qos_at_least_once}
use boardcommd.Fragment.{Reasm, feed}
use boardcommd.Bus.{Bus, Stats, Subscription}
use boardcommd.Bus.Send.{is_ok, forward_message, should_forward, should_deliver_local}
use boardcommd.Bus.Deliver.{
  Tally, tally, wants, deliver_frame, hand_over, deliver_each, deliver_local,
}
use boardcommd.Bus.Publish.{for_other, is_refused, delivered_of}
use boardcommd.Bus.Inbound.{
  count_rx_network, count_frag_rx, acknowledge, bridge, handle_complete, handle_fragment,
  handle_inbound, has_flag, count_rx_drop,
}
use boardcommd.Bus.Keeps.{Leaves, Sends, send_ack-keeps, forward_message-keeps}

module _ {W : Type 0} (send deliver : ℕ → Bytes → W → Status × W) (Q : Bus × W → Type 0)
    (counted : (b : Bus) (s : Stats) (w : W)
      → s.rx_network ≡ b.stats.rx_network
      → Q (b, w)
      → Q (record b { stats = s }, w))
    (sent : (t : ℕ) → Sends send Q counted t) where
  acknowledge-keeps :
      (m : Message) (from : Option ℕ) (s : Bus × W)
      → Q s
      → Leaves Q (acknowledge send deliver m from s)
  unfolding acknowledge
  acknowledge-keeps m none (b, w) q = q
  acknowledge-keeps m (some t) (b, w) q =
      if_intro (Leaves Q) (m.qos == qos_at_least_once)
        (λ _. send_ack-keeps send Q counted (some t) (λ u _. sent u) m (b, w) q) (λ _. q)

  forward-keeps :
      (m : Message) (from : Option ℕ) (s : Bus × W) → Q s → Leaves Q (forward_message send m from s)
  forward-keeps m from s q = forward_message-keeps send Q counted from (λ u _. sent u) m s q

  bridge-keeps :
      (m : Message) (from : Option ℕ) (s : Bus × W) → Q s → Leaves Q (bridge send deliver m from s)
  unfolding bridge
  bridge-keeps m from (b, w) q =
      let (rc, s') = forward_message send m from (b, w) in
      let kept = forward-keeps m from (b, w) q in
      if_intro (Leaves Q) (not (should_forward b m)) (λ _. acknowledge-keeps m from (b, w) q)
        (λ _.
          if_intro (Leaves Q) (not (is_ok rc) && b.require_route) (λ _. kept)
            (λ _. acknowledge-keeps m from s' kept))

  -- A complete message for another node is forwarded or dropped; `deliver` has no say in it.
  pub complete_other :
      (m : Message) (from : Option ℕ) (b : Bus) (w : W)
      → for_other b m ≡ true
      → Q (b, w)
      → Leaves Q (handle_complete send deliver m from (b, w))
  unfolding handle_complete
  complete_other m from b w e q =
      let (rc, (b1, w1)) = forward_message send m from (b, w) in
      let kept = forward-keeps m from (b, w) q in
      rw (e) (if_intro (λ b'. Q (b', w1)) (is_ok rc) (λ _. kept) (λ _. counted b1 _ w1 refl kept))

  module _
      (handed : (fd : ℕ) (frame : Bytes) (b : Bus) (w : W)
        → Q (b, w)
        → Q (b, (deliver fd frame w).1))
      (reassembled : (b : Bus) (r : Reasm) (w : W) → Q (b, w) → Q (record b { reasm = r }, w)) where
    hand_over-keeps :
        (has : Bool) (fd : ℕ) (frame : Bytes) (b : Bus) (w : W)
        → Q (b, w)
        → Q (b, (hand_over deliver has fd frame w).1)
    hand_over-keeps false fd frame b w q = q
    hand_over-keeps true fd frame b w q = handed fd frame b w q

    deliver_each-keeps :
        (has : Bool) (source : Option ℕ) (m : Message) (ss : List Subscription) (b : Bus)
        (s : Tally × W)
        → Q (b, s.1)
        → Q (b, (deliver_each deliver has source m ss s).1)
    unfolding deliver_each
    deliver_each-keeps has source m [] b (t, w) q = q
    deliver_each-keeps has source m (u ∷ us) b (t, w) q =
        let (went, w') = hand_over deliver has u.fd (deliver_frame m) w in
        deliver_each-keeps has source m us b
          (if wants source m u then (tally t went, w') else (t, w))
          (if_intro (λ (s : Tally × W). Q (b, s.1)) (wants source m u)
            (λ _. hand_over-keeps has u.fd (deliver_frame m) b w q) (λ _. q))

    deliver_local-keeps :
        (source : Option ℕ) (m : Message) (b : Bus) (w : W)
        → Q (b, w)
        → Q ((deliver_local deliver source m (b, w)).1)
    unfolding deliver_local
    deliver_local-keeps source m b w q =
        let none_yet : Tally = record { done = 0; matched = 0; failed = 0 } in
        let (t, w') = deliver_each deliver b.has_deliver source m b.subscriptions (none_yet, w) in
        let kept = deliver_each-keeps b.has_deliver source m b.subscriptions b (none_yet, w) q in
        if_intro (λ b'. Q (b', w')) (ltb 0 t.done) (λ _. counted b _ w' refl kept) (λ _. kept)

    complete-keeps :
        (m : Message) (from : Option ℕ) (s : Bus × W)
        → Q s
        → Leaves Q (handle_complete send deliver m from s)
    unfolding handle_complete
    complete-keeps m from (b, w) q =
        let (rc, (b1, w1)) = forward_message send m from (b, w) in
        let (l, (b2, w2)) = deliver_local deliver none m (b, w) in
        let forwarded = forward-keeps m from (b, w) q in
        let kept = deliver_local-keeps none m b w q in
        if_intro (Leaves Q) (for_other b m)
          (λ _.
            if_intro (λ b'. Q (b', w1)) (is_ok rc) (λ _. forwarded)
              (λ _. counted b1 _ w1 refl forwarded))
          (λ _.
            if_intro (Leaves Q) (not (should_deliver_local b m)) (λ _. bridge-keeps m from (b, w) q)
              (λ _.
                if_intro (Leaves Q) (is_refused l) (λ _. counted b2 _ w2 refl kept)
                  (λ _. bridge-keeps m from _ (
                    if_intro (λ b'. Q (b', w2)) (ltb 0 (delivered_of l))
                      (λ _. counted b2 _ w2 refl kept) (λ _. kept)))))

    after_feed :
        (rc : Status) (r : Reasm) (out : Option Message) (from : Option ℕ) (b : Bus) (w : W)
        → Q (b, w)
        → Leaves Q (elim rc as (λ _. Status × (Bus × W)) [
          | ok ↦ elim out as (λ _. Status × (Bus × W)) [
            | none ↦ (ok, (record b { reasm = r }, w))
            | some complete ↦ handle_complete send deliver complete from (record b { reasm = r }, w)
          ]
          | not_found ↦ (ok, (record b { reasm = r }, w))
          | other ↦ (other, (count_rx_drop (record b { reasm = r }), w))
        ])
    after_feed ok r none from b w q = reassembled b r w q
    after_feed ok r (some m) from b w q =
        complete-keeps m from (record b { reasm = r }, w) (reassembled b r w q)
    after_feed not_found r out from b w q = reassembled b r w q
    after_feed other r out from b w q =
        counted (record b { reasm = r }) _ w refl (reassembled b r w q)

    -- what is kept after `rx_network` has been counted
    pub inbound-keeps :
        (m : Message) (from : Option ℕ) (b : Bus) (w : W)
        → Q (count_rx_network b, w)
        → Leaves Q (handle_inbound send deliver m from (b, w))
    unfolding handle_inbound handle_fragment
    inbound-keeps m from b w q =
        let b1 = count_rx_network b in
        let (rc, r, out) = feed b.reasm m in
        if_intro (Leaves Q) (has_flag m flag_ack) (λ _. counted b1 _ w refl q)
          (λ _.
            if_intro (Leaves Q) (has_flag m flag_fragment)
              (λ _. after_feed rc r out from (count_frag_rx b1) w (counted b1 _ w refl q))
              (λ _. complete-keeps m from (b1, w) q))
