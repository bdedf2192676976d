-- ===== src/Bus/Verdict.antt =====
-- What `bc_message_bus_publish` of src/daemon/message_bus.c returns.
use boardcommd.Base.{
  ℕ, ◌<◌, ◌≤◌, ◌≡◌, ◌≢◌, inl, inr, refl, Bool, Bool-cases, subst, true, false, not, Bytes, ◌==◌,
  ◌&&◌, leb, if◌then◌else◌, if_intro, arith, Option,
}
use boardcommd.Types.{Status, ok, nomem, Message, qos_at_least_once}
use boardcommd.Router.{route}
use boardcommd.Bus.{Bus}
use boardcommd.Bus.Send.{is_ok, send_on_transport, should_deliver_local}
use boardcommd.Bus.Deliver.{Local, refused, delivered, deliver_frame}
use boardcommd.Bus.Local.{recipients, outcome, hand_all, deliver_local_lem}
use boardcommd.Bus.Publish.{
  publish, publish_local, publish_network, stamp, need_network, next_seq_after, delivered_of,
  or_nomem,
}

-- What a status says of the delivery on this board, when the bus requires a route if `strict`.
pub record IsVerdict (strict : Bool) (qos : ℕ) (l : Local) (rc : Status) : Type 0 where
  -- A subscriber that did not take the message makes it BC_ERR_NOMEM, whatever the network did.
  pub pressure : l ≡ refused → rc ≡ nomem
  -- A message that reached a subscriber is not reported as failed by the network.
  pub reached : 0 < delivered_of l → strict ≡ false → rc ≡ ok
  -- Nor is a message that is sent without the wish for an acknowledgement.
  pub best_effort : qos < qos_at_least_once → l ≢ refused → strict ≡ false → rc ≡ ok

ok-IsVerdict : (strict : Bool) (qos : ℕ) (l : Local) → IsVerdict strict qos l (or_nomem l ok)
ok-IsVerdict strict qos refused = record {
  pressure = λ _. refl;
  reached = λ h. ground arith;
  best_effort = λ _ h. elim (h refl) [ ];
}
ok-IsVerdict strict qos (delivered n) = record {
  pressure = λ e. ground arith;
  reached = λ _ _. refl;
  best_effort = λ _ _ _. refl;
}

strict-IsVerdict :
    (strict : Bool) (qos : ℕ) (l : Local) (rc : Status)
    → strict ≡ true
    → IsVerdict strict qos l (or_nomem l rc)
strict-IsVerdict strict qos refused rc t = record {
  pressure = λ _. refl;
  reached = λ h. ground arith;
  best_effort = λ _ h. elim (h refl) [ ];
}
strict-IsVerdict strict qos (delivered n) rc t = record {
  pressure = λ e. ground arith;
  reached = λ _ f. ground arith;
  best_effort = λ _ _ f. ground arith;
}

failed-IsVerdict :
    (strict : Bool) (qos : ℕ) (l : Local) (rc : Status)
    → qos_at_least_once ≤ qos
    → delivered_of l ≡ 0
    → IsVerdict strict qos l (or_nomem l rc)
failed-IsVerdict strict qos refused rc p e = record {
  pressure = λ _. refl;
  reached = λ h. ground arith;
  best_effort = λ _ h. elim (h refl) [ ];
}
failed-IsVerdict strict qos (delivered n) rc p e = record {
  pressure = λ e. ground arith;
  reached = λ h. ground arith;
  best_effort = λ h. ground arith;
}

module _ {W : Type 0} (send deliver : ℕ → Bytes → W → Status × W) where
  publish_network-IsVerdict :
      (need : Bool) (l : Local) (m : Message) (b : Bus) (w : W)
      → IsVerdict b.require_route m.qos l ((publish_network send deliver need l m (b, w)).0)
  unfolding publish_network
  publish_network-IsVerdict need l m b w =
      let V : Status × (Bus × W) → Type 0 = λ r. IsVerdict b.require_route m.qos l (r.0) in
      let good = ok-IsVerdict b.require_route m.qos l in
      let (rc, t) = route b.router m in
      let (sent, s') = send_on_transport send t m (b, w) in
      if_intro V (not need) (λ _. good)
        (λ _.
          if_intro V (not (is_ok rc))
            (λ _.
              if_intro V b.require_route (strict-IsVerdict b.require_route m.qos l _) (λ _. good))
            (λ _.
              if_intro V
                (not (is_ok sent) && (leb qos_at_least_once m.qos && (delivered_of l == 0)))
                (λ e. failed-IsVerdict b.require_route m.qos l sent (ground arith) (ground arith))
                (λ _. good)))

  -- the outcome on this board, by the answers of the subscribers
  abbrev pub local_outcome : Option ℕ → Message → Bus → W → Local
  local_outcome source m b w =
      let (went, w') =
        hand_all deliver b.has_deliver (recipients source m b.subscriptions) (deliver_frame m) w in
      if should_deliver_local b m then outcome went else delivered 0

  publish_local_lem :
      (source : Option ℕ) (m : Message) (b : Bus) (w : W)
      → b.stats.rx_local < 18446744073709551616
      → let (l, (b', w')) = publish_local send deliver source m (b, w) in
        (l ≡ local_outcome source m b w) × (b'.require_route ≡ b.require_route)
  unfolding publish_local
  publish_local_lem source m b w p =
      rw (deliver_local_lem deliver source m b w p) (elim (Bool-cases (should_deliver_local b m)) [
        | inl here ↦ rw (here) (
          refl,
          if_intro (λ (b' : Bus). b'.require_route ≡ b.require_route) _ (λ _. refl) (λ _. refl),
        )
        | inr not_here ↦ rw (not_here) (refl, refl)
      ])

  -- The status of `bc_message_bus_publish`, by what the recipients on this board answered to the
  -- stamped message: BC_ERR_NOMEM if one did not take it, whatever the network did; and on a bus
  -- that requires no route, BC_OK if it reached a recipient, and BC_OK if it asks for no
  -- acknowledgement and no recipient refused it, whatever the routes and the sends returned.
  pub publish-IsVerdict :
      (source : Option ℕ) (msg : Message) (b : Bus) (w : W)
      → b.stats.rx_local < 18446744073709551616
      → let m = stamp b msg in
        IsVerdict b.require_route m.qos
          (local_outcome source m b w)
          ((publish send deliver source msg (b, w)).0)
  unfolding publish
  publish-IsVerdict source msg b w p =
      let m = stamp b msg in
      let b1 = record b { next_seq = next_seq_after b msg } in
      let (l, (b2, w2)) = publish_local send deliver source m (b1, w) in
      let (e, f) = publish_local_lem source m b1 w p in
      subst
        (λ x.
          IsVerdict b.require_route m.qos x
            ((publish_network send deliver (need_network b1 m) l m (b2, w2)).0))
        e
        (subst
          (λ x.
            IsVerdict x m.qos l ((publish_network send deliver (need_network b1 m) l m (b2, w2)).0))
          f (publish_network-IsVerdict (need_network b1 m) l m b2 w2))
