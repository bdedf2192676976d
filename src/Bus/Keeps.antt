-- ===== src/Bus/Keeps.antt =====
-- What the operations of src/daemon/message_bus.c keep: a property of the bus and the world that
-- the counters and the calls of `send` and `deliver` keep is kept by the operations that make them.
use boardcommd.Base.{
  ℕ, zero, suc, ◌+◌, ◌≡◌, ◌≢◌, refl, sym, ap, subst, arith, false, not, Bytes, length, ◌==◌, ltb,
  leb, if_intro, Option, some, none,
}
use boardcommd.Types.{Status, ok, Result, done, fail, Message}
use boardcommd.Protocol.{encode}
use boardcommd.Fragment.{publish as fragment_publish, publish_from, piece, pieces_of, chunk_max}
use boardcommd.Router.{route}
use boardcommd.Bus.{Bus, Stats}
use boardcommd.Bus.Send.{
  is_ok, sends, emit_encoded, emit_network_frame, send_on_transport, send_ack, forward_message,
  ack_of, same_transport, count_sent,
}

-- what a call leaves, whatever it returned
abbrev pub Leaves : {W : Type 0} → (W → Type 0) → Status × W → Type 0
Leaves Q r = Q (r.1)

-- what a call leaves, by the status it returned: the next call is made after `ok` only
after_ok :
    {W : Type 0} (Q : W → Type 0) (rc : Status) (rest : Status × W) (w : W)
    → Q (rest.1)
    → Q w
    → Leaves Q (elim rc as (λ _. Status × W) [ ok ↦ rest | other ↦ (other, w) ])
after_ok Q ok rest w q r = q
after_ok Q other rest w q r = r

-- `bc_fragment_publish` keeps what `emit` keeps.
module _ {W : Type 0} (emit : Message → W → Status × W) (Q : W → Type 0)
    (step : (m : Message) (w : W) → Q w → Q ((emit m w).1)) where
  go_on :
      (m : Message) (total n index : ℕ) (w : W) → Q w → Q ((publish_from emit m total n index w).1)
  unfolding publish_from
  go_on m total zero index w q = q
  go_on m total (suc n) index w q =
      let (rc, w') = emit (piece m total index) w in
      let kept = step (piece m total index) w q in
      after_ok Q rc (publish_from emit m total n (index + 1) w') w'
        (go_on m total n (index + 1) w' kept) kept

  pub fragment_publish-keeps : (m : Message) (w : W) → Q w → Q ((fragment_publish emit m w).1)
  unfolding fragment_publish
  fragment_publish-keeps m w q =
      if_intro (Leaves Q) (leb (length m.payload) chunk_max) (λ _. step m w q)
        (λ _.
          if_intro (Leaves Q) (pieces_of m == 0) (λ _. q)
            (λ _. go_on m (pieces_of m) (pieces_of m) 0 w q))

same_transport_ne : (t x : Option ℕ) (u : ℕ) → same_transport t x ≡ false → t ≡ some u → x ≢ some u
same_transport_ne t x u f e h =
    let c : (u == u) ≡ false =
      subst (λ z. same_transport z (some u) ≡ false) e
        (subst (λ z. same_transport t z ≡ false) h f) in
    ground arith

-- What the counters keep: `Q` does not look at them, but for `rx_network`.
module _ {W : Type 0} (send : ℕ → Bytes → W → Status × W) (Q : Bus × W → Type 0)
    (counted : (b : Bus) (s : Stats) (w : W)
      → s.rx_network ≡ b.stats.rx_network
      → Q (b, w)
      → Q (record b { stats = s }, w)) where
  -- A send on transport `t` keeps `Q`.
  abbrev pub Sends : ℕ → Type 0
  Sends t = (frame : Bytes) (b : Bus) (w : W) → Q (b, w) → Q (b, (send t frame w).1)

  emit-keeps :
      (t : ℕ) → Sends t → (r : Result Bytes) (s : Bus × W) → Q s → Q ((emit_encoded send t r s).1)
  unfolding emit_encoded
  emit-keeps t sent (fail e) (b, w) q = q
  emit-keeps t sent (done frame) (b, w) q =
      let (rc, w') = send t frame w in
      if_intro (Leaves Q) (sends b t)
        (λ _.
          if_intro (λ b'. Q (b', w')) (is_ok rc) (λ _. sent frame b w q)
            (λ _. counted b _ w' refl (sent frame b w q)))
        (λ _. q)

  count_sent-keeps : (r : Status × (Bus × W)) → Q (r.1) → Q ((count_sent send r).1)
  count_sent-keeps (rc, (b, w)) q =
      if_intro (λ b'. Q (b', w)) (is_ok rc) (λ _. counted b _ w refl q) (λ _. q)

  pub send_on_transport-keeps :
      (t : Option ℕ)
      → ((u : ℕ) → t ≡ some u → Sends u)
      → (m : Message) (s : Bus × W) → Q s
      → Q ((send_on_transport send t m s).1)
  unfolding send_on_transport
  send_on_transport-keeps none sent m (b, w) q = q
  send_on_transport-keeps (some t) sent m (b, w) q =
      let emitted : (m' : Message) (s : Bus × W) → Q s → Q ((emit_network_frame send t m' s).1) =
        λ m'. emit-keeps t (sent t refl) (encode m') in
      if_intro (Leaves Q) (ltb chunk_max (length m.payload))
        (λ _.
          count_sent-keeps _ (
            fragment_publish-keeps (emit_network_frame send t) Q emitted m _
              (counted b _ w refl q)))
        (λ _. count_sent-keeps _ (emitted m (b, w) q))

  pub send_ack-keeps :
      (t : Option ℕ)
      → ((u : ℕ) → t ≡ some u → Sends u)
      → (m : Message) (s : Bus × W) → Q s
      → Q ((send_ack send t m s).1)
  unfolding send_ack
  send_ack-keeps t sent m (b, w) q =
      let (rc, (b', w')) = send_on_transport send t (ack_of b m) (b, w) in
      let kept = send_on_transport-keeps t sent (ack_of b m) (b, w) q in
      if_intro (Leaves Q) (is_ok rc) (λ _. counted b' _ w' refl kept) (λ _. kept)

  -- `forward_message` keeps what a send keeps on every transport but the one that is excluded.
  pub forward_message-keeps :
      (exclude : Option ℕ)
      → ((u : ℕ) → exclude ≢ some u → Sends u)
      → (m : Message) (s : Bus × W) → Q s
      → Q ((forward_message send m exclude s).1)
  unfolding forward_message
  forward_message-keeps exclude sent m (b, w) q =
      let (rc, t) = route b.router m in
      let (rc', (b', w')) = send_on_transport send t m (b, w) in
      if_intro (Leaves Q) (not (is_ok rc))
        (λ _. if_intro (Leaves Q) b.require_route (λ _. counted b _ w refl q) (λ _. q))
        (λ _.
          if_intro (Leaves Q) (same_transport t exclude) (λ _. q)
            (λ other.
              let kept =
                send_on_transport-keeps t (λ u e. sent u (same_transport_ne t exclude u other e)) m
                  (b, w) q in
              if_intro (λ b2. Q (b2, w')) (is_ok rc') (λ _. counted b' _ w' refl kept) (λ _. kept)))

-- Loop freedom of the forwarding: whatever the routes and the bus, `forward_message` makes no call
-- of `send` on the transport that it is to exclude. What a send on each other transport keeps of the
-- world is kept.
pub forward_message-excludes :
    {W : Type 0} (send : ℕ → Bytes → W → Status × W) (P : W → Type 0) (t : ℕ)
    → ((u : ℕ) (frame : Bytes) (w : W) → u ≢ t → P w → P ((send u frame w).1))
    → (m : Message) (b : Bus) (w : W) → P w
    → P ((forward_message send m (some t) (b, w)).1.1)
forward_message-excludes send P t sent m b w p =
    forward_message-keeps send (λ s. P (s.1)) (λ _ _ _ _ h. h) (some t)
      (λ u ne frame _ w'. sent u frame w' (λ e. ne (ap some (sym e)))) m (b, w) p
