-- ===== src/Bus/Accounting.antt =====
-- What `bc_message_bus_handle_inbound` of src/daemon/message_bus.c changes of the bus.
use boardcommd.Base.{ℕ, ◌≡◌, ◌≢◌, refl, ◌∙◌, true, false, Bytes, if_intro, arith, Option}
use boardcommd.Types.{Status, Message, flag_ack, flag_fragment}
use boardcommd.Fragment.{Reasm}
use boardcommd.Bus.{Bus, Stats, add64}
use boardcommd.Bus.Publish.{for_other}
use boardcommd.Bus.Inbound.{count_rx_network, handle_inbound, has_flag}
use boardcommd.Bus.Flow.{inbound-keeps, complete_other}

-- The parts of a bus that are configured or subscribed to, and the number of messages received.
pub record Keeps (old new : Bus) : Type 0 where
  pub subscriptions : new.subscriptions ≡ old.subscriptions
  pub router : new.router ≡ old.router
  pub has_deliver : new.has_deliver ≡ old.has_deliver
  pub node_id : new.node_id ≡ old.node_id
  pub next_seq : new.next_seq ≡ old.next_seq
  pub require_route : new.require_route ≡ old.require_route
  pub bridge_broadcast : new.bridge_broadcast ≡ old.bridge_broadcast
  pub rx_network : new.stats.rx_network ≡ add64 old.stats.rx_network 1

Keeps-counted :
    (old new : Bus) (s : Stats)
    → s.rx_network ≡ new.stats.rx_network
    → Keeps old new
    → Keeps old (record new { stats = s })
Keeps-counted old new s e k = record {
  subscriptions = k.subscriptions;
  router = k.router;
  has_deliver = k.has_deliver;
  node_id = k.node_id;
  next_seq = k.next_seq;
  require_route = k.require_route;
  bridge_broadcast = k.bridge_broadcast;
  rx_network = e ∙ k.rx_network;
}

Keeps-reassembled :
    (old new : Bus) (r : Reasm) → Keeps old new → Keeps old (record new { reasm = r })
Keeps-reassembled old new r k = record {
  subscriptions = k.subscriptions;
  router = k.router;
  has_deliver = k.has_deliver;
  node_id = k.node_id;
  next_seq = k.next_seq;
  require_route = k.require_route;
  bridge_broadcast = k.bridge_broadcast;
  rx_network = k.rx_network;
}

Keeps-received : (b : Bus) → Keeps b (count_rx_network b)
Keeps-received b = record {
  subscriptions = refl;
  router = refl;
  has_deliver = refl;
  node_id = refl;
  next_seq = refl;
  require_route = refl;
  bridge_broadcast = refl;
  rx_network = refl;
}

-- On every path through `bc_message_bus_handle_inbound` (an acknowledgement, a fragment, a message
-- that is delivered, forwarded, bridged, acknowledged, dropped or refused, and whatever the sends
-- and deliveries return) `rx_network` goes up by exactly one, and the subscriptions, the router,
-- the node number, the sequence counter and the settings stay as they were.
pub handle_inbound-Keeps :
    {W : Type 0} (send deliver : ℕ → Bytes → W → Status × W) (m : Message) (from : Option ℕ)
    (b : Bus) (w : W)
    → Keeps b ((handle_inbound send deliver m from (b, w)).1.0)
handle_inbound-Keeps send deliver m from b w =
    inbound-keeps send deliver (λ s. Keeps b (s.0)) (λ c s _ e k. Keeps-counted b c s e k)
      (λ _ _ _ _ k. k) (λ _ _ _ _ k. k) (λ c r _ k. Keeps-reassembled b c r k) m from b w
      (Keeps-received b)

-- A message for another node that is not a fragment is forwarded at most: `handle_inbound` makes no
-- call of `deliver` for it. What the sends keep of the world is kept.
pub handle_inbound_other :
    {W : Type 0} (send deliver : ℕ → Bytes → W → Status × W) (P : W → Type 0)
    → ((t : ℕ) (frame : Bytes) (w : W) → P w → P ((send t frame w).1))
    → (m : Message) (from : Option ℕ) (b : Bus) (w : W) → m.dst_node ≢ 0
    → m.dst_node ≢ b.node_id
    → has_flag m flag_fragment ≡ false
    → P w
    → P ((handle_inbound send deliver m from (b, w)).1.1)
unfolding handle_inbound
handle_inbound_other send deliver P sent m from b w p q e h =
    let other : for_other (count_rx_network b) m ≡ true = ground arith in
    if_intro (λ (r : Status × (Bus × _)). P (r.1.1)) (has_flag m flag_ack) (λ _. h)
      (λ _. rw (e) (
        complete_other send deliver (λ s. P (s.1)) (λ _ _ _ _ k. k)
          (λ t frame _ w'. sent t frame w') m from (count_rx_network b) w other h))
