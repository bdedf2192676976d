-- ===== src/Bus/Inbound.antt =====
-- `bc_message_bus_handle_inbound` of src/daemon/message_bus.c.
use boardcommd.Base.{
  ℕ, Bool, ◌&&◌, not, Bytes, Option, none, some, ◌==◌, ltb, bit_and, if◌then◌else◌,
}
use boardcommd.Types.{
  Status, ok, nomem, not_found, Message, flag_ack, flag_fragment, qos_at_least_once,
}
use boardcommd.Fragment.{feed}
use boardcommd.Bus.{Bus, add64}
use boardcommd.Bus.Send.{is_ok, should_deliver_local, should_forward, forward_message, send_ack}
use boardcommd.Bus.Deliver.{deliver_local}
use boardcommd.Bus.Publish.{for_other, count_pub_local, is_refused, delivered_of}

abbrev pub count_rx_network : Bus → Bus
count_rx_network b = record b {
  stats = record (b.stats) { rx_network = add64 b.stats.rx_network 1 };
}

abbrev pub count_ack_recv : Bus → Bus
count_ack_recv b = record b { stats = record (b.stats) { ack_recv = add64 b.stats.ack_recv 1 } }

abbrev pub count_frag_rx : Bus → Bus
count_frag_rx b = record b { stats = record (b.stats) { frag_rx = add64 b.stats.frag_rx 1 } }

abbrev pub count_rx_drop : Bus → Bus
count_rx_drop b = record b { stats = record (b.stats) { rx_drop = add64 b.stats.rx_drop 1 } }

-- `(msg->flags & flag) != 0`
abbrev pub has_flag : Message → ℕ → Bool
has_flag m flag = not (bit_and m.flags flag == 0)

module _ {W : Type 0} (send deliver : ℕ → Bytes → W → Status × W) where
  -- the acknowledgement at the end; its status is not looked at.
  unfoldable pub acknowledge : Message → Option ℕ → Bus × W → Status × (Bus × W)
  acknowledge m none (b, w) = (ok, (b, w))
  acknowledge m (some t) (b, w) =
      let (rc, s) = send_ack send (some t) m (b, w) in
      if m.qos == qos_at_least_once then (ok, s) else (ok, (b, w))

  -- the forwarding of a broadcast, and what follows
  unfoldable pub bridge : Message → Option ℕ → Bus × W → Status × (Bus × W)
  unfolding acknowledge
  bridge m from (b, w) =
      let (rc, (b', w')) = forward_message send m from (b, w) in
      if not (should_forward b m)
      then acknowledge m from (b, w)
      else if not (is_ok rc) && b.require_route
      then (rc, (b', w'))
      else acknowledge m from (b', w')

  -- a message that is complete
  unfoldable pub handle_complete : Message → Option ℕ → Bus × W → Status × (Bus × W)
  handle_complete m from (b, w) =
      let (rc, (b1, w1)) = forward_message send m from (b, w) in
      let (l, (b2, w2)) = deliver_local deliver none m (b, w) in
      if for_other b m
      then (rc, ((if is_ok rc then b1 else count_rx_drop b1), w1))
      else if not (should_deliver_local b m)
      then bridge m from (b, w)
      else if is_refused l
      then (nomem, (count_rx_drop b2, w2))
      else bridge m from
          ((if ltb 0 (delivered_of l) then count_pub_local (delivered_of l) b2 else b2), w2)

  -- a fragment, by what `bc_reasm_feed` returns for it
  unfoldable pub handle_fragment : Message → Option ℕ → Bus × W → Status × (Bus × W)
  handle_fragment m from (b, w) =
      let (rc, r, out) = feed b.reasm m in
      let b' = record b { reasm = r } in
      elim rc [
        | ok ↦ elim out [
          | none ↦ (ok, (b', w))
          | some complete ↦ handle_complete complete from (b', w)
        ]
        | not_found ↦ (ok, (b', w))
        | other ↦ (other, (count_rx_drop b', w))
      ]

  -- `bc_message_bus_handle_inbound`
  unfoldable pub handle_inbound : Message → Option ℕ → Bus × W → Status × (Bus × W)
  handle_inbound m from (b, w) =
      let b1 = count_rx_network b in
      if has_flag m flag_ack
      then (ok, (count_ack_recv b1, w))
      else if has_flag m flag_fragment
      then handle_fragment m from (count_frag_rx b1, w)
      else handle_complete m from (b1, w)
