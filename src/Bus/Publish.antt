-- ===== src/Bus/Publish.antt =====
-- `bc_message_bus_publish` of src/daemon/message_bus.c.
use boardcommd.Base.{
  ℕ, ◌+◌, Bool, true, false, ◌&&◌, ◌||◌, not, [], ◌∷◌, Bytes, Option, ◌==◌, ltb, leb, bit_and, u32,
  if◌then◌else◌,
}
use boardcommd.Types.{Status, ok, nomem, not_found, Message, flag_no_bridge, qos_at_least_once}
use boardcommd.Router.{route}
use boardcommd.Bus.{Bus, add64}
use boardcommd.Bus.Send.{
  is_ok, should_deliver_local, should_forward, send_on_transport, count_pub_failed,
}
use boardcommd.Bus.Deliver.{Local, refused, delivered, deliver_local}

-- `msg->channel[0] != '\0'`
abbrev pub has_channel : Message → Bool
has_channel m = elim m.channel [ [] ↦ false | c ∷ cs ↦ true ]

-- the message is for another node
abbrev pub for_other : Bus → Message → Bool
for_other b m = not (m.dst_node == 0) && not (m.dst_node == b.node_id)

abbrev pub need_network : Bus → Message → Bool
need_network b m =
    if not (bit_and m.flags flag_no_bridge == 0)
    then has_channel m || for_other b m
    else should_forward b m || (has_channel m || for_other b m)

-- the node number and the sequence number that `publish` puts in
abbrev pub stamp : Bus → Message → Message
stamp b m = record m {
  src_node = b.node_id;
  seq = if m.seq == 0 then u32 (b.next_seq + 1) else m.seq;
}

abbrev pub next_seq_after : Bus → Message → ℕ
next_seq_after b m = if m.seq == 0 then u32 (b.next_seq + 1) else b.next_seq

abbrev pub count_pub_local : ℕ → Bus → Bus
count_pub_local n b = record b {
  stats = record (b.stats) { pub_local = add64 b.stats.pub_local n };
}

-- `local_rc` after the local delivery: whether it is BC_ERR_NOMEM
abbrev pub is_refused : Local → Bool
is_refused refused = true
is_refused (delivered n) = false

-- `local_delivered`
abbrev pub delivered_of : Local → ℕ
delivered_of refused = 0
delivered_of (delivered n) = n

-- the status that stands for `local_rc`
abbrev pub or_nomem : Local → Status → Status
or_nomem l rc = if is_refused l then nomem else rc

module _ {W : Type 0} (send deliver : ℕ → Bytes → W → Status × W) where
  -- the part of `publish` that delivers to subscribers on this board
  unfoldable pub publish_local : Option ℕ → Message → Bus × W → Local × (Bus × W)
  publish_local source m (b, w) =
      let (l, (b', w')) = deliver_local deliver source m (b, w) in
      if should_deliver_local b m
      then (l, ((if ltb 0 (delivered_of l) then count_pub_local (delivered_of l) b' else b'), w'))
      else (delivered 0, (b, w))

  -- the part that sends on a transport, if `need`
  unfoldable pub publish_network : Bool → Local → Message → Bus × W → Status × (Bus × W)
  publish_network need l m (b, w) =
      let (rc, t) = route b.router m in
      let (sent, (b', w')) = send_on_transport send t m (b, w) in
      if not need
      then (or_nomem l ok, (b, w))
      else if not (is_ok rc)
      then (if b.require_route
          then (or_nomem l not_found, (count_pub_failed b, w))
          else (or_nomem l ok, (b, w)))
      else if not (is_ok sent) && (leb qos_at_least_once m.qos && (delivered_of l == 0))
      then (or_nomem l sent, (b', w'))
      else (or_nomem l ok, (b', w'))

  -- `bc_message_bus_publish`; `need_network` reads the node numbers and flags, which `stamp` and the
  -- local delivery leave alone.
  unfoldable pub publish : Option ℕ → Message → Bus × W → Status × (Bus × W)
  publish source msg (b, w) =
      let m = stamp b msg in
      let b1 = record b { next_seq = next_seq_after b msg } in
      let (l, (b2, w2)) = publish_local source m (b1, w) in
      publish_network (need_network b1 m) l m (b2, w2)
