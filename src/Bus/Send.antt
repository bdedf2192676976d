-- ===== src/Bus/Send.antt =====
-- Sending on a transport: `emit_network_frame`, `send_on_transport`, `send_ack` and
-- `forward_message` of src/daemon/message_bus.c. What a transport's `send` does to the world `W`
-- is a parameter, and so is what it returns.
use boardcommd.Base.{
  ℕ, Bool, true, false, not, [], Bytes, Option, none, some, ◌==◌, ltb, length, take, get_elem?,
  if◌then◌else◌,
}
use boardcommd.Types.{
  Status, ok, invalid, io, not_found, Result, done, fail, Message, flag_ack, qos_at_most_once,
}
use boardcommd.Protocol.{encode}
use boardcommd.Fragment.{publish as fragment_publish, chunk_max}
use boardcommd.Router.{route}
use boardcommd.Bus.{Bus, add64}

abbrev pub is_ok : Status → Bool
is_ok ok = true
is_ok _ = false

abbrev pub count_pub_failed : Bus → Bus
count_pub_failed b = record b {
  stats = record (b.stats) { pub_failed = add64 b.stats.pub_failed 1 };
}

abbrev pub count_pub_network : Bus → Bus
count_pub_network b = record b {
  stats = record (b.stats) { pub_network = add64 b.stats.pub_network 1 };
}

abbrev pub count_frag_tx : Bus → Bus
count_frag_tx b = record b { stats = record (b.stats) { frag_tx = add64 b.stats.frag_tx 1 } }

abbrev pub count_ack_sent : Bus → Bus
count_ack_sent b = record b { stats = record (b.stats) { ack_sent = add64 b.stats.ack_sent 1 } }

abbrev pub count_rx_forward : Bus → Bus
count_rx_forward b = record b {
  stats = record (b.stats) { rx_forward = add64 b.stats.rx_forward 1 };
}

-- whether transport `t` can send
abbrev pub sends : Bus → ℕ → Bool
sends b t = elim (get_elem? b.router.transports t) [ none ↦ false | some u ↦ u.can_send ]

-- the acknowledgement that `send_ack` builds
abbrev pub ack_of : Bus → Message → Message
ack_of b req = record {
  src_node = b.node_id;
  dst_node = req.src_node;
  flags = flag_ack;
  qos = qos_at_most_once;
  seq = req.seq;
  channel = take 31 req.channel;
  topic = take 63 req.topic;
  payload = [];
}

-- `should_deliver_local`
abbrev pub should_deliver_local : Bus → Message → Bool
should_deliver_local b m = if m.dst_node == 0 then true else m.dst_node == b.node_id

-- `should_forward`
abbrev pub should_forward : Bus → Message → Bool
should_forward b m = if m.dst_node == 0 then b.bridge_broadcast else not (m.dst_node == b.node_id)

-- two transport pointers are equal
abbrev pub same_transport : Option ℕ → Option ℕ → Bool
same_transport none none = true
same_transport none (some u) = false
same_transport (some t) none = false
same_transport (some t) (some u) = t == u

module _ {W : Type 0} (send : ℕ → Bytes → W → Status × W) where
  -- `emit_network_frame` on transport `t`, by what the encoder returns
  unfoldable pub emit_encoded : ℕ → Result Bytes → Bus × W → Status × (Bus × W)
  emit_encoded t (fail e) (b, w) = (invalid, (b, w))
  emit_encoded t (done frame) (b, w) =
      let (rc, w') = send t frame w in
      if sends b t
      then (rc, ((if is_ok rc then b else count_pub_failed b), w'))
      else (invalid, (b, w))

  -- `emit_network_frame`
  abbrev pub emit_network_frame : ℕ → Message → Bus × W → Status × (Bus × W)
  emit_network_frame t piece s = emit_encoded t (encode piece) s

  -- the end of `send_on_transport`
  abbrev pub count_sent : Status × (Bus × W) → Status × (Bus × W)
  count_sent (rc, (b, w)) = (rc, ((if is_ok rc then count_pub_network b else b), w))

  -- `send_on_transport`; `none` is the NULL pointer.
  unfoldable pub send_on_transport : Option ℕ → Message → Bus × W → Status × (Bus × W)
  send_on_transport none msg (b, w) = (invalid, (b, w))
  send_on_transport (some t) msg (b, w) =
      if ltb chunk_max (length msg.payload)
      then count_sent (fragment_publish (emit_network_frame t) msg (count_frag_tx b, w))
      else count_sent (emit_network_frame t msg (b, w))

  -- `send_ack`
  unfoldable pub send_ack : Option ℕ → Message → Bus × W → Status × (Bus × W)
  send_ack t req (b, w) =
      let (rc, (b', w')) = send_on_transport t (ack_of b req) (b, w) in
      if is_ok rc then (ok, (count_ack_sent b', w')) else (io, (b', w'))

  -- `forward_message`
  unfoldable pub forward_message : Message → Option ℕ → Bus × W → Status × (Bus × W)
  forward_message msg exclude (b, w) =
      let (rc, t) = route b.router msg in
      let (sent, (b', w')) = send_on_transport t msg (b, w) in
      if not (is_ok rc)
      then (if b.require_route then (not_found, (count_pub_failed b, w)) else (ok, (b, w)))
      else if same_transport t exclude
      then (ok, (b, w))
      else (sent, ((if is_ok sent then count_rx_forward b' else b'), w'))
