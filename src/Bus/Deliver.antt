-- ===== src/Bus/Deliver.antt =====
-- `bc_message_bus_deliver_local` of src/daemon/message_bus.c. What the deliver function does to the
-- world `W`, and what it returns, is a parameter.
use boardcommd.Base.{
  ℕ, ◌+◌, Bool, true, false, ◌&&◌, not, List, [], ◌∷◌, ◌++◌, Bytes, Option, none, some, ◌==◌, ltb,
  length, take, u16, u32, min, if◌then◌else◌,
}
use boardcommd.Types.{Status, Message}
use boardcommd.Topic.{topic_matches}
use boardcommd.Ipc.{IpcHeader, put_ipc_header, ipc_magic, ipc_version, ipc_deliver}
use boardcommd.Bus.{Bus, Subscription, add64}
use boardcommd.Bus.Send.{is_ok}

-- the frame that is built for each subscriber
abbrev pub deliver_header : Message → IpcHeader
deliver_header m = record {
  magic = ipc_magic;
  version = ipc_version;
  type = ipc_deliver;
  topic_len = u16 (min (length m.topic) 64);
  channel_len = u16 (min (length m.channel) 32);
  payload_len = u32 (length m.payload);
  dst_node = m.dst_node;
  qos = m.qos;
  flags = m.flags;
  seq = m.seq;
}

unfoldable pub deliver_frame : Message → Bytes
deliver_frame m =
    put_ipc_header (deliver_header m) ++ (take 32 m.channel ++ (take 64 m.topic ++ m.payload))

-- `sub->fd == source_fd`; `none` is -1, and no client has that descriptor.
abbrev pub is_source : Option ℕ → ℕ → Bool
is_source none fd = false
is_source (some source) fd = fd == source

-- neither `continue` at the head of the loop is taken
abbrev pub wants : Option ℕ → Message → Subscription → Bool
wants source m s = not (is_source source s.fd) && topic_matches s.topic m.topic

-- The value returned: BC_ERR_NOMEM, or the number of deliveries.
pub data Local : Type 0 where
  refused : Local
  delivered : ℕ → Local

-- the counters of the loop
pub record Tally : Type 0 where
  pub done : ℕ
  pub matched : ℕ
  pub failed : ℕ

-- one delivery more, and how it went
abbrev pub tally : Tally → Bool → Tally
tally t true = record { done = t.done + 1; matched = t.matched + 1; failed = t.failed }
tally t false = record { done = t.done; matched = t.matched + 1; failed = t.failed + 1 }

-- what the function returns, by the counters
abbrev pub local_result : Tally → Local
local_result t =
    if ltb 0 t.failed
    then refused
    else if ltb 0 t.matched && (t.done == 0)
    then refused
    else delivered t.done

module _ {W : Type 0} (deliver : ℕ → Bytes → W → Status × W) where
  -- `deliver_fn == NULL || deliver_fn(...) != BC_OK` is the negation of the first component.
  abbrev pub hand_over : Bool → ℕ → Bytes → W → Bool × W
  hand_over false fd frame w = (false, w)
  hand_over true fd frame w = let (rc, w') = deliver fd frame w in (is_ok rc, w')

  -- the loop over the subscriptions
  unfoldable pub deliver_each :
      Bool → Option ℕ → Message → List Subscription → Tally × W → Tally × W
  deliver_each has source m [] (t, w) = (t, w)
  deliver_each has source m (s ∷ ss) (t, w) =
      let (went, w') = hand_over has s.fd (deliver_frame m) w in
      deliver_each has source m ss (if wants source m s then (tally t went, w') else (t, w))

  -- `bc_message_bus_deliver_local`
  unfoldable pub deliver_local : Option ℕ → Message → Bus × W → Local × (Bus × W)
  deliver_local source m (b, w) =
      let none_yet : Tally = record { done = 0; matched = 0; failed = 0 } in
      let (t, w') = deliver_each b.has_deliver source m b.subscriptions (none_yet, w) in
      let counted = record b {
        stats = record (b.stats) { rx_local = add64 b.stats.rx_local t.done };
      } in
      (local_result t, ((if ltb 0 t.done then counted else b), w'))
