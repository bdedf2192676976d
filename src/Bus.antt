-- ===== src/Bus.antt =====
-- src/daemon/message_bus.c: the state of the bus, its subscriptions and its counters.
pub mod Send
pub mod Deliver
pub mod Publish
pub mod Inbound
pub mod Subscriptions
pub mod Table
pub mod Keeps
pub mod Local
pub mod Flow
pub mod Accounting
pub mod Verdict
mod Tests
use boardcommd.Base.{
  ℕ, zero, suc, ◌+◌, ◌%◌, Bool, true, false, ◌&&◌, ◌||◌, not, List, [], ◌∷◌, ◌++◌, Bytes, Option,
  none, some, ◌==◌, leb, length, take, get_or, set, str_eq, if◌then◌else◌,
}
use boardcommd.Types.{Status, ok, invalid, nomem, Message}
use boardcommd.Router.{Router}
use boardcommd.Fragment.{Reasm, reasm_init}

-- BC_MAX_SUBSCRIPTIONS
abbrev pub max_subscriptions : ℕ
max_subscriptions = 128

-- `bc_subscription_t`
pub record Subscription : Type 0 where
  pub fd : ℕ
  pub topic : Bytes

-- `bc_stats_t`; a counter has 64 bits.
pub record Stats : Type 0 where
  pub pub_local : ℕ
  pub pub_network : ℕ
  pub pub_failed : ℕ
  pub rx_network : ℕ
  pub rx_local : ℕ
  pub rx_forward : ℕ
  pub rx_drop : ℕ
  pub ack_sent : ℕ
  pub ack_recv : ℕ
  pub frag_rx : ℕ
  pub frag_tx : ℕ

-- addition on `uint64_t`
abbrev pub add64 : ℕ → ℕ → ℕ
add64 a b = (a + b) % 18446744073709551616

-- `bc_stats_reset`
abbrev pub stats_reset : Stats
stats_reset = record {
  pub_local = 0;
  pub_network = 0;
  pub_failed = 0;
  rx_network = 0;
  rx_local = 0;
  rx_forward = 0;
  rx_drop = 0;
  ack_sent = 0;
  ack_recv = 0;
  frag_rx = 0;
  frag_tx = 0;
}

-- `bc_message_bus_t`. `subscriptions` is the part of the array that is in use; `router` holds the
-- transports; `has_deliver` is `deliver_fn != NULL`.
pub record Bus : Type 0 where
  pub subscriptions : List Subscription
  pub router : Router
  pub has_deliver : Bool
  pub node_id : ℕ
  pub next_seq : ℕ
  pub require_route : Bool
  pub bridge_broadcast : Bool
  pub stats : Stats
  pub reasm : Reasm

-- `bc_message_bus_init`
unfoldable pub init : Router → Bus
init router = record {
  subscriptions = [];
  router = router;
  has_deliver = false;
  node_id = 0;
  next_seq = 0;
  require_route = false;
  bridge_broadcast = true;
  stats = stats_reset;
  reasm = reasm_init;
}

-- `bc_message_bus_configure`; the transports are those of the router.
unfoldable pub configure : Bus → ℕ → Bool → Bool → Bus
configure b node_id require_route bridge_broadcast = record b {
  node_id = node_id;
  require_route = require_route;
  bridge_broadcast = bridge_broadcast;
  next_seq = 0;
}

-- `bc_message_bus_set_deliver_fn`, with a function that is not NULL
unfoldable pub set_deliver_fn : Bus → Bus
set_deliver_fn b = record b { has_deliver = true }

-- the search for a subscription that is there already
unfoldable pub subscribed : List Subscription → ℕ → Bytes → Bool
subscribed [] fd topic = false
subscribed (s ∷ ss) fd topic = ((s.fd == fd) && str_eq s.topic topic) || subscribed ss fd topic

-- `bc_message_bus_subscribe`; `none` is the NULL pointer.
unfoldable pub subscribe : Bus → ℕ → Option Bytes → Status × Bus
subscribe b fd none = (invalid, b)
subscribe b fd (some []) = (invalid, b)
subscribe b fd (some (c ∷ cs)) =
    if leb max_subscriptions (length b.subscriptions)
    then (nomem, b)
    else if subscribed b.subscriptions fd (c ∷ cs)
    then (ok, b)
    else (
      ok,
      record b {
        subscriptions = b.subscriptions ++ ((record { fd = fd; topic = take 63 (c ∷ cs) }) ∷ []);
      },
    )

abbrev pub no_subscription : Subscription
no_subscription = record { fd = 0; topic = [] }

-- the loop of `bc_message_bus_remove_client` at index `i`, with `n` rounds left: the entries to
-- keep are copied down to `out` in the same array.
unfoldable pub compact : List Subscription → ℕ → ℕ → ℕ → ℕ → List Subscription × ℕ
compact subs fd zero i out = (subs, out)
compact subs fd (suc n) i out =
    let s = get_or subs i no_subscription in
    let keep = not (s.fd == fd) in
    let moved = if out == i then subs else set subs out s in
    compact (if keep then moved else subs) fd n (i + 1) (if keep then out + 1 else out)

-- `bc_message_bus_remove_client`
unfoldable pub remove_client : Bus → ℕ → Bus
unfolding compact
remove_client b fd =
    let (subs, out) = compact b.subscriptions fd (length b.subscriptions) 0 0 in
    record b { subscriptions = take out subs }
