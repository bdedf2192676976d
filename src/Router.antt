-- ===== src/Router.antt =====
-- src/daemon/router.c: which transport a message leaves by.
pub mod Spec
mod Tests
use boardcommd.Base.{
  ℕ, ◌+◌, Bool, true, false, List, [], ◌∷◌, Bytes, Option, none, some, Option-cases, str_eq,
  if◌then◌else◌,
}
use boardcommd.Types.{Status, ok, not_found, Message}
use boardcommd.Topic.{topic_matches, star}
use boardcommd.Config.{Config, RouteConfig, ChannelConfig, TransportType}

-- `bc_transport_t`, as the router and the message bus see it; `can_send` is
-- `ops != NULL && ops->send != NULL`.
pub record Transport : Type 0 where
  pub name : Bytes
  pub type : TransportType
  pub can_send : Bool

-- `bc_router_t`
pub record Router : Type 0 where
  pub config : Config
  pub transports : List Transport

-- `bc_router_init`
abbrev pub router_init : Config → List Transport → Router
router_init config transports = record { config = config; transports = transports }

-- the loop of `find_transport`, at index `i`
unfoldable pub find_from : List Transport → ℕ → Bytes → Option ℕ
find_from [] i name = none
find_from (t ∷ ts) i name =
    let rest = find_from ts (i + 1) name in if str_eq t.name name then some i else rest

-- `find_transport`; the pointer is an index into `transports`.
unfoldable pub find_transport : List Transport → Bytes → Option ℕ
unfolding find_from
find_transport ts name = find_from ts 0 name

-- `result->transport != NULL ? BC_OK : BC_ERR_NOT_FOUND`, beside `result->transport`
abbrev pub found : Option ℕ → Status × Option ℕ
found none = (not_found, none)
found (some i) = (ok, some i)

-- the loop over the channels
unfoldable pub route_channel : List Transport → List ChannelConfig → Bytes → Status × Option ℕ
route_channel ts [] name = (not_found, none)
route_channel ts (c ∷ cs) name =
    let rest = route_channel ts cs name in
    if str_eq c.name name then found (find_transport ts c.transport) else rest

-- the loop over the routes, with the fallback seen so far
unfoldable pub route_topic :
    List Transport → List RouteConfig → Bytes → Option ℕ → Status × Option ℕ
route_topic ts [] topic fallback = found fallback
route_topic ts (r ∷ rs) topic fallback =
    let as_fallback = route_topic ts rs topic (find_transport ts r.transport) in
    let rest = route_topic ts rs topic fallback in
    if str_eq r.topic star
    then as_fallback
    else if topic_matches r.topic topic
    then found (find_transport ts r.transport)
    else rest

-- `bc_router_route`
unfoldable pub route : Router → Message → Status × Option ℕ
unfolding route_channel route_topic
route router msg = elim msg.channel [
  | [] ↦ route_topic router.transports router.config.routes msg.topic none
  | c ∷ cs ↦ route_channel router.transports router.config.channels msg.channel
]
