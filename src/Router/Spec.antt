-- ===== src/Router/Spec.antt =====
-- `bc_router_route` against a description in two passes, and on valid configurations.
use boardcommd.Base.{
  ℕ, ◌+◌, ◌≡◌, ◌↔◌, ◌⊎◌, inl, inr, refl, not, ◌&&◌, List, [], ◌∷◌, Bytes, Option, none, some, All,
  arith, str_eq, str_eq_iff, str_eq_self, if◌then◌else◌, Bool-cases,
}
use boardcommd.Types.{Status, ok, not_found, Message}
use boardcommd.Topic.{topic_matches, star}
use boardcommd.Topic.Sound.{Fits, topic_matches_sound, topic_matches_complete}
use boardcommd.Config.{Config, RouteConfig, ChannelConfig, TransportConfig}
use boardcommd.Config.Valid.{Named, IsValid}
use boardcommd.Router.{Router, Transport, find_from, find_transport, found, route_topic, route}

-- the first route that is not "*" and fits the topic
abbrev pub first_specific : List RouteConfig → Bytes → Option RouteConfig
first_specific [] topic = none
first_specific (r ∷ rs) topic =
    let rest = first_specific rs topic in
    if not (str_eq r.topic star) && topic_matches r.topic topic then some r else rest

-- the last route that is "*"
abbrev pub last_any : List RouteConfig → Option RouteConfig → Option RouteConfig
last_any [] seen = seen
last_any (r ∷ rs) seen = last_any rs (if str_eq r.topic star then some r else seen)

-- the first channel of a name
abbrev pub first_channel : List ChannelConfig → Bytes → Option ChannelConfig
first_channel [] name = none
first_channel (c ∷ cs) name =
    let rest = first_channel cs name in if str_eq c.name name then some c else rest

abbrev pub leaves_by : List Transport → Option RouteConfig → Status × Option ℕ
leaves_by ts none = (not_found, none)
leaves_by ts (some r) = found (find_transport ts r.transport)

-- a specific route first, else the last "*"
abbrev pub choose : Option RouteConfig → Option RouteConfig → Option RouteConfig
choose none any = any
choose (some r) any = some r

abbrev fallback_of : List Transport → Option RouteConfig → Option ℕ
fallback_of ts none = none
fallback_of ts (some r) = find_transport ts r.transport

-- A transport of the name is open.
abbrev pub IsOpen : List Transport → Bytes → Type 0
IsOpen [] n = ⊥
IsOpen (t ∷ ts) n = (t.name ≡ n) ⊎ IsOpen ts n

find_from_open :
    (ts : List Transport) (i : ℕ) (n : Bytes) → IsOpen ts n → (k : ℕ) × (find_from ts i n ≡ some k)
unfolding find_from
find_from_open [] i n h = absurd h
find_from_open (t ∷ ts) i n (inl e) = (i, rw (e, str_eq_self n))
find_from_open (t ∷ ts) i n (inr h) = elim (Bool-cases (str_eq t.name n)) [
  | inl same ↦ (i, rw same)
  | inr other ↦ let (k, e) = find_from_open ts (i + 1) n h in (k, rw (other, e))
]

find_transport_open :
    (ts : List Transport) (n : Bytes) → IsOpen ts n → (k : ℕ) × (find_transport ts n ≡ some k)
unfolding find_transport
find_transport_open ts n h = find_from_open ts 0 n h

-- Some route fits the topic.
abbrev pub Routed : List RouteConfig → Bytes → Type 0
Routed [] topic = ⊥
Routed (r ∷ rs) topic = Fits r.topic topic ⊎ Routed rs topic

abbrev HasFallback : Option ℕ → Type 0
HasFallback none = ⊥
HasFallback (some i) = Unit

module _ (ts : List Transport) (topic : Bytes) where
  abbrev AllOpen : List RouteConfig → Type 0
  AllOpen rs = All (λ (r : RouteConfig). IsOpen ts r.transport) rs

  route_topic_iff :
      (rs : List RouteConfig) (fallback : Option ℕ)
      → AllOpen rs
      → ((route_topic ts rs topic fallback).0 ≡ ok) ↔ (HasFallback fallback ⊎ Routed rs topic)
  unfolding route_topic
  route_topic_iff [] none h =
      (λ e. absurd (ground arith), elim [ inl x ↦ absurd x | inr x ↦ absurd x ])
  route_topic_iff [] (some i) h = (λ _. inl tt, λ _. refl)
  route_topic_iff (r ∷ rs) fallback h =
      let (k, at_k) = find_transport_open ts r.transport h.0 in
      elim (Bool-cases (str_eq r.topic star)) [
        | inl any ↦
            let fits : Fits r.topic topic =
              Fits.wild [] topic ((str_eq_iff r.topic star).0 any) refl in
            let later = (route_topic_iff rs (some k) h.1).1 (inl tt) in
            (λ _. inr (inl fits), λ _. rw (any, at_k) later)
        | inr specific ↦ elim (Bool-cases (topic_matches r.topic topic)) [
          | inl fits ↦ (
            λ _. inr (inl (topic_matches_sound r.topic topic fits)),
            λ _. rw (specific, fits, at_k),
          )
          | inr misses ↦
              let (to, from) = route_topic_iff rs fallback h.1 in
              let no_fit : ¬ Fits r.topic topic =
                λ x. absurd (ground (arith, topic_matches_complete r.topic topic x)) in
              (
                λ e. elim (to (rw (specific, misses) at e)) [ inl x ↦ inl x | inr x ↦ inr (inr x) ],
                elim [
                  | inl x ↦ rw (specific, misses) (from (inl x))
                  | inr (inl x) ↦ absurd (no_fit x)
                  | inr (inr x) ↦ rw (specific, misses) (from (inr x))
                ],
              )
        ]
      ]

all-IsOpen :
    (c : Config) (ts : List Transport)
    → IsValid c
    → All (λ (t : TransportConfig). IsOpen ts t.name) c.transports
    → All (λ (r : RouteConfig). IsOpen ts r.transport) c.routes
all-IsOpen c ts v h = go c.routes v.routes_named
  where
    named :
        (us : List TransportConfig) (n : Bytes)
        → All (λ (t : TransportConfig). IsOpen ts t.name) us
        → Named us n
        → IsOpen ts n
    named [] n g x = absurd x
    named (u ∷ us) n g (inl e) = rw (← e) g.0
    named (u ∷ us) n g (inr x) = named us n g.1 x

    go :
        (rs : List RouteConfig)
        → All (λ (r : RouteConfig). Named c.transports r.transport) rs
        → All (λ (r : RouteConfig). IsOpen ts r.transport) rs
    go [] x = tt
    go (r ∷ rs) x = (named c.transports r.transport h x.0, go rs x.1)

-- With a configuration that passed `bc_config_validate` and all of its transports open, a message
-- with no channel finds a transport exactly when some route's pattern fits its topic.
pub route-ok_iff :
    (router : Router) (m : Message)
    → IsValid router.config
    → All (λ (t : TransportConfig). IsOpen router.transports t.name) router.config.transports
    → m.channel ≡ []
    → ((route router m).0 ≡ ok) ↔ Routed router.config.routes m.topic
unfolding route
route-ok_iff router m v h e =
    let (to, from) =
      route_topic_iff router.transports m.topic router.config.routes none
        (all-IsOpen router.config router.transports v h) in
    rw (e, route) (λ x. elim (to x) [ inl y ↦ absurd y | inr y ↦ y ], λ y. from (inr y))

abbrev pub leaves_by_channel : List Transport → Option ChannelConfig → Status × Option ℕ
leaves_by_channel ts none = (not_found, none)
leaves_by_channel ts (some c) = found (find_transport ts c.transport)

-- what is to come of a message with a topic and a channel
abbrev pub leaves : Router → Bytes → Bytes → Status × Option ℕ
leaves router topic [] =
    leaves_by router.transports
      (choose (first_specific router.config.routes topic) (last_any router.config.routes none))
leaves router topic (c ∷ cs) =
    leaves_by_channel router.transports (first_channel router.config.channels (c ∷ cs))
