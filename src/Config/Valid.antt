-- ===== src/Config/Valid.antt =====
-- What `bc_config_validate` accepts.
use boardcommd.Base.{
  ◌≡◌, ◌≢◌, ◌↔◌, ◌⊎◌, inl, inr, refl, sym, true, false, List, [], ◌∷◌, Bytes, All, arith, str_eq,
  str_eq_iff, ◌==◌, length, Bool-cases,
}
use boardcommd.Types.{ok}
use boardcommd.Config.{
  Config, TransportConfig, RouteConfig, ChannelConfig, transport_exists, name_repeats, any_repeat,
  channels_exist, routes_exist, validate,
}

-- Some transport has the name.
abbrev pub Named : List TransportConfig → Bytes → Type 0
Named [] n = ⊥
Named (t ∷ ts) n = (t.name ≡ n) ⊎ Named ts n

-- No two transports share a name.
abbrev pub Distinct : List TransportConfig → Type 0
Distinct [] = Unit
Distinct (t ∷ ts) = (¬ Named ts t.name) × Distinct ts

pub record IsValid (c : Config) : Type 0 where
  pub node_id_set : c.node_id ≢ 0
  pub some_transport : c.transports ≢ []
  pub distinct : Distinct c.transports
  pub channels_named : All (λ (h : ChannelConfig). Named c.transports h.transport) c.channels
  pub routes_named : All (λ (r : RouteConfig). Named c.transports r.transport) c.routes

pub transport_exists_iff :
    (ts : List TransportConfig) (n : Bytes) → (transport_exists ts n ≡ true) ↔ Named ts n
unfolding transport_exists
transport_exists_iff [] n = (λ e. cc, λ h. absurd h)
transport_exists_iff (t ∷ ts) n =
    let (to, from) = transport_exists_iff ts n in
    let (eq, qe) = str_eq_iff t.name n in
    elim (Bool-cases (str_eq t.name n)) [
      | inl same ↦ (λ _. inl (eq same), λ _. rw same)
      | inr other ↦
          (λ e. inr (to (ground arith)), elim [ inl e ↦ rw (qe e) | inr h ↦ rw (other, from h) ])
    ]

name_repeats_iff : (n : Bytes) (ts : List TransportConfig) → (name_repeats n ts ≡ true) ↔ Named ts n
unfolding name_repeats
name_repeats_iff n [] = (λ e. cc, λ h. absurd h)
name_repeats_iff n (t ∷ ts) =
    let (to, from) = name_repeats_iff n ts in
    let (eq, qe) = str_eq_iff n t.name in
    elim (Bool-cases (str_eq n t.name)) [
      | inl same ↦ (λ _. inl (sym (eq same)), λ _. rw same)
      | inr other ↦ (
        λ e. inr (to (ground arith)),
        elim [ inl e ↦ rw (qe (sym e)) | inr h ↦ rw (other, from h) ],
      )
    ]

any_repeat_iff : (ts : List TransportConfig) → (any_repeat ts ≡ false) ↔ Distinct ts
unfolding any_repeat
any_repeat_iff [] = (λ _. tt, λ _. refl)
any_repeat_iff (t ∷ ts) =
    let (to, from) = any_repeat_iff ts in
    let (found, finds) = name_repeats_iff t.name ts in
    elim (Bool-cases (name_repeats t.name ts)) [
      | inl again ↦ (λ e. absurd (ground arith), λ d. absurd (d.0 (found again)))
      | inr once ↦ (
        λ e. (λ h. absurd (ground (arith, finds h)), to (ground arith)),
        λ d. rw (once, from d.1),
      )
    ]

channels_exist_iff :
    (ts : List TransportConfig) (cs : List ChannelConfig)
    → (channels_exist ts cs ≡ true) ↔ All (λ (h : ChannelConfig). Named ts h.transport) cs
unfolding channels_exist
channels_exist_iff ts [] = (λ _. tt, λ _. refl)
channels_exist_iff ts (c ∷ cs) =
    let (to, from) = channels_exist_iff ts cs in
    let (found, finds) = transport_exists_iff ts c.transport in
    (λ e. (found (ground arith), to (ground arith)), λ h. rw (finds h.0, from h.1))

routes_exist_iff :
    (ts : List TransportConfig) (rs : List RouteConfig)
    → (routes_exist ts rs ≡ true) ↔ All (λ (r : RouteConfig). Named ts r.transport) rs
unfolding routes_exist
routes_exist_iff ts [] = (λ _. tt, λ _. refl)
routes_exist_iff ts (r ∷ rs) =
    let (to, from) = routes_exist_iff ts rs in
    let (found, finds) = transport_exists_iff ts r.transport in
    (λ e. (found (ground arith), to (ground arith)), λ h. rw (finds h.0, from h.1))

length-zero : (ts : List TransportConfig) → (length ts == 0) ≡ false → ts ≢ []
length-zero ts h e = absurd (ground arith)

length-pos : (ts : List TransportConfig) → ts ≢ [] → (length ts == 0) ≡ false
length-pos [] h = absurd (h refl)
length-pos (t ∷ ts) h = ground arith

-- `bc_config_validate` returns BC_OK exactly for a configuration with a node number, at least one
-- transport, no name given to two of them, and only channels and routes over transports that are
-- there.
pub validate_iff : (c : Config) → (validate c ≡ ok) ↔ IsValid c
unfolding validate
validate_iff c = (
  λ e. record {
    node_id_set = ground arith;
    some_transport = length-zero c.transports (ground arith);
    distinct = (any_repeat_iff c.transports).0 (ground arith);
    channels_named = (channels_exist_iff c.transports c.channels).0 (ground arith);
    routes_named = (routes_exist_iff c.transports c.routes).0 (ground arith);
  },
  λ v. ground (
    arith,
    v.node_id_set,
    length-pos c.transports v.some_transport,
    (any_repeat_iff c.transports).1 v.distinct,
    (channels_exist_iff c.transports c.channels).1 v.channels_named,
    (routes_exist_iff c.transports c.routes).1 v.routes_named,
  ),
)
