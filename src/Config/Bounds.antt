-- ===== src/Config/Bounds.antt =====
-- What bc_config_load of src/daemon/config.c fills in, whatever the file holds.
use boardcommd.Base.{
  ℕ, ◌<◌, ◌≤◌, ◌≡◌, ◌↔◌, refl, ap, Bool, true, false, ◌&&◌, List, [], ◌∷◌, ◌++◌, Bytes, Option,
  none, some, ◌==◌, ltb, leb, length, length-append, All, All-append, arith, if_intro, str_eq,
  codes, if◌then◌else◌,
}
use boardcommd.Types.{ok}
use boardcommd.Config.{
  TransportType, TransportConfig, RouteConfig, ChannelConfig, Config, tcp, udp, udp_kcp, uart,
  max_transports, max_channels, max_routes, parse_tcp_role, parse_kcp_conv, parse_uart_options,
  defaults,
}
use boardcommd.Config.Numbers.{pos_value}
use boardcommd.Config.Scan.{word, Field, scan, text_at, number_at, text_at-scan, fgets_lines}
use boardcommd.Config.Load.{
  node_id_format, socket_format, socket_uid_format, plugin_format, transport_format, channel_format,
  route_format, load_plugin, with_options, transport_of, load_transport, load_channel, load_route,
  load_kind, load_line, load_lines, emptied, config_load,
}
use boardcommd.Config.Valid.{IsValid, validate_iff}

-- An array with room for `n` entries is not overrun, and each entry is as it should be.
abbrev pub Holds : {A : Type 0} → ℕ → (A → Type 0) → List A → Type 0
Holds n P xs = (length xs ≤ n) × All P xs

abbrev pub FitsPlugin : Bytes → Type 0
FitsPlugin p = length p < 128

abbrev pub FitsTransport : TransportConfig → Type 0
FitsTransport t = (length t.name < 32) × (length t.endpoint < 128)

abbrev pub FitsChannel : ChannelConfig → Type 0
FitsChannel c = (length c.name < 32) × (length c.transport < 32)

abbrev pub FitsRoute : RouteConfig → Type 0
FitsRoute r = (length r.topic < 64) × (length r.transport < 32)

-- The arrays of `bc_config_t` have room for what they hold, and each string for its NUL.
pub record IsBounded (c : Config) : Type 0 where
  pub socket : length c.socket_path < 128
  pub plugins : Holds max_transports FitsPlugin c.plugins
  pub transports : Holds max_transports FitsTransport c.transports
  pub channels : Holds max_channels FitsChannel c.channels
  pub routes : Holds max_routes FitsRoute c.routes

add-Holds :
    {A : Type 0} (n : ℕ) (P : A → Type 0) (xs : List A) (x : A)
    → length xs < n
    → All P xs
    → P x
    → Holds n P (xs ++ (x ∷ []))
add-Holds n P xs x l h p =
    (omega (arith, length-append xs (x ∷ [])), All-append P xs (x ∷ []) h (p, tt))

-- the options leave the name and the endpoint alone.
abbrev Same : TransportConfig → TransportConfig → Type 0
Same t t' = (t'.name ≡ t.name) × (t'.endpoint ≡ t.endpoint)

role-Same : (t : TransportConfig) (role : Option Bytes) → Same t (parse_tcp_role t role)
unfolding parse_tcp_role
role-Same t role = ground arith

conv-Same : (t : TransportConfig) (role : Option Bytes) → Same t (parse_kcp_conv t role)
unfolding parse_kcp_conv
conv-Same t role = ground arith

uart-Same :
    (t : TransportConfig) (type : Bytes) (role : Option Bytes)
    → Same t (parse_uart_options t type role)
unfolding parse_uart_options
uart-Same t type role = ground arith

by_type-Same :
    (t a b c : TransportConfig) (type : TransportType)
    → Same t a
    → Same t b
    → Same t c
    → Same t (elim type [ tcp ↦ a | udp_kcp ↦ b | uart ↦ c | _ ↦ t ])
by_type-Same t a b c tcp x y z = x
by_type-Same t a b c udp_kcp x y z = y
by_type-Same t a b c uart x y z = z
by_type-Same t a b c udp x y z = (refl, refl)

with_options-Same : (fs : List Field) (t : TransportConfig) → Same t (with_options fs t)
unfolding with_options
with_options-Same fs t =
    let role = if leb 6 (length fs) then some (text_at fs 5) else none in
    let a = if leb 6 (length fs) then parse_tcp_role t role else t in
    let b = if leb 6 (length fs) then parse_kcp_conv t role else t in
    by_type-Same t a b (parse_uart_options t (text_at fs 1) role) t.type
      (if_intro (Same t) (leb 6 (length fs)) (λ _. role-Same t role) (λ _. (refl, refl)))
      (if_intro (Same t) (leb 6 (length fs)) (λ _. conv-Same t role) (λ _. (refl, refl)))
      (uart-Same t (text_at fs 1) role)

both : (b : Bool) {x y : Config} → IsBounded x → IsBounded y → IsBounded (if b then x else y)
both b h k = if_intro IsBounded b (λ _. h) (λ _. k)

module _ (cfg : Config) (i : IsBounded cfg) where
  load_plugin-IsBounded :
      (line : Bytes)
      → length cfg.plugins < max_transports
      → IsBounded (load_plugin (scan plugin_format line) cfg)
  unfolding load_plugin
  load_plugin-IsBounded line l =
      let fs = scan plugin_format line in
      let p = text_at-scan plugin_format line 0 in
      let h =
        add-Holds max_transports FitsPlugin cfg.plugins (text_at fs 0) l (i.plugins.1)
          (omega (arith, p)) in
      if_intro IsBounded (length fs == 1)
        (λ _. record {
          socket = i.socket;
          plugins = h;
          transports = i.transports;
          channels = i.channels;
          routes = i.routes;
        })
        (λ _. i)

  load_transport-IsBounded :
      (line : Bytes)
      → length cfg.transports < max_transports
      → IsBounded (load_transport (scan transport_format line) cfg)
  unfolding load_transport
  load_transport-IsBounded line l =
      let fs = scan transport_format line in
      let t = transport_of fs in
      let (same, same_endpoint) = with_options-Same fs t in
      let name = text_at-scan transport_format line 0 in
      let endpoint = text_at-scan transport_format line 2 in
      let h =
        add-Holds max_transports FitsTransport cfg.transports (with_options fs t) l (i.transports.1)
          (omega (arith, ap length same, name), omega (arith, ap length same_endpoint, endpoint)) in
      if_intro IsBounded (leb 4 (length fs))
        (λ _. record {
          socket = i.socket;
          plugins = i.plugins;
          transports = h;
          channels = i.channels;
          routes = i.routes;
        })
        (λ _. i)

  load_channel-IsBounded :
      (line : Bytes)
      → length cfg.channels < max_channels
      → IsBounded (load_channel (scan channel_format line) cfg)
  unfolding load_channel
  load_channel-IsBounded line l =
      let fs = scan channel_format line in
      let a = text_at-scan channel_format line 0 in
      let b = text_at-scan channel_format line 1 in
      let c : ChannelConfig = record { name = text_at fs 0; transport = text_at fs 1 } in
      let h =
        add-Holds max_channels FitsChannel cfg.channels c l (i.channels.1)
          (omega (arith, a), omega (arith, b)) in
      if_intro IsBounded (length fs == 2)
        (λ _. record {
          socket = i.socket;
          plugins = i.plugins;
          transports = i.transports;
          channels = h;
          routes = i.routes;
        })
        (λ _. i)

  load_route-IsBounded :
      (line : Bytes)
      → length cfg.routes < max_routes
      → IsBounded (load_route (scan route_format line) cfg)
  unfolding load_route
  load_route-IsBounded line l =
      let fs = scan route_format line in
      let a = text_at-scan route_format line 0 in
      let b = text_at-scan route_format line 1 in
      let c : RouteConfig = record { topic = text_at fs 0; transport = text_at fs 1 } in
      let h =
        add-Holds max_routes FitsRoute cfg.routes c l (i.routes.1)
          (omega (arith, a), omega (arith, b)) in
      if_intro IsBounded (length fs == 2)
        (λ _. record {
          socket = i.socket;
          plugins = i.plugins;
          transports = i.transports;
          channels = i.channels;
          routes = h;
        })
        (λ _. i)

  load_kind-IsBounded : (kind line : Bytes) → IsBounded (load_kind kind line cfg)
  unfolding load_kind
  load_kind-IsBounded kind line =
      if_intro IsBounded (str_eq kind (codes "plugin") && ltb (length cfg.plugins) max_transports)
        (λ e. load_plugin-IsBounded line (ground arith))
        (λ _.
          if_intro IsBounded
            (str_eq kind (codes "transport") && ltb (length cfg.transports) max_transports)
            (λ e. load_transport-IsBounded line (ground arith))
            (λ _.
              if_intro IsBounded
                (str_eq kind (codes "channel") && ltb (length cfg.channels) max_channels)
                (λ e. load_channel-IsBounded line (ground arith))
                (λ _.
                  if_intro IsBounded
                    (str_eq kind (codes "route") && ltb (length cfg.routes) max_routes)
                    (λ e. load_route-IsBounded line (ground arith)) (λ _. i))))

  with_socket-IsBounded : (s : Bytes) → length s < 128 → IsBounded (record cfg { socket_path = s })
  with_socket-IsBounded s l = record {
    socket = l;
    plugins = i.plugins;
    transports = i.transports;
    channels = i.channels;
    routes = i.routes;
  }

  -- what a change of the other fields leaves bounded
  same-IsBounded :
      (n u : ℕ) (r b : Bool)
      → IsBounded
          (record cfg { node_id = n; socket_uid = u; require_route = r; bridge_broadcast = b })
  same-IsBounded n u r b = record {
    socket = i.socket;
    plugins = i.plugins;
    transports = i.transports;
    channels = i.channels;
    routes = i.routes;
  }

  load_line-IsBounded : (line : Bytes) → IsBounded (load_line line cfg)
  unfolding load_line
  load_line-IsBounded line =
      let socket = scan socket_format line in
      let n = number_at (scan node_id_format line) 0 in
      let u = number_at (scan socket_uid_format line) 0 in
      let r = cfg.require_route in
      let b = cfg.bridge_broadcast in
      both _ i (
        both _ (same-IsBounded (pos_value n) cfg.socket_uid r b) (
          both _
            (with_socket-IsBounded (text_at socket 0)
              (omega (arith, text_at-scan socket_format line 0)))
            (both _ (same-IsBounded cfg.node_id (pos_value u) r b) (
              both _ (same-IsBounded cfg.node_id cfg.socket_uid true b) (
                both _ (same-IsBounded cfg.node_id cfg.socket_uid r false)
                  (both _ i (load_kind-IsBounded (text_at (scan (word 31 ∷ []) line) 0) line)))))))

load_lines-IsBounded :
    (ls : List Bytes) (cfg : Config) → IsBounded cfg → IsBounded (load_lines ls cfg)
unfolding load_lines
load_lines-IsBounded [] cfg i = i
load_lines-IsBounded (l ∷ ls) cfg i =
    load_lines-IsBounded ls (load_line l cfg) (load_line-IsBounded cfg i l)

emptied-IsBounded : IsBounded emptied
unfolding defaults
emptied-IsBounded = record {
  socket = omega arith;
  plugins = (omega arith, tt);
  transports = (omega arith, tt);
  channels = (omega arith, tt);
  routes = (omega arith, tt);
}

-- Whatever a configuration file holds, bc_config_load writes inside the arrays and the strings of
-- the record, and it returns BC_OK exactly if the node has an identifier, some transport is given,
-- no two transports share a name, and each channel and each route names one of the transports.
pub config_load-IsBounded :
    (file : Bytes)
    → let (rc, cfg) = config_load (some (some file)) in IsBounded cfg × ((rc ≡ ok) ↔ IsValid cfg)
unfolding config_load
config_load-IsBounded file =
    let ls = fgets_lines (length file) file in
    (load_lines-IsBounded ls emptied emptied-IsBounded, validate_iff (load_lines ls emptied))
