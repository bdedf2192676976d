-- ===== src/Config/Load.antt =====
-- `bc_config_load` of src/daemon/config.c.
use boardcommd.Base.{
  true, false, not, ◌&&◌, ◌||◌, List, [], ◌∷◌, ◌++◌, Bytes, Option, none, some, ◌==◌, ltb, leb,
  length, get_or, str_eq, codes, if◌then◌else◌,
}
use boardcommd.Types.{Status, not_found}
use boardcommd.Topic.{strn_eq}
use boardcommd.Config.{
  TransportConfig, Config, tcp, udp_kcp, uart, minus_one, max_transports, max_channels, max_routes,
  parse_transport_type, parse_tcp_role, parse_kcp_conv, parse_uart_options, defaults, validate,
}
use boardcommd.Config.Numbers.{pos, pos_value}
use boardcommd.Config.Scan.{
  Directive, space, word, unsigned, signed, Field, literals, scan, text_at, number_at, fgets_lines,
}

-- the formats
abbrev pub node_id_format : List Directive
node_id_format = literals (codes "node_id") (space ∷ (unsigned ∷ []))

abbrev pub socket_format : List Directive
socket_format = literals (codes "socket") (space ∷ (word 127 ∷ []))

abbrev pub socket_uid_format : List Directive
socket_uid_format = literals (codes "socket_uid") (space ∷ (unsigned ∷ []))

abbrev pub plugin_format : List Directive
plugin_format = literals (codes "plugin") (space ∷ (word 127 ∷ []))

abbrev pub transport_format : List Directive
transport_format = literals (codes "transport") (
    space
    ∷ (word 31
        ∷ (space
            ∷ (word 15
                ∷ (space
                    ∷ (word 127
                        ∷ (space ∷ (signed ∷ (space ∷ (signed ∷ (space ∷ (word 15 ∷ []))))))))))))

abbrev pub channel_format : List Directive
channel_format = literals (codes "channel") (space ∷ (word 31 ∷ (space ∷ (word 31 ∷ []))))

abbrev pub route_format : List Directive
route_format = literals (codes "route") (space ∷ (word 63 ∷ (space ∷ (word 31 ∷ []))))

-- a plugin line
unfoldable pub load_plugin : List Field → Config → Config
load_plugin fs cfg =
    if length fs == 1 then record cfg { plugins = cfg.plugins ++ (text_at fs 0 ∷ []) } else cfg

-- the options of a transport, by its type; the last field is `role`.
unfoldable pub with_options : List Field → TransportConfig → TransportConfig
with_options fs t =
    let role = if leb 6 (length fs) then some (text_at fs 5) else none in
    let with_conv = if leb 6 (length fs) then parse_kcp_conv t role else t in
    let with_role = if leb 6 (length fs) then parse_tcp_role t role else t in
    elim t.type [
      | tcp ↦ with_role
      | udp_kcp ↦ with_conv
      | uart ↦ parse_uart_options t (text_at fs 1) role
      | _ ↦ t
    ]

-- the entry that a transport line fills
abbrev pub transport_of : List Field → TransportConfig
transport_of fs = record {
  name = text_at fs 0;
  type = parse_transport_type (text_at fs 1);
  endpoint = text_at fs 2;
  local_port = number_at fs 3;
  baudrate = number_at fs 4;
  tcp_listen = minus_one;
  kcp_conv = pos 0;
  uart_mode = 0;
  rs485_de_gpio = minus_one;
}

-- a transport line
unfoldable pub load_transport : List Field → Config → Config
load_transport fs cfg =
    if leb 4 (length fs)
    then record cfg { transports = cfg.transports ++ (with_options fs (transport_of fs) ∷ []) }
    else cfg

-- a channel line
unfoldable pub load_channel : List Field → Config → Config
load_channel fs cfg =
    if length fs == 2
    then record cfg {
      channels = cfg.channels ++ (record { name = text_at fs 0; transport = text_at fs 1 } ∷ []);
    }
    else cfg

-- a route line
unfoldable pub load_route : List Field → Config → Config
load_route fs cfg =
    if length fs == 2
    then record cfg {
      routes = cfg.routes ++ (record { topic = text_at fs 0; transport = text_at fs 1 } ∷ []);
    }
    else cfg

-- a line by its first word
unfoldable pub load_kind : Bytes → Bytes → Config → Config
load_kind kind line cfg =
    if str_eq kind (codes "plugin") && ltb (length cfg.plugins) max_transports
    then load_plugin (scan plugin_format line) cfg
    else if str_eq kind (codes "transport") && ltb (length cfg.transports) max_transports
    then load_transport (scan transport_format line) cfg
    else if str_eq kind (codes "channel") && ltb (length cfg.channels) max_channels
    then load_channel (scan channel_format line) cfg
    else if str_eq kind (codes "route") && ltb (length cfg.routes) max_routes
    then load_route (scan route_format line) cfg
    else cfg

-- one round of the loop
unfoldable pub load_line : Bytes → Config → Config
load_line line cfg =
    let node = scan node_id_format line in
    let socket = scan socket_format line in
    let uid = scan socket_uid_format line in
    let kind = scan (word 31 ∷ []) line in
    if (get_or line 0 0 == b'#') || (get_or line 0 0 == 10)
    then cfg
    else if length node == 1
    then record cfg { node_id = pos_value (number_at node 0) }
    else if length socket == 1
    then record cfg { socket_path = text_at socket 0 }
    else if length uid == 1
    then record cfg { socket_uid = pos_value (number_at uid 0) }
    else if strn_eq 13 line (codes "require_route")
    then record cfg { require_route = true }
    else if strn_eq 9 line (codes "no_bridge")
    then record cfg { bridge_broadcast = false }
    else if not (length kind == 1)
    then cfg
    else load_kind (text_at kind 0) line cfg

-- the loop over the lines
unfoldable pub load_lines : List Bytes → Config → Config
load_lines [] cfg = cfg
load_lines (l ∷ ls) cfg = load_lines ls (load_line l cfg)

-- the configuration before the first line of a file
abbrev pub emptied : Config
emptied = record defaults { plugins = []; transports = []; channels = []; routes = [] }

-- `bc_config_load`, without a path, and with one: what `fopen` finds there, if it succeeds.
unfoldable pub config_load : Option (Option Bytes) → Status × Config
config_load none = (validate defaults, defaults)
config_load (some none) = (not_found, defaults)
config_load (some (some file)) =
    let cfg = load_lines (fgets_lines (length file) file) emptied in (validate cfg, cfg)
