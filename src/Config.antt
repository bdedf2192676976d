-- ===== src/Config.antt =====
-- src/daemon/config.h and the parts of src/daemon/config.c that do not read text: the defaults, the
-- options of a transport line and the validation of a configuration.
pub mod Numbers
pub mod Word
pub mod Scan
pub mod Load
pub mod Valid
pub mod Bounds
pub mod SocketUid
mod Tests
use boardcommd.Base.{
  ℕ, suc, ◌+◌, ◌-◌, ◌*◌, ◌<◌, Bool, true, false, ◌&&◌, ◌||◌, not, List, [], ◌∷◌, Bytes, Option,
  none, some, ◌==◌, ltb, length, take, drop, str_eq, if◌then◌else◌,
}
use boardcommd.Types.{Status, ok, invalid, not_found}
use boardcommd.Topic.{strn_eq}
use Numbers.{ℤ, pos, negsuc, atoi, is_neg, is_positive}
use Word

abbrev pub max_transports : ℕ
max_transports = 8

abbrev pub max_routes : ℕ
max_routes = 32

abbrev pub max_channels : ℕ
max_channels = 32

-- `bc_transport_type_t`
pub data TransportType : Type 0 where
  udp udp_kcp tcp uart : TransportType

-- BC_TCP_ROLE_AUTO and BC_UART_GPIO_NONE
abbrev pub minus_one : ℤ
minus_one = negsuc 0

-- `bc_transport_config_t`; `uart_mode` is BC_UART_MODE_232 or BC_UART_MODE_485.
pub record TransportConfig : Type 0 where
  pub name : Bytes
  pub type : TransportType
  pub endpoint : Bytes
  pub local_port : ℤ
  pub baudrate : ℤ
  pub tcp_listen : ℤ
  pub kcp_conv : ℤ
  pub uart_mode : ℕ
  pub rs485_de_gpio : ℤ

-- `bc_route_config_t`
pub record RouteConfig : Type 0 where
  pub topic : Bytes
  pub transport : Bytes

-- `bc_channel_config_t`
pub record ChannelConfig : Type 0 where
  pub name : Bytes
  pub transport : Bytes

-- `bc_config_t`; the counts are the lengths of the lists.
pub record Config : Type 0 where
  pub node_id : ℕ
  pub socket_path : Bytes
  pub socket_uid : ℕ
  pub require_route : Bool
  pub bridge_broadcast : Bool
  pub plugins : List Bytes
  pub transports : List TransportConfig
  pub channels : List ChannelConfig
  pub routes : List RouteConfig

unfoldable pub parse_transport_type : Bytes → TransportType
unfolding str_eq
parse_transport_type value =
    if str_eq value Word.tcp
    then tcp
    else if str_eq value Word.uart
        || (str_eq value Word.uart232 || (str_eq value Word.uart485 || str_eq value Word.rs485))
    then uart
    else if str_eq value Word.udpkcp
    then udp_kcp
    else udp

-- `extra == NULL || extra[0] == '\0'`
abbrev pub is_missing : Option Bytes → Bool
is_missing none = true
is_missing (some []) = true
is_missing (some (c ∷ cs)) = false

abbrev pub text_of : Option Bytes → Bytes
text_of none = []
text_of (some t) = t

unfoldable pub parse_kcp_conv : TransportConfig → Option Bytes → TransportConfig
parse_kcp_conv t extra =
    let base = record t { kcp_conv = pos 0 } in
    let conv = atoi (text_of extra) in
    if is_missing extra
    then base
    else if is_positive conv
    then record base { kcp_conv = conv }
    else base

unfoldable pub parse_uart_options : TransportConfig → Bytes → Option Bytes → TransportConfig
parse_uart_options t type extra =
    let is_485 = str_eq type Word.uart485 || str_eq type Word.rs485 in
    let mode : ℕ = if is_485 then 1 else 0 in
    let base = record t { uart_mode = mode; rs485_de_gpio = minus_one } in
    let text = text_of extra in
    if is_missing extra
    then base
    else if strn_eq 4 text Word.mode_485_gpio
    then record base { uart_mode = 1; rs485_de_gpio = atoi (drop 4 text) }
    else if str_eq text Word.mode_485
    then record base { uart_mode = 1 }
    else if str_eq text Word.mode_232
    then record base { uart_mode = 0 }
    else if is_485 && not (is_neg (atoi text))
    then record base { rs485_de_gpio = atoi text }
    else base

unfoldable pub parse_tcp_role : TransportConfig → Option Bytes → TransportConfig
parse_tcp_role t role =
    let text = text_of role in
    if is_missing role
    then record t { tcp_listen = minus_one }
    else if str_eq text Word.server || str_eq text Word.listen
    then record t { tcp_listen = pos 1 }
    else if str_eq text Word.client || str_eq text Word.connect
    then record t { tcp_listen = pos 0 }
    else record t { tcp_listen = minus_one }

-- `bc_config_load_defaults`
unfoldable pub defaults : Config
defaults = record {
  node_id = 1;
  socket_path = Word.socket_path;
  socket_uid = 0;
  require_route = false;
  bridge_broadcast = true;
  plugins = [];
  transports =
      (record {
        name = Word.udp0;
        type = udp;
        endpoint = Word.local_9101;
        local_port = pos 9100;
        baudrate = pos 0;
        tcp_listen = pos 0;
        kcp_conv = pos 0;
        uart_mode = 0;
        rs485_de_gpio = pos 0;
      })
      ∷ [];
  channels = (record { name = Word.default; transport = Word.udp0 }) ∷ [];
  routes = (record { topic = Word.any; transport = Word.udp0 }) ∷ [];
}

unfoldable pub transport_exists : List TransportConfig → Bytes → Bool
transport_exists [] name = false
transport_exists (t ∷ ts) name = str_eq t.name name || transport_exists ts name

-- the inner loop over `j`: a later transport of the same name
unfoldable pub name_repeats : Bytes → List TransportConfig → Bool
name_repeats name [] = false
name_repeats name (t ∷ ts) = str_eq name t.name || name_repeats name ts

-- the outer loop over `i`
unfoldable pub any_repeat : List TransportConfig → Bool
unfolding name_repeats
any_repeat [] = false
any_repeat (t ∷ ts) = name_repeats t.name ts || any_repeat ts

-- the loop over the channels
unfoldable pub channels_exist : List TransportConfig → List ChannelConfig → Bool
channels_exist ts [] = true
channels_exist ts (c ∷ cs) = transport_exists ts c.transport && channels_exist ts cs

-- the loop over the routes
unfoldable pub routes_exist : List TransportConfig → List RouteConfig → Bool
routes_exist ts [] = true
routes_exist ts (r ∷ rs) = transport_exists ts r.transport && routes_exist ts rs

-- `bc_config_validate`
unfoldable pub validate : Config → Status
validate cfg =
    if cfg.node_id == 0
    then invalid
    else if length cfg.transports == 0
    then not_found
    else if any_repeat cfg.transports
    then invalid
    else if not (channels_exist cfg.transports cfg.channels)
    then not_found
    else if not (routes_exist cfg.transports cfg.routes)
    then not_found
    else ok
