-- ===== src/Config/Tests.antt =====
-- Runs of the configuration functions, and their theorems at concrete inputs.
use boardcommd.Base.{◌≡◌, ◌↔◌, refl, some, [], ◌∷◌, ◌++◌, Bytes, codes, str_eq}
use boardcommd.Types.{ok, not_found, invalid}
use boardcommd.Config.{
  defaults, validate, any_repeat, name_repeats, channels_exist, routes_exist, transport_exists,
  parse_transport_type, parse_tcp_role, parse_kcp_conv, parse_uart_options,
}
use boardcommd.Config.Load.{
  config_load, load_lines, load_line, load_kind, load_transport, load_route, load_plugin,
  load_channel, with_options,
}
use boardcommd.Config.Scan.{
  scan, scan_number, skip_digits, take_word, take_line, c_string, fgets_lines,
}
use boardcommd.Topic.{strn_eq}
use boardcommd.Config.Bounds.{IsBounded, config_load-IsBounded}
use boardcommd.Config.SocketUid.{config_load-socket_uid}
use boardcommd.Config.Valid.{IsValid}
use boardcommd.Config.Numbers.{pos, negsuc, atoi, skip_space, digits_value}

validate_runs :
    (validate defaults ≡ ok)
    × (validate (record defaults { transports = [] }) ≡ not_found)
    × (validate (record defaults { node_id = 0 }) ≡ invalid)
    × (validate (record defaults {
      routes = (record { topic = codes "*"; transport = codes "tcp0" }) ∷ [];
    })
        ≡ not_found)
unfolding validate defaults any_repeat channels_exist routes_exist transport_exists str_eq
validate_runs = (refl, refl, refl, refl)

atoi_runs :
    (atoi (codes " 42x") ≡ pos 42) × (atoi (codes "-7") ≡ negsuc 6) × (atoi (codes "no") ≡ pos 0)
unfolding atoi
atoi_runs = (refl, refl, refl)

-- a transport, a route, and a user that may connect
abbrev board_conf : Bytes
board_conf =
    codes "# board\nnode_id 7\ntransport eth0 tcp 10.0.0.2:7788 7788 0 listen\n"
    ++ codes "route * eth0\nsocket_uid 1000\n"

config_load_runs :
    let (rc, cfg) = config_load (some (some board_conf)) in
    (rc ≡ ok) × (cfg.node_id ≡ 7) × (cfg.socket_path ≡ codes "_uid") × (cfg.socket_uid ≡ 0)
unfolding config_load load_lines load_line load_kind load_transport load_route load_plugin
    load_channel with_options parse_transport_type parse_tcp_role parse_kcp_conv parse_uart_options
    validate any_repeat name_repeats channels_exist routes_exist transport_exists scan scan_number
    skip_digits take_word take_line c_string fgets_lines skip_space digits_value strn_eq str_eq
    defaults
config_load_runs = (refl, refl, refl, refl)

config_load-IsBounded_example :
    let (rc, cfg) = config_load (some (some board_conf)) in
    IsBounded cfg × ((rc ≡ ok) ↔ IsValid cfg)
config_load-IsBounded_example = config_load-IsBounded board_conf

config_load-socket_uid_example :
    ((config_load (some (some board_conf))).1).socket_uid ≡ defaults.socket_uid
config_load-socket_uid_example = config_load-socket_uid board_conf
