-- ===== src/Router/Tests.antt =====
-- Runs of the router, and its theorems at concrete inputs.
use boardcommd.Base.{◌≡◌, refl, true, [], ◌∷◌, codes, some, none, List, str_eq}
use boardcommd.Types.{ok, not_found, Message}
use boardcommd.Config.{
  TransportType, defaults, validate, any_repeat, channels_exist, routes_exist, transport_exists,
}
use boardcommd.Config.Word
use boardcommd.Topic.{topic_matches}
use boardcommd.Config.Valid.{IsValid, validate_iff}
use boardcommd.Router.{Router, Transport, route, find_transport}

abbrev opened : List Transport
opened = (record { name = Word.udp0; type = TransportType.udp; can_send = true }) ∷ []

abbrev router : Router
router = record { config = defaults; transports = opened }

abbrev plain : Message
plain = record {
  src_node = 1;
  dst_node = 0;
  flags = 0;
  qos = 0;
  seq = 1;
  channel = [];
  topic = codes "demo";
  payload = [];
}

abbrev on_channel : Message
on_channel = record plain { channel = codes "default" }

route_runs :
    (route router plain ≡ (ok, some 0))
    × (route router on_channel ≡ (ok, some 0))
    × (route router (record plain { channel = codes "x" }) ≡ (not_found, none))
unfolding route defaults find_transport topic_matches str_eq
route_runs = (refl, refl, refl)

validate-defaults : validate defaults ≡ ok
unfolding validate defaults any_repeat channels_exist routes_exist transport_exists str_eq
validate-defaults = refl

defaults-IsValid : IsValid defaults
defaults-IsValid = (validate_iff defaults).0 validate-defaults
