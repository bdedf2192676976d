-- ===== src/Endpoint/Tests.antt =====
-- An endpoint, parsed.
use boardcommd.Base.{◌≡◌, refl, some, codes}
use boardcommd.Types.{ok}
use boardcommd.Config.Numbers.{pos, atoi}
use boardcommd.Endpoint.{parse_endpoint, split_last}

parses : parse_endpoint (codes "10.0.0.2:9000") 64 ≡ (ok, some (codes "10.0.0.2", pos 9000))
unfolding parse_endpoint split_last atoi
parses = refl
