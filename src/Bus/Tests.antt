-- ===== src/Bus/Tests.antt =====
-- Runs of the bus, and its theorems at concrete inputs.
use boardcommd.Base.{
  ℕ, ◌+◌, ◌≡◌, ◌≢◌, refl, true, [], ◌∷◌, codes, some, none, arith, Bytes, List, All, str_eq, ◌==◌,
  if◌then◌else◌,
}
use boardcommd.Types.{Status, ok, io, Message}
use boardcommd.Config.{defaults, TransportType}
use boardcommd.Config.Word
use boardcommd.Router.{Router}
use boardcommd.Bus.{Bus, Subscription, init, subscribe, subscribed, remove_client, add64}
use boardcommd.Bus.Subscriptions.{keep, remove_client_lem}
use boardcommd.Bus.Table.{IsTable, distinct_nil, distinct_cons, Subscribes, subscribe_lem}
use boardcommd.Bus.Send.{forward_message}
use boardcommd.Bus.Deliver.{deliver_local, deliver_frame}
use boardcommd.Bus.Publish.{publish, stamp}
use boardcommd.Bus.Inbound.{handle_inbound}
use boardcommd.Bus.Local.{recipients, outcome, successes, hand_all, deliver_local_lem}
use boardcommd.Bus.Keeps.{forward_message-excludes}
use boardcommd.Bus.Accounting.{Keeps, handle_inbound-Keeps}
use boardcommd.Bus.Verdict.{IsVerdict, local_outcome, publish-IsVerdict}

-- a world that counts the calls of `send` and of `deliver`
record World : Type 0 where
  sends_made : ℕ
  handed : ℕ

abbrev start : World
start = record { sends_made = 0; handed = 0 }

abbrev send : ℕ → Bytes → World → Status × World
send t frame w = (ok, record w { sends_made = w.sends_made + 1 })

-- Client 4 takes nothing.
abbrev deliver : ℕ → Bytes → World → Status × World
deliver fd frame w = if fd == 4 then (io, w) else (ok, record w { handed = w.handed + 1 })

abbrev two : List Subscription
two = (record { fd = 3; topic = codes "demo" }) ∷ ((record { fd = 4; topic = codes "*" }) ∷ [])

abbrev router : Router
router = record {
  config = defaults;
  transports = (record { name = Word.udp0; type = TransportType.udp; can_send = true }) ∷ [];
}

abbrev bus : Bus
bus = record (init router) { subscriptions = two; node_id = 1; has_deliver = true }

abbrev demo : Message
demo = record {
  src_node = 2;
  dst_node = 0;
  flags = 0;
  qos = 1;
  seq = 7;
  channel = [];
  topic = codes "demo";
  payload = 1 ∷ [];
}

two-IsTable : IsTable two
unfolding subscribed str_eq
two-IsTable = record {
  fits = omega arith;
  distinct = distinct_cons _ _ refl (distinct_cons _ _ refl distinct_nil);
}

remove_client_lem_example :
    remove_client bus 3 ≡ record bus { subscriptions = keep 3 bus.subscriptions }
unfolding init
remove_client_lem_example = remove_client_lem bus 3

subscribe_lem_example :
    let (rc, b') = subscribe bus 3 (some (codes "other")) in
    Subscribes 3 (codes "other") rc bus.subscriptions b'.subscriptions
unfolding init
subscribe_lem_example = subscribe_lem bus 3 (codes "other") two-IsTable (omega arith) (omega arith)

deliver_local_lem_example :
    let (went, w') =
      hand_all deliver bus.has_deliver
        (recipients none demo bus.subscriptions)
        (deliver_frame demo)
        start in
    deliver_local deliver none demo (bus, start) ≡ (
      outcome went,
      (
        record bus {
          stats = record (bus.stats) { rx_local = add64 bus.stats.rx_local (successes went) };
        },
        w',
      ),
    )
unfolding init
deliver_local_lem_example = deliver_local_lem deliver none demo bus start (omega arith)

-- a world that lists the transports that were sent on
abbrev listed : ℕ → Bytes → List ℕ → Status × List ℕ
listed t frame w = (ok, t ∷ w)

forward_message-excludes_example :
    All (λ t. t ≢ 0) ((forward_message listed demo (some 0) (bus, [])).1.1)
forward_message-excludes_example =
    forward_message-excludes listed (λ w. All (λ t. t ≢ 0) w) 0 (λ u _ w ne h. (ne, h)) demo bus []
      tt

handle_inbound-Keeps_example :
    Keeps bus ((handle_inbound send deliver demo (some 0) (bus, start)).1.0)
handle_inbound-Keeps_example = handle_inbound-Keeps send deliver demo (some 0) bus start

abbrev elsewhere : Message
elsewhere = record demo { dst_node = 9 }

publish-IsVerdict_example :
    IsVerdict bus.require_route
      (stamp bus demo).qos
      (local_outcome send deliver none (stamp bus demo) bus start)
      ((publish send deliver none demo (bus, start)).0)
unfolding init
publish-IsVerdict_example = publish-IsVerdict send deliver none demo bus start (omega arith)
