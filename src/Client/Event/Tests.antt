-- ===== src/Client/Event/Tests.antt =====
-- A delivery to a client, at concrete inputs.
use boardcommd.Base.{ℕ, ◌+◌, ◌%◌, ◌≡◌, refl, arith, Bool, List, [], ◌∷◌, some, none, Bytes}
use boardcommd.Types.{Status, ok, io, Result, fail}
use boardcommd.Shm.{Ring}
use boardcommd.Shm.Write.{ring}
use boardcommd.Shm.Queue.{IsRing}
use boardcommd.Client.{Tx}
use boardcommd.Client.Table.{Session, ClientCtx, find_client, deliver_to_client}
use boardcommd.Bus.{Bus, init}
use boardcommd.Config.{defaults}
use boardcommd.Client.Event.{close_client}
use boardcommd.Client.Event.Close.{Distinct, Closed, close_client_lem}
use boardcommd.Client.Table.Deliver.{DeliveredTo, deliver_to_client_lem}

-- a world that counts the calls
abbrev count : ℕ → Bool → ℕ → Status × ℕ
count fd out w = (ok, w + 1)

abbrev at_end : Tx
at_end = record { off = 4194301; len = 3; buf = λ j. j % 7 }

abbrev empty_ring : Ring
empty_ring = ring 4294967295 4294967295 (λ _. 0)

empty-IsRing : IsRing empty_ring []
empty-IsRing = record {
  size_is = refl;
  head_fits = omega arith;
  tail_fits = omega arith;
  used = refl;
  fits = omega arith;
  held = tt;
}

abbrev with_shm : ClientCtx
with_shm = record {
  fd = 7;
  rx = [];
  tx = at_end;
  shm = some (record { rx = empty_ring; tx = empty_ring });
}

abbrev clients : List ClientCtx
clients = record { fd = 6; rx = 1 ∷ []; tx = at_end; shm = none } ∷ with_shm ∷ []

found : find_client clients 7 ≡ some with_shm
unfolding find_client
found = refl

deliver_to_client_lem_example :
    let (rc, (cs', w')) = deliver_to_client count 7 (8 ∷ 9 ∷ []) (clients, 0) in
    DeliveredTo clients 7 with_shm [] (8 ∷ 9 ∷ []) rc cs'
deliver_to_client_lem_example =
    deliver_to_client_lem count clients 7 with_shm [] (8 ∷ 9 ∷ []) 0 found
      (record { within = omega arith }) empty-IsRing

abbrev bus : Bus
bus = record (init (record { config = defaults; transports = [] })) {
  subscriptions = record { fd = 6; topic = b'*' ∷ [] } ∷ record { fd = 7; topic = b'*' ∷ [] } ∷ [];
}

abbrev step : ℕ → ℕ → ℕ
step fd w = w + 1

abbrev no_send : ℕ → Bytes → ℕ → Status × ℕ
no_send t frame w = (io, w)

abbrev no_shm : ℕ → Result Session × ℕ
no_shm w = (fail io, w)

abbrev no_pass : ℕ → ℕ → Status × ℕ
no_pass fd w = (io, w)

abbrev unmapped : Session → ℕ → ℕ
unmapped x w = w + 1

clients-Distinct : Distinct clients
unfolding find_client
clients-Distinct = (refl, (refl, tt))

close_client_lem_example :
    let (b', (cs', w')) =
      close_client count step step no_send no_shm no_pass unmapped 7 (bus, (clients, 0)) in
    Closed 7 bus clients b' cs'
close_client_lem_example =
    close_client_lem count step step no_send no_shm no_pass unmapped 7 bus clients 0
      clients-Distinct
