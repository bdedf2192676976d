-- ===== src/Reactor/Tests.antt =====
-- The event loop at concrete inputs.
use boardcommd.Base.{
  ℕ, ◌+◌, ◌≡◌, ◌↔◌, refl, Bool, true, false, [], ◌∷◌, none, some, ◌==◌, arith, if◌then◌else◌,
}
use boardcommd.Types.{not_found}
use boardcommd.Reactor.{
  Reactor, freed, find_event, item_at, unlink_event, reactor_add, reactor_mod, reactor_del,
  run_events, reactor_run,
}
use boardcommd.Reactor.Table.{IsTable, watches, changed, reactor_lem}

-- two descriptors; the callback is a descriptor that it removes, or 0 for none.
abbrev two : Reactor ℕ
two = record {
  has_epoll = true;
  stop = false;
  events =
      record { address = 100; fd = 7; cb = 8 } ∷ (record { address = 200; fd = 8; cb = 0 } ∷ []);
}

abbrev remove : ℕ → ℕ → Bool → Reactor ℕ × ℕ → Reactor ℕ × ℕ
remove cb fd e (r, w) = ((if cb == 0 then r else reactor_del cb r), w + 1)

reactor_lem_example :
    let added = (reactor_add (some 300) true 9 5 two).1 in
    let (rc, modified) = reactor_mod true 9 5 two in
    let deleted = reactor_del 9 two in
    (find_event two.events 9 ≡ none
      → (watches added 7 ≡ (if 9 == 7 then some 5 else watches two 7)) × IsTable added.events)
    × ((rc ≡ not_found) ↔ (watches two 9 ≡ none))
    × (watches modified 7 ≡ changed (9 == 7) (watches two 7) 5)
    × IsTable modified.events
    × (watches deleted 7 ≡ (if 9 == 7 then none else watches two 7))
    × IsTable deleted.events
reactor_lem_example = reactor_lem two 9 300 7 5 true (omega arith)

loop_runs : reactor_run remove (((100, true) ∷ ((200, true) ∷ [])) ∷ []) (two, 0) ≡ freed
unfolding reactor_run run_events item_at unlink_event
loop_runs = refl
