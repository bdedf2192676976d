-- ===== src/Reactor.antt =====
-- The event loop of src/daemon/reactor.c.
pub mod Table
mod Tests
use boardcommd.Base.{ℕ, Bool, true, false, List, [], ◌∷◌, Option, none, some, ◌==◌, if◌then◌else◌}
use boardcommd.Types.{Status, ok, io, nomem, not_found}

-- `bc_reactor_event`: `address` is where it stands in memory, and `cb` the callback with its
-- argument `user`.
pub record Item (C : Type 0) : Type 0 where
  pub address : ℕ
  pub fd : ℕ
  pub cb : C

-- `bc_reactor_t`; `has_epoll` is `epoll_fd >= 0`.
pub record Reactor (C : Type 0) : Type 0 where
  pub has_epoll : Bool
  pub stop : Bool
  pub events : List (Item C)

module _ {C : Type 0} where
  -- `find_event`
  unfoldable pub find_event : List (Item C) → ℕ → Option (Item C)
  find_event [] fd = none
  find_event (i ∷ is) fd = if i.fd == fd then some i else find_event is fd

  -- the fields that `bc_reactor_mod` writes, in the item that `find_event` finds
  unfoldable pub set_cb : List (Item C) → ℕ → C → List (Item C)
  set_cb [] fd cb = []
  set_cb (i ∷ is) fd cb = if i.fd == fd then record i { cb = cb } ∷ is else i ∷ set_cb is fd cb

  -- `link_event`
  abbrev pub link_event : Item C → List (Item C) → List (Item C)
  link_event i is = i ∷ is

  -- `unlink_event`
  unfoldable pub unlink_event : List (Item C) → ℕ → List (Item C)
  unlink_event [] fd = []
  unlink_event (i ∷ is) fd = if i.fd == fd then is else i ∷ unlink_event is fd

  -- `bc_reactor_init`; whether `epoll_create1` succeeds
  abbrev pub reactor_init : Bool → Status × Reactor C
  reactor_init created =
      ((if created then ok else io), record { has_epoll = created; stop = false; events = [] })

  -- `bc_reactor_close`
  abbrev pub reactor_close : Reactor C → Reactor C
  reactor_close r = record r { has_epoll = false; events = [] }

  -- `bc_reactor_add`, with the address that `calloc` gives, if it does, and whether `epoll_ctl`
  -- succeeds
  unfoldable pub reactor_add : Option ℕ → Bool → ℕ → C → Reactor C → Status × Reactor C
  reactor_add none added fd cb r = (nomem, r)
  reactor_add (some address) added fd cb r =
      let item : Item C = record { address = address; fd = fd; cb = cb } in
      if added then (ok, record r { events = link_event item r.events }) else (io, r)

  -- `bc_reactor_mod`, with whether `epoll_ctl` succeeds
  unfoldable pub reactor_mod : Bool → ℕ → C → Reactor C → Status × Reactor C
  reactor_mod changed fd cb r =
      let r' = record r { events = set_cb r.events fd cb } in
      elim (find_event r.events fd) [
        | none ↦ (not_found, r)
        | some i ↦ ((if changed then ok else io), r')
      ]

  -- `bc_reactor_del`
  abbrev pub reactor_del : ℕ → Reactor C → Reactor C
  reactor_del fd r = record r { events = unlink_event r.events fd }

  -- `bc_reactor_stop`
  abbrev pub reactor_stop : Reactor C → Reactor C
  reactor_stop r = record r { stop = true }

  -- The item at an address; none if there is no item there, or it has been freed.
  unfoldable pub item_at : List (Item C) → ℕ → Option (Item C)
  item_at [] address = none
  item_at (i ∷ is) address = if i.address == address then some i else item_at is address

-- What a run of the loop comes to.
pub data Run (S : Type 0) : Type 0 where
  freed : Run S
  running : S → Run S
  returned : S → Run S

-- `call` is what a callback does, with the events that it is given; it may use the reactor.
module _ {C E W : Type 0} (call : C → ℕ → E → Reactor C × W → Reactor C × W) where
  -- The loop over the events that `epoll_wait` gave, each with the address of its item. The result
  -- is none if the address of a freed item is read, for which C has no result.
  unfoldable pub run_events : List (ℕ × E) → Reactor C × W → Option (Reactor C × W)
  run_events [] s = some s
  run_events ((address, e) ∷ later) s = elim (item_at s.0.events address) [
    | none ↦ none
    | some i ↦ run_events later (call i.cb i.fd e s)
  ]

  -- `bc_reactor_run`, with what each call of `epoll_wait` gives; no events stand for a call that
  -- fails.
  unfoldable pub reactor_run : List (List (ℕ × E)) → Reactor C × W → Run (Reactor C × W)
  reactor_run [] s = if s.0.stop then returned s else running s
  reactor_run (batch ∷ batches) s =
      let next : Run (Reactor C × W) = elim (run_events batch s) [
        | none ↦ freed
        | some s' ↦ reactor_run batches s'
      ] in
      if s.0.stop then returned s else next
