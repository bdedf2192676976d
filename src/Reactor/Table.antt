-- ===== src/Reactor/Table.antt =====
-- The table of src/daemon/reactor.c as a map from descriptors to callbacks.
use boardcommd.Base.{
  ℕ, ◌≡◌, ◌≢◌, refl, sym, ap, ◌∙◌, subst, Bool, true, false, List, [], ◌∷◌, Option, none, some,
  ◌==◌, All, arith, if◌then◌else◌, if_intro, ◌↔◌, Bool-cases, Option-cases, inl, inr,
}
use boardcommd.Types.{not_found}
use boardcommd.Reactor.{
  Item, Reactor, find_event, set_cb, unlink_event, reactor_add, reactor_mod, reactor_del,
}

module _ {C : Type 0} where
  -- the callback of a descriptor
  abbrev pub cb_of : Option (Item C) → Option C
  cb_of none = none
  cb_of (some i) = some i.cb

  abbrev pub watches : Reactor C → ℕ → Option C
  watches r fd = cb_of (find_event r.events fd)

  -- No descriptor is in the table twice.
  abbrev pub IsTable : List (Item C) → Type 0
  IsTable [] = Unit
  IsTable (i ∷ is) = All (λ j. j.fd ≢ i.fd) is × IsTable is

  find-none : (is : List (Item C)) (fd : ℕ) → All (λ j. j.fd ≢ fd) is → find_event is fd ≡ none
  unfolding find_event
  find-none [] fd h = refl
  find-none (i ∷ is) fd (h, hs) = ground (arith, h, find-none is fd hs)

  find-unlink :
      (is : List (Item C)) (fd other : ℕ)
      → IsTable is
      → find_event (unlink_event is fd) other ≡ (if fd == other then none else find_event is other)
  unfolding find_event unlink_event
  find-unlink [] fd other t = ground arith
  find-unlink (i ∷ is) fd other (h, t) = elim (Bool-cases (i.fd == fd)) [
    | inl here ↦ rw here (ground (arith, here, find-none is i.fd h))
    | inr further ↦ rw further (ground (arith, further, find-unlink is fd other t))
  ]

  -- `bc_reactor_mod` writes where the descriptor is found, and nowhere else.
  pub changed : Bool → Option C → C → Option C
  changed here none cb = none
  changed here (some old) cb = if here then some cb else some old

  changed_gone : (here : Bool) (cb : C) → changed here none cb ≡ none
  unfolding changed
  changed_gone here cb = refl

  changed_other : (o : Option C) (cb : C) → changed false o cb ≡ o
  unfolding changed
  changed_other none cb = refl
  changed_other (some old) cb = refl

  find-set_cb :
      (is : List (Item C)) (fd other : ℕ) (cb : C)
      → cb_of (find_event (set_cb is fd cb) other)
        ≡ changed (fd == other) (cb_of (find_event is other)) cb
  unfolding find_event set_cb changed
  find-set_cb [] fd other cb = refl
  find-set_cb (i ∷ is) fd other cb =
      let rest = changed_other (cb_of (find_event is other)) cb in
      elim (Bool-cases (i.fd == fd)) [
        | inl here ↦ rw here (ground (arith, here, rest))
        | inr further ↦ rw further (ground (arith, further, find-set_cb is fd other cb))
      ]

  unlink-All :
      (P : Item C → Type 0) (is : List (Item C)) (fd : ℕ) → All P is → All P (unlink_event is fd)
  unfolding unlink_event
  unlink-All P [] fd h = tt
  unlink-All P (i ∷ is) fd (h, hs) =
      if_intro (All P) (i.fd == fd) (λ _. hs) (λ _. (h, unlink-All P is fd hs))

  unlink-IsTable : (is : List (Item C)) (fd : ℕ) → IsTable is → IsTable (unlink_event is fd)
  unfolding unlink_event
  unlink-IsTable [] fd t = tt
  unlink-IsTable (i ∷ is) fd (h, t) =
      if_intro IsTable (i.fd == fd) (λ _. t)
        (λ _. (unlink-All (λ j. j.fd ≢ i.fd) is fd h, unlink-IsTable is fd t))

  set_cb-All :
      (fd : ℕ) (is : List (Item C)) (k : ℕ) (cb : C)
      → All (λ j. j.fd ≢ fd) is
      → All (λ j. j.fd ≢ fd) (set_cb is k cb)
  unfolding set_cb
  set_cb-All fd [] k cb h = tt
  set_cb-All fd (i ∷ is) k cb (h, hs) =
      if_intro (All (λ (j : Item C). j.fd ≢ fd)) (i.fd == k) (λ _. (h, hs))
        (λ _. (h, set_cb-All fd is k cb hs))

  set_cb-IsTable : (is : List (Item C)) (fd : ℕ) (cb : C) → IsTable is → IsTable (set_cb is fd cb)
  unfolding set_cb
  set_cb-IsTable [] fd cb t = tt
  set_cb-IsTable (i ∷ is) fd cb (h, t) =
      if_intro IsTable (i.fd == fd) (λ _. (h, t))
        (λ _. (set_cb-All i.fd is fd cb h, set_cb-IsTable is fd cb t))

  modified-IsTable :
      (r : Reactor C) (fd : ℕ) (cb : C) (success : Bool)
      → IsTable r.events
      → IsTable ((reactor_mod success fd cb r).1).events
  unfolding reactor_mod
  modified-IsTable r fd cb success t = elim (Option-cases (find_event r.events fd)) [
    | inl gone ↦ rw (gone, reactor_mod) t
    | inr (i, found) ↦ rw (found, reactor_mod) (set_cb-IsTable r.events fd cb t)
  ]

  find_none-All : (is : List (Item C)) (fd : ℕ) → find_event is fd ≡ none → All (λ j. j.fd ≢ fd) is
  unfolding find_event
  find_none-All [] fd e = tt
  find_none-All (i ∷ is) fd e = elim (Bool-cases (i.fd == fd)) [
    | inl here ↦ absurd (ground (arith, here, e))
    | inr further ↦ (ground (arith, further), find_none-All is fd (rw further at e))
  ]

  cb_of_if :
      (b : Bool) (x y : Option (Item C))
      → cb_of (if b then x else y) ≡ (if b then cb_of x else cb_of y)
  cb_of_if true x y = refl
  cb_of_if false x y = refl

  watches_link :
      (i : Item C) (is : List (Item C)) (other : ℕ)
      → cb_of (find_event (i ∷ is) other)
        ≡ (if i.fd == other then some i.cb else cb_of (find_event is other))
  unfolding find_event
  watches_link i is other = cb_of_if (i.fd == other) (some i) (find_event is other)

  changed-none :
      (is : List (Item C)) (fd other : ℕ) (cb : C)
      → find_event is fd ≡ none
      → cb_of (find_event is other) ≡ changed (fd == other) (cb_of (find_event is other)) cb
  changed-none is fd other cb e = elim (Bool-cases (fd == other)) [
    | inl same ↦
        let q : fd ≡ other = ground (arith, same) in
        let gone = ap cb_of (subst (λ (k : ℕ). find_event is k ≡ none) q e) in
        rw (same, gone) (sym (changed_gone true cb))
    | inr further ↦ rw further (sym (changed_other (cb_of (find_event is other)) cb))
  ]

  modified_lem :
      (r : Reactor C) (fd other : ℕ) (cb : C) (success : Bool)
      → watches ((reactor_mod success fd cb r).1) other ≡ changed (fd == other) (watches r other) cb
  unfolding reactor_mod
  modified_lem r fd other cb success = elim (Option-cases (find_event r.events fd)) [
    | inl gone ↦ rw (gone, reactor_mod) (changed-none r.events fd other cb gone)
    | inr (i, found) ↦ rw (found, reactor_mod) (find-set_cb r.events fd other cb)
  ]

  -- The table as a map. bc_reactor_add, when it returns BC_OK for a descriptor that was not watched,
  -- adds its callback; bc_reactor_mod returns BC_ERR_NOT_FOUND exactly for a descriptor that is not
  -- watched, and writes the callback of a watched one, also if it then returns BC_ERR_IO;
  -- bc_reactor_del removes the descriptor. None of them touches another descriptor, and in a
  -- table that has no descriptor twice, none of them brings one to be there twice.
  pub reactor_lem :
      (r : Reactor C) (fd address other : ℕ) (cb : C) (success : Bool)
      → IsTable r.events
      → let added = (reactor_add (some address) true fd cb r).1 in
        let (rc, modified) = reactor_mod success fd cb r in
        let deleted = reactor_del fd r in
        (find_event r.events fd ≡ none
          → (watches added other ≡ (if fd == other then some cb else watches r other))
            × IsTable added.events)
        × ((rc ≡ not_found) ↔ (watches r fd ≡ none))
        × (watches modified other ≡ changed (fd == other) (watches r other) cb)
        × IsTable modified.events
        × (watches deleted other ≡ (if fd == other then none else watches r other))
        × IsTable deleted.events
  unfolding reactor_add reactor_mod
  reactor_lem r fd address other cb success t = (
    λ e. (
      watches_link (record { address = address; fd = fd; cb = cb }) r.events other,
      (find_none-All r.events fd e, t),
    ),
    ground arith,
    modified_lem r fd other cb success,
    modified-IsTable r fd cb success t,
    ap cb_of (find-unlink r.events fd other t)
        ∙ cb_of_if (fd == other) none (find_event r.events other),
    unlink-IsTable r.events fd t,
  )
