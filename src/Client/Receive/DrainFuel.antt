-- ===== src/Client/Receive/DrainFuel.antt =====
-- `drain_client_shm` of src/daemon/client_manager.c returns.
use boardcommd.Base.{
  ℕ, zero, suc, ◌+◌, ◌-◌, ◌≤◌, ◌<◌, ◌≡◌, ◌⊎◌, subst, sym, refl, Bytes, [], Option, none, some, ltb,
  arith, u32, u32_mod, ◌%◌, rd32, Bool-cases, inl, inr, if_intro, if◌then◌else◌,
}
use boardcommd.Types.{Status, ok, invalid, not_found}
use boardcommd.Shm.{Ring, ring_data, ring_peek_len, ring_read, load_bytes}
use boardcommd.Client.Frame.{Request, client_frame_max}
use boardcommd.Client.Receive.{process_frame_buffer, after_read, after_frame, drain_ring}
use boardcommd.Client.Receive.Fuel.{Returns}

-- the positions of a ring are words of 32 bits.
pub record HasWords (r : Ring) : Type 0 where
  pub head_fits : r.head < u32_mod
  pub tail_fits : r.tail < u32_mod

retreat :
    (head tail len : ℕ)
    → head < u32_mod
    → tail < u32_mod
    → 4 + len ≤ u32 (head + u32_mod - tail)
    → u32 (head + u32_mod - u32 (tail + u32 (4 + u32 len))) < u32 (head + u32_mod - tail)
retreat head tail len h t e = omega arith

-- What a read leaves in the ring.
abbrev Less : Ring → Status × Ring × Option Bytes → Type 0
Less r (rc, r', out) = HasWords r' × (rc ≡ ok → ring_data r' < ring_data r)

-- What `ring_peek_len` finds.
peek_cases :
    (r : Ring)
    → (ring_peek_len r ≡ (not_found, none))
      ⊎ ((len : ℕ) × (ring_peek_len r ≡ (ok, some len)) × (4 + len ≤ ring_data r))
unfolding ring_peek_len
peek_cases r =
    let len = rd32 (load_bytes r.bytes r.size (r.tail % r.size) 0 4) in
    elim (Bool-cases (ltb (ring_data r) 4)) [
      | inl e ↦ inl (rw (e) refl)
      | inr e ↦ elim (Bool-cases (ltb (ring_data r) (4 + len))) [
        | inl f ↦ inl (rw (e, f) refl)
        | inr f ↦ inr (len, rw (e, f) refl, ground (arith, f))
      ]
    ]

read_none :
    (r : Ring) (room : ℕ)
    → ring_peek_len r ≡ (not_found, none)
    → ring_read r room ≡ (not_found, r, none)
unfolding ring_read
read_none r room e = rw (ring_read, e, e) refl

read_some :
    (r : Ring) (room len : ℕ)
    → ring_peek_len r ≡ (ok, some len)
    → ring_read r room ≡ (
        if ltb room len then (invalid, r, none) else (
          ok,
          record r { tail = u32 (r.tail + u32 (4 + u32 len)) },
          some (load_bytes r.bytes r.size (u32 (r.tail + 4) % r.size) 0 len),
        ))
unfolding ring_read
read_some r room len e = rw (ring_read, e) refl

ring_read-Less : (r : Ring) (room : ℕ) → HasWords r → Less r (ring_read r room)
ring_read-Less r room v = elim (peek_cases r) [
  | inl e ↦ subst (Less r) (sym (read_none r room e)) (v, λ f. ground (arith, f))
  | inr (len, e, f) ↦
      let less = retreat r.head r.tail len v.head_fits v.tail_fits f in
      subst (Less r) (sym (read_some r room len e)) (
        if_intro (Less r) (ltb room len) (λ _. (v, λ g. ground (arith, g)))
          (λ _. (record { head_fits = v.head_fits; tail_fits = omega arith }, λ _. less)))
]

module _ {S : Type 0} (handle : Request → S → Status × S) where
  after_frame-Returns :
      (rc : Status) (rest : Option Status × (Ring × S)) (t : Ring × S)
      → Returns rest
      → Returns (after_frame handle rc rest t)
  after_frame-Returns ok rest t h = h
  after_frame-Returns other rest t h = (_, refl)

  after_read-Returns :
      (rc : Status) (decoded : Option Status × (Ring × S)) (t : Ring × S)
      → (rc ≡ ok → Returns decoded)
      → Returns (after_read handle rc decoded t)
  after_read-Returns ok decoded t h = h refl
  after_read-Returns not_found decoded t h = (_, refl)
  after_read-Returns other decoded t h = (_, refl)

  -- `drain_client_shm` returns, whatever lies in the ring, if nothing is written to it meanwhile: a
  -- round that goes on has taken at least four bytes out of it, so that one round more than there are
  -- bytes is enough.
  pub drain_ring-Returns :
      (n : ℕ) (rx : Ring) (s : S)
      → HasWords rx
      → ring_data rx < n
      → Returns (drain_ring handle n rx s)
  unfolding drain_ring
  drain_ring-Returns zero rx s v h = elim h [ ]
  drain_ring-Returns (suc n) rx s v h =
      let (rc, rx', out) = ring_read rx client_frame_max in
      let (words, less) : Less rx (ring_read rx client_frame_max) =
        ring_read-Less rx client_frame_max v in
      let frame : Bytes = elim out [ some bs ↦ bs | none ↦ [] ] in
      let (rc', s') = process_frame_buffer handle frame s in
      after_read-Returns rc _ (rx', s)
        (λ e.
          after_frame-Returns rc' (drain_ring handle n rx' s') (rx', s')
            (drain_ring-Returns n rx' s' words (omega (arith, less e, h))))
