-- ===== src/Client/Receive.antt =====
-- How src/daemon/client_manager.c works through the bytes and the frames that a client sends:
-- `process_frame_buffer`, `process_one_message`, `process_messages` and `drain_client_shm`.
pub mod Fuel
pub mod Serve
pub mod DrainFuel
pub mod Drain
pub mod Stuck
mod Tests
use boardcommd.Base.{ℕ, zero, suc, List, [], Bytes, Option, none, some, take, drop}
use boardcommd.Types.{Status, ok, not_found, Result, done, fail}
use boardcommd.Shm.{Ring, ring_read}
use boardcommd.Client.Frame.{Request, parse_frame, next_frame, client_frame_max}

-- `handle` is `process_ipc_payload` for the client; it changes the state `S` of the daemon, in
-- which neither the receive buffer nor the ring that is read lies.
module _ {S : Type 0} (handle : Request → S → Status × S) where
  -- the call of `process_ipc_payload`, if the frame has passed the checks
  abbrev pub handle_parsed : Result Request → S → Status × S
  handle_parsed (fail e) s = (e, s)
  handle_parsed (done r) s = handle r s

  -- `process_frame_buffer`
  unfoldable pub process_frame_buffer : Bytes → S → Status × S
  process_frame_buffer frame s = handle_parsed (parse_frame frame) s

  -- the end of `process_one_message`: the frame of `n` bytes is removed, if it was processed.
  abbrev pub consume : Status → ℕ → Bytes → S → Status × (Bytes × S)
  consume ok n rx s = (ok, (drop n rx, s))
  consume other n rx s = (other, (rx, s))

  -- `process_one_message` once it has looked at the header
  abbrev pub take_message : Result ℕ → Bytes → S → Status × (Bytes × S)
  take_message (fail e) rx s = (e, (rx, s))
  take_message (done n) rx s =
      let (rc, s') = process_frame_buffer (take n rx) s in consume rc n rx s'

  -- `process_one_message`, on the bytes in `rx_buf`
  unfoldable pub process_one_message : Bytes → S → Status × (Bytes × S)
  process_one_message rx s = take_message (next_frame rx) rx s

  -- what `process_messages` does after a call of `process_one_message`
  abbrev pub next_message :
      Status → Option Status × (Bytes × S) → Bytes × S → Option Status × (Bytes × S)
  next_message ok rest t = rest
  next_message not_found rest t = (some ok, t)
  next_message other rest t = (some other, t)

  -- `process_messages` for `n` rounds; no status if it would go on.
  unfoldable pub process_messages : ℕ → Bytes → S → Option Status × (Bytes × S)
  process_messages zero rx s = (none, (rx, s))
  process_messages (suc n) rx s =
      let (rc, (rx', s')) = process_one_message rx s in
      let rest = process_messages n rx' s' in next_message rc rest (rx', s')

  -- what `drain_client_shm` does after a call of `bc_shm_ring_read`
  abbrev pub after_read :
      Status → Option Status × (Ring × S) → Ring × S → Option Status × (Ring × S)
  after_read ok processed t = processed
  after_read not_found processed t = (some ok, t)
  after_read other processed t = (some other, t)

  -- and after a call of `process_frame_buffer`
  abbrev pub after_frame :
      Status → Option Status × (Ring × S) → Ring × S → Option Status × (Ring × S)
  after_frame ok rest t = rest
  after_frame other rest t = (some other, t)

  -- `drain_client_shm` for `n` rounds, on the ring `shm->rx`
  unfoldable pub drain_ring : ℕ → Ring → S → Option Status × (Ring × S)
  drain_ring zero rx s = (none, (rx, s))
  drain_ring (suc n) rx s =
      let (rc, rx', out) = ring_read rx client_frame_max in
      let frame : Bytes = elim out [ some bs ↦ bs | none ↦ [] ] in
      let (rc', s') = process_frame_buffer frame s in
      let rest = drain_ring n rx' s' in after_read rc (after_frame rc' rest (rx', s')) (rx', s)
