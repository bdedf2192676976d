-- ===== src/Daemon.antt =====
-- How the daemon reads frames from its transports, of src/daemon/main.c.
pub mod Fuel
pub mod Stream
pub mod Pieces
mod Tests
use boardcommd.Base.{
  ℕ, zero, suc, ◌+◌, ◌*◌, Bool, true, false, List, [], ◌∷◌, ◌++◌, Bytes, Option, none, some, ltb,
  leb, length, take, drop, if◌then◌else◌,
}
use boardcommd.Types.{Status, ok, not_found, invalid, Message, Result, done, fail}
use boardcommd.Protocol.{frame_length, decode}

-- the size of `rx_buf` of `bc_transport_event_ctx_t`
abbrev pub rx_size : ℕ
rx_size = 3200

abbrev pub length_of : Option ℕ → ℕ
length_of none = 0
length_of (some n) = n

-- What `recv` of a transport gives: BC_OK with at least one byte, or something else.
pub data Arrival : Type 0 where
  got : ℕ → Bytes → Arrival
  nothing : Arrival

-- `handle` is `bc_message_bus_handle_inbound` for the transport; it changes the state `S` of the
-- daemon, in which the receive buffer does not lie.
module _ {S : Type 0} (handle : Message → S → S) where
  -- the state after the frame has been looked at
  abbrev pub handled : Result Message → S → S
  handled (fail e) s = s
  handled (done m) s = handle m s

  -- what the loop does with the result of `bc_protocol_decode`
  abbrev pub after_decode :
      Result Message → Option Status × (Bytes × S) → Bytes × S → Option Status × (Bytes × S)
  after_decode (fail e) rest t = (some invalid, t)
  after_decode (done m) rest t = rest

  -- and with the result of `bc_protocol_frame_length`
  abbrev pub after_length :
      Status → Bool → Option Status × (Bytes × S) → Bytes × S → Option Status × (Bytes × S)
  after_length not_found longer decoded t = (some ok, t)
  after_length ok longer decoded t = if longer then (some invalid, t) else decoded
  after_length rc longer decoded t = (some invalid, t)

  -- `process_transport_frames` for `n` rounds; no status if it would go on.
  unfoldable pub process_transport_frames : ℕ → Bytes → S → Option Status × (Bytes × S)
  process_transport_frames zero rx s = (none, (rx, s))
  process_transport_frames (suc n) rx s =
      let (rc, len) = frame_length rx in
      let frame_len = length_of len in
      let msg = decode (take frame_len rx) in
      let rest = process_transport_frames n (drop frame_len rx) (handled msg s) in
      after_length rc (ltb (length rx) frame_len) (after_decode msg rest (rx, s)) (rx, s)

  -- the end of a round of `on_transport_event`: the buffer is emptied if the frames are bad.
  abbrev pub after_process : Option Status × (Bytes × S) → Bool × (Bytes × S) → Bool × (Bytes × S)
  after_process (some ok, t) rest = rest
  after_process (rc, (rx, s)) rest = (true, ([], s))

  -- The loop of `on_transport_event` for a transport that has `recv`, with what `recv` gives:
  -- whether it has returned, the bytes in the buffer, and the state.
  unfoldable pub receive_loop : List Arrival → Bytes → S → Bool × (Bytes × S)
  receive_loop [] rx s = if leb rx_size (length rx) then (true, ([], s)) else (false, (rx, s))
  receive_loop (nothing ∷ is) rx s =
      if leb rx_size (length rx) then (true, ([], s)) else (true, (rx, s))
  receive_loop (got x xs ∷ is) rx s =
      let all = rx ++ (x ∷ xs) in
      let (rc, (rx', s')) = process_transport_frames (suc (length all)) all s in
      let rest = receive_loop is rx' s' in
      if leb rx_size (length rx) then (true, ([], s)) else after_process (rc, (rx', s')) rest
