-- ===== src/Client/Receive/Fuel.antt =====
-- `process_messages` of src/daemon/client_manager.c returns.
use boardcommd.Base.{
  if_intro, ℕ, zero, suc, ◌≤◌, ◌<◌, ◌≡◌, refl, Bytes, Option, some, length, length-drop, take,
  arith, ltb, ◌||◌, ◌==◌, not,
}
use boardcommd.Types.{Status, ok, invalid, not_found, Result, done, fail}
use boardcommd.Ipc.{ipc_header_size, ipc_magic}
use boardcommd.Client.Frame.{Request, get_ipc_header, frame_total, next_frame, client_frame_max}
use boardcommd.Client.Receive.{
  process_frame_buffer, consume, take_message, process_one_message, next_message, process_messages,
}

-- What `next_frame` says of the bytes received.
pub data Framing (rx : Bytes) : Result ℕ → Type 0 where
  whole : (n : ℕ) → 16 ≤ n → n ≤ client_frame_max → n ≤ length rx → Framing rx (done n)
  waits : Framing rx (fail not_found)
  refused : Framing rx (fail invalid)

header_size_ge : (version : ℕ) → 16 ≤ ipc_header_size version
unfolding ipc_header_size
header_size_ge version = ground arith

pub next_frame-Framing : (rx : Bytes) → Framing rx (next_frame rx)
unfolding next_frame
next_frame-Framing rx =
    let total = frame_total (get_ipc_header rx) in
    let size = header_size_ge (get_ipc_header rx).version in
    if_intro (Framing rx) (ltb (length rx) 16) (λ _. waits)
      (λ _.
        if_intro (Framing rx) (not ((get_ipc_header rx).magic == ipc_magic)) (λ _. refused)
          (λ _.
            if_intro (Framing rx) (ltb client_frame_max total || ltb (length rx) total)
              (λ _. if_intro (Framing rx) (ltb (length rx) total) (λ _. waits) (λ _. refused))
              (λ fits. whole total (omega (arith, size)) (ground arith) (ground arith))))

-- the loop has a status to return
abbrev pub Returns : {A : Type 0} → Option Status × A → Type 0
Returns r = (rc : Status) × (r.0 ≡ some rc)

module _ {S : Type 0} (handle : Request → S → Status × S) where
  -- A message that has been processed has left the buffer.
  abbrev Shorter : Bytes → Status × (Bytes × S) → Type 0
  Shorter rx (rc, (rx', s')) = rc ≡ ok → length rx' < length rx

  consume-Shorter :
      (rc : Status) (rx : Bytes) (n : ℕ) (s : S)
      → 16 ≤ n
      → n ≤ length rx
      → Shorter rx (consume handle rc n rx s)
  consume-Shorter ok rx n s a b e = omega (arith, length-drop n rx)
  consume-Shorter other rx n s a b e = ground (arith, e)

  take_message-Shorter :
      (r : Result ℕ) (rx : Bytes) (s : S) → Framing rx r → Shorter rx (take_message handle r rx s)
  take_message-Shorter (done n) rx s (whole _ a _ b) e =
      let (rc, s') = process_frame_buffer handle (take n rx) s in consume-Shorter rc rx n s' a b e
  take_message-Shorter (fail _) rx s waits e = ground (arith, e)
  take_message-Shorter (fail _) rx s refused e = ground (arith, e)

  pub process_one_message-Shorter :
      (rx : Bytes) (s : S) → Shorter rx (process_one_message handle rx s)
  unfolding process_one_message
  process_one_message-Shorter rx s =
      take_message-Shorter (next_frame rx) rx s (next_frame-Framing rx)

  next_message-Returns :
      (rc : Status) (rest : Option Status × (Bytes × S)) (t : Bytes × S)
      → (rc ≡ ok → Returns rest)
      → Returns (next_message handle rc rest t)
  next_message-Returns ok rest t h = h refl
  next_message-Returns not_found rest t h = (ok, refl)
  next_message-Returns other rest t h = (other, refl)

  -- `process_messages` returns, whatever bytes the client has sent and whatever becomes of its
  -- requests: a round that goes on has taken a frame out of the buffer, so that one round more than
  -- there are bytes is enough.
  pub process_messages-Returns :
      (n : ℕ) (rx : Bytes) (s : S) → length rx < n → Returns (process_messages handle n rx s)
  unfolding process_messages
  process_messages-Returns zero rx s h = elim h [ ]
  process_messages-Returns (suc n) rx s h =
      let (rc, (rx', s')) = process_one_message handle rx s in
      next_message-Returns rc (process_messages handle n rx' s') (rx', s')
        (λ e. process_messages-Returns n rx' s' (omega (arith, process_one_message-Shorter rx s e)))
