-- ===== src/Client.antt =====
-- The queue of bytes to send that src/daemon/client_manager.c keeps for each client.
pub mod Pending
pub mod Frame
pub mod Dispatch
pub mod Receive
pub mod Table
pub mod Event
mod Tests
use boardcommd.Base.{
  ℕ, zero, suc, ◌+◌, ◌-◌, Bool, ◌&&◌, List, [], ◌∷◌, ◌++◌, Bytes, Option, none, some, ◌==◌, ltb,
  leb, length, get_or, if◌then◌else◌,
}
use boardcommd.Types.{Status, ok, invalid, nomem, io}

-- BC_CLIENT_TX_CAP
abbrev pub tx_cap : ℕ
tx_cap = 4194304

-- `tx_off`, `tx_len` and `tx_buf` of `bc_client_ctx`; `buf` gives the byte at each index.
pub record Tx : Type 0 where
  pub off : ℕ
  pub len : ℕ
  pub buf : ℕ → ℕ

-- `memmove(buf, buf + off, len)`
abbrev pub move_down : (ℕ → ℕ) → ℕ → ℕ → ℕ → ℕ
move_down buf off len j = if ltb j len then buf (off + j) else buf j

-- `memcpy(buf + at, bs, len)`
abbrev pub copy_to : (ℕ → ℕ) → ℕ → Bytes → ℕ → ℕ
copy_to buf at bs j = if leb at j && ltb j (at + length bs) then get_or bs (j - at) 0 else buf j

-- the `len` bytes at `buf + off`
abbrev pub slice : (ℕ → ℕ) → ℕ → ℕ → Bytes
slice buf off zero = []
slice buf off (suc n) = buf off ∷ slice buf (off + 1) n

-- What `send` does: it takes some bytes, or fails with EINTR, with EAGAIN or otherwise.
pub data Reply : Type 0 where
  took : ℕ → Reply
  interrupted : Reply
  would_block : Reply
  broken : Reply

-- the queue after `send` has taken `n` bytes
abbrev pub advance : Tx → ℕ → Tx
advance t n = record t { off = if t.len - n == 0 then 0 else t.off + n; len = t.len - n }

-- `bc_reactor_mod` asks for EPOLLOUT or not; what it does to the world `W` is a parameter.
module _ {W : Type 0} (reactor_mod : Bool → W → Status × W) where
  -- `update_client_events`
  abbrev pub update_client_events : Tx → W → Status × W
  update_client_events t w = reactor_mod (ltb 0 t.len) w

  -- the end of `enqueue_client_tx`, after the bytes may have been moved
  abbrev pub append_tx : Tx → Bytes → W → Status × (Tx × W)
  append_tx t bs w =
      let t' = record t { buf = copy_to t.buf (t.off + t.len) bs; len = t.len + length bs } in
      let (rc, w') = update_client_events t' w in
      if ltb tx_cap (t.off + t.len + length bs) then (nomem, (t, w)) else (rc, (t', w'))

  -- `enqueue_client_tx`
  unfoldable pub enqueue_client_tx : Tx → Bytes → W → Status × (Tx × W)
  enqueue_client_tx t bs w =
      let moved = record t { off = 0; buf = move_down t.buf t.off t.len } in
      if ltb tx_cap (length bs)
      then (invalid, (t, w))
      else if ltb 0 t.off && ltb tx_cap (t.off + t.len + length bs)
      then append_tx moved bs w
      else append_tx t bs w

  -- `flush_client_tx`, with the replies of the calls of `send` that it makes: the status, if it has
  -- returned, the bytes that went out, and what is left.
  unfoldable pub flush_client_tx : List Reply → Tx → W → Option Status × Bytes × (Tx × W)
  flush_client_tx [] t w =
      let (rc, w') = update_client_events t w in
      if t.len == 0 then (some rc, [], (t, w')) else (none, [], (t, w))
  flush_client_tx (took zero ∷ rs) t w =
      let (rc, w') = update_client_events t w in
      if t.len == 0 then (some rc, [], (t, w')) else (some io, [], (t, w))
  flush_client_tx (took (suc n) ∷ rs) t w =
      let (rc, w') = update_client_events t w in
      let (rest, out, s) = flush_client_tx rs (advance t (suc n)) w in
      if t.len == 0 then (some rc, [], (t, w')) else (rest, slice t.buf t.off (suc n) ++ out, s)
  flush_client_tx (interrupted ∷ rs) t w =
      let (rc, w') = update_client_events t w in
      let rest = flush_client_tx rs t w in if t.len == 0 then (some rc, [], (t, w')) else rest
  flush_client_tx (would_block ∷ rs) t w =
      let (rc, w') = update_client_events t w in
      if t.len == 0 then (some rc, [], (t, w')) else (some ok, [], (t, w))
  flush_client_tx (broken ∷ rs) t w =
      let (rc, w') = update_client_events t w in
      if t.len == 0 then (some rc, [], (t, w')) else (some io, [], (t, w))
