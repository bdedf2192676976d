-- ===== src/Tcp.antt =====
-- The state of a TCP transport and its send queue, of src/transport/tcp/tcp_transport.c.
pub mod Connect
pub mod Queue
pub mod Flush
pub mod Retry
pub mod Invariant
pub mod Handle
pub mod Open
pub mod Steps
mod Tests
use boardcommd.Base.{
  ℕ, zero, suc, ◌+◌, ◌-◌, ◌*◌, ◌^◌, Bool, true, false, not, ◌&&◌, ◌||◌, List, [], ◌∷◌, ◌++◌, Bytes,
  Option, none, some, ◌==◌, ltb, leb, length, take, drop, if◌then◌else◌,
}
use boardcommd.Types.{Status, ok, io, nomem}
use boardcommd.Bus.Send.{is_ok}
use boardcommd.Client.{Reply, took, interrupted, would_block, broken, slice, copy_to}

-- `bc_tcp_impl_t` and `transport->fd`. `has_buf` is `send_buf != NULL`, `has_reactor` is
-- `reactor != NULL`. `send_buf` has no end here: C has no result for a write behind `send_cap`, which
-- `tcp_queue_send` does not exclude, and theorems on the bytes exclude it themselves. The names of the hosts, which the log and the system calls use, are left out.
pub record Tcp : Type 0 where
  pub fd : Option ℕ
  pub listen_fd : Option ℕ
  pub conn_fd : Option ℕ
  pub timer_fd : Option ℕ
  pub is_server : Bool
  pub connected : Bool
  pub connecting : Bool
  pub reconnect_armed : Bool
  pub retry_attempt : ℕ
  pub has_buf : Bool
  pub send_buf : ℕ → ℕ
  pub send_len : ℕ
  pub send_off : ℕ
  pub has_reactor : Bool

-- BC_TCP_SEND_CAP
abbrev pub send_cap : ℕ
send_cap = 102400

abbrev pub is_some : Option ℕ → Bool
is_some none = false
is_some (some fd) = true

-- `tcp_active_fd`
abbrev pub active_fd : Tcp → Option ℕ
active_fd t =
    if t.connected && is_some t.conn_fd
    then t.conn_fd
    else if t.connecting && is_some t.conn_fd
    then t.conn_fd
    else if t.is_server && is_some t.listen_fd
    then t.listen_fd
    else t.conn_fd

-- `tcp_sync_transport_fd`
abbrev pub sync_fd : Tcp → Tcp
sync_fd t = record t { fd = active_fd t }

-- `tcp_conn_events`: whether EPOLLOUT is among the events
abbrev pub conn_events : Tcp → Bool
conn_events t = t.connecting || ltb t.send_off t.send_len

-- `tcp_clear_send_queue`
abbrev pub clear_send_queue : Tcp → Tcp
clear_send_queue t = record t { send_len = 0; send_off = 0 }

-- the test at the head of `tcp_send`, `tcp_recv` and `tcp_flush_send`
abbrev pub is_open : Tcp → Bool
is_open t = t.connected && is_some t.conn_fd

-- `tcp_reconnect_delay_ms`; none if the shift overflows `int`, for which C has no result.
abbrev pub reconnect_delay_ms : ℕ → Option ℕ
reconnect_delay_ms zero = some 1000
reconnect_delay_ms (suc n) =
    let delay = 1000 * 2 ^ n in
    if leb 2147483648 delay then none else some (if ltb 30000 delay then 30000 else delay)

-- The reactor, and `malloc`.
module _ {W : Type 0} (reactor_mod reactor_add : ℕ → Bool → W → Status × W)
    (memory : W → Bool) where
  -- `tcp_watch_fd`
  unfoldable pub watch_fd : Tcp → Option ℕ → Bool → W → Status × W
  watch_fd t none out w = (ok, w)
  watch_fd t (some fd) out w =
      let (rc, w1) = reactor_mod fd out w in
      let again = reactor_add fd out w1 in
      if not t.has_reactor then (ok, w) else if is_ok rc then (ok, w1) else again

  -- `tcp_enable_epollout`
  abbrev pub enable_epollout : Tcp → W → Status × W
  enable_epollout t w = if is_open t then watch_fd t t.conn_fd (conn_events t) w else (ok, w)

  -- `tcp_ensure_send_cap`
  abbrev pub ensure_send_cap : ℕ → Tcp → W → Bool
  ensure_send_cap need t w = not (ltb send_cap need) && (t.has_buf || memory w)

  -- `tcp_queue_send`
  unfoldable pub queue_send : Tcp → Bytes → W → Status × (Tcp × W)
  queue_send t bs w =
      let t' = record t {
        has_buf = true;
        send_buf = copy_to t.send_buf t.send_len bs;
        send_len = t.send_len + length bs;
      } in
      let (_, w') = enable_epollout t' w in
      if ensure_send_cap (t.send_len - t.send_off + length bs) t w
      then (ok, (t', w'))
      else (nomem, (t, w))

  -- the end of `tcp_flush_send`, when all has been sent
  abbrev pub flushed : Tcp → W → Option Status × Bytes × (Tcp × W)
  flushed t w =
      let t' = clear_send_queue t in
      let (rc, w') = watch_fd t' t'.conn_fd (conn_events t') w in (some rc, [], (t', w'))

  -- the loop of `tcp_flush_send`, with the replies of its calls of `send`: the status, if it has
  -- returned, the bytes that went out, and what is left.
  unfoldable pub flush_loop : List Reply → Tcp → W → Option Status × Bytes × (Tcp × W)
  flush_loop [] t w = if ltb t.send_off t.send_len then (none, [], (t, w)) else flushed t w
  flush_loop (took zero ∷ rs) t w =
      if ltb t.send_off t.send_len then (some io, [], (t, w)) else flushed t w
  flush_loop (took (suc n) ∷ rs) t w =
      let (rest, out, s) = flush_loop rs (record t { send_off = t.send_off + suc n }) w in
      if ltb t.send_off t.send_len
      then (rest, slice t.send_buf t.send_off (suc n) ++ out, s)
      else flushed t w
  flush_loop (interrupted ∷ rs) t w =
      let rest = flush_loop rs t w in if ltb t.send_off t.send_len then rest else flushed t w
  flush_loop (would_block ∷ rs) t w =
      let (rc, w') = enable_epollout t w in
      if ltb t.send_off t.send_len then (some rc, [], (t, w')) else flushed t w
  flush_loop (broken ∷ rs) t w =
      if ltb t.send_off t.send_len then (some io, [], (t, w)) else flushed t w

  -- `tcp_flush_send`
  abbrev pub flush_send : List Reply → Tcp → W → Option Status × Bytes × (Tcp × W)
  flush_send rs t w = if is_open t then flush_loop rs t w else (some io, [], (t, w))
