-- ===== src/Uart/Send.antt =====
-- What a UART transport of src/transport/uart/uart_transport.c sends and receives.
use boardcommd.Base.{
  ℕ, zero, suc, ◌+◌, ◌-◌, Bool, true, not, ◌&&◌, ◌||◌, List, [], ◌∷◌, ◌++◌, Bytes, Option, none,
  some, ltb, length, take, drop, if◌then◌else◌,
}
use boardcommd.Types.{Status, ok, invalid, io, nomem, not_found}
use boardcommd.Bus.Send.{is_ok}
use boardcommd.Client.{Reply, took, interrupted, would_block, broken, slice, copy_to}
use boardcommd.Tcp.{is_some}
use boardcommd.Uart.{Uart, Board, out_events, watch_fd, tx_enable, tx_disable, schedule_reopen}

-- BC_UART_SEND_CAP
abbrev pub send_cap : ℕ
send_cap = 12800

-- `uart_clear_send_queue`
abbrev pub clear_send_queue : Uart → Uart
clear_send_queue u = record u { send_len = 0; send_off = 0 }

-- the test at the head of `uart_send` and `uart_flush_send`
abbrev pub is_open : Uart → Bool
is_open u = u.opened && is_some u.fd

-- What `read` gives in `uart_recv`.
pub data Input : Type 0 where
  bytes : ℕ → Bytes → Input
  hung_up : Input
  nothing : Input
  read_failed : Input

module _ {W : Type 0} (board : Board W) where
  -- `uart_ensure_send_cap`
  abbrev pub ensure_send_cap : ℕ → Uart → W → Bool
  ensure_send_cap need u w = not (ltb send_cap need) && (u.has_buf || board.memory w)

  -- `uart_queue_send`
  unfoldable pub queue_send : Uart → Bytes → W → Status × (Uart × W)
  queue_send u bs w =
      let u' = record u {
        has_buf = true;
        send_buf = copy_to u.send_buf u.send_len bs;
        send_len = u.send_len + length bs;
      } in
      let (rc, w') = watch_fd board u' u'.fd (out_events u') w in
      if not u.opened
      then (io, (u, w))
      else if ensure_send_cap (u.send_len - u.send_off + length bs) u w
      then (rc, (u', w'))
      else (nomem, (u, w))

  -- the end of `uart_flush_send`, when all has been sent
  abbrev pub flushed : Uart → W → Option Status × Bytes × (Uart × W)
  flushed u w =
      let (u1, w1) = tx_disable board (clear_send_queue u) w in
      let (rc, w2) = watch_fd board u1 u1.fd (out_events u1) w1 in (some rc, [], (u1, w2))

  -- the loop of `uart_flush_send`, with the replies of its calls of `write`
  unfoldable pub flush_loop : List Reply → Uart → W → Option Status × Bytes × (Uart × W)
  flush_loop [] u w = if ltb u.send_off u.send_len then (none, [], (u, w)) else flushed u w
  flush_loop (took zero ∷ rs) u w =
      let s = schedule_reopen board u w in
      if ltb u.send_off u.send_len then (some io, [], s) else flushed u w
  flush_loop (took (suc n) ∷ rs) u w =
      let (rest, out, s) = flush_loop rs (record u { send_off = u.send_off + suc n }) w in
      if ltb u.send_off u.send_len
      then (rest, slice u.send_buf u.send_off (suc n) ++ out, s)
      else flushed u w
  flush_loop (interrupted ∷ rs) u w =
      let rest = flush_loop rs u w in if ltb u.send_off u.send_len then rest else flushed u w
  flush_loop (would_block ∷ rs) u w =
      let (rc, w') = watch_fd board u u.fd (out_events u) w in
      if ltb u.send_off u.send_len then (some rc, [], (u, w')) else flushed u w
  flush_loop (broken ∷ rs) u w =
      let s = schedule_reopen board u w in
      if ltb u.send_off u.send_len then (some io, [], s) else flushed u w

  -- `uart_flush_send`: the status, if it has returned, and the bytes that went out
  unfoldable pub flush_send : List Reply → Uart → W → Option Status × Bytes × (Uart × W)
  flush_send rs u w =
      let (rc, (u1, w1)) = tx_enable board u w in
      let run = flush_loop rs u1 w1 in
      if not (is_open u)
      then (some io, [], (u, w))
      else if not (ltb u.send_off u.send_len)
      then flush_loop rs u w
      else if is_ok rc
      then run
      else (some io, [], (u1, w1))

  -- the loop of `uart_send`, with the replies of its calls of `write`
  unfoldable pub send_loop : List Reply → Uart → Bytes → W → Option Status × Bytes × (Uart × W)
  send_loop rs u [] w = let s = tx_disable board u w in (some ok, [], s)
  send_loop [] u (b ∷ bs) w = (none, [], (u, w))
  send_loop (took zero ∷ rs) u (b ∷ bs) w = let s = schedule_reopen board u w in (some io, [], s)
  send_loop (took (suc n) ∷ rs) u (b ∷ bs) w =
      let (rc, out, s) = send_loop rs u (drop (suc n) (b ∷ bs)) w in
      (rc, take (suc n) (b ∷ bs) ++ out, s)
  send_loop (interrupted ∷ rs) u (b ∷ bs) w = send_loop rs u (b ∷ bs) w
  send_loop (would_block ∷ rs) u (b ∷ bs) w =
      let (rc, s) = queue_send u (b ∷ bs) w in (some rc, [], s)
  send_loop (broken ∷ rs) u (b ∷ bs) w = let s = schedule_reopen board u w in (some io, [], s)

  -- `uart_send`: the status, if it has returned, and the bytes that went out
  unfoldable pub uart_send : List Reply → Uart → Bytes → W → Option Status × Bytes × (Uart × W)
  uart_send rs u bs w =
      let (queued, s) = queue_send u bs w in
      let (rc, (u1, w1)) = tx_enable board u w in
      let run = send_loop rs u1 bs w1 in
      if not (is_open u)
      then (some io, [], (u, w))
      else if ltb u.send_off u.send_len
      then (some queued, [], s)
      else if is_ok rc
      then run
      else (some io, [], (u1, w1))

  -- `uart_recv`, and the bytes received
  unfoldable pub uart_recv : Input → Uart → W → Status × Bytes × (Uart × W)
  uart_recv i u w =
      let s = schedule_reopen board u w in
      if not (is_open u)
      then (invalid, [], (u, w))
      else if u.is_485 && u.de_tx_active
      then (not_found, [], (u, w))
      else elim i [
        | bytes b bs ↦ (ok, b ∷ bs, (u, w))
        | hung_up ↦ (io, [], s)
        | nothing ↦ (not_found, [], (u, w))
        | read_failed ↦ (io, [], s)
      ]
