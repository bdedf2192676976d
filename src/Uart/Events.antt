-- ===== src/Uart/Events.antt =====
-- How a UART transport of src/transport/uart/uart_transport.c is opened and closed, and what it
-- makes of events.
use boardcommd.Base.{
  ℕ, Bool, true, false, not, ◌&&◌, ◌||◌, List, [], ◌∷◌, Option, none, some, ltb, if◌then◌else◌,
}
use boardcommd.Types.{Status, ok, io}
use boardcommd.Bus.Send.{is_ok}
use boardcommd.Config.Numbers.{ℤ, pos, is_neg}
use boardcommd.Client.{Reply}
use boardcommd.Tcp.Connect.{Events, is_fd}
use boardcommd.Uart.{
  Uart, Board, Device, out_events, watch_fd, gpio_set_value, close_watched, rs485_deinit,
  device_open, device_close, schedule_reopen, try_reopen,
}
use boardcommd.Uart.Send.{flush_send}

-- the structure that `bc_uart_transport_init` allocates
abbrev pub new_uart : Uart
new_uart = record {
  fd = none;
  is_485 = false;
  de_gpio = pos 0;
  de_value_fd = none;
  de_tx_active = false;
  timer_fd = none;
  reopen_armed = false;
  retry_attempt = 0;
  opened = false;
  has_buf = false;
  send_buf = λ _. 0;
  send_len = 0;
  send_off = 0;
  has_reactor = false;
}

module _ {W : Type 0} (board : Board W) where
  -- `uart_rs485_init`; `line` is what `gpio_open_value` gives.
  unfoldable pub rs485_init : Option ℕ → Uart → W → Status × (Uart × W)
  rs485_init line u w =
      let u1 = record u { de_value_fd = line } in
      let (rc, w1) = gpio_set_value board line false w in
      if not u.is_485 || is_neg u.de_gpio then (ok, (u, w)) else elim line [
        | none ↦ (io, (u1, w))
        | some fd ↦ if is_ok rc then (ok, (u1, w1)) else (io, rs485_deinit board u1 w1)
      ]

  -- `uart_open`, with the mode and the pin of the configuration and what `timerfd_create` gives
  unfoldable pub uart_open :
      Bool → ℤ → Option ℕ → Option ℕ → Device → Uart → W → Status × (Uart × W)
  uart_open mode_485 gpio none line d u w =
      (io, (record u { is_485 = mode_485; de_gpio = gpio; de_value_fd = none; timer_fd = none }, w))
  uart_open mode_485 gpio (some timer) line d u w =
      let u0 = record u {
        is_485 = mode_485;
        de_gpio = gpio;
        de_value_fd = none;
        timer_fd = some timer;
      } in
      let (rc, (u1, w1)) = rs485_init line u0 w in
      let (rc2, (u2, w2)) = device_open board d u1 w1 in
      let (u3, w3) = rs485_deinit board u2 w2 in
      if not (is_ok rc)
      then (io, (record u1 { timer_fd = none }, board.close_fd timer w1))
      else if is_ok rc2
      then (ok, (u2, w2))
      else (io, (record u3 { timer_fd = none }, board.close_fd timer w3))

  -- `uart_close`; the structure is freed afterwards.
  unfoldable pub uart_close : Uart → W → Uart × W
  uart_close u w =
      let (u1, w1) = device_close board u w in
      let (u2, w2) = rs485_deinit board u1 w1 in
      (
        record u2 { timer_fd = none; has_buf = false; fd = none },
        close_watched board u2.has_reactor u2.timer_fd w2,
      )

  -- the end of `uart_bind_reactor`
  abbrev pub add_timer : Option ℕ → W → Status × W
  add_timer none w = (ok, w)
  add_timer (some fd) w =
      let (rc, w') = board.reactor_add fd false w in ((if is_ok rc then ok else io), w')

  -- `uart_bind_reactor`
  unfoldable pub bind_reactor : Uart → W → Status × (Uart × W)
  bind_reactor u w =
      let u' = record u { has_reactor = true } in
      let (rc, w1) = watch_fd board u' u'.fd (out_events u') w in
      let (rc2, w2) = add_timer u'.timer_fd w1 in
      if is_ok rc then (rc2, (u', w2)) else (io, (u', w1))

  -- the loop of `uart_handle_event` that reads the timer: one round for each `read` that
  -- succeeds, with what opening the device gives, should it be tried.
  unfoldable pub timer_loop : List Device → Uart → W → Uart × W
  timer_loop [] u w = (u, w)
  timer_loop (d ∷ ds) u w =
      let skipped = timer_loop ds u w in
      let (_, (u1, w1)) = try_reopen board d (record u { reopen_armed = false }) w in
      let rest = timer_loop ds u1 w1 in if u.reopen_armed then rest else skipped

  -- `uart_handle_event`; whether it has returned, and the state
  unfoldable pub handle_event :
      ℕ → Events → List Device → List Reply → Uart → W → Option Status × (Uart × W)
  handle_event fd e devices replies u w =
      let (sent, out, s) = flush_send board replies u w in
      if is_fd fd u.timer_fd && e.can_read
      then (some ok, timer_loop devices u w)
      else if not (is_fd fd u.fd)
      then (some ok, (u, w))
      else if e.hung_up || e.failed
      then (some ok, schedule_reopen board u w)
      else if e.can_write && ltb u.send_off u.send_len
      then (elim sent [ none ↦ none | some rc ↦ some ok ], s)
      else (some ok, (u, w))
