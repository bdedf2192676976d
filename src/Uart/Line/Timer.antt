-- ===== src/Uart/Line/Timer.antt =====
-- What opening a UART transport and its events make of the RS-485 line and the timer, in
-- src/transport/uart/uart_transport.c.
use boardcommd.Base.{
  ℕ, ◌≡◌, refl, Bool, true, false, not, List, [], ◌∷◌, Option, none, some, ltb, arith, if_intro,
  ◌&&◌, ◌||◌,
}
use boardcommd.Types.{Status, ok}
use boardcommd.Bus.Send.{is_ok}
use boardcommd.Config.Numbers.{ℤ}
use boardcommd.Client.{Reply}
use boardcommd.Tcp.{is_some}
use boardcommd.Tcp.Connect.{Events, is_fd}
use boardcommd.Uart.{
  Uart, Board, Device, no_device, bad_termios, device, out_events, watch_fd, tx_disable,
  device_close, schedule_reopen, device_open, try_reopen,
}
use boardcommd.Uart.Events.{
  new_uart, rs485_init, uart_open, add_timer, bind_reactor, timer_loop, handle_event,
}
use boardcommd.Uart.Line.{Same, IsSynced, moved, schedule_reopen-IsSynced, Watches}
use boardcommd.Uart.Line.Calls.{watched-IsSynced, flush_send-Left}

module _ {W : Type 0} (board : Board W) (high set : W → Bool) (l : Watches board high set) where
  -- The descriptor has nothing to do with the line.
  fd_moves :
      (u : Uart) (w : W) (fd : Option ℕ) (o : Bool)
      → IsSynced board high set l u w
      → IsSynced board high set l (record u { fd = fd; opened = o }) w
  fd_moves u w fd o i = record { off = i.off; no_line = i.no_line; ticking = i.ticking }

  unarmed-IsSynced :
      (u : Uart) (w : W) (n : ℕ)
      → IsSynced board high set l u w
      → IsSynced board high set l (record u { reopen_armed = false; retry_attempt = n }) w
  unarmed-IsSynced u w n i = record {
    off = i.off;
    no_line = i.no_line;
    ticking = λ e. absurd (cc (e));
  }

  try_reopen-IsSynced :
      (d : Device) (u : Uart) (w : W)
      → is_some u.timer_fd ≡ true
      → IsSynced board high set l u w
      → let (u', w') = (try_reopen board d u w).1 in IsSynced board high set l u' w'
  unfolding try_reopen device_open
  try_reopen-IsSynced no_device u w t i =
      schedule_reopen-IsSynced board high set l (record u { fd = none }) w t
        (fd_moves u w none u.opened i)
  try_reopen-IsSynced (bad_termios fd) u w t i =
      let w1 = board.close_fd fd w in
      schedule_reopen-IsSynced board high set l (record u { fd = none }) w1 t
        (fd_moves u w1 none u.opened (moved board high set l u w w1 (l.close fd w) i))
  try_reopen-IsSynced (device fd) u w t i =
      let u1 = record u { fd = some fd; opened = true; retry_attempt = 0; reopen_armed = false } in
      watched-IsSynced board high set l u1 w (
        unarmed-IsSynced (record u { fd = some fd; opened = true }) w 0
          (fd_moves u w (some fd) true i))

  try_reopen_timer :
      (d : Device) (u : Uart) (w : W) → ((try_reopen board d u w).1.0).timer_fd ≡ u.timer_fd
  unfolding try_reopen device_open schedule_reopen device_close tx_disable
  try_reopen_timer no_device u w = ground arith
  try_reopen_timer (bad_termios fd) u w = ground arith
  try_reopen_timer (device fd) u w = refl

  timer_loop-IsSynced :
      (ds : List Device) (u : Uart) (w : W)
      → is_some u.timer_fd ≡ true
      → IsSynced board high set l u w
      → let (u', w') = timer_loop board ds u w in IsSynced board high set l u' w'
  unfolding timer_loop
  timer_loop-IsSynced [] u w t i = i
  timer_loop-IsSynced (d ∷ ds) u w t i =
      let v = record u { reopen_armed = false } in
      let x = try_reopen board d v w in
      if_intro (λ (y : Uart × W). IsSynced board high set l (y.0) (y.1)) u.reopen_armed
        (λ _.
          timer_loop-IsSynced ds (x.1.0) (x.1.1) (ground (arith, t, try_reopen_timer d v w))
            (try_reopen-IsSynced d v w t (unarmed-IsSynced u w u.retry_attempt i)))
        (λ _. timer_loop-IsSynced ds u w t i)

  pub event-IsSynced :
      (fd : ℕ) (e : Events) (devices : List Device) (rs : List Reply) (u : Uart) (w : W)
      → is_some u.timer_fd ≡ true
      → IsSynced board high set l u w
      → let (u', w') = (handle_event board fd e devices rs u w).1 in IsSynced board high set l u' w'
  unfolding handle_event
  event-IsSynced fd e devices rs u w t i =
      let P : Option Status × (Uart × W) → Type 0 =
        λ y. IsSynced board high set l (y.1.0) (y.1.1) in
      if_intro P (is_fd fd u.timer_fd && e.can_read) (λ _. timer_loop-IsSynced devices u w t i)
        (λ _.
          if_intro P (not (is_fd fd u.fd)) (λ _. i)
            (λ _.
              if_intro P (e.hung_up || e.failed)
                (λ _. schedule_reopen-IsSynced board high set l u w t i)
                (λ _.
                  if_intro P (e.can_write && ltb u.send_off u.send_len)
                    (λ _. flush_send-Left board high set l rs u w t i) (λ _. i))))

  add_timer-Same : (timer : Option ℕ) (w : W) → Same board high set l w (add_timer board timer w).1
  add_timer-Same none w = (refl, refl)
  add_timer-Same (some fd) w = l.add fd false w

  pub bound-IsSynced :
      (u : Uart) (w : W)
      → IsSynced board high set l u w
      → let (u', w') = (bind_reactor board u w).1 in IsSynced board high set l u' w'
  unfolding bind_reactor
  bound-IsSynced u w i =
      let P : Status × (Uart × W) → Type 0 = λ y. IsSynced board high set l (y.1.0) (y.1.1) in
      let v = record u { has_reactor = true } in
      let w1 = (watch_fd board v v.fd (out_events v) w).1 in
      let j =
        watched-IsSynced board high set l v w
          (record { off = i.off; no_line = i.no_line; ticking = i.ticking }) in
      if_intro P (is_ok (watch_fd board v v.fd (out_events v) w).0)
        (λ _. moved board high set l v w1 _ (add_timer-Same v.timer_fd w1) j) (λ _. j)

  rs485_init-IsSynced :
      (line : Option ℕ) (u : Uart) (w : W)
      → high w ≡ false
      → u.reopen_armed ≡ false
      → is_ok (rs485_init board line u w).0 ≡ true
      → let (u', w') = (rs485_init board line u w).1 in
        (high w' ≡ false) × (u'.reopen_armed ≡ false)
  unfolding rs485_init
  rs485_init-IsSynced none u w h a e = ground (arith, h, a)
  rs485_init-IsSynced (some fd) u w h a e =
      let (x, y, z) = l.line fd false w in ground (arith, h, a, x, y, e)

  device_open-IsSynced :
      (d : Device) (u : Uart) (w : W)
      → high w ≡ false
      → u.reopen_armed ≡ false
      → is_ok (device_open board d u w).0 ≡ true
      → let (u', w') = (device_open board d u w).1 in IsSynced board high set l u' w'
  unfolding device_open
  device_open-IsSynced no_device u w h a e = absurd (cc (e))
  device_open-IsSynced (bad_termios fd) u w h a e = absurd (cc (e))
  device_open-IsSynced (device fd) u w h a e = record {
    off = λ _. h;
    no_line = λ _. h;
    ticking = λ b. absurd (cc (a, b));
  }

  pub opened-IsSynced :
      (mode_485 : Bool) (gpio : ℤ) (timer line : Option ℕ) (d : Device) (w : W)
      → high w ≡ false
      → (uart_open board mode_485 gpio timer line d new_uart w).0 ≡ ok
      → let (u', w') = (uart_open board mode_485 gpio timer line d new_uart w).1 in
        IsSynced board high set l u' w'
  unfolding uart_open
  opened-IsSynced mode_485 gpio none line d w h = λ e. absurd (cc (e))
  opened-IsSynced mode_485 gpio (some timer) line d w h =
      let u0 = record new_uart {
        is_485 = mode_485;
        de_gpio = gpio;
        de_value_fd = none;
        timer_fd = some timer;
      } in
      let x = rs485_init board line u0 w in
      let y = device_open board d (x.1.0) (x.1.1) in
      let P : Status × (Uart × W) → Type 0 =
        λ z. z.0 ≡ ok → IsSynced board high set l (z.1.0) (z.1.1) in
      if_intro P (not (is_ok (x.0))) (λ _ e. absurd (cc (e)))
        (λ fine.
          let (low, unarmed) = rs485_init-IsSynced line u0 w h refl (ground (arith, fine)) in
          if_intro P (is_ok (y.0))
            (λ good _. device_open-IsSynced d (x.1.0) (x.1.1) low unarmed good)
            (λ _ e. absurd (cc (e))))
