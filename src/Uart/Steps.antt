-- ===== src/Uart/Steps.antt =====
-- The states that a UART transport of src/transport/uart/uart_transport.c can come to.
use boardcommd.Base.{
  ℕ, ◌-◌, ◌≤◌, ◌≡◌, refl, Bool, true, false, not, List, [], ◌∷◌, Bytes, Option, none, some, ltb,
  length, arith, if_intro, ◌&&◌, ◌||◌,
}
use boardcommd.Types.{Status, ok}
use boardcommd.Bus.Send.{is_ok}
use boardcommd.Config.Numbers.{ℤ}
use boardcommd.Client.{Reply}
use boardcommd.Client.Pending.{Honest}
use boardcommd.Tcp.{is_some}
use boardcommd.Tcp.Connect.{Events, is_fd}
use boardcommd.Uart.{
  Uart, Board, Device, no_device, bad_termios, device, rs485_deinit, device_open, try_reopen,
}
use boardcommd.Uart.Send.{send_cap, Input, uart_send, uart_recv}
use boardcommd.Uart.Events.{new_uart, rs485_init, uart_open, bind_reactor, timer_loop, handle_event}
use boardcommd.Uart.Invariant.{IsUart, IsUart-IsRunning, schedule_reopen-IsUart, try_reopen-IsUart}
use boardcommd.Uart.Flow.{Returned, flush_send-IsUart, uart_send-IsUart, uart_recv-IsUart}

module _ {W : Type 0} (board : Board W) where
  -- A transport that `uart_open` has opened, after any calls of its operations that have returned;
  -- between two calls the rest of the world may change.
  pub data Reachable : Uart → Type 0 where
    opened :
        (mode_485 : Bool) (gpio : ℤ) (timer line : Option ℕ) (d : Device) (w : W)
        → (uart_open board mode_485 gpio timer line d new_uart w).0 ≡ ok
        → Reachable ((uart_open board mode_485 gpio timer line d new_uart w).1.0)
    bound : (u : Uart) (w : W) → Reachable u → Reachable ((bind_reactor board u w).1.0)
    event :
        (fd : ℕ) (e : Events) (devices : List Device) (rs : List Reply) (u : Uart) (w : W)
        → Honest rs (u.send_len - u.send_off)
        → Reachable u
        → Reachable ((handle_event board fd e devices rs u w).1.0)
    send :
        (rs : List Reply) (bs : Bytes) (u : Uart) (w : W)
        → length bs ≤ send_cap
        → Returned board (uart_send board rs u bs w)
        → Reachable u
        → Reachable ((uart_send board rs u bs w).2.0)
    receive :
        (input : Input) (u : Uart) (w : W)
        → Reachable u
        → Reachable ((uart_recv board input u w).2.0)

  -- a transport whose device has not been opened yet
  record IsFresh (u : Uart) : Type 0 where
    timed : is_some u.timer_fd ≡ true
    empty : (u.send_off ≡ 0) × (u.send_len ≡ 0)
    unarmed : u.reopen_armed ≡ false
    off : u.de_tx_active ≡ false

  rs485_init-IsFresh :
      (line : Option ℕ) (u : Uart) (w : W) → IsFresh u → IsFresh ((rs485_init board line u w).1.0)
  unfolding rs485_init rs485_deinit
  rs485_init-IsFresh none u w i = ground (arith, i, i.empty)
  rs485_init-IsFresh (some fd) u w i = ground (arith, i, i.empty)

  device_open-IsUart :
      (d : Device) (u : Uart) (w : W)
      → IsFresh u
      → is_ok ((device_open board d u w).0) ≡ true
      → IsUart ((device_open board d u w).1.0)
  unfolding device_open
  device_open-IsUart no_device u w i e = absurd (cc (e))
  device_open-IsUart (bad_termios fd) u w i e = absurd (cc (e))
  device_open-IsUart (device fd) u w i e = ground (arith, i, i.empty)

  opened-IsUart :
      (mode_485 : Bool) (gpio : ℤ) (timer line : Option ℕ) (d : Device) (w : W)
      → (uart_open board mode_485 gpio timer line d new_uart w).0 ≡ ok
      → IsUart ((uart_open board mode_485 gpio timer line d new_uart w).1.0)
  unfolding uart_open
  opened-IsUart mode_485 gpio none line d w = λ e. absurd (cc (e))
  opened-IsUart mode_485 gpio (some timer) line d w =
      let u0 = record new_uart {
        is_485 = mode_485;
        de_gpio = gpio;
        de_value_fd = none;
        timer_fd = some timer;
      } in
      let x = rs485_init board line u0 w in
      let fresh =
        rs485_init-IsFresh line u0 w
          (record { timed = refl; empty = (refl, refl); unarmed = refl; off = refl }) in
      let y = device_open board d (x.1.0) (x.1.1) in
      let P : Status × (Uart × W) → Type 0 = λ z. z.0 ≡ ok → IsUart (z.1.0) in
      if_intro P (not (is_ok (x.0))) (λ _ e. absurd (cc (e)))
        (λ _.
          if_intro P (is_ok (y.0)) (λ good _. device_open-IsUart d (x.1.0) (x.1.1) fresh good)
            (λ _ e. absurd (cc (e))))

  bound-IsUart : (u : Uart) (w : W) → IsUart u → IsUart ((bind_reactor board u w).1.0)
  unfolding bind_reactor
  bound-IsUart u w i = ground (arith, i, i.turned)

  timer_loop-IsUart :
      (ds : List Device) (u : Uart) (w : W) → IsUart u → IsUart ((timer_loop board ds u w).0)
  unfolding timer_loop
  timer_loop-IsUart [] u w i = i
  timer_loop-IsUart (d ∷ ds) u w i =
      let x = try_reopen board d (record u { reopen_armed = false }) w in
      if_intro (λ (y : Uart × W). IsUart (y.0)) u.reopen_armed
        (λ armed. timer_loop-IsUart ds (x.1.0) (x.1.1) (
          try_reopen-IsUart board d (record u { reopen_armed = false }) w
            (ground (arith, i, i.turned)) (ground (arith, armed, i))
            (ground (arith, armed, i, i.turned))))
        (λ _. timer_loop-IsUart ds u w i)

  event-IsUart :
      (fd : ℕ) (e : Events) (devices : List Device) (rs : List Reply) (u : Uart) (w : W)
      → Honest rs (u.send_len - u.send_off)
      → IsUart u
      → IsUart ((handle_event board fd e devices rs u w).1.0)
  unfolding handle_event
  event-IsUart fd e devices rs u w h i =
      let P : Option Status × (Uart × W) → Type 0 = λ y. IsUart (y.1.0) in
      if_intro P (is_fd fd u.timer_fd && e.can_read) (λ _. timer_loop-IsUart devices u w i)
        (λ _.
          if_intro P (not (is_fd fd u.fd)) (λ _. i)
            (λ _.
              if_intro P (e.hung_up || e.failed)
                (λ _. schedule_reopen-IsUart board u w (IsUart-IsRunning u i))
                (λ _.
                  if_intro P (e.can_write && ltb u.send_off u.send_len)
                    (λ _. flush_send-IsUart board rs u w i h) (λ _. i))))

  -- The variables of a UART transport that was opened, whatever calls of its operations come in
  -- whatever order and whatever the system calls give, as long as `malloc` gives the send buffer,
  -- `write` takes no more than it is given in a flush, and nothing longer than the buffer is sent at
  -- once. `opened` is set exactly if there is a descriptor of the device, `reopen_armed` exactly if
  -- there is none, and there is a timer. `de_tx_active` is set only in RS-485 mode, on an open device
  -- and while bytes wait to be sent, and the queue does not end before it begins.
  pub Reachable-IsUart : (u : Uart) → ((w : W) → board.memory w ≡ true) → Reachable u → IsUart u
  Reachable-IsUart _ m (opened mode_485 gpio timer line d w e) =
      opened-IsUart mode_485 gpio timer line d w e
  Reachable-IsUart _ m (bound u w r) = bound-IsUart u w (Reachable-IsUart u m r)
  Reachable-IsUart _ m (event fd e devices rs u w h r) =
      event-IsUart fd e devices rs u w h (Reachable-IsUart u m r)
  Reachable-IsUart _ m (send rs bs u w l returned r) =
      uart_send-IsUart board rs u bs w m l (Reachable-IsUart u m r) returned
  Reachable-IsUart _ m (receive input u w r) =
      uart_recv-IsUart board input u w (Reachable-IsUart u m r)
