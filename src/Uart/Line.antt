-- ===== src/Uart/Line.antt =====
-- The RS-485 line and the timer of a UART transport of src/transport/uart/uart_transport.c, as the
-- kernel sees them.
pub mod Calls
pub mod Timer
pub mod Runs
use boardcommd.Base.{
  ℕ, zero, suc, ◌+◌, ◌-◌, ◌<◌, ◌≤◌, ◌≡◌, refl, sym, ◌∙◌, Bool, true, false, not, List, [], ◌∷◌,
  Bytes, Option, none, some, ltb, length, drop, arith, if_intro, ◌&&◌, ◌||◌, if◌then◌else◌,
  Bool-cases, inl, inr,
}
use boardcommd.Types.{Status, ok, io, invalid, not_found}
use boardcommd.Bus.Send.{is_ok}
use boardcommd.Config.Numbers.{ℤ}
use boardcommd.Client.{Reply, took, interrupted, would_block, broken, copy_to}
use boardcommd.Client.Pending.{Honest}
use boardcommd.Tcp.{is_some, reconnect_delay_ms}
use boardcommd.Tcp.Retry.{Delay, waits, overflows, reconnect_delay_ms-Delay}
use boardcommd.Tcp.Connect.{Events, is_fd}
use boardcommd.Uart.{
  Uart, Board, Device, no_device, bad_termios, device, out_events, watch_fd, gpio_set_value,
  drain_some, close_watched, timer_arm, tx_enable, tx_disable, device_close, schedule_reopen,
  device_open, try_reopen,
}
use boardcommd.Uart.Send.{
  send_cap, Input, bytes, hung_up, nothing, read_failed, clear_send_queue, queue_send, flushed,
  flush_loop, flush_send, send_loop, uart_send, uart_recv, is_open, ensure_send_cap,
}
use boardcommd.Uart.Flow.{Returned}
use boardcommd.Uart.Invariant.{IsUart}
use boardcommd.Uart.Steps.{Reachable, Reachable-IsUart}
use boardcommd.Uart.Events.{
  new_uart, rs485_init, uart_open, add_timer, bind_reactor, timer_loop, handle_event,
}

-- `high w` says that the line is high, and `set w` that the timer was set. The calls do what they
-- should, and the write of the GPIO value succeeds.
pub record Watches {W : Type 0} (board : Board W) (high set : W → Bool) : Type 0 where
  pub change :
      (fd : ℕ) (out : Bool) (w : W)
      → (high (board.reactor_mod fd out w).1 ≡ high w)
        × (set (board.reactor_mod fd out w).1 ≡ set w)
  pub add :
      (fd : ℕ) (out : Bool) (w : W)
      → (high (board.reactor_add fd out w).1 ≡ high w)
        × (set (board.reactor_add fd out w).1 ≡ set w)
  pub del :
      (fd : ℕ) (w : W)
      → (high (board.reactor_del fd w) ≡ high w) × (set (board.reactor_del fd w) ≡ set w)
  pub close :
      (fd : ℕ) (w : W) → (high (board.close_fd fd w) ≡ high w) × (set (board.close_fd fd w) ≡ set w)
  pub drain :
      (fd : ℕ) (w : W) → (high (board.drain fd w) ≡ high w) × (set (board.drain fd w) ≡ set w)
  pub line :
      (fd : ℕ) (level : Bool) (w : W)
      → ((board.set_line fd level w).0 ≡ true)
        × (high (board.set_line fd level w).1 ≡ level)
        × (set (board.set_line fd level w).1 ≡ set w)
  pub arm :
      (fd : ℕ) (delay : Option ℕ) (w : W)
      → (high (board.arm fd delay w) ≡ high w)
        × (is_some delay ≡ true → set (board.arm fd delay w) ≡ true)

module _ {W : Type 0} (board : Board W) (high set : W → Bool) (l : Watches board high set) where
  -- The line and the timer are as they were.
  abbrev pub Same : W → W → Type 0
  Same w w' = (high w' ≡ high w) × (set w' ≡ set w)

  -- The line is low unless the driver is marked as on, and the timer is set if the device is marked as
  -- one to be opened again, unless the delay has overflowed.
  pub record IsSynced (u : Uart) (w : W) : Type 0 where
    pub off : u.de_tx_active ≡ false → high w ≡ false
    pub no_line : u.de_value_fd ≡ none → high w ≡ false
    pub ticking : u.reopen_armed ≡ true → u.retry_attempt ≤ 23 → set w ≡ true

  pub moved : (u : Uart) (w w' : W) → Same w w' → IsSynced u w → IsSynced u w'
  moved u w w' (h, s) i = record {
    off = λ e. h ∙ i.off e;
    no_line = λ e. h ∙ i.no_line e;
    ticking = λ a n. s ∙ i.ticking a n;
  }

  pub watch_fd-Same :
      (u : Uart) (fd : Option ℕ) (out : Bool) (w : W) → Same w (watch_fd board u fd out w).1
  watch_fd-Same u none out w = (refl, refl)
  watch_fd-Same u (some fd) out w =
      let (a, b) = l.change fd out w in
      let w1 = (board.reactor_mod fd out w).1 in
      let (c, d) = l.add fd out w1 in ground (arith, a, b, c, d)

  drain_some-Same : (fd : Option ℕ) (w : W) → Same w (drain_some board fd w)
  drain_some-Same none w = (refl, refl)
  drain_some-Same (some fd) w = l.drain fd w

  close_watched-Same : (b : Bool) (fd : Option ℕ) (w : W) → Same w (close_watched board b fd w)
  close_watched-Same b none w = (refl, refl)
  close_watched-Same true (some fd) w =
      let (a, c) = l.del fd w in let (d, e) = l.close fd (board.reactor_del fd w) in (d ∙ a, e ∙ c)
  close_watched-Same false (some fd) w = l.close fd w

  -- what the write of the line leaves
  gpio_lem :
      (line : Option ℕ) (level : Bool) (w : W)
      → (line ≡ none → high w ≡ false)
      → let (rc, w') = gpio_set_value board line level w in
        (rc ≡ ok)
        × (set w' ≡ set w)
        × (level ≡ false → high w' ≡ false)
        × (line ≡ none → high w' ≡ false)
  gpio_lem none level w h = (refl, refl, λ _. h refl, λ _. h refl)
  gpio_lem (some fd) level w h = let (a, b, c) = l.line fd level w in ground (arith, a, b, c)

  pub tx_disable-IsSynced :
      (u : Uart) (w : W) → IsSynced u w → let (u', w') = tx_disable board u w in IsSynced u' w'
  unfolding tx_disable
  tx_disable-IsSynced u w i =
      let v = drain_some board u.fd w in
      let j = moved u w v (drain_some-Same u.fd w) i in
      let (rc, timer, low, gone) = gpio_lem u.de_value_fd false v j.no_line in
      if_intro (λ (x : Uart × W). IsSynced (x.0) (x.1)) (not u.is_485 || not u.de_tx_active)
        (λ _. i)
        (λ _. record {
          off = λ _. low refl;
          no_line = gone;
          ticking = λ a n. timer ∙ j.ticking a n;
        })

  pub tx_enable-IsSynced :
      (u : Uart) (w : W) → IsSynced u w → let (u', w') = (tx_enable board u w).1 in IsSynced u' w'
  unfolding tx_enable
  tx_enable-IsSynced u w i =
      let (rc, timer, low, gone) = gpio_lem u.de_value_fd true w i.no_line in
      if_intro (λ (x : Status × (Uart × W)). IsSynced (x.1.0) (x.1.1))
        (not u.is_485 || u.de_tx_active) (λ _. i)
        (λ _. rw rc (record {
          off = λ e. absurd (cc (e));
          no_line = gone;
          ticking = λ a n. timer ∙ i.ticking a n;
        }))

  device_close-IsSynced :
      (u : Uart) (w : W) → IsSynced u w → let (u', w') = device_close board u w in IsSynced u' w'
  unfolding device_close
  device_close-IsSynced u w i =
      let (u1, w1) = tx_disable board u w in
      let j : IsSynced u1 w1 = tx_disable-IsSynced u w i in
      let k = moved u1 w1 _ (close_watched-Same u1.has_reactor u1.fd w1) j in
      record { off = k.off; no_line = k.no_line; ticking = k.ticking }

  tx_disable_timer : (u : Uart) (w : W) → ((tx_disable board u w).0).timer_fd ≡ u.timer_fd
  unfolding tx_disable
  tx_disable_timer u w = ground arith

  delay_some : (n : ℕ) → n ≤ 22 → is_some (reconnect_delay_ms n) ≡ true
  delay_some n h = go (reconnect_delay_ms n) (reconnect_delay_ms-Delay n)
    where
      go : (o : Option ℕ) → Delay n o → is_some o ≡ true
      go _ (waits ms a b c) = refl
      go _ (overflows k) = absurd (omega arith)

  armed-IsSynced :
      (u : Uart) (w : W)
      → is_some u.timer_fd ≡ true
      → IsSynced u w
      → IsSynced
          (record u { reopen_armed = true; retry_attempt = u.retry_attempt + 1 })
          (timer_arm board u.timer_fd (reconnect_delay_ms u.retry_attempt) w)
  armed-IsSynced u w t i = go u.timer_fd t
    where
      go :
          (timer : Option ℕ)
          → is_some timer ≡ true
          → IsSynced
              (record u { reopen_armed = true; retry_attempt = u.retry_attempt + 1 })
              (timer_arm board timer (reconnect_delay_ms u.retry_attempt) w)
      go none e = absurd (cc (e))
      go (some fd) e =
          let (a, b) = l.arm fd (reconnect_delay_ms u.retry_attempt) w in
          record {
            off = λ e. a ∙ i.off e;
            no_line = λ e. a ∙ i.no_line e;
            ticking = λ _ n. b (delay_some u.retry_attempt (omega (arith, n)));
          }

  pub schedule_reopen-IsSynced :
      (u : Uart) (w : W)
      → is_some u.timer_fd ≡ true
      → IsSynced u w
      → let (u', w') = schedule_reopen board u w in IsSynced u' w'
  unfolding schedule_reopen device_close
  schedule_reopen-IsSynced u w t i =
      let (u1, w1) = device_close board u w in
      armed-IsSynced u1 w1 (ground (arith, t, tx_disable_timer u w)) (device_close-IsSynced u w i)
