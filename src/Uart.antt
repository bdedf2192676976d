-- ===== src/Uart.antt =====
-- The state of a UART transport, of src/transport/uart/uart_transport.c: the device, the line that
-- turns an RS-485 driver on, and the timer after which the device is opened again.
pub mod Send
pub mod Events
pub mod Invariant
pub mod Flow
pub mod Steps
pub mod Line
mod Tests
use boardcommd.Base.{
  ℕ, ◌+◌, ◌*◌, Bool, true, false, not, ◌&&◌, ◌||◌, Option, none, some, ◌==◌, ltb, if◌then◌else◌,
}
use boardcommd.Types.{Status, ok, io}
use boardcommd.Bus.Send.{is_ok}
use boardcommd.Config.Numbers.{ℤ, pos, negsuc}
use boardcommd.Tcp.{reconnect_delay_ms}

-- `bc_uart_impl_t` and `transport->fd`. `is_485` is `mode == BC_UART_MODE_485`, `has_buf` is
-- `send_buf != NULL`, and `has_reactor` is `reactor != NULL`.
-- `send_buf` has no end here, as in a TCP transport.
pub record Uart : Type 0 where
  pub fd : Option ℕ
  pub is_485 : Bool
  pub de_gpio : ℤ
  pub de_value_fd : Option ℕ
  pub de_tx_active : Bool
  pub timer_fd : Option ℕ
  pub reopen_armed : Bool
  pub retry_attempt : ℕ
  pub opened : Bool
  pub has_buf : Bool
  pub send_buf : ℕ → ℕ
  pub send_len : ℕ
  pub send_off : ℕ
  pub has_reactor : Bool

-- `baud_to_speed`, with the speeds written as their rates
unfoldable pub baud_to_speed : ℤ → ℕ
baud_to_speed (negsuc n) = 115200
baud_to_speed (pos n) =
    if (n == 9600)
      || ((n == 38400) || ((n == 57600) || ((n == 230400) || ((n == 460800) || (n == 921600)))))
    then n
    else 115200

-- What the transport calls: the reactor, `close`, the write of a GPIO value with its success,
-- `tcdrain`, `timerfd_settime` with a delay in milliseconds, and `malloc`.
pub record Board (W : Type 0) : Type 0 where
  pub reactor_mod : ℕ → Bool → W → Status × W
  pub reactor_add : ℕ → Bool → W → Status × W
  pub reactor_del : ℕ → W → W
  pub close_fd : ℕ → W → W
  pub set_line : ℕ → Bool → W → Bool × W
  pub drain : ℕ → W → W
  pub arm : ℕ → Option ℕ → W → W
  pub memory : W → Bool

-- What `open` and `tcsetattr` give in `uart_device_open`.
pub data Device : Type 0 where
  no_device : Device
  bad_termios : ℕ → Device
  device : ℕ → Device

-- `uart_epoll_events`: whether EPOLLOUT is among the events
abbrev pub out_events : Uart → Bool
out_events u = ltb u.send_off u.send_len

module _ {W : Type 0} (board : Board W) where
  open board use {reactor_mod, reactor_add, reactor_del, close_fd, set_line, drain, arm}

  -- `uart_watch_fd`
  abbrev pub watch_fd : Uart → Option ℕ → Bool → W → Status × W
  watch_fd u none out w = (ok, w)
  watch_fd u (some fd) out w =
      let (rc, w1) = reactor_mod fd out w in
      let again = reactor_add fd out w1 in
      if not u.has_reactor then (ok, w) else if is_ok rc then (ok, w1) else again

  -- `gpio_set_value`
  abbrev pub gpio_set_value : Option ℕ → Bool → W → Status × W
  gpio_set_value none level w = (ok, w)
  gpio_set_value (some fd) level w =
      let (done, w') = set_line fd level w in ((if done then ok else io), w')

  -- `close` on a descriptor that may be -1
  abbrev pub close_some : Option ℕ → W → W
  close_some none w = w
  close_some (some fd) w = close_fd fd w

  -- `tcdrain` on the device, if it is open
  abbrev pub drain_some : Option ℕ → W → W
  drain_some none w = w
  drain_some (some fd) w = drain fd w

  -- `uart_rs485_tx_enable`
  unfoldable pub tx_enable : Uart → W → Status × (Uart × W)
  tx_enable u w =
      let (rc, w') = gpio_set_value u.de_value_fd true w in
      if not u.is_485 || u.de_tx_active
      then (ok, (u, w))
      else if is_ok rc
      then (ok, (record u { de_tx_active = true }, w'))
      else (io, (u, w'))

  -- `uart_rs485_tx_disable`
  unfoldable pub tx_disable : Uart → W → Uart × W
  tx_disable u w =
      let (rc, w') = gpio_set_value u.de_value_fd false (drain_some u.fd w) in
      if not u.is_485 || not u.de_tx_active then (u, w) else (record u { de_tx_active = false }, w')

  -- `uart_rs485_deinit`
  unfoldable pub rs485_deinit : Uart → W → Uart × W
  rs485_deinit u w =
      let (rc, w') = gpio_set_value u.de_value_fd false w in
      let w1 = if u.de_tx_active then w' else w in
      (record u { de_tx_active = false; de_value_fd = none }, close_some u.de_value_fd w1)

  -- `uart_device_open`
  unfoldable pub device_open : Device → Uart → W → Status × (Uart × W)
  device_open no_device u w = (io, (record u { fd = none }, w))
  device_open (bad_termios fd) u w = (io, (record u { fd = none }, close_fd fd w))
  device_open (device fd) u w = (ok, (record u { fd = some fd; opened = true }, w))

  -- `bc_reactor_del` and `close` on the device, if it is open
  abbrev pub close_watched : Bool → Option ℕ → W → W
  close_watched watched none w = w
  close_watched watched (some fd) w = close_fd fd (if watched then reactor_del fd w else w)

  -- `uart_device_close`
  unfoldable pub device_close : Uart → W → Uart × W
  device_close u w =
      let (u1, w1) = tx_disable u w in
      (record u1 { fd = none; opened = false }, close_watched u1.has_reactor u1.fd w1)

  -- `uart_timer_arm`
  abbrev pub timer_arm : Option ℕ → Option ℕ → W → W
  timer_arm none delay w = w
  timer_arm (some fd) delay w = arm fd delay w

  -- `uart_schedule_reopen`; `uart_reopen_delay_ms` is the delay of a TCP transport.
  unfoldable pub schedule_reopen : Uart → W → Uart × W
  schedule_reopen u w =
      let (u1, w1) = device_close u w in
      (
        record u1 { reopen_armed = true; retry_attempt = u1.retry_attempt + 1 },
        timer_arm u1.timer_fd (reconnect_delay_ms u1.retry_attempt) w1,
      )

  -- `uart_try_reopen`
  unfoldable pub try_reopen : Device → Uart → W → Status × (Uart × W)
  try_reopen d u w =
      let (rc, (u1, w1)) = device_open d u w in
      let u2 = record u1 { retry_attempt = 0; reopen_armed = false } in
      let (rc2, w2) = watch_fd u2 u2.fd (out_events u2) w1 in
      if is_ok rc then (rc2, (u2, w2)) else (io, schedule_reopen u1 w1)
