-- ===== src/Uart/Invariant.antt =====
-- The state of a UART transport of src/transport/uart/uart_transport.c between two calls.
use boardcommd.Base.{◌<◌, ◌≤◌, ◌≡◌, true, false, not, none, arith}
use boardcommd.Bus.Send.{is_ok}
use boardcommd.Tcp.{is_some}
use boardcommd.Uart.{
  Uart, Board, Device, no_device, bad_termios, device, tx_enable, tx_disable, device_open,
  device_close, schedule_reopen, try_reopen,
}
use boardcommd.Uart.Send.{is_open}

-- The device is open, or it is marked as one that the timer opens again, and there is a timer. The
-- driver is marked as on only in RS-485 mode, on an open device, while bytes wait to be sent.
pub record IsUart (u : Uart) : Type 0 where
  pub open_iff : u.opened ≡ is_some u.fd
  pub waits : u.reopen_armed ≡ not u.opened
  pub timed : is_some u.timer_fd ≡ true
  pub ordered : u.send_off ≤ u.send_len
  pub turned :
      u.de_tx_active ≡ true → (u.is_485 ≡ true) × (u.opened ≡ true) × (u.send_off < u.send_len)

-- What holds also in the middle of a call.
pub record IsRunning (u : Uart) : Type 0 where
  pub timed : is_some u.timer_fd ≡ true
  pub ordered : u.send_off ≤ u.send_len
  pub half : u.de_tx_active ≡ true → u.is_485 ≡ true

pub IsUart-IsRunning : (u : Uart) → IsUart u → IsRunning u
IsUart-IsRunning u i = record { timed = i.timed; ordered = i.ordered; half = λ y. (i.turned y).0 }

module _ {W : Type 0} (board : Board W) where
  pub schedule_reopen-IsUart :
      (u : Uart) (w : W) → IsRunning u → IsUart ((schedule_reopen board u w).0)
  unfolding schedule_reopen device_close tx_disable
  schedule_reopen-IsUart u w i = ground (arith, i, i.half)

  -- A call in the middle of which the device is open.
  pub record IsOpen (u : Uart) : Type 0 where
    pub running : IsRunning u
    pub opened : u.opened ≡ true
    pub has_fd : is_some u.fd ≡ true
    pub unarmed : u.reopen_armed ≡ false

  pub IsUart-IsOpen : (u : Uart) → IsUart u → is_open u ≡ true → IsOpen u
  IsUart-IsOpen u i o = record {
    running = IsUart-IsRunning u i;
    opened = ground (arith, o);
    has_fd = ground (arith, o);
    unarmed = ground (arith, o, i);
  }

  pub tx_enable-IsOpen : (u : Uart) (w : W) → IsOpen u → IsOpen ((tx_enable board u w).1.0)
  unfolding tx_enable
  tx_enable-IsOpen u w o = ground (arith, o, o.running.half)

  -- `uart_rs485_tx_enable` touches nothing but the line, and fails only where it was off.
  pub tx_enable_queue :
      (u : Uart) (w : W)
      → let u' = (tx_enable board u w).1.0 in
        (u'.send_off ≡ u.send_off) × (u'.send_len ≡ u.send_len) × (u'.has_buf ≡ u.has_buf)
  unfolding tx_enable
  tx_enable_queue u w = ground arith

  pub tx_enable_failed :
      (u : Uart) (w : W) → is_ok ((tx_enable board u w).0) ≡ false → (tx_enable board u w).1.0 ≡ u
  unfolding tx_enable
  tx_enable_failed u w e = ground (arith, e)

  pub try_reopen-IsUart :
      (d : Device) (u : Uart) (w : W)
      → IsRunning u
      → u.opened ≡ false
      → u.de_tx_active ≡ false
      → IsUart ((try_reopen board d u w).1.0)
  unfolding try_reopen device_open
  try_reopen-IsUart no_device u w r o a =
      schedule_reopen-IsUart (record u { fd = none }) w (ground (arith, r, r.half))
  try_reopen-IsUart (bad_termios fd) u w r o a =
      schedule_reopen-IsUart (record u { fd = none }) (board.close_fd fd w)
        (ground (arith, r, r.half))
  try_reopen-IsUart (device fd) u w r o a = ground (arith, r, a)
