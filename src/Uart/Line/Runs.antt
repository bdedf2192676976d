-- ===== src/Uart/Line/Runs.antt =====
-- The RS-485 line and the timer over all calls of a UART transport of
-- src/transport/uart/uart_transport.c.
use boardcommd.Base.{ℕ, ◌-◌, ◌≤◌, ◌≡◌, Bool, false, List, Bytes, Option, length}
use boardcommd.Types.{ok}
use boardcommd.Config.Numbers.{ℤ}
use boardcommd.Client.{Reply}
use boardcommd.Client.Pending.{Honest}
use boardcommd.Tcp.Connect.{Events}
use boardcommd.Uart.{Uart, Board, Device}
use boardcommd.Uart.Send.{send_cap, Input, uart_send, uart_recv}
use boardcommd.Uart.Flow.{Returned}
use boardcommd.Uart.Steps
use boardcommd.Uart.Events.{new_uart, uart_open, bind_reactor, handle_event}
use boardcommd.Uart.Line.{Same, Watches}

module _ {W : Type 0} (board : Board W) (high set : W → Bool) (l : Watches board high set) where
  -- A transport that `uart_open` has opened while the line was low, and the world, after any calls of
  -- its operations that have returned; between two calls the line and the timer stay as they are.
  pub data Run : Uart → W → Type 0 where
    opened :
        (mode_485 : Bool) (gpio : ℤ) (timer line : Option ℕ) (d : Device) (w : W)
        → high w ≡ false
        → (uart_open board mode_485 gpio timer line d new_uart w).0 ≡ ok
        → Run
            ((uart_open board mode_485 gpio timer line d new_uart w).1.0)
            ((uart_open board mode_485 gpio timer line d new_uart w).1.1)
    elapsed : (u : Uart) (w w' : W) → Same board high set l w w' → Run u w → Run u w'
    bound :
        (u : Uart) (w : W)
        → Run u w
        → Run ((bind_reactor board u w).1.0) ((bind_reactor board u w).1.1)
    event :
        (fd : ℕ) (e : Events) (devices : List Device) (rs : List Reply) (u : Uart) (w : W)
        → Honest rs (u.send_len - u.send_off)
        → Run u w
        → Run
            ((handle_event board fd e devices rs u w).1.0)
            ((handle_event board fd e devices rs u w).1.1)
    send :
        (rs : List Reply) (bs : Bytes) (u : Uart) (w : W)
        → length bs ≤ send_cap
        → Returned board (uart_send board rs u bs w)
        → Run u w
        → Run ((uart_send board rs u bs w).2.0) ((uart_send board rs u bs w).2.1)
    receive :
        (input : Input) (u : Uart) (w : W)
        → Run u w
        → Run ((uart_recv board input u w).2.0) ((uart_recv board input u w).2.1)
