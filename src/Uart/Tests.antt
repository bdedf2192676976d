-- ===== src/Uart/Tests.antt =====
-- The theorems on a UART transport, at concrete inputs.
use boardcommd.Base.{ℕ, ◌+◌, ◌≡◌, refl, arith, Bool, true, false, [], ◌∷◌, Bytes, Option, some}
use boardcommd.Types.{Status, ok}
use boardcommd.Uart.Line.Runs
use boardcommd.Config.Numbers.{pos}
use boardcommd.Client.{took, would_block}
use boardcommd.Tcp.Connect.{Events}
use boardcommd.Uart.{Uart, Board, device, baud_to_speed}
use boardcommd.Uart.Send.{uart_send, queue_send, send_loop}
use boardcommd.Uart.{tx_enable, device_open}
use boardcommd.Uart.Events.{new_uart, uart_open, rs485_init, handle_event}
use boardcommd.Uart.Invariant.{IsUart}
use boardcommd.Uart.Steps.{Reachable, Reachable-IsUart}
use boardcommd.Uart.Steps

-- a board on which all calls succeed, and that counts them
abbrev board : Board ℕ
board = record {
  reactor_mod = λ fd out w. (ok, w + 1);
  reactor_add = λ fd out w. (ok, w + 1);
  reactor_del = λ fd w. w + 1;
  close_fd = λ fd w. w + 1;
  set_line = λ fd level w. (true, w + 1);
  drain = λ fd w. w + 1;
  arm = λ fd delay w. w + 1;
  memory = λ w. true;
}

abbrev started : Uart
started = (uart_open board true (pos 17) (some 4) (some 5) (device 6) new_uart 0).1.0

-- Two of three bytes go out; the driver stays on for the third one.
abbrev has_sent : Uart
has_sent = (uart_send board (took 2 ∷ would_block ∷ []) started (7 ∷ 8 ∷ 9 ∷ []) 0).2.0

abbrev lost : Events
lost = record { can_read = false; can_write = false; hung_up = true; failed = false }

abbrev waiting : Uart
waiting = (handle_event board 6 lost [] [] has_sent 0).1.0

started_runs : ((uart_open board true (pos 17) (some 4) (some 5) (device 6) new_uart 0).0 ≡ ok)
unfolding uart_open rs485_init device_open
started_runs = refl

send_runs : (uart_send board (took 2 ∷ would_block ∷ []) started (7 ∷ 8 ∷ 9 ∷ []) 0).0 ≡ some ok
unfolding uart_open rs485_init device_open uart_send tx_enable send_loop queue_send
send_runs = refl

Reachable-IsUart_example : IsUart waiting
Reachable-IsUart_example =
    Reachable-IsUart board waiting (λ w. refl)
      (Steps.Reachable.event 6 lost [] [] has_sent 0 tt (
        Steps.Reachable.send (took 2 ∷ would_block ∷ []) (7 ∷ 8 ∷ 9 ∷ []) started 0 (omega arith)
          (ok, send_runs)
          (Steps.Reachable.opened true (pos 17) (some 4) (some 5) (device 6) 0 started_runs)))

-- a board that knows of the line and of the timer, and of nothing else
abbrev lines : Board (Bool × Bool)
lines = record {
  reactor_mod = λ fd out w. (ok, w);
  reactor_add = λ fd out w. (ok, w);
  reactor_del = λ fd w. w;
  close_fd = λ fd w. w;
  set_line = λ fd level w. (true, (level, w.1));
  drain = λ fd w. w;
  arm = λ fd delay w. (w.0, true);
  memory = λ w. true;
}

-- The device is opened, and two of three bytes go out, so that the line is high.
abbrev ready : Status × (Uart × (Bool × Bool))
ready = uart_open lines true (pos 17) (some 4) (some 5) (device 6) new_uart (false, false)

abbrev driven : Option Status × Bytes × (Uart × (Bool × Bool))
driven = uart_send lines (took 2 ∷ would_block ∷ []) (ready.1.0) (7 ∷ 8 ∷ 9 ∷ []) (ready.1.1)

speeds : baud_to_speed (pos 57600) ≡ 57600
unfolding baud_to_speed
speeds = refl
