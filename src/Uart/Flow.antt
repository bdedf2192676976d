-- ===== src/Uart/Flow.antt =====
-- What sending and receiving make of the state of a UART transport, in
-- src/transport/uart/uart_transport.c.
use boardcommd.Base.{
  ℕ, zero, suc, ◌+◌, ◌-◌, ◌<◌, ◌≤◌, ◌≡◌, sym, ap, ◌∙◌, subst, true, not, List, [], ◌∷◌, Bytes,
  Option, some, ltb, length, length-drop, drop, arith, if_intro, if◌then◌else◌, ◌&&◌,
}
use boardcommd.Types.{Status, io, invalid, not_found}
use boardcommd.Bus.Send.{is_ok}
use boardcommd.Client.{Reply, took, interrupted, would_block, broken}
use boardcommd.Client.Pending.{Honest}
use boardcommd.Uart.{Uart, Board, tx_enable, tx_disable, schedule_reopen}
use boardcommd.Uart.Send.{
  send_cap, is_open, queue_send, flushed, flush_loop, flush_send, send_loop, uart_send, uart_recv,
  Input, bytes, hung_up, nothing, read_failed,
}
use boardcommd.Uart.Invariant.{
  IsUart, IsOpen, IsUart-IsRunning, IsUart-IsOpen, schedule_reopen-IsUart, tx_enable-IsOpen,
  tx_enable_queue, tx_enable_failed,
}

module _ {W : Type 0} (board : Board W) where
  -- what a call that may send leaves
  abbrev pub Left : Option Status × Bytes × (Uart × W) → Type 0
  Left x = IsUart (x.2.0)

  flushed-Left : (u : Uart) (w : W) → IsOpen board u → Left (flushed board u w)
  unfolding tx_disable
  flushed-Left u w o = ground (arith, o, o.running, o.running.half)

  busy-IsUart : (u : Uart) → IsOpen board u → u.send_off < u.send_len → IsUart u
  busy-IsUart u o l = ground (arith, o, o.running, o.running.half)

  more :
      (u : Uart) (n : ℕ)
      → IsOpen board u
      → u.send_off + suc n ≤ u.send_len
      → IsOpen board (record u { send_off = u.send_off + suc n })
  more u n o h = ground (arith, o, o.running, o.running.half)

  flush_loop-Left :
      (rs : List Reply) (u : Uart) (w : W)
      → IsOpen board u
      → Honest rs (u.send_len - u.send_off)
      → Left (flush_loop board rs u w)
  unfolding flush_loop
  flush_loop-Left [] u w o h =
      if_intro Left (ltb u.send_off u.send_len) (λ l. busy-IsUart u o (ground (arith, l)))
        (λ _. flushed-Left u w o)
  flush_loop-Left (took zero ∷ rs) u w o h =
      if_intro Left (ltb u.send_off u.send_len) (λ _. schedule_reopen-IsUart board u w o.running)
        (λ _. flushed-Left u w o)
  flush_loop-Left (took (suc n) ∷ rs) u w o (k, h) =
      let next = record u { send_off = u.send_off + suc n } in
      let e : u.send_len - u.send_off - suc n ≡ u.send_len - (u.send_off + suc n) = omega arith in
      if_intro Left (ltb u.send_off u.send_len)
        (λ l.
          flush_loop-Left rs next w (more u n o (ground (arith, k, l, o.running)))
            (subst (Honest rs) e h))
        (λ _. flushed-Left u w o)
  flush_loop-Left (interrupted ∷ rs) u w o h =
      if_intro Left (ltb u.send_off u.send_len) (λ _. flush_loop-Left rs u w o h)
        (λ _. flushed-Left u w o)
  flush_loop-Left (would_block ∷ rs) u w o h =
      if_intro Left (ltb u.send_off u.send_len) (λ l. busy-IsUart u o (ground (arith, l)))
        (λ _. flushed-Left u w o)
  flush_loop-Left (broken ∷ rs) u w o h =
      if_intro Left (ltb u.send_off u.send_len) (λ _. schedule_reopen-IsUart board u w o.running)
        (λ _. flushed-Left u w o)

  pub flush_send-IsUart :
      (rs : List Reply) (u : Uart) (w : W)
      → IsUart u
      → Honest rs (u.send_len - u.send_off)
      → Left (flush_send board rs u w)
  unfolding flush_send
  flush_send-IsUart rs u w i h =
      let x = tx_enable board u w in
      let (off, len, buf) = tx_enable_queue board u w in
      if_intro Left (not (is_open u)) (λ _. i)
        (λ op.
          let o = IsUart-IsOpen board u i (ground (arith, op)) in
          if_intro Left (not (ltb u.send_off u.send_len)) (λ _. flush_loop-Left rs u w o h)
            (λ _.
              if_intro Left (is_ok (x.0))
                (λ _. flush_loop-Left rs (x.1.0) (x.1.1) (tx_enable-IsOpen board u w o) (
                  subst (Honest rs)
                    (ap (λ (q : ℕ). q - u.send_off) (sym len)
                      ∙ ap (λ (q : ℕ). (x.1.0).send_len - q) (sym off))
                    h))
                (λ e. subst IsUart (sym (tx_enable_failed board u w e)) i)))

  -- the call has returned
  abbrev pub Returned : Option Status × Bytes × (Uart × W) → Type 0
  Returned x = (rc : Status) × (x.0 ≡ some rc)

  tx_disable-IsUart : (u : Uart) (w : W) → IsOpen board u → IsUart ((tx_disable board u w).0)
  unfolding tx_disable
  tx_disable-IsUart u w o = ground (arith, o, o.running, o.running.half)

  queued-IsUart :
      (u : Uart) (bs : Bytes) (w : W)
      → ((v : W) → board.memory v ≡ true)
      → IsOpen board u
      → u.send_off ≡ u.send_len
      → length bs ≤ send_cap
      → 0 < length bs
      → IsUart ((queue_send board u bs w).1.0)
  unfolding queue_send
  queued-IsUart u bs w m o e l z = ground (arith, m w, o, o.running, o.running.half, e, l)

  send_loop-IsUart :
      (rs : List Reply) (u : Uart) (bs : Bytes) (w : W)
      → ((v : W) → board.memory v ≡ true)
      → IsOpen board u
      → u.send_off ≡ u.send_len
      → length bs ≤ send_cap
      → Returned (send_loop board rs u bs w)
      → Left (send_loop board rs u bs w)
  unfolding send_loop
  send_loop-IsUart rs u [] w m o e l x = tx_disable-IsUart u w o
  send_loop-IsUart [] u (b ∷ bs) w m o e l x = absurd (cc (x.1))
  send_loop-IsUart (took zero ∷ rs) u (b ∷ bs) w m o e l x =
      schedule_reopen-IsUart board u w o.running
  send_loop-IsUart (took (suc n) ∷ rs) u (b ∷ bs) w m o e l x =
      send_loop-IsUart rs u (drop (suc n) (b ∷ bs)) w m o e
        (omega (arith, length-drop (suc n) (b ∷ bs))) x
  send_loop-IsUart (interrupted ∷ rs) u (b ∷ bs) w m o e l x =
      send_loop-IsUart rs u (b ∷ bs) w m o e l x
  send_loop-IsUart (would_block ∷ rs) u (b ∷ bs) w m o e l x =
      queued-IsUart u (b ∷ bs) w m o e l (omega arith)
  send_loop-IsUart (broken ∷ rs) u (b ∷ bs) w m o e l x = schedule_reopen-IsUart board u w o.running

  queue_send-IsUart :
      (u : Uart) (bs : Bytes) (w : W) → IsUart u → IsUart ((queue_send board u bs w).1.0)
  unfolding queue_send
  queue_send-IsUart u bs w i = ground (arith, i, i.turned)

  pub uart_send-IsUart :
      (rs : List Reply) (u : Uart) (bs : Bytes) (w : W)
      → ((v : W) → board.memory v ≡ true)
      → length bs ≤ send_cap
      → IsUart u
      → Returned (uart_send board rs u bs w)
      → Left (uart_send board rs u bs w)
  unfolding uart_send
  uart_send-IsUart rs u bs w m l i =
      let x = tx_enable board u w in
      let Kept : Option Status × Bytes × (Uart × W) → Type 0 = λ y. Returned y → Left y in
      let (off, len, buf) = tx_enable_queue board u w in
      if_intro Kept (not (is_open u)) (λ _ _. i)
        (λ op.
          let o = IsUart-IsOpen board u i (ground (arith, op)) in
          if_intro Kept (ltb u.send_off u.send_len) (λ _ _. queue_send-IsUart u bs w i)
            (λ e.
              if_intro Kept (is_ok (x.0))
                (λ _.
                  send_loop-IsUart rs (x.1.0) bs (x.1.1) m (tx_enable-IsOpen board u w o)
                    (ground (arith, off, len, e, i)) l)
                (λ bad _. subst IsUart (sym (tx_enable_failed board u w bad)) i)))

  end-IsUart :
      (u : Uart) (w : W)
      → IsUart u
      → IsUart (
          (if◌then◌else◌ {A = Status × Bytes × (Uart × W)}
            (not (is_open u))
            (invalid, [], (u, w))
            (if u.is_485 && u.de_tx_active
              then (not_found, [], (u, w))
              else (io, [], schedule_reopen board u w))).2.0)
  end-IsUart u w i =
      let P : Status × Bytes × (Uart × W) → Type 0 = λ y. IsUart (y.2.0) in
      if_intro P (not (is_open u)) (λ _. i)
        (λ _.
          if_intro P (u.is_485 && u.de_tx_active) (λ _. i)
            (λ _. schedule_reopen-IsUart board u w (IsUart-IsRunning u i)))

  pub uart_recv-IsUart :
      (input : Input) (u : Uart) (w : W) → IsUart u → IsUart ((uart_recv board input u w).2.0)
  unfolding uart_recv
  uart_recv-IsUart (bytes b bs) u w i = ground (arith, i, i.turned)
  uart_recv-IsUart nothing u w i = ground (arith, i, i.turned)
  uart_recv-IsUart hung_up u w i = end-IsUart u w i
  uart_recv-IsUart read_failed u w i = end-IsUart u w i
