-- ===== src/Uart/Line/Calls.antt =====
-- What sending and receiving make of the RS-485 line and the timer, in
-- src/transport/uart/uart_transport.c.
use boardcommd.Base.{
  ℕ, zero, suc, ◌+◌, ◌-◌, ◌≡◌, Bool, true, not, List, [], ◌∷◌, Bytes, Option, ltb, length, drop,
  arith, if_intro, ◌&&◌, if◌then◌else◌,
}
use boardcommd.Types.{Status, ok, io, invalid, not_found}
use boardcommd.Bus.Send.{is_ok}
use boardcommd.Client.{Reply, took, interrupted, would_block, broken, copy_to}
use boardcommd.Tcp.{is_some}
use boardcommd.Uart.{Uart, Board, out_events, watch_fd, tx_enable, tx_disable, schedule_reopen}
use boardcommd.Uart.Send.{
  Input, bytes, hung_up, nothing, read_failed, clear_send_queue, queue_send, flushed, flush_loop,
  flush_send, send_loop, uart_send, uart_recv, is_open, ensure_send_cap,
}
use boardcommd.Uart.Line.{
  IsSynced, moved, watch_fd-Same, tx_disable-IsSynced, tx_enable-IsSynced, schedule_reopen-IsSynced,
  Watches,
}

module _ {W : Type 0} (board : Board W) (high set : W → Bool) (l : Watches board high set) where
  -- what a call that may send leaves
  abbrev Left : Option Status × Bytes × (Uart × W) → Type 0
  Left x = IsSynced board high set l (x.2.0) (x.2.1)

  pub watched-IsSynced :
      (u : Uart) (w : W)
      → IsSynced board high set l u w
      → IsSynced board high set l u (watch_fd board u u.fd (out_events u) w).1
  watched-IsSynced u w i =
      moved board high set l u w _ (watch_fd-Same board high set l u u.fd (out_events u) w) i

  -- The queue has nothing to do with the line.
  queue_moves :
      (u : Uart) (w : W) (b : Bool) (buf : ℕ → ℕ) (len off : ℕ)
      → IsSynced board high set l u w
      → IsSynced board high set l
          (record u { has_buf = b; send_buf = buf; send_len = len; send_off = off })
          w
  queue_moves u w b buf len off i = record { off = i.off; no_line = i.no_line; ticking = i.ticking }

  queue_send-IsSynced :
      (u : Uart) (bs : Bytes) (w : W)
      → IsSynced board high set l u w
      → let (u', w') = (queue_send board u bs w).1 in IsSynced board high set l u' w'
  unfolding queue_send
  queue_send-IsSynced u bs w i =
      let P : Status × (Uart × W) → Type 0 = λ x. IsSynced board high set l (x.1.0) (x.1.1) in
      let u' = record u {
        has_buf = true;
        send_buf = copy_to u.send_buf u.send_len bs;
        send_len = u.send_len + length bs;
      } in
      if_intro P (not u.opened) (λ _. i)
        (λ _.
          if_intro P (ensure_send_cap board (u.send_len - u.send_off + length bs) u w)
            (λ _. watched-IsSynced u' w (queue_moves u w true _ _ u.send_off i)) (λ _. i))

  flushed-Left : (u : Uart) (w : W) → IsSynced board high set l u w → Left (flushed board u w)
  flushed-Left u w i =
      let (u1, w1) = tx_disable board (clear_send_queue u) w in
      watched-IsSynced u1 w1 (
        tx_disable-IsSynced board high set l (clear_send_queue u) w
          (queue_moves u w u.has_buf u.send_buf 0 0 i))

  flush_loop-Left :
      (rs : List Reply) (u : Uart) (w : W)
      → is_some u.timer_fd ≡ true
      → IsSynced board high set l u w
      → Left (flush_loop board rs u w)
  unfolding flush_loop
  flush_loop-Left [] u w t i =
      if_intro Left (ltb u.send_off u.send_len) (λ _. i) (λ _. flushed-Left u w i)
  flush_loop-Left (took zero ∷ rs) u w t i =
      if_intro Left (ltb u.send_off u.send_len)
        (λ _. schedule_reopen-IsSynced board high set l u w t i) (λ _. flushed-Left u w i)
  flush_loop-Left (took (suc n) ∷ rs) u w t i =
      let next = record u { send_off = u.send_off + suc n } in
      if_intro Left (ltb u.send_off u.send_len)
        (λ _.
          flush_loop-Left rs next w t
            (queue_moves u w u.has_buf u.send_buf u.send_len (u.send_off + suc n) i))
        (λ _. flushed-Left u w i)
  flush_loop-Left (interrupted ∷ rs) u w t i =
      if_intro Left (ltb u.send_off u.send_len) (λ _. flush_loop-Left rs u w t i)
        (λ _. flushed-Left u w i)
  flush_loop-Left (would_block ∷ rs) u w t i =
      if_intro Left (ltb u.send_off u.send_len) (λ _. watched-IsSynced u w i)
        (λ _. flushed-Left u w i)
  flush_loop-Left (broken ∷ rs) u w t i =
      if_intro Left (ltb u.send_off u.send_len)
        (λ _. schedule_reopen-IsSynced board high set l u w t i) (λ _. flushed-Left u w i)

  tx_enable_timer : (u : Uart) (w : W) → ((tx_enable board u w).1.0).timer_fd ≡ u.timer_fd
  unfolding tx_enable
  tx_enable_timer u w = ground arith

  pub flush_send-Left :
      (rs : List Reply) (u : Uart) (w : W)
      → is_some u.timer_fd ≡ true
      → IsSynced board high set l u w
      → Left (flush_send board rs u w)
  unfolding flush_send
  flush_send-Left rs u w t i =
      let x = tx_enable board u w in
      let j = tx_enable-IsSynced board high set l u w i in
      if_intro Left (not (is_open u)) (λ _. i)
        (λ _.
          if_intro Left (not (ltb u.send_off u.send_len)) (λ _. flush_loop-Left rs u w t i)
            (λ _.
              if_intro Left (is_ok (x.0))
                (λ _. flush_loop-Left rs (x.1.0) (x.1.1) (ground (arith, t, tx_enable_timer u w)) j)
                (λ _. j)))

  send_loop-Left :
      (rs : List Reply) (u : Uart) (bs : Bytes) (w : W)
      → is_some u.timer_fd ≡ true
      → IsSynced board high set l u w
      → Left (send_loop board rs u bs w)
  unfolding send_loop
  send_loop-Left rs u [] w t i = tx_disable-IsSynced board high set l u w i
  send_loop-Left [] u (b ∷ bs) w t i = i
  send_loop-Left (took zero ∷ rs) u (b ∷ bs) w t i =
      schedule_reopen-IsSynced board high set l u w t i
  send_loop-Left (took (suc n) ∷ rs) u (b ∷ bs) w t i =
      send_loop-Left rs u (drop (suc n) (b ∷ bs)) w t i
  send_loop-Left (interrupted ∷ rs) u (b ∷ bs) w t i = send_loop-Left rs u (b ∷ bs) w t i
  send_loop-Left (would_block ∷ rs) u (b ∷ bs) w t i = queue_send-IsSynced u (b ∷ bs) w i
  send_loop-Left (broken ∷ rs) u (b ∷ bs) w t i = schedule_reopen-IsSynced board high set l u w t i

  pub uart_send-Left :
      (rs : List Reply) (u : Uart) (bs : Bytes) (w : W)
      → is_some u.timer_fd ≡ true
      → IsSynced board high set l u w
      → Left (uart_send board rs u bs w)
  unfolding uart_send
  uart_send-Left rs u bs w t i =
      let x = tx_enable board u w in
      let j = tx_enable-IsSynced board high set l u w i in
      if_intro Left (not (is_open u)) (λ _. i)
        (λ _.
          if_intro Left (ltb u.send_off u.send_len) (λ _. queue_send-IsSynced u bs w i)
            (λ _.
              if_intro Left (is_ok (x.0))
                (λ _.
                  send_loop-Left rs (x.1.0) bs (x.1.1) (ground (arith, t, tx_enable_timer u w)) j)
                (λ _. j)))

  end-IsSynced :
      (u : Uart) (w : W)
      → is_some u.timer_fd ≡ true
      → IsSynced board high set l u w
      → let x : Status × Bytes × (Uart × W) =
          if not (is_open u)
          then (invalid, [], (u, w))
          else if u.is_485 && u.de_tx_active
          then (not_found, [], (u, w))
          else (io, [], schedule_reopen board u w) in
        IsSynced board high set l (x.2.0) (x.2.1)
  end-IsSynced u w t i =
      let P : Status × Bytes × (Uart × W) → Type 0 =
        λ x. IsSynced board high set l (x.2.0) (x.2.1) in
      if_intro P (not (is_open u)) (λ _. i)
        (λ _.
          if_intro P (u.is_485 && u.de_tx_active) (λ _. i)
            (λ _. schedule_reopen-IsSynced board high set l u w t i))

  received-IsSynced :
      (u : Uart) (w : W) (rc : Status) (bs : Bytes)
      → IsSynced board high set l u w
      → let x : Status × Bytes × (Uart × W) =
          if not (is_open u)
          then (invalid, [], (u, w))
          else if u.is_485 && u.de_tx_active
          then (not_found, [], (u, w))
          else (rc, bs, (u, w)) in
        IsSynced board high set l (x.2.0) (x.2.1)
  received-IsSynced u w rc bs i =
      let P : Status × Bytes × (Uart × W) → Type 0 =
        λ x. IsSynced board high set l (x.2.0) (x.2.1) in
      if_intro P (not (is_open u)) (λ _. i)
        (λ _. if_intro P (u.is_485 && u.de_tx_active) (λ _. i) (λ _. i))

  pub uart_recv-IsSynced :
      (input : Input) (u : Uart) (w : W)
      → is_some u.timer_fd ≡ true
      → IsSynced board high set l u w
      → let (u', w') = (uart_recv board input u w).2 in IsSynced board high set l u' w'
  unfolding uart_recv
  uart_recv-IsSynced (bytes b bs) u w t i = received-IsSynced u w ok (b ∷ bs) i
  uart_recv-IsSynced nothing u w t i = received-IsSynced u w not_found [] i
  uart_recv-IsSynced hung_up u w t i = end-IsSynced u w t i
  uart_recv-IsSynced read_failed u w t i = end-IsSynced u w t i
