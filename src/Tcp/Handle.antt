-- ===== src/Tcp/Handle.antt =====
-- The handler of a TCP transport's events, of src/transport/tcp/tcp_transport.c.
use boardcommd.Base.{
  ℕ, ◌-◌, ◌≤◌, ◌≡◌, refl, sym, ◌∙◌, subst, inl, inr, Bool, true, false, ◌&&◌, ◌||◌, List, Option,
  none, some, ltb, arith, if_intro,
}
use boardcommd.Types.{Status, ok}
use boardcommd.Client.{Reply}
use boardcommd.Client.Pending.{Honest}
use boardcommd.Tcp.{Tcp, is_some, flush_send}
use boardcommd.Tcp.Connect.{Dial, Accepted, Events, after_flush, is_fd, handle_event}
use boardcommd.Tcp.Flush.{Flushed, flush_send-Flushed}
use boardcommd.Tcp.Invariant.{
  IsTcp, After, drop-IsTcp, timer_loop-IsTcp, accept_loop-IsTcp, on_connect_ready-IsTcp,
}

has_listener : (fd : ℕ) (o : Option ℕ) (b : Bool) → is_fd fd o && b ≡ true → is_some o ≡ true
has_listener fd none b e = ground (arith, e)
has_listener fd (some other) b e = refl

module _ {W : Type 0} (reactor_mod reactor_add : ℕ → Bool → W → Status × W) (memory : W → Bool)
    (reactor_del close_fd : ℕ → W → W) (arm : ℕ → Option ℕ → W → W) where
  -- `tcp_flush_send` moves on in the queue or clears it.
  moved-IsTcp :
      (t : Tcp) (off len : ℕ)
      → IsTcp t
      → off ≤ len
      → (t.connected ≡ false → len ≡ 0)
      → IsTcp (record t { send_off = off; send_len = len })
  moved-IsTcp t off len i h e = record {
    ordered = h;
    has_conn = i.has_conn;
    has_dial = i.has_dial;
    exclusive = i.exclusive;
    empty = e;
    armed = i.armed;
    role = i.role;
    server = i.server;
  }

  flush_send-IsTcp :
      (rs : List Reply) (t : Tcp) (w : W)
      → IsTcp t
      → Honest rs (t.send_len - t.send_off)
      → let (rc, out, (t', w')) = flush_send reactor_mod reactor_add memory rs t w in IsTcp t'
  flush_send-IsTcp rs t w i h =
      let (rc, out, (t', w')) = flush_send reactor_mod reactor_add memory rs t w in
      let f : Flushed t out t' =
        flush_send-Flushed reactor_mod reactor_add memory rs t w i.ordered h in
      subst IsTcp (sym f.only_queue) (
        moved-IsTcp t t'.send_off t'.send_len i f.within
          (λ e. elim f.end [ inl same ↦ same ∙ i.empty e | inr none_left ↦ none_left ]))

  after_flush-IsTcp :
      (rc : Option Status) (t : Tcp) (w : W)
      → IsTcp t
      → After IsTcp (after_flush reactor_mod reactor_add memory reactor_del close_fd arm rc t w)
  after_flush-IsTcp none t w i = i
  after_flush-IsTcp (some ok) t w i = i
  after_flush-IsTcp (some rc) t w i =
      (drop-IsTcp reactor_mod reactor_add memory reactor_del close_fd arm t w i).0

  -- Whatever event `tcp_handle_event` is called for and whatever the system calls that it makes
  -- give, as long as `send` takes no more than it is given, the invariant of the transport is kept:
  -- it is connected, connecting or neither, never two of these; it has a connection in the first two
  -- cases, nothing waits to be sent outside the first, and only a client that is neither waits for
  -- its timer.
  pub handle_event-IsTcp :
      (fd : ℕ) (e : Events) (dials : List Dial) (accepts : List Accepted) (error : Bool)
      (replies : List Reply) (t : Tcp) (w : W)
      → IsTcp t
      → Honest replies (t.send_len - t.send_off)
      → let (rc, (t', w')) =
          handle_event reactor_mod reactor_add memory reactor_del close_fd arm fd e dials accepts
            error replies t w in
        IsTcp t'
  unfolding handle_event
  handle_event-IsTcp fd e dials accepts error replies t w i h =
      let (out, sent, (t1, w1)) = flush_send reactor_mod reactor_add memory replies t w in
      let flushed = flush_send-IsTcp replies t w i h in
      let (dropped, _) = drop-IsTcp reactor_mod reactor_add memory reactor_del close_fd arm t w i in
      if_intro (After IsTcp) (is_fd fd t.timer_fd && e.can_read)
        (λ _. timer_loop-IsTcp reactor_mod reactor_add memory reactor_del close_fd arm dials t w i)
        (λ _.
          if_intro (After IsTcp) (is_fd fd t.listen_fd && e.can_read)
            (λ x.
              accept_loop-IsTcp reactor_mod reactor_add memory reactor_del close_fd arm accepts t w
                i (i.role (has_listener fd t.listen_fd e.can_read x)))
            (λ _.
              if_intro (After IsTcp)
                (is_fd fd t.conn_fd && (t.connecting && (e.can_write || (e.can_read || e.failed))))
                (λ x.
                  on_connect_ready-IsTcp reactor_mod reactor_add memory reactor_del close_fd arm
                    error t w i (ground (arith, x)))
                (λ _.
                  if_intro (After IsTcp) (is_fd fd t.conn_fd && t.connected)
                    (λ _.
                      if_intro (After IsTcp) (e.hung_up || e.failed) (λ _. dropped)
                        (λ _.
                          if_intro (After IsTcp) (e.can_write && ltb t.send_off t.send_len)
                            (λ _. after_flush-IsTcp out t1 w1 flushed) (λ _. i)))
                    (λ _. i))))
