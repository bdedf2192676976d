-- ===== src/Tcp/Steps.antt =====
-- The states that a TCP transport of src/transport/tcp/tcp_transport.c can come to.
use boardcommd.Base.{
  ℕ, zero, suc, ◌+◌, ◌-◌, ◌≡◌, Bool, true, not, List, [], ◌∷◌, Bytes, Option, none, some, ltb,
  length, drop, arith, if_intro,
}
use boardcommd.Types.{Status}
use boardcommd.Client.{Reply, took, interrupted, would_block, broken}
use boardcommd.Client.Pending.{Honest}
use boardcommd.Tcp.{Tcp, is_open, queue_send, ensure_send_cap, watch_fd}
use boardcommd.Tcp.Connect.{
  Dial, no_socket, bad_host, failed, in_progress, at_once, Accepted, Received, bytes, end_of_file,
  nothing, recv_failed, Events, send_loop, tcp_send, tcp_recv, handle_event, begin_connect,
}
use boardcommd.Bus.Send.{is_ok}
use boardcommd.Config.{TransportConfig}
use boardcommd.Config.Numbers.{is_positive}
use boardcommd.Endpoint.{parse_endpoint}
use boardcommd.Tcp.Open.{tcp_open, role_is_server, listen_port, endpoint_port}
use boardcommd.Tcp.Open.{
  new_transport, Listening, listening, bad_address, cannot_listen, listen_open, client_setup,
  bind_reactor,
}
use boardcommd.Tcp.Invariant.{IsTcp, drop-IsTcp}
use boardcommd.Tcp.Handle.{handle_event-IsTcp}

module _ {W : Type 0} (reactor_mod reactor_add : ℕ → Bool → W → Status × W) (memory : W → Bool)
    (reactor_del close_fd : ℕ → W → W) (arm : ℕ → Option ℕ → W → W) where
  -- A transport that `tcp_open` was called for, after any calls of its operations;
  -- between two calls the rest of the world may change.
  pub data Reachable : Tcp → Type 0 where
    opened :
        (c : TransportConfig) (l : Listening) (timer : Option ℕ) (d : Dial) (w : W)
        → Reachable (
            (tcp_open reactor_mod reactor_add memory reactor_del close_fd arm c l timer d
              new_transport w).1.0)
    bound :
        (t : Tcp) (w : W)
        → Reachable t
        → Reachable ((bind_reactor reactor_mod reactor_add memory reactor_del close_fd arm t w).1.0)
    event :
        (fd : ℕ) (e : Events) (dials : List Dial) (accepts : List Accepted) (error : Bool)
        (rs : List Reply) (t : Tcp) (w : W)
        → Honest rs (t.send_len - t.send_off)
        → Reachable t
        → Reachable (
            (handle_event reactor_mod reactor_add memory reactor_del close_fd arm fd e dials accepts
              error rs t w).1.0)
    send :
        (rs : List Reply) (bs : Bytes) (t : Tcp) (w : W)
        → Reachable t
        → Reachable
            ((tcp_send reactor_mod reactor_add memory reactor_del close_fd arm rs t bs w).2.0)
    receive :
        (r : Received) (t : Tcp) (w : W)
        → Reachable t
        → Reachable ((tcp_recv reactor_mod reactor_add memory reactor_del close_fd arm r t w).2.0)

  new-IsTcp : IsTcp new_transport
  new-IsTcp = ground arith

  client-IsTcp :
      (timer : Option ℕ) (d : Dial) (w : W)
      → IsTcp (
          (client_setup reactor_mod reactor_add memory reactor_del close_fd arm timer d
            new_transport w).1.0)
  unfolding client_setup begin_connect watch_fd
  client-IsTcp none d w = ground arith
  client-IsTcp (some timer) no_socket w = ground arith
  client-IsTcp (some timer) (bad_host fd) w = ground arith
  client-IsTcp (some timer) (failed fd) w = ground arith
  client-IsTcp (some timer) (in_progress fd) w = ground arith
  client-IsTcp (some timer) (at_once fd) w = ground arith

  server-IsTcp : (l : Listening) → IsTcp ((listen_open l new_transport).1)
  unfolding listen_open
  server-IsTcp (listening fd) = ground arith
  server-IsTcp bad_address = ground arith
  server-IsTcp cannot_listen = ground arith

  opened-IsTcp :
      (c : TransportConfig) (l : Listening) (timer : Option ℕ) (d : Dial) (w : W)
      → IsTcp (
          (tcp_open reactor_mod reactor_add memory reactor_del close_fd arm c l timer d
            new_transport w).1.0)
  unfolding tcp_open
  opened-IsTcp c l timer d w =
      let P : Status × (Tcp × W) → Type 0 = λ r. IsTcp (r.1.0) in
      let parsed = parse_endpoint c.endpoint 64 in
      if_intro P (role_is_server c)
        (λ _.
          if_intro P (is_positive (listen_port c (endpoint_port parsed))) (λ _. server-IsTcp l)
            (λ _. new-IsTcp))
        (λ _. if_intro P (is_ok (parsed.0)) (λ _. client-IsTcp timer d w) (λ _. new-IsTcp))

  bound-IsTcp :
      (t : Tcp) (w : W)
      → IsTcp t
      → IsTcp ((bind_reactor reactor_mod reactor_add memory reactor_del close_fd arm t w).1.0)
  unfolding bind_reactor
  bound-IsTcp t w i = ground (arith, i)

  queue-IsTcp :
      (t : Tcp) (bs : Bytes) (w : W)
      → is_open t ≡ true
      → IsTcp t
      → IsTcp ((queue_send reactor_mod reactor_add memory t bs w).1.0)
  unfolding queue_send
  queue-IsTcp t bs w o i =
      if_intro (λ (r : Status × (Tcp × W)). IsTcp (r.1.0))
        (ensure_send_cap reactor_mod reactor_add memory (t.send_len - t.send_off + length bs) t w)
        (λ _. ground (arith, i, o)) (λ _. i)

  -- what `tcp_send` and `tcp_recv` leave
  abbrev Kept : {R : Type 0} → R × Bytes × (Tcp × W) → Type 0
  Kept r = IsTcp (r.2.0)

  recv-IsTcp :
      (r : Received) (t : Tcp) (w : W)
      → IsTcp t
      → IsTcp ((tcp_recv reactor_mod reactor_add memory reactor_del close_fd arm r t w).2.0)
  unfolding tcp_recv
  recv-IsTcp (bytes b bs) t w i = if_intro Kept (not (is_open t)) (λ _. i) (λ _. i)
  recv-IsTcp nothing t w i = if_intro Kept (not (is_open t)) (λ _. i) (λ _. i)
  recv-IsTcp end_of_file t w i =
      let (dropped, _) = drop-IsTcp reactor_mod reactor_add memory reactor_del close_fd arm t w i in
      if_intro Kept (not (is_open t)) (λ _. i) (λ _. dropped)
  recv-IsTcp recv_failed t w i =
      let (dropped, _) = drop-IsTcp reactor_mod reactor_add memory reactor_del close_fd arm t w i in
      if_intro Kept (not (is_open t)) (λ _. i) (λ _. dropped)

  loop-IsTcp :
      (rs : List Reply) (t : Tcp) (bs : Bytes) (w : W)
      → is_open t ≡ true
      → IsTcp t
      → Kept (send_loop reactor_mod reactor_add memory reactor_del close_fd arm rs t bs w)
  unfolding send_loop
  loop-IsTcp rs t [] w o i = i
  loop-IsTcp [] t (x ∷ bs) w o i = i
  loop-IsTcp (took zero ∷ rs) t (x ∷ bs) w o i =
      (drop-IsTcp reactor_mod reactor_add memory reactor_del close_fd arm t w i).0
  loop-IsTcp (broken ∷ rs) t (x ∷ bs) w o i =
      (drop-IsTcp reactor_mod reactor_add memory reactor_del close_fd arm t w i).0
  loop-IsTcp (interrupted ∷ rs) t (x ∷ bs) w o i = loop-IsTcp rs t (x ∷ bs) w o i
  loop-IsTcp (would_block ∷ rs) t (x ∷ bs) w o i = queue-IsTcp t (x ∷ bs) w o i
  loop-IsTcp (took (suc n) ∷ rs) t (x ∷ bs) w o i = loop-IsTcp rs t (drop (suc n) (x ∷ bs)) w o i

  send-IsTcp :
      (rs : List Reply) (bs : Bytes) (t : Tcp) (w : W)
      → IsTcp t
      → Kept (tcp_send reactor_mod reactor_add memory reactor_del close_fd arm rs t bs w)
  unfolding tcp_send
  send-IsTcp rs bs t w i =
      if_intro Kept (not (is_open t)) (λ _. i)
        (λ e.
          let o : is_open t ≡ true = ground (arith, e) in
          if_intro Kept (ltb t.send_off t.send_len) (λ _. queue-IsTcp t bs w o i)
            (λ _. loop-IsTcp rs t bs w o i))

  -- A new transport for which `tcp_open` was called, with any configuration, keeps its invariant,
  -- whatever calls of its operations come in whatever order and whatever the system calls give, as
  -- long as `send` takes no more than it is given in a flush: it is connected, connecting or neither,
  -- never two of these; it has a connection in the first two cases; nothing waits to be sent outside
  -- the first; and only a client that is neither waits for its timer.
  pub Reachable-IsTcp : (t : Tcp) → Reachable t → IsTcp t
  Reachable-IsTcp t (opened c l timer d w) = opened-IsTcp c l timer d w
  Reachable-IsTcp t (bound u w r) = bound-IsTcp u w (Reachable-IsTcp u r)
  Reachable-IsTcp t (event fd e dials accepts error rs u w h r) =
      handle_event-IsTcp reactor_mod reactor_add memory reactor_del close_fd arm fd e dials accepts
        error rs u w (Reachable-IsTcp u r) h
  Reachable-IsTcp t (send rs bs u w r) = send-IsTcp rs bs u w (Reachable-IsTcp u r)
  Reachable-IsTcp t (receive x u w r) = recv-IsTcp x u w (Reachable-IsTcp u r)
