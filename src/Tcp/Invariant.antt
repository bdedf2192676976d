-- ===== src/Tcp/Invariant.antt =====
-- What every operation of a TCP transport keeps, of src/transport/tcp/tcp_transport.c.
use boardcommd.Base.{
  ℕ, ◌≤◌, ◌≡◌, refl, ◌∙◌, Bool, true, false, not, ◌&&◌, List, [], ◌∷◌, Option, some, arith,
  if_intro, if◌then◌else◌,
}
use boardcommd.Types.{Status}
use boardcommd.Bus.Send.{is_ok}
use boardcommd.Tcp.{Tcp, is_some, is_open, sync_fd}
use boardcommd.Tcp.Connect.{
  Dial, no_socket, bad_host, failed, in_progress, at_once, Accepted, accepted, accept_interrupted,
  accept_failed, close_conn, drop_connection, schedule_reconnect, begin_connect, on_connect_ready,
  accept_one, timer_loop, accept_loop,
}

-- A transport is connected, connecting or neither; in the first two cases it has a connection, and
-- outside the first nothing waits to be sent. Only a client that is neither waits for its timer.
pub record IsTcp (t : Tcp) : Type 0 where
  pub ordered : t.send_off ≤ t.send_len
  pub has_conn : t.connected ≡ true → is_some t.conn_fd ≡ true
  pub has_dial : t.connecting ≡ true → is_some t.conn_fd ≡ true
  pub exclusive : t.connected ≡ true → t.connecting ≡ false
  pub empty : t.connected ≡ false → t.send_len ≡ 0
  pub armed : t.reconnect_armed ≡ true → (t.connected ≡ false) × (t.connecting ≡ false)
  pub role : is_some t.listen_fd ≡ true → t.is_server ≡ true
  pub server : t.is_server ≡ true → t.reconnect_armed ≡ false

-- neither connected nor connecting
abbrev pub IsClosed : Tcp → Type 0
IsClosed t = (t.connected ≡ false) × (t.connecting ≡ false)

abbrev pub Holds : {W : Type 0} → (Tcp → Type 0) → Tcp × W → Type 0
Holds P s = P (s.0)

abbrev pub After : {W R : Type 0} → (Tcp → Type 0) → R × (Tcp × W) → Type 0
After P r = P (r.1.0)

module _ {W : Type 0} (reactor_mod reactor_add : ℕ → Bool → W → Status × W) (memory : W → Bool)
    (reactor_del close_fd : ℕ → W → W) (arm : ℕ → Option ℕ → W → W) where
  pub schedule-IsTcp :
      (t : Tcp) (w : W)
      → IsClosed t
      → IsTcp t
      → IsTcp ((schedule_reconnect reactor_mod reactor_add memory reactor_del close_fd arm t w).0)
  schedule-IsTcp t w c i =
      if_intro (Holds IsTcp) t.is_server (λ _. i)
        (λ e. record {
          ordered = i.ordered;
          has_conn = i.has_conn;
          has_dial = i.has_dial;
          exclusive = i.exclusive;
          empty = i.empty;
          armed = λ _. c;
          role = i.role;
          server = λ s. ground (arith, e, s);
        })

  close-IsTcp :
      (t : Tcp) (w : W)
      → IsTcp t
      → IsTcp ((close_conn reactor_mod reactor_add memory reactor_del close_fd arm t w).0)
  close-IsTcp t w i = record {
    ordered = omega arith;
    has_conn = λ e. ground (arith, e);
    has_dial = λ e. ground (arith, e);
    exclusive = λ e. ground (arith, e);
    empty = λ _. refl;
    armed = λ _. (refl, refl);
    role = i.role;
    server = i.server;
  }

  pub drop-IsTcp :
      (t : Tcp) (w : W)
      → IsTcp t
      → let (t', w') =
          drop_connection reactor_mod reactor_add memory reactor_del close_fd arm t w in
        IsTcp t' × IsClosed t'
  drop-IsTcp t w i =
      let P : Tcp → Type 0 = λ s. IsTcp s × IsClosed s in
      let (t1, w1) = close_conn reactor_mod reactor_add memory reactor_del close_fd arm t w in
      let c : IsTcp t1 = close-IsTcp t w i in
      if_intro (Holds P) (not t.connected && not t.connecting)
        (λ e. (i, (ground (arith, e), ground (arith, e))))
        (λ _.
          if_intro (Holds P) t.is_server (λ _. (c, (refl, refl)))
            (λ e. (
              schedule-IsTcp t1 w1 (refl, refl) c,
              (
                if_intro (λ (s : Tcp × W). s.0.connected ≡ false) t.is_server (λ _. refl)
                    (λ _. refl),
                if_intro (λ (s : Tcp × W). s.0.connecting ≡ false) t.is_server (λ _. refl)
                    (λ _. refl),
              ),
            )))

  pub begin_connect-IsTcp :
      (d : Dial) (t : Tcp) (w : W)
      → IsTcp t
      → IsClosed t
      → t.is_server ≡ false
      → t.reconnect_armed ≡ false
      → After IsTcp (begin_connect reactor_mod reactor_add memory reactor_del close_fd arm d t w)
  unfolding begin_connect
  begin_connect-IsTcp no_socket t w i c s a = ground (arith, i, c, s, a)
  begin_connect-IsTcp (bad_host fd) t w i c s a = ground (arith, i, c, s, a)
  begin_connect-IsTcp (failed fd) t w i c s a = ground (arith, i, c, s, a)
  begin_connect-IsTcp (in_progress fd) t w i c s a = ground (arith, i, c, s, a)
  begin_connect-IsTcp (at_once fd) t w i c s a = ground (arith, i, c, s, a)

  pub on_connect_ready-IsTcp :
      (error : Bool) (t : Tcp) (w : W)
      → IsTcp t
      → t.connecting ≡ true
      → After IsTcp
          (on_connect_ready reactor_mod reactor_add memory reactor_del close_fd arm error t w)
  unfolding on_connect_ready
  on_connect_ready-IsTcp error t w i c =
      let (t1, w1) = drop_connection reactor_mod reactor_add memory reactor_del close_fd arm t w in
      let (dropped, closed) = drop-IsTcp t w i in
      if_intro (After IsTcp) error
        (λ _.
          if_intro (Holds IsTcp) t.is_server (λ _. dropped)
            (λ _. schedule-IsTcp t1 w1 closed dropped))
        (λ _. ground (arith, i, c))

  drop-is_server :
      (t : Tcp) (w : W)
      → (drop_connection reactor_mod reactor_add memory reactor_del close_fd arm t w).0.is_server
        ≡ t.is_server
  drop-is_server t w =
      let P : Tcp → Type 0 = λ s. s.is_server ≡ t.is_server in
      if_intro (Holds P) (not t.connected && not t.connecting) (λ _. refl)
        (λ _.
          if_intro (Holds P) t.is_server (λ _. refl)
            (λ _. if_intro (Holds P) t.is_server (λ _. refl) (λ _. refl)))

  -- the server has taken the connection `fd`
  taken_over :
      (fd : ℕ) (t : Tcp)
      → IsTcp t
      → t.is_server ≡ true
      → IsTcp (
          sync_fd (record t {
            conn_fd = some fd;
            connecting = false;
            connected = true;
            retry_attempt = 0;
          }))
  taken_over fd t i s = ground (arith, i, s)

  accept_one-IsTcp :
      (a : Accepted) (t : Tcp) (w : W)
      → IsTcp t
      → t.is_server ≡ true
      → let (rc, (t', w')) =
          accept_one reactor_mod reactor_add memory reactor_del close_fd arm a t w in
        IsTcp t' × (t'.is_server ≡ true)
  unfolding accept_one
  accept_one-IsTcp accept_interrupted t w i s = (i, s)
  accept_one-IsTcp accept_failed t w i s = (i, s)
  accept_one-IsTcp (accepted fd) t w i s =
      let P : Tcp → Type 0 = λ u. IsTcp u × (u.is_server ≡ true) in
      let s1 = drop_connection reactor_mod reactor_add memory reactor_del close_fd arm t w in
      let (dropped, _) = drop-IsTcp t w i in
      let (i2, server) : P ((if is_open t then s1 else (t, w)).0) =
        if_intro (Holds P) (is_open t) (λ _. (dropped, drop-is_server t w ∙ s)) (λ _. (i, s)) in
      (taken_over fd _ i2 server, server)

  pub timer_loop-IsTcp :
      (ds : List Dial) (t : Tcp) (w : W)
      → IsTcp t
      → Holds IsTcp (timer_loop reactor_mod reactor_add memory reactor_del close_fd arm ds t w)
  unfolding timer_loop
  timer_loop-IsTcp [] t w i = i
  timer_loop-IsTcp (d ∷ ds) t w i =
      let t0 = record t { reconnect_armed = false } in
      let (_, (t1, w1)) =
        begin_connect reactor_mod reactor_add memory reactor_del close_fd arm d t0 w in
      if_intro (Holds IsTcp) (t.reconnect_armed && (not t.connected && not t.connecting))
        (λ e.
          let i0 : IsTcp t0 = ground (arith, i) in
          let closed : IsClosed t0 = ground (arith, e) in
          let client : t.is_server ≡ false = ground (arith, i, e) in
          timer_loop-IsTcp ds t1 w1 (begin_connect-IsTcp d t0 w i0 closed client refl))
        (λ _. timer_loop-IsTcp ds t w i)

  pub accept_loop-IsTcp :
      (is : List Accepted) (t : Tcp) (w : W)
      → IsTcp t
      → t.is_server ≡ true
      → Holds IsTcp (accept_loop reactor_mod reactor_add memory reactor_del close_fd arm is t w)
  unfolding accept_loop
  accept_loop-IsTcp [] t w i s = i
  accept_loop-IsTcp (a ∷ is) t w i s =
      let (rc, (t1, w1)) =
        accept_one reactor_mod reactor_add memory reactor_del close_fd arm a t w in
      let (i1, s1) = accept_one-IsTcp a t w i s in
      if_intro (Holds IsTcp) (is_ok rc) (λ _. accept_loop-IsTcp is t1 w1 i1 s1) (λ _. i1)
