-- ===== src/Tcp/Open.antt =====
-- How a TCP transport starts, in src/transport/tcp/tcp_transport.c.
use boardcommd.Base.{ℕ, Bytes, Bool, true, false, Option, none, some, if◌then◌else◌}
use boardcommd.Types.{Status, ok, io, invalid}
use boardcommd.Bus.Send.{is_ok}
use boardcommd.Config.{TransportConfig}
use boardcommd.Config.Numbers.{ℤ, pos, is_neg, is_positive}
use boardcommd.Endpoint.{parse_endpoint}
use boardcommd.Tcp.{Tcp, sync_fd, conn_events, watch_fd}
use boardcommd.Tcp.Connect.{Dial, begin_connect, schedule_reconnect}

-- the structure that `bc_tcp_transport_init` allocates
abbrev pub new_transport : Tcp
new_transport = record {
  fd = none;
  listen_fd = none;
  conn_fd = none;
  timer_fd = none;
  is_server = false;
  connected = false;
  connecting = false;
  reconnect_armed = false;
  retry_attempt = 0;
  has_buf = false;
  send_buf = λ _. 0;
  send_len = 0;
  send_off = 0;
  has_reactor = false;
}

-- What `socket`, `inet_pton`, `bind` and `listen` give in `tcp_listen_open`.
pub data Listening : Type 0 where
  listening : ℕ → Listening
  bad_address : Listening
  cannot_listen : Listening

-- `tcp_listen_open`; a descriptor that was made in vain has been closed.
unfoldable pub listen_open : Listening → Tcp → Status × Tcp
listen_open (listening fd) t = (ok, sync_fd (record t { is_server = true; listen_fd = some fd }))
listen_open bad_address t = (invalid, record t { is_server = true; listen_fd = none })
listen_open cannot_listen t = (io, record t { is_server = true; listen_fd = none })

-- `tcp_role_is_server`
abbrev pub role_is_server : TransportConfig → Bool
role_is_server c =
    if is_neg c.tcp_listen then is_positive c.local_port else is_positive c.tcp_listen

-- `tcp_listen_port`
abbrev pub listen_port : TransportConfig → ℤ → ℤ
listen_port c endpoint_port = if is_positive c.local_port then c.local_port else endpoint_port

-- `endpoint_port` of `tcp_open`: 0 if the endpoint is not accepted
abbrev pub endpoint_port : Status × Option (Bytes × ℤ) → ℤ
endpoint_port (ok, some (host, port)) = port
endpoint_port (rc, out) = pos 0

-- the descriptors at the start of `tcp_open`
abbrev pub without_fds : Tcp → Tcp
without_fds t = record t { listen_fd = none; conn_fd = none; timer_fd = none }

module _ {W : Type 0} (reactor_mod reactor_add : ℕ → Bool → W → Status × W) (memory : W → Bool)
    (reactor_del close_fd : ℕ → W → W) (arm : ℕ → Option ℕ → W → W) where
  -- the end of `tcp_client_setup`, after `tcp_begin_connect`
  abbrev pub or_schedule : Status → Tcp → W → Tcp × W
  or_schedule ok t w = (t, w)
  or_schedule rc t w =
      schedule_reconnect reactor_mod reactor_add memory reactor_del close_fd arm t w

  -- `tcp_client_setup`; `timer` is what `timerfd_create` gives.
  unfoldable pub client_setup : Option ℕ → Dial → Tcp → W → Status × (Tcp × W)
  client_setup none d t w = (io, (record t { is_server = false; timer_fd = none }, w))
  client_setup (some timer) d t w =
      let t1 = record t { is_server = false; timer_fd = some timer } in
      let (rc, (t2, w2)) =
        begin_connect reactor_mod reactor_add memory reactor_del close_fd arm d t1 w in
      (ok, or_schedule rc t2 w2)

  -- the next part of `tcp_bind_reactor`, if the part before went well
  abbrev pub watch_next : Tcp → Option ℕ → Bool → Status × W → Status × W
  watch_next t fd out (ok, w) =
      let (rc, w') = watch_fd reactor_mod reactor_add memory t fd out w in
      ((if is_ok rc then ok else io), w')
  watch_next t fd out (rc, w) = (rc, w)

  -- `tcp_bind_reactor`
  unfoldable pub bind_reactor : Tcp → W → Status × (Tcp × W)
  bind_reactor t w =
      let t' = record t { has_reactor = true } in
      let (rc, w') =
        watch_next t' t'.timer_fd false
          (watch_next t' t'.conn_fd (conn_events t') (watch_next t' t'.listen_fd false (ok, w))) in
      (rc, (t', w'))

  -- `tcp_open`
  unfoldable pub tcp_open :
      TransportConfig → Listening → Option ℕ → Dial → Tcp → W → Status × (Tcp × W)
  tcp_open c l timer d t w =
      let parsed = parse_endpoint c.endpoint 64 in
      let t0 = without_fds t in
      let (rc, t1) = listen_open l t0 in
      let (rc2, s2) = client_setup timer d t0 w in
      if role_is_server c
      then (if is_positive (listen_port c (endpoint_port parsed))
          then (rc, (t1, w))
          else (invalid, (t0, w)))
      else if is_ok (parsed.0)
      then (rc2, s2)
      else (invalid, (t0, w))
