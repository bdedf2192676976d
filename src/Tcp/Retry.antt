-- ===== src/Tcp/Retry.antt =====
-- How a TCP client tries again, in src/transport/tcp/tcp_transport.c.
use boardcommd.Base.{
  ℕ, zero, suc, ◌+◌, ◌*◌, ◌^◌, ◌<◌, ◌≤◌, ◌≡◌, refl, ap, Bool, true, false, not, ◌&&◌, List, [], ◌∷◌,
  Bytes, if◌then◌else◌, Option, none, some, ltb, leb, arith, dec_le, if_intro,
}
use native.Mathlib.Nat.{pow-le-pow_right, one-le-pow}
use boardcommd.Types.{Status, ok, io, invalid}
use boardcommd.Client.{Reply}
use boardcommd.Tcp.{Tcp, reconnect_delay_ms}
use boardcommd.Tcp.Connect.{
  Dial, failed, Accepted, Received, Events, is_fd, begin_connect, on_connect_ready, timer_loop,
  handle_event, tcp_send, tcp_recv,
}

-- What the delay before the next attempt is.
pub data Delay (attempt : ℕ) : Option ℕ → Type 0 where
  waits : (ms : ℕ) → attempt ≤ 22 → 1000 ≤ ms → ms ≤ 30000 → Delay attempt (some ms)
  overflows : 22 < attempt → Delay attempt none

-- `tcp_reconnect_delay_ms`: up to the 22nd attempt the delay lies between 1 and 30 seconds; from the
-- 23rd on the shift overflows `int`.
pub reconnect_delay_ms-Delay : (attempt : ℕ) → Delay attempt (reconnect_delay_ms attempt)
reconnect_delay_ms-Delay zero = waits 1000 (omega arith) (omega arith) (omega arith)
reconnect_delay_ms-Delay (suc n) = elim (dec_le n 21) [
  | yes h ↦
      let most : 2 ^ n ≤ 2097152 = pow-le-pow_right (omega arith) h in
      let least : 1 ≤ 2 ^ n = one-le-pow n 2 (omega arith) in
      let e : leb 2147483648 (1000 * 2 ^ n) ≡ false = ground (arith, most) in
      rw (e) (
        if_intro (λ ms. Delay (suc n) (some ms)) (ltb 30000 (1000 * 2 ^ n))
          (λ _. waits 30000 (omega arith) (omega arith) (omega arith))
          (λ f. waits (1000 * 2 ^ n) (omega arith) (omega (arith, least)) (ground arith)))
  | no h ↦
      let least : 4194304 ≤ 2 ^ n =
        pow-le-pow_right {n = 2} (omega arith) {i = 22} {j = n} (omega arith) in
      let e : leb 2147483648 (1000 * 2 ^ n) ≡ true = ground (arith, least) in
      rw (e) (overflows (omega arith))
]

module _ {W : Type 0} (reactor_mod reactor_add : ℕ → Bool → W → Status × W) (memory : W → Bool)
    (reactor_del close_fd : ℕ → W → W) (arm : ℕ → Option ℕ → W → W) where
  -- A client without a connection, that is not making one and whose timer is not armed.
  pub record IsGivenUp (t : Tcp) : Type 0 where
    pub no_listener : t.listen_fd ≡ none
    pub closed : t.conn_fd ≡ none
    pub not_connected : t.connected ≡ false
    pub not_connecting : t.connecting ≡ false
    pub not_armed : t.reconnect_armed ≡ false

  -- Each operation leaves the transport as it is, and makes no call.
  pub record IsStuck (t : Tcp) : Type 0 where
    pub event :
        (fd : ℕ) (e : Events) (dials : List Dial) (accepts : List Accepted) (error : Bool)
        (rs : List Reply) (w : W)
        → handle_event reactor_mod reactor_add memory reactor_del close_fd arm fd e dials accepts
            error rs t w
          ≡ (some ok, (t, w))
    pub send :
        (rs : List Reply) (bs : Bytes) (w : W)
        → tcp_send reactor_mod reactor_add memory reactor_del close_fd arm rs t bs w
          ≡ (some io, [], (t, w))
    pub receive :
        (r : Received) (w : W)
        → tcp_recv reactor_mod reactor_add memory reactor_del close_fd arm r t w
          ≡ (invalid, [], (t, w))

  given_up :
      (ds : List Dial) (t : Tcp) (w : W)
      → IsGivenUp t
      → timer_loop reactor_mod reactor_add memory reactor_del close_fd arm ds t w ≡ (t, w)
  unfolding timer_loop
  given_up [] t w g = refl
  given_up (d ∷ ds) t w g =
      if_intro (λ s. s ≡ (t, w)) (t.reconnect_armed && (not t.connected && not t.connecting))
        (λ e. let n = g.not_armed in ground (arith, n, e)) (λ _. given_up ds t w g)

  given_up-event :
      (fd : ℕ) (e : Events) (dials : List Dial) (accepts : List Accepted) (error : Bool)
      (rs : List Reply) (t : Tcp) (w : W)
      → IsGivenUp t
      → handle_event reactor_mod reactor_add memory reactor_del close_fd arm fd e dials accepts
          error rs t w
        ≡ (some ok, (t, w))
  unfolding handle_event
  given_up-event fd e dials accepts error rs t w g =
      let idle = given_up dials t w g in
      let a : is_fd fd t.listen_fd ≡ false = ap (is_fd fd) g.no_listener in
      let b : is_fd fd t.conn_fd ≡ false = ap (is_fd fd) g.closed in ground (arith, idle, a, b)

  given_up-IsStuck : (t : Tcp) → IsGivenUp t → IsStuck t
  unfolding tcp_send tcp_recv
  given_up-IsStuck t g = record {
    event = λ fd e dials accepts error rs w. given_up-event fd e dials accepts error rs t w g;
    send = λ rs bs w. rw g.not_connected refl;
    receive = λ r w. rw g.not_connected refl;
  }

  -- A bug: when the reconnect timer of a client fires and the attempt fails at once, the client
  -- gives up: the only calls made are those that remove and close the new descriptor, so the timer is
  -- not armed again, and from then on tcp_handle_event, tcp_send and tcp_recv, whatever the events
  -- and the system calls are, leave the transport as it is and make no call: there is no other
  -- attempt.
  pub timer_loop-IsGivenUp :
      (fd : ℕ) (t : Tcp) (w : W)
      → t.reconnect_armed ≡ true
      → t.connected ≡ false
      → t.connecting ≡ false
      → t.conn_fd ≡ none
      → t.listen_fd ≡ none
      → let (t', w') =
          timer_loop reactor_mod reactor_add memory reactor_del close_fd arm (failed fd ∷ []) t w in
        IsGivenUp t'
        × (w' ≡ close_fd fd (if t.has_reactor then reactor_del fd w else w))
        × IsStuck t'
  unfolding timer_loop begin_connect
  timer_loop-IsGivenUp fd t w a b c d l =
      rw (a, b, c, d)
        (let g : IsGivenUp _ = record {
          no_listener = l;
          closed = refl;
          not_connected = refl;
          not_connecting = refl;
          not_armed = refl;
        } in
          (g, refl, given_up-IsStuck _ g))

  -- A bug: a connection that fails counts as two attempts, since both `tcp_drop_connection` and
  -- `tcp_on_connect_ready` schedule the next one; the timer is set with the delay for the second.
  pub on_connect_ready-failed :
      (t : Tcp) (timer : ℕ) (w : W)
      → t.is_server ≡ false
      → t.connected ≡ false
      → t.connecting ≡ true
      → t.timer_fd ≡ some timer
      → let (rc, (t', w')) =
          on_connect_ready reactor_mod reactor_add memory reactor_del close_fd arm true t w in
        (t'.retry_attempt ≡ t.retry_attempt + 2)
        × (v : W) × (w' ≡ arm timer (reconnect_delay_ms (t.retry_attempt + 1)) v)
  unfolding on_connect_ready
  on_connect_ready-failed t timer w s n c f = rw (s, n, c, f) (omega arith, _, refl)
