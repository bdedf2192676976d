-- ===== src/Client/Event.antt =====
-- The events of a client and of the listening socket, in src/daemon/client_manager.c.
pub mod Close
mod Tests
use boardcommd.Base.{
  ℕ, zero, suc, ◌+◌, Bool, true, false, not, ◌&&◌, ◌||◌, List, [], ◌∷◌, ◌++◌, Bytes, Option, none,
  some, ◌==◌, ltb, leb, length, map, if◌then◌else◌,
}
use boardcommd.Types.{Status, ok, nomem, not_found, auth, Result, done, fail}
use boardcommd.Bus.{Bus, remove_client}
use boardcommd.Shm.{ring_data}
use boardcommd.Client.{Tx, Reply, flush_client_tx}
use boardcommd.Client.Frame.{Request}
use boardcommd.Client.Dispatch.{process_ipc_payload}
use boardcommd.Client.Receive.{process_messages, drain_ring}
use boardcommd.Client.Table.{
  Session, ClientCtx, link_client, unlink_client, find_client, put_client, rx_cap,
  deliver_to_client, send_stats_reply,
}

-- What `read` gives: at least one byte, the end of the stream, or an error.
pub data Incoming : Type 0 where
  bytes : ℕ → Bytes → Incoming
  end_of_file : Incoming
  interrupted : Incoming
  would_block : Incoming
  broken : Incoming

-- How a handler ends: it returns; it waits for the next reply of the kernel; or it has read a client
-- that was freed, after which C says nothing.
pub data Turn (S : Type 0) : Type 0 where
  returned : S → Turn S
  running : S → Turn S
  freed : S → Turn S

-- the bits of `events`
pub record Events : Type 0 where
  pub can_read : Bool
  pub can_write : Bool
  pub hung_up : Bool

-- The system calls: `reactor_mod` and `reactor_del` of the reactor, `close`, the transports'
-- `send`, `bc_shm_create`, `send_fd` and `bc_shm_close`.
module _ {W : Type 0} (reactor_mod : ℕ → Bool → W → Status × W) (reactor_del close_fd : ℕ → W → W)
    (send : ℕ → Bytes → W → Status × W) (shm_create : W → Result Session × W)
    (send_fd : ℕ → W → Status × W) (shm_close : Session → W → W) where
  -- the bus, the list of clients, and the rest
  abbrev pub State : Type 0
  State = Bus × (List ClientCtx × W)

  -- a change of the client that is behind a pointer
  abbrev pub update : (ClientCtx → ClientCtx) → Option ClientCtx → List ClientCtx → List ClientCtx
  update f none cs = cs
  update f (some c) cs = put_client (f c) cs

  abbrev pub close_shm : Option Session → W → W
  close_shm none w = w
  close_shm (some x) w = shm_close x w

  -- the shared memory of the client behind a pointer
  abbrev pub shm_of : Option ClientCtx → Option Session
  shm_of none = none
  shm_of (some c) = c.shm

  -- the bytes in its receive buffer
  abbrev pub received_of : Option ClientCtx → Bytes
  received_of none = []
  received_of (some c) = c.rx

  -- `close_client`
  abbrev pub close_client : ℕ → State → State
  close_client fd (b, (cs, w)) = (
    remove_client b fd,
    (unlink_client fd cs, close_fd fd (close_shm (shm_of (find_client cs fd)) (reactor_del fd w))),
  )

  -- the end of `setup_client_shm`, after `send_fd`
  abbrev pub store_session : Status → Session → ℕ → State → Status × State
  store_session ok x fd (b, (cs, w)) =
      (ok, (b, (update (λ c. record c { shm = some x }) (find_client cs fd) cs, w)))
  store_session rc x fd (b, (cs, w)) = (rc, (b, (cs, shm_close x w)))

  -- `setup_client_shm`
  abbrev pub setup_client_shm : ℕ → State → Status × State
  setup_client_shm fd (b, (cs, w)) =
      let (r, w1) = shm_create w in
      elim r [
        | fail e ↦ (e, (b, (cs, w1)))
        | done x ↦ let (rc, w2) = send_fd fd w1 in store_session rc x fd (b, (cs, w2))
      ]

  abbrev send_network : ℕ → Bytes → List ClientCtx × W → Status × (List ClientCtx × W)
  send_network t frame (cs, w) = let (rc, w') = send t frame w in (rc, (cs, w'))

  -- `process_ipc_payload` for the client with this descriptor
  abbrev pub handle : ℕ → Request → State → Status × State
  handle fd =
      process_ipc_payload send_network (deliver_to_client reactor_mod)
        (send_stats_reply reactor_mod) setup_client_shm fd

  -- The loops return before their rounds are used up.
  abbrev pub status_of : Option Status → Status
  status_of none = ok
  status_of (some rc) = rc

  -- `process_messages(client)`
  abbrev pub process_client : ℕ → State → Status × State
  process_client fd (b0, (cs0, w0)) =
      let rx = received_of (find_client cs0 fd) in
      let (out, (rx', (b, (cs, w)))) =
        process_messages (handle fd) (suc (length rx)) rx (b0, (cs0, w0)) in
      (status_of out, (b, (update (λ c. record c { rx = rx' }) (find_client cs fd) cs, w)))

  abbrev pub drain_session : ℕ → Option Session → State → Status × State
  drain_session fd none s = (ok, s)
  drain_session fd (some x) s =
      let (out, (rx', (b, (cs, w)))) = drain_ring (handle fd) (suc (ring_data x.rx)) x.rx s in
      let stored : ClientCtx → ClientCtx = λ c. record c {
        shm = elim (c.shm) [ none ↦ none | some y ↦ some (record y { rx = rx' }) ];
      } in
      (status_of out, (b, (update stored (find_client cs fd) cs, w)))

  -- `drain_client_shm(client)`; that a frame in the ring asks for another ring is left out.
  abbrev pub drain_client : ℕ → State → Status × State
  drain_client fd (b, (cs, w)) = drain_session fd (shm_of (find_client cs fd)) (b, (cs, w))

  -- `resume_pending_publishers`, for the clients from one of the list on: after a client has been
  -- closed, `client->next` is read from freed memory.
  unfoldable pub resume_each : List ℕ → State → Turn State
  resume_each [] s = returned s
  resume_each (fd ∷ fds) s =
      let (b, (cs, w)) = s in
      let skipped = resume_each fds s in
      let (rc, s') = process_client fd s in
      let rest = resume_each fds s' in
      if length (received_of (find_client cs fd)) == 0
      then skipped
      else elim rc [ ok ↦ rest | nomem ↦ rest | other ↦ freed (close_client fd s') ]

  abbrev pub resume_pending_publishers : State → Turn State
  resume_pending_publishers s = let (b, (cs, w)) = s in resume_each (map (λ c. c.fd) cs) s

  -- `client->rx_len >= sizeof(client->rx_buf)`
  abbrev pub is_full : ℕ → State → Bool
  is_full fd (b, (cs, w)) = leb rx_cap (length (received_of (find_client cs fd)))

  -- the bytes that `read` has put behind those in the buffer
  abbrev pub receive : ℕ → Bytes → State → State
  receive fd bs (b, (cs, w)) =
      (b, (update (λ c. record c { rx = c.rx ++ bs }) (find_client cs fd) cs, w))

  -- the loop of `on_client_event` that reads, with what `read` gives
  unfoldable pub read_loop : List Incoming → ℕ → State → Turn State
  read_loop [] fd s = if is_full fd s then returned s else running s
  read_loop (bytes x xs ∷ is) fd s =
      let (rc, s1) = process_client fd (receive fd (x ∷ xs) s) in
      let (rc2, s2) = drain_client fd s1 in
      let more = read_loop is fd s2 in
      let drained : Turn State = elim rc2 [
        | ok ↦ more
        | nomem ↦ returned s2
        | other ↦ returned (close_client fd s2)
      ] in
      if is_full fd s then returned s else elim rc [
        | ok ↦ drained
        | nomem ↦ resume_pending_publishers s1
        | other ↦ returned (close_client fd s1)
      ]
  read_loop (end_of_file ∷ is) fd s =
      if is_full fd s then returned s else returned (close_client fd s)
  read_loop (interrupted ∷ is) fd s =
      let again = read_loop is fd s in if is_full fd s then returned s else again
  read_loop (would_block ∷ is) fd s = returned s
  read_loop (broken ∷ is) fd s = if is_full fd s then returned s else returned (close_client fd s)

  -- `on_client_event` from the call of `drain_client_shm` on
  abbrev pub after_flush : Events → List Incoming → ℕ → State → Turn State
  after_flush e is fd s =
      let (rc, s1) = drain_client fd s in
      let rest =
        if e.hung_up && not e.can_read then returned (close_client fd s1) else read_loop is fd s1 in
      elim rc [
        | ok ↦ rest
        | nomem ↦ resume_pending_publishers s1
        | other ↦ returned (close_client fd s1)
      ]

  -- the rest, once `resume_pending_publishers` has returned
  abbrev pub after_resume : Events → List Incoming → ℕ → Turn State → Turn State
  after_resume e is fd (returned s) = after_flush e is fd s
  after_resume e is fd (running s) = running s
  after_resume e is fd (freed s) = freed s

  -- the rest, by what `flush_client_tx` returned
  abbrev pub after_out : Option Status → Events → List Incoming → ℕ → State → Turn State
  after_out none e is fd s = running s
  after_out (some ok) e is fd s = after_resume e is fd (resume_pending_publishers s)
  after_out (some rc) e is fd s = returned (close_client fd s)

  abbrev pub flush : List Reply → ℕ → Option ClientCtx → State → Option Status × State
  flush rs fd none s = (some ok, s)
  flush rs fd (some c) (b, (cs, w)) =
      let (rc, out, (t', w')) = flush_client_tx (reactor_mod fd) rs c.tx w in
      (rc, (b, (put_client (record c { tx = t' }) cs, w')))

  -- `on_client_event`, with what the calls of `send` and of `read` give
  unfoldable pub on_client_event : Events → List Reply → List Incoming → ℕ → State → Turn State
  on_client_event e rs is fd (b, (cs, w)) =
      let (rc, s1) = flush rs fd (find_client cs fd) (b, (cs, w)) in
      if e.can_write then after_out rc e is fd s1 else after_flush e is fd (b, (cs, w))

  -- `accept_client_auth`; `peer` is the user that `getsockopt` gives, if it does.
  abbrev pub accept_client_auth : ℕ → Option ℕ → Status
  accept_client_auth socket_uid none = if ltb 0 socket_uid then auth else ok
  accept_client_auth socket_uid (some uid) =
      if ltb 0 socket_uid && not (uid == socket_uid) then auth else ok

  -- the loop of `on_server_event` for one descriptor that `accept4` gave; `room` says that `calloc`
  -- has memory, and `reactor_add` may fail.
  unfoldable pub accept_one : (ℕ → W → Status × W) → ℕ → ℕ → Option ℕ → Bool → State → State
  accept_one reactor_add socket_uid fd peer room (b, (cs, w)) =
      let c : ClientCtx = record {
        fd = fd;
        rx = [];
        tx = record { off = 0; len = 0; buf = λ _. 0 };
        shm = none;
      } in
      let (rc, w') = reactor_add fd w in
      let added : State = elim rc [
        | ok ↦ (b, (link_client c cs, w'))
        | other ↦ (b, (unlink_client fd (link_client c cs), close_fd fd w'))
      ] in
      elim (accept_client_auth socket_uid peer) [
        | ok ↦ if room then added else (b, (cs, close_fd fd w))
        | other ↦ (b, (cs, close_fd fd w))
      ]

  -- the loop of `bc_client_manager_close` over the clients
  unfoldable pub close_all : List ℕ → State → State
  close_all [] s = s
  close_all (fd ∷ fds) s = close_all fds (close_client fd s)
