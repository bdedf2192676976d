-- ===== src/Client/Table.antt =====
-- The list of clients of src/daemon/client_manager.c, and what the daemon writes to a client.
pub mod Deliver
use boardcommd.Base.{
  ℕ, Bool, List, [], ◌∷◌, ◌++◌, Bytes, Option, none, some, ◌==◌, ◌^◌, ◌/◌, ◌%◌, le32, if◌then◌else◌,
}
use boardcommd.Types.{Status, ok, io, not_found}
use boardcommd.Ipc.{put_ipc_header, ipc_magic, ipc_version, ipc_stats, ipc_shm_kick}
use boardcommd.Bus.{Bus, Stats}
use boardcommd.Shm.{Ring, ring_write}
use boardcommd.Client.{Tx, enqueue_client_tx}

-- BC_CLIENT_RX_CAP
abbrev pub rx_cap : ℕ
rx_cap = 262144

-- `bc_shm_session_t`: the two rings
pub record Session : Type 0 where
  pub rx : Ring
  pub tx : Ring

-- `bc_client_ctx`: `rx` holds the first `rx_len` bytes of `rx_buf`, and `shm` the session if
-- `shm_ready` is set.
pub record ClientCtx : Type 0 where
  pub fd : ℕ
  pub rx : Bytes
  pub tx : Tx
  pub shm : Option Session

abbrev pub link_client : ClientCtx → List ClientCtx → List ClientCtx
link_client c cs = c ∷ cs

-- `unlink_client`; a descriptor stands for the pointer, since no two clients have the same.
unfoldable pub unlink_client : ℕ → List ClientCtx → List ClientCtx
unlink_client fd [] = []
unlink_client fd (c ∷ cs) = let rest = unlink_client fd cs in if c.fd == fd then cs else c ∷ rest

unfoldable pub find_client : List ClientCtx → ℕ → Option ClientCtx
find_client [] fd = none
find_client (c ∷ cs) fd = let rest = find_client cs fd in if c.fd == fd then some c else rest

-- an assignment to the fields of a client, through the pointer
unfoldable pub put_client : ClientCtx → List ClientCtx → List ClientCtx
put_client new [] = []
put_client new (c ∷ cs) =
    let rest = put_client new cs in if c.fd == new.fd then new ∷ cs else c ∷ rest

-- a header of the daemon's own, as `deliver_to_client` and `send_stats_reply` fill it in
abbrev pub own_header : ℕ → ℕ → Bytes
own_header type payload_len = put_ipc_header (record {
  magic = ipc_magic;
  version = ipc_version;
  type = type;
  topic_len = 0;
  channel_len = 0;
  payload_len = payload_len;
  dst_node = 0;
  qos = 0;
  flags = 0;
  seq = 0;
})

abbrev pub le64 : ℕ → Bytes
le64 n = le32 (n % 2 ^ 32) ++ le32 (n / 2 ^ 32)

-- the bytes of `bc_stats_t`
abbrev pub put_stats : Stats → Bytes
put_stats s =
    le64 s.pub_local
    ++ (le64 s.pub_network
        ++ (le64 s.pub_failed
            ++ (le64 s.rx_network
                ++ (le64 s.rx_local
                    ++ (le64 s.rx_forward
                        ++ (le64 s.rx_drop
                            ++ (le64 s.ack_sent
                                ++ (le64 s.ack_recv ++ (le64 s.frag_rx ++ le64 s.frag_tx)))))))))

-- The world of the bus is the list of clients and the operating system's `W`.
module _ {W : Type 0} (reactor_mod : ℕ → Bool → W → Status × W) where
  -- `enqueue_client_tx` for a client of the list
  abbrev pub enqueue : ClientCtx → Bytes → List ClientCtx × W → Status × (List ClientCtx × W)
  enqueue c bs (cs, w) =
      let (rc, (t', w')) = enqueue_client_tx (reactor_mod c.fd) c.tx bs w in
      (rc, (put_client (record c { tx = t' }) cs, w'))

  -- the delivery through shared memory: the frame goes into the ring, and a KICK to the socket.
  abbrev pub kick_after : Status → ClientCtx → List ClientCtx × W → Status × (List ClientCtx × W)
  kick_after ok c s = let (_, s') = enqueue c (own_header ipc_shm_kick 0) s in (ok, s')
  kick_after rc c s = (rc, s)

  -- `deliver_to_client` for the client that was found
  abbrev pub deliver_into :
      Option Session → ClientCtx → Bytes → List ClientCtx × W → Status × (List ClientCtx × W)
  deliver_into none c frame s = enqueue c frame s
  deliver_into (some x) c frame (cs, w) =
      let (rc, tx') = ring_write x.tx frame in
      let c' = record c { shm = some (record { rx = x.rx; tx = tx' }) } in
      kick_after rc c' (put_client c' cs, w)

  abbrev pub deliver_found :
      Option ClientCtx → Bytes → List ClientCtx × W → Status × (List ClientCtx × W)
  deliver_found none frame s = (not_found, s)
  deliver_found (some c) frame s = deliver_into c.shm c frame s

  -- `deliver_to_client`
  unfoldable pub deliver_to_client : ℕ → Bytes → List ClientCtx × W → Status × (List ClientCtx × W)
  deliver_to_client fd frame (cs, w) = deliver_found (find_client cs fd) frame (cs, w)

  -- the second half of `send_stats_reply`, after the header
  abbrev pub send_counters :
      Status → ClientCtx → Stats → List ClientCtx × W → Status × (List ClientCtx × W)
  send_counters ok c stats s =
      let (rc, s') = enqueue c (put_stats stats) s in (elim rc [ ok ↦ ok | other ↦ io ], s')
  send_counters rc c stats s = (io, s)

  -- `send_stats_reply` to the client of the list with this descriptor; the queue that the second call finds is the one that the first one left.
  unfoldable pub send_stats_reply :
      ℕ → Bus × (List ClientCtx × W) → Status × (Bus × (List ClientCtx × W))
  send_stats_reply fd (b, (cs, w)) = elim (find_client cs fd) [
    | none ↦ (not_found, (b, (cs, w)))
    | some c ↦
        let header = own_header ipc_stats 88 in
        let (rc, (t', w')) = enqueue_client_tx (reactor_mod c.fd) c.tx header w in
        let c' = record c { tx = t' } in
        let (rc', s') = send_counters rc c' b.stats (put_client c' cs, w') in (rc', (b, s'))
  ]
