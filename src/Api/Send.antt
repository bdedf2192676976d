-- ===== src/Api/Send.antt =====
-- What api/bc_client.c sends: `send_ipc_message` and the functions that call it.
use boardcommd.Base.{ℕ, zero, suc, Bool, [], Bytes, Option, none, some, length, if◌then◌else◌}
use boardcommd.Types.{Status, ok, invalid, io, nomem, Result, done, fail}
use boardcommd.Ipc.{ipc_publish, ipc_subscribe}
use boardcommd.Api.{Opts, build_ipc_frame, frame_cap}

-- The world `W` holds the socket and the ring. `write` is `write_all` on the socket, `write_ring`
-- is `bc_shm_ring_write` on `shm->tx`, `kick` is `send_shm_kick`, and `pause` is `usleep(100)`, in
-- which the daemon may run.
module _ {W : Type 0} (write write_ring : Bytes → W → Status × W) (kick : W → Status × W)
    (pause : W → W) where
  -- the loop of `shm_write_frame` with `n` rounds left, and the status of the last round
  unfoldable pub retry_ring : ℕ → Status → Bytes → W → Status × W
  retry_ring zero rc frame w = (rc, w)
  retry_ring (suc n) rc frame w =
      let (now, w1) = write_ring frame w in
      let (kicked, w2) = kick w1 in
      let rest = retry_ring n now frame (pause w2) in
      elim now [ nomem ↦ rest | other ↦ (other, w1) ]

  -- `shm_write_frame`
  unfoldable pub shm_write_frame : Bytes → W → Status × W
  shm_write_frame frame w =
      let (rc, w1) = retry_ring 10000 ok frame w in elim rc [ ok ↦ kick w1 | other ↦ (other, w1) ]

  -- `send_ipc_message`; `handle` is none for a negative one.
  unfoldable pub send_ipc_message :
      Option ℕ → Bool → ℕ → Option Bytes → Option Bytes → Bytes → Option Opts → W → Status × W
  send_ipc_message none shm type channel topic payload opts w = (invalid, w)
  send_ipc_message (some handle) shm type channel topic payload opts w =
      elim (build_ipc_frame frame_cap type channel topic payload opts) [
        | fail e ↦ (e, w)
        | done frame ↦ if shm then shm_write_frame frame w else write frame w
      ]

  -- the value of `bc_write` and `bc_write_ex`: the length, or the status
  abbrev pub length_or : ℕ → Status × W → Result ℕ × W
  length_or n (ok, w) = (done n, w)
  length_or n (rc, w) = (fail rc, w)

  -- `bc_write_ex`
  unfoldable pub bc_write_ex :
      Option ℕ → Bool → Option Bytes → Option Bytes → Bytes → Option Opts → W → Result ℕ × W
  bc_write_ex handle shm channel topic payload opts w =
      length_or (length payload)
        (send_ipc_message handle shm ipc_publish channel topic payload opts w)

  -- `bc_write_channel`
  abbrev pub bc_write_channel :
      Option ℕ → Bool → Option Bytes → Option Bytes → Bytes → W → Result ℕ × W
  bc_write_channel handle shm channel topic payload w =
      bc_write_ex handle shm channel topic payload none w

  -- `bc_write`
  abbrev pub bc_write : Option ℕ → Bool → Option Bytes → Bytes → W → Result ℕ × W
  bc_write handle shm topic payload w =
      length_or (length payload) (send_ipc_message handle shm ipc_publish none topic payload none w)

  -- `bc_subscribe_fd`
  abbrev pub bc_subscribe_fd : Option ℕ → Bool → Option Bytes → W → Status × W
  bc_subscribe_fd handle shm topic w =
      send_ipc_message handle shm ipc_subscribe none topic [] none w

  -- `bc_context_publish`, and `bc_publish` once it is connected
  abbrev pub bc_context_publish : Option ℕ → Bool → Option Bytes → Bytes → W → Status × W
  bc_context_publish handle shm topic payload w =
      let (rc, w') = send_ipc_message handle shm ipc_publish none topic payload none w in
      (elim rc [ ok ↦ ok | other ↦ io ], w')
