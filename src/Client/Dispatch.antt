-- ===== src/Client/Dispatch.antt =====
-- What a client's frame does: `process_ipc_payload` of src/daemon/client_manager.c.
pub mod Publish
use boardcommd.Base.{
  ℕ, Bool, List, [], ◌∷◌, Bytes, Option, none, some, ◌==◌, leb, take, if◌then◌else◌,
}
use boardcommd.Types.{Status, ok, invalid, Message}
use boardcommd.Ipc.{
  IpcHeader, ipc_version, ipc_publish, ipc_subscribe, ipc_stats, ipc_shm_setup, ipc_shm_kick,
}
use boardcommd.Bus.{Bus, subscribe}
use boardcommd.Bus.Publish.{publish}
use boardcommd.Client.Frame.{Request}

-- the message that a BC_IPC_PUBLISH frame stands for
abbrev pub published : Request → Message
published r =
    let v2 = leb ipc_version r.header.version in
    record {
      src_node = 0;
      dst_node = if v2 then r.header.dst_node else 0;
      flags = if v2 then r.header.flags else 0;
      qos = if v2 then r.header.qos else 0;
      seq = if v2 then r.header.seq else 0;
      channel = take 31 r.channel;
      topic = take 63 r.topic;
      payload = r.payload;
    }

-- `process_ipc_payload` for the client `fd`; `reply_stats` and `setup_shm` do what
-- `send_stats_reply` and `setup_client_shm` do to the world.
module _ {W : Type 0} (send deliver : ℕ → Bytes → W → Status × W)
    (reply_stats setup_shm : ℕ → Bus × W → Status × (Bus × W)) where
  unfoldable pub process_ipc_payload : ℕ → Request → Bus × W → Status × (Bus × W)
  process_ipc_payload fd r (b, w) =
      let (rc, b') = subscribe b fd (some r.topic) in
      let kind = r.header.type in
      if kind == ipc_subscribe
      then (ok, (b', w))
      else if kind == ipc_publish
      then publish send deliver (some fd) (published r) (b, w)
      else if kind == ipc_stats
      then reply_stats fd (b, w)
      else if kind == ipc_shm_setup
      then setup_shm fd (b, w)
      else if kind == ipc_shm_kick
      then (ok, (b, w))
      else (invalid, (b, w))
