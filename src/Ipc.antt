-- ===== src/Ipc.antt =====
-- src/daemon/ipc_protocol.h: the frames between the daemon and its clients on this board.
use boardcommd.Base.{ℕ, ◌≡◌, refl, ◌++◌, Bytes, le16, le32, leb, length, if◌then◌else◌}

abbrev pub ipc_magic : ℕ
ipc_magic = 0x42434950

abbrev pub ipc_version : ℕ
ipc_version = 2

-- `bc_ipc_type_t`
abbrev pub ipc_publish : ℕ
ipc_publish = 1

abbrev pub ipc_subscribe : ℕ
ipc_subscribe = 2

abbrev pub ipc_deliver : ℕ
ipc_deliver = 3

abbrev pub ipc_stats : ℕ
ipc_stats = 4

abbrev pub ipc_shm_setup : ℕ
ipc_shm_setup = 5

abbrev pub ipc_shm_kick : ℕ
ipc_shm_kick = 6

-- `bc_ipc_header_t`
pub record IpcHeader : Type 0 where
  pub magic : ℕ
  pub version : ℕ
  pub type : ℕ
  pub topic_len : ℕ
  pub channel_len : ℕ
  pub payload_len : ℕ
  pub dst_node : ℕ
  pub qos : ℕ
  pub flags : ℕ
  pub seq : ℕ

abbrev pub ipc_header_len : ℕ
ipc_header_len = 28

-- `bc_ipc_header_size`: headers before version 2 end before `dst_node`.
unfoldable pub ipc_header_size : ℕ → ℕ
ipc_header_size version = if leb ipc_version version then ipc_header_len else 16

-- `memcpy(frame, &header, sizeof(header))`
unfoldable pub put_ipc_header : IpcHeader → Bytes
put_ipc_header h =
    le32 h.magic
    ++ (le16 h.version
        ++ (le16 h.type
            ++ (le16 h.topic_len
                ++ (le16 h.channel_len
                    ++ (le32 h.payload_len
                        ++ (le32 h.dst_node ++ (le16 h.qos ++ (le16 h.flags ++ le32 h.seq))))))))

pub length-put_ipc_header : (h : IpcHeader) → length (put_ipc_header h) ≡ ipc_header_len
unfolding put_ipc_header
length-put_ipc_header h = refl
