-- ===== src/Types.antt =====
-- api/bc_types.h: statuses, limits and `bc_message_t`.
use boardcommd.Base.{ℕ, ◌<◌, ◌≤◌, Bytes, u16_mod, u32_mod, IsText, length}

-- `bc_status_t`
pub data Status : Type 0 where
  ok err invalid io nomem not_found timeout auth : Status

-- A function that fills an output parameter when it returns BC_OK.
pub data Result {ℓ} (A : Type ℓ) : Type ℓ where
  done : A → Result A
  fail : Status → Result A

abbrev pub max_channel_len : ℕ
max_channel_len = 32

abbrev pub max_topic_len : ℕ
max_topic_len = 64

abbrev pub max_payload_len : ℕ
max_payload_len = 1400

abbrev pub flag_fragment : ℕ
flag_fragment = 1

abbrev pub flag_ack : ℕ
flag_ack = 2

abbrev pub flag_no_bridge : ℕ
flag_no_bridge = 4

abbrev pub qos_at_most_once : ℕ
qos_at_most_once = 0

abbrev pub qos_at_least_once : ℕ
qos_at_least_once = 1

-- `bc_message_t`. A `char` array is the string that it holds; `payload` is the first `payload_len`
-- bytes of the array, so that `payload_len` is its length.
pub record Message : Type 0 where
  pub src_node : ℕ
  pub dst_node : ℕ
  pub flags : ℕ
  pub qos : ℕ
  pub seq : ℕ
  pub channel : Bytes
  pub topic : Bytes
  pub payload : Bytes

-- What the C types of the fields allow.
pub record IsMessage (m : Message) : Type 0 where
  pub src_node_fits : m.src_node < u32_mod
  pub dst_node_fits : m.dst_node < u32_mod
  pub flags_fit : m.flags < u16_mod
  pub qos_fits : m.qos < u16_mod
  pub seq_fits : m.seq < u32_mod
  pub channel_text : IsText max_channel_len m.channel
  pub topic_text : IsText max_topic_len m.topic
  pub payload_fits : length m.payload ≤ max_payload_len
