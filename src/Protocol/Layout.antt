-- ===== src/Protocol/Layout.antt =====
-- `bc_frame_header_t` of src/daemon/protocol.c, and its 36 bytes in memory.
use boardcommd.Base.{
  ℕ, ◌<◌, ◌≡◌, ◌++◌, Bytes, length, drop, le16, le32, rd16, rd32, u16_mod, u32_mod, arith, refl,
}

pub record Header : Type 0 where
  pub magic : ℕ
  pub version : ℕ
  pub header_len : ℕ
  pub src_node : ℕ
  pub dst_node : ℕ
  pub flags : ℕ
  pub qos : ℕ
  pub seq : ℕ
  pub channel_len : ℕ
  pub topic_len : ℕ
  pub payload_len : ℕ
  pub checksum : ℕ

-- `sizeof(bc_frame_header_t)`: the fields stand without gaps.
abbrev pub header_size : ℕ
header_size = 36

abbrev pub frame_magic : ℕ
frame_magic = 0x42434652

abbrev pub frame_version : ℕ
frame_version = 1

-- What the widths of the fields allow.
pub record IsHeader (h : Header) : Type 0 where
  pub magic_fits : h.magic < u32_mod
  pub version_fits : h.version < u16_mod
  pub header_len_fits : h.header_len < u16_mod
  pub src_node_fits : h.src_node < u32_mod
  pub dst_node_fits : h.dst_node < u32_mod
  pub flags_fit : h.flags < u16_mod
  pub qos_fits : h.qos < u16_mod
  pub seq_fits : h.seq < u32_mod
  pub channel_len_fits : h.channel_len < u16_mod
  pub topic_len_fits : h.topic_len < u16_mod
  pub payload_len_fits : h.payload_len < u32_mod
  pub checksum_fits : h.checksum < u32_mod

-- `memcpy(frame->data, &header, sizeof(header))`
unfoldable pub put_header : Header → Bytes
put_header h =
    le32 h.magic
    ++ (le16 h.version
        ++ (le16 h.header_len
            ++ (le32 h.src_node
                ++ (le32 h.dst_node
                    ++ (le16 h.flags
                        ++ (le16 h.qos
                            ++ (le32 h.seq
                                ++ (le16 h.channel_len
                                    ++ (le16 h.topic_len
                                        ++ (le32 h.payload_len ++ le32 h.checksum))))))))))

-- `memcpy(&header, data, sizeof(header))`
unfoldable pub get_header : Bytes → Header
get_header bs = record {
  magic = rd32 bs;
  version = rd16 (drop 4 bs);
  header_len = rd16 (drop 6 bs);
  src_node = rd32 (drop 8 bs);
  dst_node = rd32 (drop 12 bs);
  flags = rd16 (drop 16 bs);
  qos = rd16 (drop 18 bs);
  seq = rd32 (drop 20 bs);
  channel_len = rd16 (drop 24 bs);
  topic_len = rd16 (drop 26 bs);
  payload_len = rd32 (drop 28 bs);
  checksum = rd32 (drop 32 bs);
}

pub length-put_header : (h : Header) → length (put_header h) ≡ header_size
unfolding put_header
length-put_header h = refl

pub get_header-put_header :
    (h : Header) (rest : Bytes) → IsHeader h → get_header (put_header h ++ rest) ≡ h
unfolding put_header get_header
get_header-put_header h rest v = ground arith
