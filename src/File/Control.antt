-- ===== src/File/Control.antt =====
-- The control packets of a transfer: what `send_file_v2_control` of api/bc_file.c sends, read back.
use boardcommd.Base.{ℕ, ◌<◌, ◌≡◌, ◌++◌, Bytes, ◌==◌, le32, u32_mod, arith, if◌then◌else◌}
use boardcommd.Types.{ok, not_found, done}
use boardcommd.File.{PktHdr, put_pkt_hdr, file_pkt_magic, parse_file_packet, parse_file_v2_control}

-- the header that `send_file_packet` fills in for a control packet
abbrev pub control_hdr : ℕ → ℕ → PktHdr
control_hdr type value = record { magic = file_pkt_magic; type = type; reserved = 1; value = value }

-- the packet of `send_file_v2_control`
abbrev pub control_packet : ℕ → ℕ → ℕ → Bytes
control_packet type value transfer_id = put_pkt_hdr (control_hdr type value) ++ le32 transfer_id

-- A control packet is read back with its type and value, and taken for the transfer that it names
-- and for no other: BC_OK for that transfer number, BC_ERR_NOT_FOUND for each other one.
pub parse_file_v2_control-control_packet :
    (type value transfer_id expected : ℕ)
    → type < 256
    → value < u32_mod
    → transfer_id < u32_mod
    → (parse_file_packet (control_packet type value transfer_id)
        ≡ done (control_hdr type value, le32 transfer_id))
      × (parse_file_v2_control (control_hdr type value) (le32 transfer_id) type expected
          ≡ (if transfer_id == expected then ok else not_found))
unfolding parse_file_packet parse_file_v2_control
parse_file_v2_control-control_packet type value transfer_id expected t v i =
    (ground arith, ground arith)
