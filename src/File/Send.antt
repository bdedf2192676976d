-- ===== src/File/Send.antt =====
-- How api/bc_file.c sends one packet: `send_file_packet` and `send_file_v2_control`.
use boardcommd.Base.{ℕ, zero, suc, ◌+◌, ◌*◌, ◌++◌, Bytes, ◌==◌, ltb, length, le32, if◌then◌else◌}
use boardcommd.Types.{invalid, io, nomem, Result, done, fail}
use boardcommd.Api.{Opts}
use boardcommd.File.{PktHdr, put_pkt_hdr, file_pkt_magic}

-- BC_FILE_DATA_RETRY_SPIN and BC_FILE_SEND_RETRY_MAX
abbrev pub data_retry_spin : ℕ
data_retry_spin = 200000

abbrev pub send_retry_max : ℕ
send_retry_max = 64

-- the options of a packet
abbrev pub packet_opts : ℕ → Opts
packet_opts type = record { dst_node = 0; qos = if type == 2 then 0 else 1; flags = 0 }

-- the packet that is put together in `payload`
abbrev pub packet : ℕ → ℕ → ℕ → Bytes → Bytes
packet type reserved value extra =
    let h : PktHdr = record {
      magic = file_pkt_magic;
      type = type;
      reserved = reserved;
      value = value;
    } in
    put_pkt_hdr h ++ extra

-- `write` is `bc_write_ex` with the handle, the channel and the topic of the transfer; `pause` is
-- `usleep`.
module _ {W : Type 0} (write : Bytes → Opts → W → Result ℕ × W) (pause : ℕ → W → W) where
  -- the loop for a DATA packet, with `n` rounds left
  unfoldable pub retry_data : ℕ → Opts → Bytes → W → Result ℕ × W
  retry_data zero opts p w = (fail io, w)
  retry_data (suc n) opts p w =
      let (r, w1) = write p opts w in
      let rest = retry_data n opts p (pause 50 w1) in
      elim r [ done k ↦ (done k, w1) | fail nomem ↦ rest | fail rc ↦ (fail rc, w1) ]

  -- the loop for the other packets, with `n` rounds left
  unfoldable pub retry_control : ℕ → ℕ → Opts → Bytes → W → Result ℕ × W
  retry_control zero attempt opts p w = (fail io, w)
  retry_control (suc n) attempt opts p w =
      let (r, w1) = write p opts w in
      let rest = retry_control n (attempt + 1) opts p (pause (1000 * (attempt + 1)) w1) in
      elim r [
        | done k ↦ (done k, w1)
        | fail nomem ↦ rest
        | fail io ↦ rest
        | fail rc ↦ (fail rc, w1)
      ]

  -- `send_file_packet`
  unfoldable pub send_file_packet : ℕ → ℕ → ℕ → Bytes → W → Result ℕ × W
  send_file_packet type reserved value extra w =
      let p = packet type reserved value extra in
      if ltb 1392 (length extra)
      then (fail invalid, w)
      else if type == 2
      then retry_data data_retry_spin (packet_opts type) p w
      else retry_control send_retry_max 0 (packet_opts type) p w

  -- `send_file_v2_control`
  abbrev pub send_file_v2_control : ℕ → ℕ → ℕ → W → Result ℕ × W
  send_file_v2_control type value transfer_id w = send_file_packet type 1 value (le32 transfer_id) w
