-- ===== src/File/Receive.antt =====
-- How api/bc_file.c receives a file: `recv_file_path`.
pub mod Steps
pub mod Safe
pub mod Jam
pub mod Whole
pub mod Start
mod Tests
use boardcommd.Base.{
  ℕ, ◌+◌, Bool, true, false, not, ◌&&◌, ◌||◌, List, [], ◌∷◌, ◌++◌, Bytes, Option, none, some, ◌==◌,
  ltb, length, drop, rd32, u32, str_eq, bit_and, if◌then◌else◌,
}
use boardcommd.Types.{Status, ok, invalid, io, not_found, timeout, Result, done, fail}
use boardcommd.Crc.{crc32_update, crc32_start, not32}
use boardcommd.Bus.Send.{is_ok}
use boardcommd.Api.{Opts}
use boardcommd.File.{PktHdr, parse_file_packet, parse_start_meta}
use boardcommd.File.Send.{send_file_v2_control}

-- The local variables of `recv_file_path`; `has_file` says that `fp` is not NULL. `file` is not a
-- variable: it is what is stored at `path`, with what the stream still has to write.
pub record Rx : Type 0 where
  pub has_file : Bool
  pub file : Option Bytes
  pub expected_size : ℕ
  pub received : ℕ
  pub expected_seq : ℕ
  pub transfer_id : ℕ
  pub crc : ℕ
  pub end_crc : ℕ
  pub got_start : Bool
  pub got_end : Bool
  pub v2_mode : Bool

abbrev pub new_rx : Option Bytes → Rx
new_rx old = record {
  has_file = false;
  file = old;
  expected_size = 0;
  received = 0;
  expected_seq = 0;
  transfer_id = 0;
  crc = crc32_start;
  end_crc = 0;
  got_start = false;
  got_end = false;
  v2_mode = false;
}

-- What `bc_read` gives: a topic with a payload, or a status.
pub data Arrival : Type 0 where
  arrived : Bytes → Bytes → Arrival
  failed : Status → Arrival

-- What the file system does in a round: whether `fopen` or `fwrite` succeeds, what the file is
-- behind `fclose` where not all of it could be written, and whether `unlink` succeeds.
pub record Disk : Type 0 where
  pub written : Bool
  pub torn : Option Bytes
  pub removed : Bool

-- The file behind `fclose`, whose result is not looked at.
abbrev pub file_closed : Option Bytes → Option Bytes → Option Bytes
file_closed none file = file
file_closed (some torn) file = some torn

-- `fclose(fp)`
abbrev pub close_file : Disk → Rx → Rx
close_file disk r = record r { has_file = false; file = file_closed disk.torn r.file }

-- `unlink(path)`, whose result is not looked at
abbrev pub unlink_file : Disk → Rx → Rx
unlink_file disk r = record r { file = if disk.removed then none else r.file }

-- `fclose(fp)` and `unlink(path)`
abbrev pub discard : Disk → Rx → Rx
discard disk r = unlink_file disk (close_file disk r)

-- `data_ptr` and `data_len`
abbrev pub data_bytes : Rx → Bytes → Bytes
data_bytes r extra =
    if r.v2_mode && (ltb 4 (length extra) && (rd32 extra == r.transfer_id))
    then drop 4 extra
    else extra

-- the file behind `fwrite`
abbrev pub appended : Option Bytes → Bytes → Option Bytes
appended none bs = none
appended (some old) bs = some (old ++ bs)

-- the variables after `bs` has been written
abbrev pub took_data : Rx → Bytes → Rx
took_data r bs = record r {
  file = appended r.file bs;
  crc = crc32_update r.crc bs;
  received = u32 (r.received + u32 (length bs));
  expected_seq = u32 (r.expected_seq + 1);
}

-- `transfer_id` after `parse_start_meta`
abbrev pub stored_id : Option ℕ → ℕ → ℕ
stored_id none old = old
stored_id (some id) old = id

-- `(hdr.reserved & BC_FILE_PKT_FLAG_V2) != 0`
abbrev pub is_v2 : PktHdr → Bool
is_v2 h = not (bit_and h.reserved 1 == 0)

-- A round of the loop: the status that is returned, if it is, and the new state.
abbrev pub Round : Type 0 → Type 0
Round W = Option Status × (Rx × W)

-- a START packet
unfoldable pub on_start : {W : Type 0} → Option Bytes → PktHdr → Bytes → Disk → Rx → W → Round W
on_start channel h extra disk r w =
    let (rc, id) = parse_start_meta extra channel (is_v2 h) in
    let r1 = record r { transfer_id = stored_id id r.transfer_id } in
    let r2 = record r1 { expected_size = h.value } in
    if r.got_start
    then (none, (r, w))
    else if not (is_ok rc)
    then (none, (r1, w))
    else if not disk.written
    then (some io, (r2, w))
    else (
      none,
      (record r2 { has_file = true; file = some []; got_start = true; v2_mode = is_v2 h }, w),
    )

module _ {W : Type 0} (write : Bytes → Opts → W → Result ℕ × W) (pause : ℕ → W → W) where
  -- `BC_FILE_PKT_NACK`, or `BC_FILE_PKT_DONE`, is sent if the transfer has a number.
  abbrev pub control : ℕ → Rx → W → W
  control type r w =
      if r.v2_mode
      then (send_file_v2_control write pause type r.expected_seq r.transfer_id w).1
      else w

  -- `fclose`, and the check of the whole file
  unfoldable pub finish : Disk → Rx → W → Round W
  finish disk r w =
      if not (r.end_crc == not32 r.crc)
      then (some io, (discard disk r, w))
      else (some ok, (close_file disk r, control 5 r w))

  -- the chunk that was expected
  unfoldable pub take_chunk : Bytes → Disk → Rx → W → Round W
  take_chunk bs disk r w =
      let r1 = took_data r bs in
      if not disk.written
      then (some io, (discard disk r, w))
      else if r.got_end && (r1.received == r.expected_size)
      then finish disk r1 w
      else (none, (r1, w))

  -- a DATA packet
  unfoldable pub on_data : PktHdr → Bytes → Disk → Rx → W → Round W
  on_data h extra disk r w =
      if r.v2_mode && (not (is_v2 h) || (length extra == 0))
      then (none, (r, w))
      else if length (data_bytes r extra) == 0
      then (none, (r, w))
      else if ltb h.value r.expected_seq
      then (none, (r, w))
      else if ltb r.expected_seq h.value
      then (none, (r, control 4 r w))
      else take_chunk (data_bytes r extra) disk r w

  -- an END packet
  unfoldable pub on_end : PktHdr → Bytes → Disk → Rx → W → Round W
  on_end h extra disk r w =
      let r1 = record r { got_end = true; end_crc = h.value } in
      if r.got_end
      then (none, (r, w))
      else if r.v2_mode
          && (not (is_v2 h) || (not (length extra == 4) || not (rd32 extra == r.transfer_id)))
      then (some io, (unlink_file disk r1, w))
      else if not (r.received == r.expected_size)
      then (none, (r1, control 4 r1 w))
      else finish disk r1 w

  -- a packet with the topic of the transfer
  unfoldable pub on_packet : Option Bytes → PktHdr → Bytes → Disk → Rx → W → Round W
  on_packet channel h extra disk r w =
      if h.type == 1
      then on_start channel h extra disk r w
      else if not r.got_start || not r.has_file
      then (none, (r, w))
      else if h.type == 2
      then on_data h extra disk r w
      else if h.type == 3
      then on_end h extra disk r w
      else (none, (r, w))

  -- `bc_read` timed out, or has nothing
  abbrev pub on_idle : Disk → Rx → W → Round W
  on_idle disk r w =
      if not r.got_start then (some timeout, (r, w)) else (some io, (discard disk r, control 4 r w))

  -- `bc_read` failed
  abbrev pub on_error : Status → Disk → Rx → W → Round W
  on_error timeout disk r w = on_idle disk r w
  on_error not_found disk r w = on_idle disk r w
  on_error rc disk r w = (some rc, (if r.has_file then discard disk r else r, w))

  -- a round of the loop
  unfoldable pub on_arrival : Option Bytes → Bytes → Arrival → Disk → Rx → W → Round W
  on_arrival channel topic (failed rc) disk r w = on_error rc disk r w
  on_arrival channel topic (arrived from payload) disk r w =
      if not (str_eq from topic) then (none, (r, w)) else elim (parse_file_packet payload) [
        | fail rc ↦ (none, (r, w))
        | done (h, extra) ↦ on_packet channel h extra disk r w
      ]

  -- The loop over what arrives; it has not returned if nothing has made it.
  unfoldable pub recv_loop : Option Bytes → Bytes → List (Arrival × Disk) → Rx → W → Round W
  recv_loop channel topic [] r w = (none, (r, w))
  recv_loop channel topic ((a, disk) ∷ later) r w =
      let (rc, (r', w')) = on_arrival channel topic a disk r w in
      let rest = recv_loop channel topic later r' w' in
      elim rc [ none ↦ rest | some rc ↦ (some rc, (r', w')) ]

  -- `recv_file_path`; `old` is what is stored at `path` before.
  unfoldable pub recv_file_path :
      (W → Status × W)
      → Option ℕ
      → Option Bytes
      → Bytes
      → Bytes
      → List (Arrival × Disk)
      → Option Bytes
      → W
      → Round W
  recv_file_path subscribe handle channel topic path arrivals old w =
      let r = new_rx old in
      let (rc, w1) = subscribe w in
      let run = recv_loop channel topic arrivals r w1 in
      elim handle [
        | none ↦ (some invalid, (r, w))
        | some fd ↦
            if (length topic == 0) || (length path == 0)
            then (some invalid, (r, w))
            else if not (is_ok rc)
            then (some rc, (r, w1))
            else run
      ]
