-- ===== src/File/Transfer.antt =====
-- How api/bc_file.c sends a file: `send_file_path`.
pub mod Cache
pub mod Sent
pub mod Nack
mod Tests
use boardcommd.Base.{
  ℕ, zero, suc, ◌+◌, ◌*◌, ◌/◌, Bool, true, false, not, ◌||◌, ◌&&◌, List, [], ◌∷◌, ◌++◌, Bytes,
  Option, none, some, ◌==◌, ltb, leb, length, replicate, le16, le32, u32, str_eq, if◌then◌else◌,
}
use boardcommd.Types.{Status, ok, invalid, io, not_found, timeout, Result, done, fail}
use boardcommd.Crc.{crc32_update, crc32_start, not32}
use boardcommd.Bus.Send.{is_ok}
use boardcommd.Api.{Opts}
use boardcommd.File.{
  PktHdr, CacheSlot, parse_file_packet, parse_file_v2_control, find_cache_slot, store_cache_slot,
  basename_only, make_transfer_id, channel_wanted,
}
use boardcommd.File.Send.{send_file_packet, send_file_v2_control}
use boardcommd.File.Receive.{Arrival, arrived, failed}

-- BC_FILE_RETX_WINDOW, and the cache that `memset` clears
abbrev pub retx_window : ℕ
retx_window = 256

abbrev pub empty_cache : List CacheSlot
empty_cache = replicate retx_window (record { valid = false; seq = 0; bytes = [] })

-- `start_meta`
abbrev pub start_meta : ℕ → Bytes → Bytes → Bytes
start_meta transfer_id name channel =
    2 ∷ (le32 transfer_id ++ (le16 (length name) ++ (name ++ (le16 (length channel) ++ channel))))

-- The variables of the loop that reads the file.
pub record Progress : Type 0 where
  pub crc : ℕ
  pub seq : ℕ
  pub cache : List CacheSlot

-- `*done_seen` and `*resent_any`
pub record Seen : Type 0 where
  pub done_seen : Bool
  pub resent_any : Bool

-- `end_wait_rounds` for the size of the file
unfoldable pub end_wait_rounds : ℕ → ℕ
end_wait_rounds size =
    let file_mb = (size + 1048575) / 1048576 in
    if ltb 0 file_mb && ltb 200 (file_mb * 50) then file_mb * 50 else 200

module _ {W : Type 0} (write : Bytes → Opts → W → Result ℕ × W) (pause : ℕ → W → W) where
  -- the loop that reads the file; `chunks` is what `read` gives until it gives no more.
  unfoldable pub send_chunks : List Bytes → Progress → W → Result Progress × W
  send_chunks [] p w = (done p, w)
  send_chunks (chunk ∷ chunks) p w =
      let (r, w1) = send_file_packet write pause 2 1 p.seq chunk w in
      let next : Progress = record {
        crc = crc32_update p.crc chunk;
        seq = u32 (p.seq + 1);
        cache = store_cache_slot p.cache p.seq chunk;
      } in
      let rest = send_chunks chunks next w1 in elim r [ done n ↦ rest | fail rc ↦ (fail rc, w1) ]

  -- the status of a packet that is sent again, and `*resent_any`
  abbrev pub after_resend : Result ℕ × W → Seen → Option Status × (Seen × W)
  after_resend (done n, w) s = (none, (record s { resent_any = true }, w))
  after_resend (fail rc, w) s = (some rc, (s, w))

  -- a NACK for the chunk `seq`, which has been sent
  unfoldable pub resend : Option CacheSlot → Seen → W → Option Status × (Seen × W)
  resend none s w = (some io, (s, w))
  resend (some slot) s w = after_resend (send_file_packet write pause 2 1 slot.seq slot.bytes w) s

  -- a packet with the topic of the transfer, in `sender_handle_controls`
  unfoldable pub on_control : ℕ → Progress → PktHdr → Bytes → Seen → W → Option Status × (Seen × W)
  on_control transfer_id p h extra s w =
      if is_ok (parse_file_v2_control h extra 5 transfer_id)
      then (none, (record s { done_seen = true }, w))
      else if (h.type == 1) || ((h.type == 2) || (h.type == 3))
      then (none, (s, w))
      else if not (is_ok (parse_file_v2_control h extra 4 transfer_id))
      then (none, (s, w))
      else if leb p.seq h.value
      then (none, (s, w))
      else resend (find_cache_slot p.cache h.value) s w

  -- what `sender_handle_controls` makes of one `bc_read`
  unfoldable pub on_read : Bytes → ℕ → Progress → Arrival → Seen → W → Option Status × (Seen × W)
  on_read topic transfer_id p (failed timeout) s w = (some ok, (s, w))
  on_read topic transfer_id p (failed not_found) s w = (some ok, (s, w))
  on_read topic transfer_id p (failed rc) s w = (some rc, (s, w))
  on_read topic transfer_id p (arrived from payload) s w =
      if not (str_eq from topic) then (none, (s, w)) else elim (parse_file_packet payload) [
        | fail rc ↦ (none, (s, w))
        | done (h, extra) ↦ on_control transfer_id p h extra s w
      ]

  -- The loop of `sender_handle_controls` over what `bc_read` gives.
  unfoldable pub handle_loop :
      Bytes → ℕ → Progress → List Arrival → Seen → W → Option Status × (Seen × W)
  handle_loop topic transfer_id p [] s w = (none, (s, w))
  handle_loop topic transfer_id p (a ∷ later) s w =
      let (rc, (s', w')) = on_read topic transfer_id p a s w in
      let rest = handle_loop topic transfer_id p later s' w' in
      elim rc [ none ↦ rest | some st ↦ (some st, (s', w')) ]

  -- `sender_handle_controls`
  abbrev pub sender_handle_controls :
      Bytes → ℕ → Progress → List Arrival → W → Option Status × (Seen × W)
  sender_handle_controls topic transfer_id p arrivals w =
      handle_loop topic transfer_id p arrivals (record { done_seen = false; resent_any = false }) w

  -- what follows a call of `sender_handle_controls` in its loop: BC_OK is returned, another END
  -- packet is sent, or nothing.
  abbrev pub after_controls : ℕ → Progress → Seen → W → Option Status × W
  after_controls transfer_id p s w =
      let (r, w') = send_file_v2_control write pause 3 (not32 p.crc) transfer_id w in
      if s.done_seen
      then (some ok, w)
      else if s.resent_any
      then (elim r [ done n ↦ none | fail rc ↦ some rc ], w')
      else (none, w)

  -- The loop that waits for DONE, with `n` rounds left; `rounds` is what `bc_read` gives in each.
  -- It has not returned where these end before their time.
  unfoldable pub wait_done : Bytes → ℕ → Progress → ℕ → List (List Arrival) → W → Option Status × W
  wait_done topic transfer_id p zero rounds w = (some timeout, w)
  wait_done topic transfer_id p (suc n) [] w = (none, w)
  wait_done topic transfer_id p (suc n) (arrivals ∷ rounds) w =
      let (rc, (s, w1)) = sender_handle_controls topic transfer_id p arrivals w in
      let (rc2, w2) = after_controls transfer_id p s w1 in
      let rest = wait_done topic transfer_id p n rounds w2 in
      elim rc [
        | none ↦ (none, w1)
        | some ok ↦ elim rc2 [ none ↦ rest | some st ↦ (some st, w2) ]
        | some st ↦ (some st, w1)
      ]

  -- behind the loop that reads the file; `read_ok` says that the last `read` gave 0.
  unfoldable pub end_transfer :
      Bytes → ℕ → ℕ → Bool → List (List Arrival) → Result Progress × W → Option Status × W
  end_transfer topic transfer_id size read_ok rounds (fail rc, w) = (some rc, w)
  end_transfer topic transfer_id size read_ok rounds (done p, w) =
      let (r, w1) = send_file_packet write pause 3 1 (not32 p.crc) (le32 transfer_id) w in
      let rest = wait_done topic transfer_id p (end_wait_rounds size) rounds w1 in
      if not read_ok then (some io, w) else elim r [ done n ↦ rest | fail rc ↦ (some rc, w1) ]

  -- from the START packet on
  unfoldable pub run_transfer :
      Bytes → ℕ → ℕ → Bytes → List Bytes → Bool → List (List Arrival) → W → Option Status × W
  run_transfer topic transfer_id size meta chunks read_ok rounds w =
      let (r, w1) = send_file_packet write pause 1 1 size meta w in
      let p : Progress = record { crc = crc32_start; seq = 0; cache = empty_cache } in
      let rest = end_transfer topic transfer_id size read_ok rounds (send_chunks chunks p w1) in
      elim r [ done n ↦ rest | fail rc ↦ (some rc, w1) ]

  -- `send_file_path`: `stat` is the size of a regular file, `opens` says that `open` succeeds,
  -- and `now` and `pid` are what `time` and `getpid` return.
  unfoldable pub send_file_path :
      (W → Status × W)
      → Option ℕ
      → Option Bytes
      → Bytes
      → Bytes
      → Option ℕ
      → Bool
      → ℕ
      → ℕ
      → List Bytes
      → Bool
      → List (List Arrival)
      → W
      → Option Status × W
  send_file_path subscribe none channel topic path stat opens now pid chunks read_ok rounds w =
      (some invalid, w)
  send_file_path subscribe (some fd) channel topic path none opens now pid chunks read_ok rounds w =
      (if (length topic == 0) || (length path == 0) then some invalid else some io, w)
  send_file_path subscribe (some fd) channel topic path (some size) opens now pid chunks read_ok
        rounds w =
      let name = basename_only path in
      let wanted = channel_wanted channel in
      let transfer_id = make_transfer_id now pid (some topic) (some path) size in
      let (rc, w1) = subscribe w in
      let run =
        run_transfer topic transfer_id size (start_meta transfer_id name wanted) chunks read_ok
          rounds w1 in
      if (length topic == 0) || (length path == 0)
      then (some invalid, w)
      else if ltb 4294967295 size
      then (some invalid, w)
      else if not opens
      then (some io, w)
      else if (length name == 0) || ltb 255 (length name)
      then (some invalid, w)
      else if leb 32 (length wanted)
      then (some invalid, w)
      else if ltb 1392 (9 + length name + length wanted)
      then (some invalid, w)
      else if not (is_ok rc)
      then (some rc, w1)
      else run
