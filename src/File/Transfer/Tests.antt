-- ===== src/File/Transfer/Tests.antt =====
-- The sender of a file at concrete inputs.
use boardcommd.Base.{
  ℕ, ◌+◌, ◌≤◌, ◌≡◌, refl, true, false, List, [], ◌∷◌, Bytes, none, some, le32, length, leb, arith,
  codes, if◌then◌else◌,
}
use boardcommd.Types.{Status, ok, io, Result, done}
use boardcommd.Ipc.{ipc_publish}
use boardcommd.Api.{Opts, build_ipc_frame}
use boardcommd.Api.Build.{call_frame}
use boardcommd.Api.Send.{bc_write_ex, send_ipc_message}
use boardcommd.File.{find_cache_slot, store_cache_slot}
use boardcommd.File.Control.{control_hdr}
use boardcommd.File.Transfer.{
  Progress, Seen, empty_cache, start_meta, on_control, run_transfer, wait_done, end_wait_rounds,
}
use boardcommd.File.Transfer.Cache.{kept, empty-IsCache, store-IsCache, find_cache_slot-kept}
use boardcommd.File.Transfer.Sent.{nth, log_all, sent_packet, transfer_packets, run_transfer_lem}
use boardcommd.File.Transfer.Nack.{on_control-nack}

abbrev topic : Bytes
topic = codes "file.a"

-- A socket that takes all: the world is the frames that were written, the last one first.
abbrev socket : Bytes → List Bytes → Status × List Bytes
socket frame w = (ok, frame ∷ w)

abbrev kick : List Bytes → Status × List Bytes
kick w = (ok, w)

-- bc_write_ex on that socket, for a transfer without a channel
abbrev library_write : Bytes → Opts → List Bytes → Result ℕ × List Bytes
library_write p opts w =
    bc_write_ex socket socket kick (λ v. v) (some 3) false none (some topic) p (some opts) w

abbrev no_pause : ℕ → List Bytes → List Bytes
no_pause us w = w

abbrev note : Opts × Bytes → List Bytes → List Bytes
note (opts, p) w = call_frame ipc_publish none topic p (some opts) ∷ w

library_takes :
    (p : Bytes) (opts : Opts) (w : List Bytes)
    → length p ≤ 1400
    → library_write p opts w ≡ (done (length p), note (opts, p) w)
unfolding bc_write_ex send_ipc_message build_ipc_frame
library_takes p opts w h = ground (arith, h)

abbrev chunks : List Bytes
chunks = (7 ∷ 8 ∷ []) ∷ ((9 ∷ []) ∷ [])

abbrev meta : Bytes
meta = start_meta 99 (codes "a.txt") []

run_transfer_lem_example :
    (p : Progress) × (run_transfer library_write no_pause topic 99 3 meta chunks true [] []
      ≡ wait_done library_write no_pause topic 99 p (end_wait_rounds 3) [] (
          log_all library_write no_pause note library_takes (transfer_packets 99 3 meta chunks) []))
    × (p.seq ≡ 2)
    × ((v : ℕ) → find_cache_slot p.cache v ≡ kept 2 (nth chunks) v)
run_transfer_lem_example =
    run_transfer_lem library_write no_pause note library_takes topic 99 3 meta chunks [] []
      (omega arith) (omega arith) (omega arith)

abbrev after_two : Progress
after_two = record {
  crc = 0;
  seq = 2;
  cache = store_cache_slot (store_cache_slot empty_cache 0 (7 ∷ 8 ∷ [])) 1 (9 ∷ []);
}

after_two-kept : (u : ℕ) → find_cache_slot after_two.cache u ≡ kept 2 (nth chunks) u
after_two-kept u = find_cache_slot-kept (nth chunks) 2 after_two.cache u (
    store-IsCache (nth chunks) 1 (store_cache_slot empty_cache 0 (7 ∷ 8 ∷ []))
      (store-IsCache (nth chunks) 0 empty_cache (empty-IsCache (nth chunks))))

abbrev unseen : Seen
unseen = record { done_seen = false; resent_any = false }

on_control-nack_example :
    on_control library_write no_pause 99 after_two (control_hdr 4 1) (le32 99) unseen [] ≡ (
      if leb 2 1
      then (none, (unseen, []))
      else if leb 2 (1 + 256)
      then (none, (record unseen { resent_any = true }, note (sent_packet 2 1 (9 ∷ [])) []))
      else (some io, (unseen, [])))
on_control-nack_example =
    on_control-nack library_write no_pause note library_takes chunks 99 1 after_two unseen []
      (omega arith) (omega arith) refl after_two-kept
