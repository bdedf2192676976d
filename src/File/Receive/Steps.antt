-- ===== src/File/Receive/Steps.antt =====
-- Rounds of the loop of `recv_file_path` in api/bc_file.c that do not end it.
use boardcommd.Base.{
  ℕ, ◌<◌, ◌≡◌, ◌≢◌, refl, ap, true, List, ◌∷◌, Bytes, Option, none, some, length, arith,
  str_eq_self, ◌==◌, ◌&&◌, ltb, rd32, length-drop, ◌≤◌, if_intro,
}
use boardcommd.Types.{Status, Result, done}
use boardcommd.Api.{Opts}
use boardcommd.File.{PktHdr, parse_file_packet}
use boardcommd.File.Receive.{
  Rx, Disk, Round, Arrival, arrived, data_bytes, took_data, is_v2, on_data, take_chunk, on_packet,
  on_arrival, recv_loop,
}

pub length-data_bytes : (r : Rx) (extra : Bytes) → length (data_bytes r extra) ≤ length extra
length-data_bytes r extra =
    if_intro (λ (bs : Bytes). length bs ≤ length extra)
      (r.v2_mode && (ltb 4 (length extra) && (rd32 extra == r.transfer_id)))
      (λ _. omega (arith, length-drop 4 extra)) (λ _. omega arith)

module _ {W : Type 0} (write : Bytes → Opts → W → Result ℕ × W) (pause : ℕ → W → W)
    (channel : Option Bytes) (topic : Bytes) where
  -- what the loop makes of a round
  abbrev after_round : List (Arrival × Disk) → Round W → Round W
  after_round later x = elim x.0 [
    | none ↦ recv_loop write pause channel topic later (x.1.0) (x.1.1)
    | some rc ↦ (some rc, (x.1.0, x.1.1))
  ]

  pub loop_on :
      (a : Arrival) (disk : Disk) (later : List (Arrival × Disk)) (r r' : Rx) (w w' : W)
      → on_arrival write pause channel topic a disk r w ≡ (none, (r', w'))
      → recv_loop write pause channel topic ((a, disk) ∷ later) r w
        ≡ recv_loop write pause channel topic later r' w'
  unfolding recv_loop
  loop_on a disk later r r' w w' e = ap (after_round later) e

  returned :
      (later : List (Arrival × Disk)) (x : Round W) {rc : Status}
      → x.0 ≡ some rc
      → after_round later x ≡ x
  returned later (none, (r, w)) e = cc
  returned later (some rc, (r, w)) e = refl

  pub loop_returns :
      (a : Arrival) (disk : Disk) (later : List (Arrival × Disk)) (r : Rx) (w : W) {rc : Status}
      → (on_arrival write pause channel topic a disk r w).0 ≡ some rc
      → recv_loop write pause channel topic ((a, disk) ∷ later) r w
        ≡ on_arrival write pause channel topic a disk r w
  unfolding recv_loop
  loop_returns a disk later r w e =
      returned later (on_arrival write pause channel topic a disk r w) e

  pub arrived_packet :
      (payload extra : Bytes) (p : PktHdr) (disk : Disk) (r : Rx) (w : W)
      → parse_file_packet payload ≡ done (p, extra)
      → on_arrival write pause channel topic (arrived topic payload) disk r w
        ≡ on_packet write pause channel p extra disk r w
  unfolding on_arrival
  arrived_packet payload extra p disk r w e = ground (arith, str_eq_self topic, e)

  -- the chunk that is waited for
  pub chunk_packet :
      (p : PktHdr) (extra : Bytes) (disk : Disk) (r : Rx) (w : W)
      → disk.written ≡ true
      → r.got_start ≡ true
      → r.has_file ≡ true
      → p.type ≡ 2
      → is_v2 p ≡ true
      → p.value ≡ r.expected_seq
      → 0 < length (data_bytes r extra)
      → on_packet write pause channel p extra disk r w
        ≡ take_chunk write pause (data_bytes r extra) disk r w
  unfolding on_packet on_data
  chunk_packet p extra disk r w d g f t v n l =
      let some_bytes : 0 < length extra = omega (arith, length-data_bytes r extra) in
      ground (arith, d, g, f, t, v, n, l, some_bytes)

  -- It is taken, and the loop goes on.
  pub chunk_goes_on :
      (chunk : Bytes) (disk : Disk) (r : Rx) (w : W)
      → disk.written ≡ true
      → (r.got_end ≡ true → (took_data r chunk).received ≢ r.expected_size)
      → take_chunk write pause chunk disk r w ≡ (none, (took_data r chunk, w))
  unfolding take_chunk
  chunk_goes_on chunk disk r w d missing = ground (arith, d, missing)
