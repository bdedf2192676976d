-- ===== src/File/Receive/Jam.antt =====
-- What the receiver of api/bc_file.c does once an END packet has come too early.
use boardcommd.Base.{
  ℕ, ◌<◌, ◌≡◌, ◌≢◌, refl, ◌∙◌, ◌⊎◌, inl, inr, true, List, [], ◌∷◌, Bytes, Option, none, length, All,
  arith,
}
use boardcommd.Types.{Result, done}
use boardcommd.Api.{Opts}
use boardcommd.File.{PktHdr, parse_file_packet}
use boardcommd.File.Receive.Steps.{loop_on, arrived_packet, chunk_packet, chunk_goes_on}
use boardcommd.File.Receive.{
  Rx, Disk, Arrival, arrived, failed, data_bytes, took_data, is_v2, on_data, on_end, take_chunk,
  on_packet, on_arrival, recv_loop,
}

-- an END packet, or a DATA packet of the first `n` chunks
abbrev pub IsRepeated : Bytes → ℕ → Arrival × Disk → Type 0
IsRepeated topic n (failed rc, disk) = ⊥
IsRepeated topic n (arrived from payload, disk) =
    (p : PktHdr) × (extra : Bytes) × (parse_file_packet payload ≡ done (p, extra))
    × ((p.type ≡ 3) ⊎ ((p.type ≡ 2) × (p.value < n)))

-- an END packet has been seen, and the file is open.
pub record IsEnded (r : Rx) : Type 0 where
  pub started : r.got_start ≡ true
  pub opened : r.has_file ≡ true
  pub ended : r.got_end ≡ true

module _ {W : Type 0} (write : Bytes → Opts → W → Result ℕ × W) (pause : ℕ → W → W)
    (channel : Option Bytes) (topic : Bytes) where
  repeated_packet :
      (p : PktHdr) (extra : Bytes) (disk : Disk) (r : Rx) (w : W)
      → IsEnded r
      → (p.type ≡ 3) ⊎ ((p.type ≡ 2) × (p.value < r.expected_seq))
      → on_packet write pause channel p extra disk r w ≡ (none, (r, w))
  unfolding on_packet on_data on_end
  repeated_packet p extra disk r w i (inl t) = ground (arith, i, t)
  repeated_packet p extra disk r w i (inr (t, l)) = ground (arith, i, t, l)

  repeated_arrival :
      (a : Arrival) (disk : Disk) (r : Rx) (w : W)
      → IsEnded r
      → IsRepeated topic r.expected_seq (a, disk)
      → on_arrival write pause channel topic a disk r w ≡ (none, (r, w))
  unfolding on_arrival
  repeated_arrival (failed rc) disk r w i h = absurd h
  repeated_arrival (arrived from payload) disk r w i (p, extra, e, h) =
      ground (arith, e, repeated_packet p extra disk r w i h)

  pub repeated_loop :
      (arrivals : List (Arrival × Disk)) (r : Rx) (w : W)
      → IsEnded r
      → All (IsRepeated topic r.expected_seq) arrivals
      → recv_loop write pause channel topic arrivals r w ≡ (none, (r, w))
  unfolding recv_loop
  repeated_loop [] r w i h = refl
  repeated_loop ((a, disk) ∷ later) r w i (h, hs) =
      loop_on write pause channel topic a disk later r r w w (repeated_arrival a disk r w i h)
      ∙ repeated_loop later r w i hs

  -- A bug: after an END packet that came too early, let the chunk arrive that the receiver then
  -- asked for, with another one still missing behind it. Whatever number of END packets and of
  -- packets with the chunks up to that one follow, which is all that a sender sends again for that
  -- request, the receiver asks for nothing: it waits for the next chunk, and sends no packet.
  pub recv_loop_jam :
      (p : PktHdr) (payload extra : Bytes) (disk : Disk) (arrivals : List (Arrival × Disk)) (r : Rx)
      (w : W)
      → let chunk = data_bytes r extra in
        let r1 = took_data r chunk in
        disk.written ≡ true
        → IsEnded r
        → parse_file_packet payload ≡ done (p, extra)
        → p.type ≡ 2
        → is_v2 p ≡ true
        → p.value ≡ r.expected_seq
        → 0 < length chunk
        → r1.received ≢ r.expected_size
        → All (IsRepeated topic r1.expected_seq) arrivals
        → recv_loop write pause channel topic ((arrived topic payload, disk) ∷ arrivals) r w
          ≡ (none, (r1, w))
  recv_loop_jam p payload extra disk arrivals r w d i parsed t v2 next filled missing h =
      let chunk = data_bytes r extra in
      let r1 = took_data r chunk in
      let taken : take_chunk write pause chunk disk r w ≡ (none, (r1, w)) =
        chunk_goes_on write pause channel topic chunk disk r w d (λ y. missing) in
      loop_on write pause channel topic (arrived topic payload) disk arrivals r r1 w w (
        arrived_packet write pause channel topic payload extra p disk r w parsed
        ∙ chunk_packet write pause channel topic p extra disk r w d i.started i.opened t v2 next
            filled
        ∙ taken)
      ∙ repeated_loop arrivals r1 w
          (record { started = i.started; opened = i.opened; ended = i.ended }) h
