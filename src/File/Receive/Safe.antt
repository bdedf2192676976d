-- ===== src/File/Receive/Safe.antt =====
-- What `recv_file_path` of api/bc_file.c leaves at the path when it returns.
use boardcommd.Base.{
  ℕ, ◌≡◌, ◌≢◌, refl, sym, ap, ◌∙◌, true, false, not, List, [], ◌∷◌, ◌++◌, Bytes, Option, none, some,
  ◌==◌, length, length-append, u32, All, arith, if_intro, if◌then◌else◌, ltb, ◌||◌, ◌&&◌, str_eq,
  rd32,
}
use boardcommd.Types.{
  Status, ok, err, invalid, io, nomem, not_found, timeout, auth, Result, done, fail,
}
use boardcommd.Crc.{crc32, crc32_update, crc32_start, crc32_update-append, not32}
use boardcommd.Bus.Send.{is_ok}
use boardcommd.Api.{Opts}
use boardcommd.File.{PktHdr, parse_file_packet, parse_start_meta}
use boardcommd.File.Receive.{
  Rx, Disk, new_rx, Arrival, arrived, failed, data_bytes, took_data, is_v2, Round, finish, on_start,
  take_chunk, on_data, on_end, on_packet, on_idle, on_error, on_arrival, recv_loop, recv_file_path,
  discard, close_file, unlink_file,
}

-- `fclose` writes what is left to write, and `unlink` removes the file.
abbrev pub Works : Disk → Type 0
Works disk = (disk.torn ≡ none) × (disk.removed ≡ true)

-- The status of a failed call is not BC_OK, and `fclose` and `unlink` succeed.
abbrev pub IsRead : Arrival × Disk → Type 0
IsRead (arrived from payload, disk) = Works disk
IsRead (failed rc, disk) = (rc ≢ ok) × Works disk

-- The file holds the bytes that have been counted and summed up.
pub record Holds (r : Rx) (bs : Bytes) : Type 0 where
  pub stored : r.file ≡ some bs
  pub counted : r.received ≡ u32 (length bs)
  pub summed : r.crc ≡ crc32_update crc32_start bs

-- the state between two rounds; `old` was stored at the path before.
pub record IsReceiving (old : Option Bytes) (r : Rx) : Type 0 where
  pub opened : r.has_file ≡ r.got_start
  pub before : r.got_start ≡ false → (r.file ≡ old) × (r.received ≡ 0) × (r.crc ≡ crc32_start)
  pub after : r.got_start ≡ true → (bs : Bytes) × Holds r bs

-- The file has the announced size, modulo 2^32, and the announced checksum.
abbrev pub Complete : Rx → Type 0
Complete r =
    (bs : Bytes) × (r.file ≡ some bs) × (u32 (length bs) ≡ r.expected_size) × (r.end_crc ≡ crc32 bs)

-- If the transfer had begun, no file is left; if not, what was there before is there.
abbrev pub Discarded : Option Bytes → Rx → Type 0
Discarded old r = (r.got_start ≡ false → r.file ≡ old) × (r.got_start ≡ true → r.file ≡ none)

abbrev pub Kept : {W : Type 0} → Option Bytes → Round W → Type 0
Kept old (none, (r, w)) = IsReceiving old r
Kept old (some ok, (r, w)) = Complete r
Kept old (some rc, (r, w)) = Discarded old r

crc32_update_nil : crc32_start ≡ crc32_update crc32_start []
unfolding crc32_update
crc32_update_nil = refl

took_data-Holds : (r : Rx) (bs new : Bytes) → Holds r bs → Holds (took_data r new) (bs ++ new)
took_data-Holds r bs new h = record {
  stored = ground (arith, h.stored);
  counted = omega (arith, length-append bs new, h.counted);
  summed =
      ap (λ (c : ℕ). crc32_update c new) h.summed ∙ sym (crc32_update-append crc32_start bs new);
}

removed : (disk : Disk) (r : Rx) → Works disk → (unlink_file disk r).file ≡ none
removed disk r k = ground (arith, k.1)

closed-file : (disk : Disk) (r : Rx) → Works disk → (close_file disk r).file ≡ r.file
closed-file disk r k = rw (k.0) refl

module _ {W : Type 0} (write : Bytes → Opts → W → Result ℕ × W) (pause : ℕ → W → W)
    (old : Option Bytes) where
  finish-Kept :
      (disk : Disk) (r : Rx) (w : W) (bs : Bytes)
      → Works disk
      → Holds r bs
      → r.got_start ≡ true
      → r.received ≡ r.expected_size
      → Kept old (finish write pause disk r w)
  unfolding finish crc32
  finish-Kept disk r w bs k h g e =
      if_intro (Kept old) (not (r.end_crc == not32 r.crc))
        (λ _. ((λ no. ground (arith, no, g)), λ _. removed disk (close_file disk r) k))
        (λ same. (bs, closed-file disk r k ∙ h.stored, sym h.counted ∙ e, ground (arith, h.summed)))

  on_start-Kept :
      (channel : Option Bytes) (h : PktHdr) (extra : Bytes) (disk : Disk) (r : Rx) (w : W)
      → IsReceiving old r
      → Kept old (on_start channel h extra disk r w)
  unfolding on_start
  on_start-Kept channel h extra disk r w i =
      let rc = (parse_start_meta extra channel (is_v2 h)).0 in
      if_intro (Kept old) r.got_start (λ _. i)
        (λ fresh.
          if_intro (Kept old) (not (is_ok rc))
            (λ _. record { opened = i.opened; before = i.before; after = λ y. absurd (cc) })
            (λ _.
              if_intro (Kept old) (not disk.written)
                (λ _. ((λ n. (i.before n).0), λ yes'. ground (arith, fresh)))
                (λ _. record {
                  opened = refl;
                  before = λ n. absurd (cc);
                  after = λ _. (
                    [],
                    record {
                      stored = refl;
                      counted = (i.before fresh).1;
                      summed = (i.before fresh).2 ∙ crc32_update_nil;
                    },
                  );
                })))

  take_chunk-Kept :
      (bs : Bytes) (disk : Disk) (r : Rx) (w : W)
      → Works disk
      → r.got_start ≡ true
      → IsReceiving old r
      → Kept old (take_chunk write pause bs disk r w)
  unfolding take_chunk
  take_chunk-Kept bs disk r w k g i =
      let (sofar, holds) = i.after g in
      let h = took_data-Holds r sofar bs holds in
      let r1 = took_data r bs in
      if_intro (Kept old) (not disk.written)
        (λ _. ((λ n. ground (arith, n, g)), λ _. removed disk (close_file disk r) k))
        (λ _.
          if_intro (Kept old) (r.got_end && (r1.received == r.expected_size))
            (λ e. finish-Kept disk r1 w (sofar ++ bs) k h g (ground (arith, e)))
            (λ _. record {
              opened = i.opened;
              before = λ n. absurd (cc);
              after = λ _. (sofar ++ bs, h);
            }))

  on_data-Kept :
      (p : PktHdr) (extra : Bytes) (disk : Disk) (r : Rx) (w : W)
      → Works disk
      → r.got_start ≡ true
      → IsReceiving old r
      → Kept old (on_data write pause p extra disk r w)
  unfolding on_data
  on_data-Kept p extra disk r w k g i =
      let K = Kept {W = W} old in
      if_intro K (r.v2_mode && (not (is_v2 p) || (length extra == 0))) (λ _. i)
        (λ _.
          if_intro K (length (data_bytes r extra) == 0) (λ _. i)
            (λ _.
              if_intro K (ltb p.value r.expected_seq) (λ _. i)
                (λ _.
                  if_intro K (ltb r.expected_seq p.value) (λ _. i)
                    (λ _. take_chunk-Kept (data_bytes r extra) disk r w k g i))))

  on_end-Kept :
      (p : PktHdr) (extra : Bytes) (disk : Disk) (r : Rx) (w : W)
      → Works disk
      → r.got_start ≡ true
      → IsReceiving old r
      → Kept old (on_end write pause p extra disk r w)
  unfolding on_end
  on_end-Kept p extra disk r w k g i =
      let K = Kept {W = W} old in
      let r1 = record r { got_end = true; end_crc = p.value } in
      let (bs, h) = i.after g in
      let h1 : Holds r1 bs = record { stored = h.stored; counted = h.counted; summed = h.summed } in
      if_intro K r.got_end (λ _. i)
        (λ _.
          if_intro K
            (r.v2_mode
              && (not (is_v2 p) || (not (length extra == 4) || not (rd32 extra == r.transfer_id))))
            (λ _. ((λ n. ground (arith, n, g)), λ _. removed disk r1 k))
            (λ _.
              if_intro K (not (r.received == r.expected_size))
                (λ _. record { opened = i.opened; before = i.before; after = λ _. (bs, h1) })
                (λ e. finish-Kept disk r1 w bs k h1 g (ground (arith, e)))))

  on_packet-Kept :
      (channel : Option Bytes) (p : PktHdr) (extra : Bytes) (disk : Disk) (r : Rx) (w : W)
      → Works disk
      → IsReceiving old r
      → Kept old (on_packet write pause channel p extra disk r w)
  unfolding on_packet
  on_packet-Kept channel p extra disk r w k i =
      let K = Kept {W = W} old in
      if_intro K (p.type == 1) (λ _. on_start-Kept channel p extra disk r w i)
        (λ _.
          if_intro K (not r.got_start || not r.has_file) (λ _. i)
            (λ run.
              let g : r.got_start ≡ true = ground (arith, run) in
              if_intro K (p.type == 2) (λ _. on_data-Kept p extra disk r w k g i)
                (λ _. if_intro K (p.type == 3) (λ _. on_end-Kept p extra disk r w k g i) (λ _. i))))

  left-Discarded :
      (disk : Disk) (r : Rx)
      → Works disk
      → IsReceiving old r
      → Discarded old (if r.has_file then discard disk r else r)
  left-Discarded disk r k i =
      if_intro (Discarded old) r.has_file
        (λ y. ((λ no'. ground (arith, y, no', i.opened)), λ _. removed disk (close_file disk r) k))
        (λ n. ((λ n. (i.before n).0), λ y. ground (arith, y, n, i.opened)))

  on_idle-Kept :
      (disk : Disk) (r : Rx) (w : W)
      → Works disk
      → IsReceiving old r
      → Kept old (on_idle write pause disk r w)
  on_idle-Kept disk r w k i =
      if_intro (Kept old) (not r.got_start)
        (λ n. ((λ n. (i.before n).0), λ y. ground (arith, y, n)))
        (λ y. ((λ n. ground (arith, y, n)), λ _. removed disk (close_file disk r) k))

  on_error-Kept :
      (rc : Status) (disk : Disk) (r : Rx) (w : W)
      → rc ≢ ok
      → Works disk
      → IsReceiving old r
      → Kept old (on_error write pause rc disk r w)
  on_error-Kept ok disk r w e k i = absurd (e refl)
  on_error-Kept timeout disk r w e k i = on_idle-Kept disk r w k i
  on_error-Kept not_found disk r w e k i = on_idle-Kept disk r w k i
  on_error-Kept err disk r w e k i = left-Discarded disk r k i
  on_error-Kept invalid disk r w e k i = left-Discarded disk r k i
  on_error-Kept io disk r w e k i = left-Discarded disk r k i
  on_error-Kept nomem disk r w e k i = left-Discarded disk r k i
  on_error-Kept auth disk r w e k i = left-Discarded disk r k i

  on_parsed-Kept :
      (m : Result (PktHdr × Bytes)) (channel : Option Bytes) (disk : Disk) (r : Rx) (w : W)
      → Works disk
      → IsReceiving old r
      → Kept old (elim m [
        | fail rc ↦ (none, (r, w))
        | done (h, extra) ↦ on_packet write pause channel h extra disk r w
      ])
  on_parsed-Kept (fail rc) channel disk r w k i = i
  on_parsed-Kept (done (h, extra)) channel disk r w k i =
      on_packet-Kept channel h extra disk r w k i

  on_arrival-Kept :
      (channel : Option Bytes) (topic : Bytes) (a : Arrival) (disk : Disk) (r : Rx) (w : W)
      → IsRead (a, disk)
      → IsReceiving old r
      → Kept old (on_arrival write pause channel topic a disk r w)
  unfolding on_arrival
  on_arrival-Kept channel topic (failed rc) disk r w (e, k) i = on_error-Kept rc disk r w e k i
  on_arrival-Kept channel topic (arrived from payload) disk r w k i =
      if_intro (Kept old) (not (str_eq from topic)) (λ _. i)
        (λ _. on_parsed-Kept (parse_file_packet payload) channel disk r w k i)

  refused-Kept :
      (rc : Status) (r : Rx) (w : W)
      → is_ok rc ≡ false
      → Discarded old r
      → Kept old (some rc, (r, w))
  refused-Kept ok r w e d = absurd (cc)
  refused-Kept err r w e d = d
  refused-Kept invalid r w e d = d
  refused-Kept io r w e d = d
  refused-Kept nomem r w e d = d
  refused-Kept not_found r w e d = d
  refused-Kept timeout r w e d = d
  refused-Kept auth r w e d = d

  next-Kept :
      (x : Round W) (rest : Round W)
      → Kept old x
      → (IsReceiving old (x.1.0) → Kept old rest)
      → Kept old (elim x.0 [ none ↦ rest | some rc ↦ (some rc, (x.1.0, x.1.1)) ])
  next-Kept (none, (r, w)) rest k h = h k
  next-Kept (some rc, (r, w)) rest k h = k

  recv_loop-Kept :
      (channel : Option Bytes) (topic : Bytes) (arrivals : List (Arrival × Disk)) (r : Rx) (w : W)
      → All IsRead arrivals
      → IsReceiving old r
      → Kept old (recv_loop write pause channel topic arrivals r w)
  unfolding recv_loop
  recv_loop-Kept channel topic [] r w h i = i
  recv_loop-Kept channel topic ((a, disk) ∷ later) r w (h, hs) i =
      let x = on_arrival write pause channel topic a disk r w in
      next-Kept x (recv_loop write pause channel topic later (x.1.0) (x.1.1))
        (on_arrival-Kept channel topic a disk r w h i)
        (recv_loop-Kept channel topic later (x.1.0) (x.1.1) hs)

  -- recv_file_path, whatever arrives and whichever calls of `fopen` and `fwrite` succeed, as long as
  -- `fclose` and `unlink` do. When it returns BC_OK, the file at the path has the size, modulo 2^32,
  -- that was announced, and the checksum that the END packet carries. When it returns another
  -- status, no file is left at the path if a transfer had begun, and if none had, the path is as it
  -- was.
  pub recv_file_path-Kept :
      (subscribe : W → Status × W) (handle : Option ℕ) (channel : Option Bytes) (topic path : Bytes)
      (arrivals : List (Arrival × Disk)) (w : W)
      → All IsRead arrivals
      → Kept old (recv_file_path write pause subscribe handle channel topic path arrivals old w)
  unfolding recv_file_path
  recv_file_path-Kept subscribe none channel topic path arrivals w h = (λ _. refl, λ y. absurd (cc))
  recv_file_path-Kept subscribe (some fd) channel topic path arrivals w h =
      if_intro (Kept old) ((length topic == 0) || (length path == 0))
        (λ _. (λ _. refl, λ y. absurd (cc)))
        (λ _.
          if_intro (Kept old) (not (is_ok (subscribe w).0))
            (λ e.
              refused-Kept (subscribe w).0 (new_rx old) (subscribe w).1 (ground (arith, e))
                (λ _. refl, λ y. absurd (cc)))
            (λ _. recv_loop-Kept channel topic arrivals (new_rx old) (subscribe w).1 h (record {
              opened = refl;
              before = λ _. (refl, refl, refl);
              after = λ y. absurd (cc);
            })))
