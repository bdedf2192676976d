-- ===== src/File/Receive/Whole.antt =====
-- A file that arrives in the packets of api/bc_file.c, among other packets.
use boardcommd.Base.{
  ℕ, suc, ◌+◌, ◌<◌, ◌≤◌, ◌≡◌, ◌≢◌, refl, sym, ap, ◌∙◌, subst, ◌⊎◌, inl, inr, true, false, not, ◌&&◌,
  ◌||◌, List, [], ◌∷◌, ◌++◌, Bytes, Option, none, some, ◌==◌, ltb, length, length-append,
  append_assoc, append-nil, u32_mod, le32, rd32, All, arith, str_eq_iff, if_intro,
}
use boardcommd.Types.{Status, ok, Result, done, fail}
use boardcommd.Crc.{crc32, crc32-lt, crc32_update, crc32_start, crc32_update-append}
use boardcommd.Api.{Opts}
use boardcommd.File.{PktHdr, file_pkt_magic, parse_file_packet}
use boardcommd.File.Send.{packet}
use boardcommd.File.Receive.{
  Rx, Disk, Round, Arrival, arrived, failed, data_bytes, took_data, is_v2, on_start, on_data,
  on_end, finish, take_chunk, on_packet, on_arrival, recv_loop,
}
use boardcommd.File.Receive.Steps.{
  loop_on, loop_returns, arrived_packet, chunk_packet, chunk_goes_on,
}

abbrev pub concat : List Bytes → Bytes
concat [] = []
concat (c ∷ cs) = c ++ concat cs

-- A packet that is no part of the transfer, or is repeated: it has another topic, or is no packet,
-- or is a START packet, a DATA packet with another number than `n`, or of no known type.
abbrev pub IsNoise : Bytes → ℕ → Arrival × Disk → Type 0
IsNoise topic n (failed rc, disk) = ⊥
IsNoise topic n (arrived from payload, disk) =
    (from ≢ topic)
    ⊎ (((rc : Status) × (parse_file_packet payload ≡ fail rc))
        ⊎ ((p : PktHdr) × (extra : Bytes) × (parse_file_packet payload ≡ done (p, extra))
            × ((p.type ≡ 1) ⊎ (((p.type ≡ 2) × (p.value ≢ n)) ⊎ (3 < p.type)))))

-- What arrives for the chunks `cs` of the transfer `id`, of which the first has the number `n`:
-- their packets and the END packet, in order, with any number of others between them and behind.
pub data Stream (topic : Bytes) (id crc : ℕ) : ℕ → List Bytes → List (Arrival × Disk) → Type 0 where
  noise :
      (n : ℕ) (cs : List Bytes) (a : Arrival × Disk) (later : List (Arrival × Disk))
      → IsNoise topic n a
      → Stream topic id crc n cs later
      → Stream topic id crc n cs (a ∷ later)
  chunk :
      (n : ℕ) (c : Bytes) (cs : List Bytes) (disk : Disk) (later : List (Arrival × Disk))
      → disk.written ≡ true
      → Stream topic id crc (suc n) cs later
      → Stream topic id crc n (c ∷ cs) ((arrived topic (packet 2 1 n c), disk) ∷ later)
  ends :
      (n : ℕ) (disk : Disk) (later : List (Arrival × Disk))
      → disk.torn ≡ none
      → Stream topic id crc n [] ((arrived topic (packet 3 1 crc (le32 id)), disk) ∷ later)

-- A chunk that fits a packet, and that the receiver does not take for one with a transfer number.
abbrev pub IsChunk : ℕ → Bytes → Type 0
IsChunk id c = (0 < length c) × (length c ≤ 1392) × (4 < length c → rd32 c ≢ id)

pub parse_file_packet-packet :
    (type value : ℕ) (extra : Bytes)
    → type < 256
    → value < u32_mod
    → parse_file_packet (packet type 1 value extra)
      ≡ done (record { magic = file_pkt_magic; type = type; reserved = 1; value = value }, extra)
unfolding parse_file_packet
parse_file_packet-packet type value extra t v = ground arith

-- the receiver has the bytes `got` and waits for the chunk `n`.
pub record Follows (id size n : ℕ) (got : Bytes) (r : Rx) : Type 0 where
  pub started : r.got_start ≡ true
  pub opened : r.has_file ≡ true
  pub numbered : r.v2_mode ≡ true
  pub unended : r.got_end ≡ false
  pub same_id : r.transfer_id ≡ id
  pub same_size : r.expected_size ≡ size
  pub next : r.expected_seq ≡ n
  pub stored : r.file ≡ some got
  pub counted : r.received ≡ length got
  pub summed : r.crc ≡ crc32_update crc32_start got

took_data-Follows :
    (id size n : ℕ) (got c : Bytes) (r : Rx)
    → suc n < u32_mod
    → length got + length c < u32_mod
    → Follows id size n got r
    → Follows id size (suc n) (got ++ c) (took_data r c)
took_data-Follows id size n got c r a b f = record {
  started = f.started;
  opened = f.opened;
  numbered = f.numbered;
  unended = f.unended;
  same_id = f.same_id;
  same_size = f.same_size;
  next = omega (arith, f.next);
  stored = ground (arith, f.stored);
  counted = omega (arith, length-append got c, f.counted);
  summed = ap (λ (k : ℕ). crc32_update k c) f.summed ∙ sym (crc32_update-append crc32_start got c);
}

module _ {W : Type 0} (write : Bytes → Opts → W → Result ℕ × W) (pause : ℕ → W → W)
    (channel : Option Bytes) (topic : Bytes) where
  -- The round goes on and leaves the state as it is.
  abbrev Ignored : Rx → Round W → Type 0
  Ignored r x = (x.0 ≡ none) × (x.1.0 ≡ r)

  other_chunk :
      (p : PktHdr) (extra : Bytes) (disk : Disk) (r : Rx) (w : W)
      → p.value ≢ r.expected_seq
      → Ignored r (on_data write pause p extra disk r w)
  unfolding on_data
  other_chunk p extra disk r w n =
      let I = Ignored r in
      if_intro I (r.v2_mode && (not (is_v2 p) || (length extra == 0))) (λ _. (refl, refl))
        (λ _.
          if_intro I (length (data_bytes r extra) == 0) (λ _. (refl, refl))
            (λ _.
              if_intro I (ltb p.value r.expected_seq) (λ _. (refl, refl))
                (λ a.
                  if_intro I (ltb r.expected_seq p.value) (λ _. (refl, refl))
                    (λ b. absurd (n (ground (arith, a, b)))))))

  on_packet-Ignored :
      (p : PktHdr) (extra : Bytes) (disk : Disk) (r : Rx) (w : W)
      → r.got_start ≡ true
      → (p.type ≡ 1) ⊎ (((p.type ≡ 2) × (p.value ≢ r.expected_seq)) ⊎ (3 < p.type))
      → Ignored r (on_packet write pause channel p extra disk r w)
  unfolding on_packet on_start
  on_packet-Ignored p extra disk r w g (inl t) = ground (arith, g, t)
  on_packet-Ignored p extra disk r w g (inr (inl (t, n))) =
      let (a, b) = other_chunk p extra disk r w n in ground (arith, g, t, a, b)
  on_packet-Ignored p extra disk r w g (inr (inr t)) = ground (arith, g, t)

  on_arrival-Ignored :
      (a : Arrival) (disk : Disk) (r : Rx) (w : W)
      → r.got_start ≡ true
      → IsNoise topic r.expected_seq (a, disk)
      → Ignored r (on_arrival write pause channel topic a disk r w)
  unfolding on_arrival
  on_arrival-Ignored (failed rc) disk r w g h = absurd h
  on_arrival-Ignored (arrived from payload) disk r w g (inl h) =
      ground (arith, h, str_eq_iff from topic)
  on_arrival-Ignored (arrived from payload) disk r w g (inr (inl (rc, e))) = ground (arith, e)
  on_arrival-Ignored (arrived from payload) disk r w g (inr (inr (p, extra, e, h))) =
      let (a, b) = on_packet-Ignored p extra disk r w g h in ground (arith, e, a, b)

  round_eta : (x : Round W) (r : Rx) → Ignored r x → x ≡ (none, (r, x.1.1))
  round_eta (rc, (r', w')) r (e, f) = cc

  end_packet :
      (p : PktHdr) (extra : Bytes) (disk : Disk) (r : Rx) (w : W) {id size n : ℕ} {got : Bytes}
      → disk.torn ≡ none
      → Follows id size n got r
      → p.type ≡ 3
      → is_v2 p ≡ true
      → length extra ≡ 4
      → rd32 extra ≡ id
      → length got ≡ size
      → p.value ≡ crc32 got
      → let x = on_packet write pause channel p extra disk r w in
        (x.0 ≡ some ok) × (x.1.0.file ≡ some got)
  unfolding on_packet on_end finish crc32
  end_packet p extra disk r w d f t v four e l c = ground (arith, d, f, t, v, four, e, l, c)

  chunk_round :
      (c : Bytes) (disk : Disk) (r : Rx) (w : W) {id size n : ℕ} {got : Bytes}
      → disk.written ≡ true
      → 0 < length c
      → data_bytes r c ≡ c
      → n < u32_mod
      → Follows id size n got r
      → on_arrival write pause channel topic (arrived topic (packet 2 1 n c)) disk r w
        ≡ (none, (took_data r c, w))
  chunk_round c disk r w {n = n} d filled same m f =
      let p : PktHdr = record { magic = file_pkt_magic; type = 2; reserved = 1; value = n } in
      arrived_packet write pause channel topic (packet 2 1 n c) c p disk r w
        (parse_file_packet-packet 2 n c (omega arith) m)
      ∙ chunk_packet write pause channel topic p c disk r w d f.started f.opened refl refl
          (sym f.next) (subst (λ (bs : Bytes). 0 < length bs) (sym same) filled)
      ∙ ap (λ (bs : Bytes). take_chunk write pause bs disk r w) same
      ∙ chunk_goes_on write pause channel topic c disk r w d (λ y. absurd (cc (f.unended)))

  -- The rest of the stream gives the rest of the file.
  pub recv_loop-Stream :
      (id crc n : ℕ) (cs : List Bytes) (arrivals : List (Arrival × Disk)) (got whole : Bytes)
      (r : Rx) (w : W)
      → id < u32_mod
      → length whole < u32_mod
      → n + length cs < u32_mod
      → whole ≡ got ++ concat cs
      → crc ≡ crc32 whole
      → All (IsChunk id) cs
      → Follows id (length whole) n got r
      → Stream topic id crc n cs arrivals
      → let x = recv_loop write pause channel topic arrivals r w in
        (x.0 ≡ some ok) × (x.1.0.file ≡ some whole)
  recv_loop-Stream id crc n cs arrivals got whole r w i z m e k hs f
        (noise _ _ (a, disk) later h s) =
      let x = on_arrival write pause channel topic a disk r w in
      let h' = subst (λ (q : ℕ). IsNoise topic q (a, disk)) (sym f.next) h in
      let on =
        loop_on write pause channel topic a disk later r r w (x.1.1)
          (round_eta x r (on_arrival-Ignored a disk r w f.started h')) in
      rw on (recv_loop-Stream id crc n cs later got whole r (x.1.1) i z m e k hs f s)
  recv_loop-Stream id crc n _ arrivals got whole r w i z m e k hs f (chunk _ c cs disk later d s) =
      let (filled, fits, plain) = hs.0 in
      let same : data_bytes r c ≡ c = ground (arith, f, plain) in
      let r1 = took_data r c in
      let size : length whole ≡ length got + (length c + length (concat cs)) =
        ap length e
        ∙ length-append got (c ++ concat cs)
        ∙ ap (λ (q : ℕ). length got + q) (length-append c (concat cs)) in
      let f1 =
        took_data-Follows id (length whole) n got c r (omega arith) (omega (arith, size)) f in
      rw
        (loop_on write pause channel topic (arrived topic (packet 2 1 n c)) disk later r r1 w w
          (chunk_round c disk r w d filled same (omega arith) f))
        (recv_loop-Stream id crc (suc n) cs later (got ++ c) whole r1 w i z (omega arith)
          (e ∙ sym (append_assoc got c (concat cs))) k (hs.1) f1 s)
  recv_loop-Stream id crc n _ arrivals got whole r w i z m e k hs f (ends _ disk later d) =
      let all : whole ≡ got = e ∙ append-nil got in
      let p : PktHdr = record { magic = file_pkt_magic; type = 3; reserved = 1; value = crc } in
      let a = arrived topic (packet 3 1 crc (le32 id)) in
      let small : crc < u32_mod = omega (arith, k, crc32-lt whole) in
      let parsed =
        arrived_packet write pause channel topic (packet 3 1 crc (le32 id)) (le32 id) p disk r w
          (parse_file_packet-packet 3 crc (le32 id) (omega arith) small) in
      let (status, stored) =
        end_packet p (le32 id) disk r w d f refl refl refl (omega arith) (ap length (sym all))
          (k ∙ ap crc32 all) in
      let first = ap (λ (y : Round W). y.0) parsed ∙ status in
      rw (loop_returns write pause channel topic a disk later r w first)
        (first, ap (λ (y : Round W). y.1.0.file) parsed ∙ stored ∙ ap some (sym all))
