-- ===== src/File/Transfer/Sent.antt =====
-- What the sender of api/bc_file.c sends, while the daemon takes each packet.
use boardcommd.Base.{
  ℕ, zero, suc, ◌+◌, ◌<◌, ◌≤◌, ◌≡◌, refl, sym, ap, ◌∙◌, subst, true, List, [], ◌∷◌, ◌++◌, Bytes,
  Option, some, ◌==◌, ltb, length, length-append, append_assoc, append-nil, get_or, get_or_middle,
  u32, u32_mod, le32, All, arith, if_intro,
}
use boardcommd.Types.{Status, Result, done, fail}
use boardcommd.Crc.{crc32, crc32_update, crc32_start, crc32_update-append, not32}
use boardcommd.Api.{Opts}
use boardcommd.File.{find_cache_slot, store_cache_slot}
use boardcommd.File.Send.{packet, packet_opts, retry_data, retry_control, send_file_packet}
use boardcommd.File.Receive.Whole.{concat}
use boardcommd.File.Receive.{Arrival}
use boardcommd.File.Transfer.{
  Progress, empty_cache, send_chunks, end_transfer, run_transfer, wait_done, end_wait_rounds,
}
use boardcommd.File.Transfer.Cache.{
  IsCache, empty-IsCache, store-IsCache, find_cache_slot-kept, kept,
}

abbrev pub nth : List Bytes → ℕ → Bytes
nth cs v = get_or cs v []

-- a packet with its options
abbrev pub sent_packet : ℕ → ℕ → Bytes → Opts × Bytes
sent_packet type value extra = (packet_opts type, packet type 1 value extra)

-- the DATA packets of the chunks, of which the first has the number `n`
abbrev pub data_packets : ℕ → List Bytes → List (Opts × Bytes)
data_packets n [] = []
data_packets n (c ∷ cs) = sent_packet 2 n c ∷ data_packets (suc n) cs

-- all packets of a transfer
abbrev pub transfer_packets : ℕ → ℕ → Bytes → List Bytes → List (Opts × Bytes)
transfer_packets id size meta cs =
    sent_packet 1 size meta
    ∷ (data_packets 0 cs ++ (sent_packet 3 (crc32 (concat cs)) (le32 id) ∷ []))

abbrev pub Fits : Bytes → Type 0
Fits c = length c ≤ 1392

-- The variables of the sender once the chunks `cs` have been sent.
pub record IsSent (cs : List Bytes) (p : Progress) : Type 0 where
  pub counted : p.seq ≡ length cs
  pub summed : p.crc ≡ crc32_update crc32_start (concat cs)

concat-append : (xs ys : List Bytes) → concat (xs ++ ys) ≡ concat xs ++ concat ys
concat-append [] ys = refl
concat-append (x ∷ xs) ys =
    ap (λ (bs : Bytes). x ++ bs) (concat-append xs ys)
    ∙ sym (append_assoc x (concat xs) (concat ys))

send_one-IsSent :
    (sent : List Bytes) (c : Bytes) (p : Progress)
    → suc (length sent) < u32_mod
    → IsSent sent p
    → IsSent (sent ++ (c ∷ [])) (record {
      crc = crc32_update p.crc c;
      seq = u32 (p.seq + 1);
      cache = store_cache_slot p.cache p.seq c;
    })
send_one-IsSent sent c p l s = record {
  counted = omega (arith, s.counted, length-append sent (c ∷ []));
  summed =
      ap (λ (k : ℕ). crc32_update k c) s.summed
      ∙ sym (crc32_update-append crc32_start (concat sent) c)
      ∙ ap (crc32_update crc32_start) (
          ap (λ (bs : Bytes). concat sent ++ bs) (sym (append-nil c))
          ∙ sym (concat-append sent (c ∷ [])));
}

nothing-IsSent : IsSent [] (record { crc = crc32_start; seq = 0; cache = empty_cache })
unfolding crc32_update
nothing-IsSent = record { counted = refl; summed = refl }

IsSent-crc32 : (cs : List Bytes) (p : Progress) → IsSent cs p → not32 p.crc ≡ crc32 (concat cs)
unfolding crc32
IsSent-crc32 cs p s = ap not32 s.summed

-- bc_write_ex takes each payload of at most 1400 bytes, the most that it allows; `log` is what this
-- does to the world.
module _ {W : Type 0} (write : Bytes → Opts → W → Result ℕ × W) (pause : ℕ → W → W)
    (log : Opts × Bytes → W → W)
    (takes : (p : Bytes) (opts : Opts) (w : W)
      → length p ≤ 1400
      → write p opts w ≡ (done (length p), log (opts, p) w)) where
  abbrev pub log_all : List (Opts × Bytes) → W → W
  log_all [] w = w
  log_all (p ∷ ps) w = log_all ps (log p w)

  retry_data_first :
      (n : ℕ) (opts : Opts) (p : Bytes) (w : W)
      → 0 < n
      → length p ≤ 1400
      → retry_data write pause n opts p w ≡ (done (length p), log (opts, p) w)
  unfolding retry_data
  retry_data_first zero opts p w h l = elim h [ ]
  retry_data_first (suc n) opts p w h l = ground (arith, takes p opts w l)

  retry_control_first :
      (n a : ℕ) (opts : Opts) (p : Bytes) (w : W)
      → 0 < n
      → length p ≤ 1400
      → retry_control write pause n a opts p w ≡ (done (length p), log (opts, p) w)
  unfolding retry_control
  retry_control_first zero a opts p w h l = elim h [ ]
  retry_control_first (suc n) a opts p w h l = ground (arith, takes p opts w l)

  pub send_file_packet_lem :
      (type value : ℕ) (extra : Bytes) (w : W)
      → length extra ≤ 1392
      → let p = sent_packet type value extra in
        send_file_packet write pause type 1 value extra w ≡ (done (length p.1), log p w)
  unfolding send_file_packet
  send_file_packet_lem type value extra w h =
      let p = sent_packet type value extra in
      let l : length p.1 ≤ 1400 = omega (arith, h) in
      let P = λ (r : Result ℕ × W). r ≡ (done (length p.1), log p w) in
      if_intro P (ltb 1392 (length extra)) (λ long. absurd (ground (arith, long)))
        (λ _.
          if_intro P (type == 2) (λ _. retry_data_first 200000 p.0 p.1 w (omega arith) l)
            (λ _. retry_control_first 64 0 p.0 p.1 w (omega arith) l))

  -- The variables behind the loop, which go with the packets that it has sent.
  abbrev AllSent : List Bytes → Progress → Type 0
  AllSent all p = IsSent all p × IsCache (nth all) (length all) p.cache

  abbrev next_progress : Progress → Bytes → Progress
  next_progress p c = record {
    crc = crc32_update p.crc c;
    seq = u32 (p.seq + 1);
    cache = store_cache_slot p.cache p.seq c;
  }

  send_chunks_on :
      (c : Bytes) (cs : List Bytes) (p : Progress) (w : W)
      → length c ≤ 1392
      → send_chunks write pause (c ∷ cs) p w
        ≡ send_chunks write pause cs (next_progress p c) (log (sent_packet 2 p.seq c) w)
  unfolding send_chunks
  send_chunks_on c cs p w h =
      ap
        (λ (x : Result ℕ × W).
          let y : Result Progress × W = elim x.0 [
            | done n ↦ send_chunks write pause cs (next_progress p c) (x.1)
            | fail rc ↦ (fail rc, x.1)
          ] in
          y)
        (send_file_packet_lem 2 p.seq c w h)

  next_cache :
      (all sent cs : List Bytes) (c : Bytes) (p : Progress)
      → all ≡ sent ++ (c ∷ cs)
      → p.seq ≡ length sent
      → IsCache (nth all) (length sent) p.cache
      → IsCache (nth all) (length (sent ++ (c ∷ []))) (next_progress p c).cache
  next_cache all sent cs c p e n k =
      let here : nth all (length sent) ≡ c =
        ap (λ (l : List Bytes). nth l (length sent)) e ∙ get_or_middle sent c cs [] in
      let one : suc (length sent) ≡ length (sent ++ (c ∷ [])) =
        omega (arith, length-append sent (c ∷ [])) in
      subst (λ (q : ℕ). IsCache (nth all) q (next_progress p c).cache) one
        (subst (λ (q : ℕ). IsCache (nth all) (suc (length sent)) (store_cache_slot p.cache q c))
          (sym n)
          (subst
            (λ (q : Bytes).
              IsCache (nth all) (suc (length sent)) (store_cache_slot p.cache (length sent) q))
            here (store-IsCache (nth all) (length sent) p.cache k)))

  send_chunks_lem :
      (all sent cs : List Bytes) (p : Progress) (w : W)
      → all ≡ sent ++ cs
      → length sent + length cs < u32_mod
      → All Fits cs
      → IsSent sent p
      → IsCache (nth all) (length sent) p.cache
      → (p' : Progress) × (send_chunks write pause cs p w
          ≡ (done p', log_all (data_packets p.seq cs) w))
        × AllSent all p'
  unfolding send_chunks
  send_chunks_lem all sent [] p w e l h s k =
      let same = sym (append-nil sent) ∙ sym e in
      (
        p,
        refl,
        subst (λ (q : List Bytes). IsSent q p × IsCache (nth all) (length q) p.cache) same (s, k),
      )
  send_chunks_lem all sent (c ∷ cs) p w e l (h, hs) s k =
      let e' = e ∙ sym (append_assoc sent (c ∷ []) cs) in
      let (p', run, result) =
        send_chunks_lem all (sent ++ (c ∷ [])) cs (next_progress p c)
          (log (sent_packet 2 p.seq c) w) e' (omega (arith, length-append sent (c ∷ []))) hs
          (send_one-IsSent sent c p (omega arith) s) (next_cache all sent cs c p e s.counted k) in
      let number : u32 (p.seq + 1) ≡ suc p.seq = omega (arith, s.counted) in
      (
        p',
        send_chunks_on c cs p w h
            ∙ run
            ∙ ap (λ (q : ℕ). (done p', log_all (data_packets q cs) (log (sent_packet 2 p.seq c) w)))
                number,
        result,
      )

  log_all-append :
      (ps : List (Opts × Bytes)) (p : Opts × Bytes) (w : W)
      → log_all (ps ++ (p ∷ [])) w ≡ log p (log_all ps w)
  log_all-append [] p w = refl
  log_all-append (q ∷ ps) p w = log_all-append ps p (log q w)

  module _ (topic : Bytes) (id size : ℕ) (rounds : List (List Arrival)) where
    end_transfer_on :
        (p : Progress) (w : W)
        → end_transfer write pause topic id size true rounds (done p, w)
          ≡ wait_done write pause topic id p
              (end_wait_rounds size)
              rounds
              (log (sent_packet 3 (not32 p.crc) (le32 id)) w)
    unfolding end_transfer
    end_transfer_on p w =
        ap
          (λ (x : Result ℕ × W).
            let y : Option Status × W = elim x.0 [
              | done n ↦ wait_done write pause topic id p (end_wait_rounds size) rounds (x.1)
              | fail rc ↦ (some rc, x.1)
            ] in
            y)
          (send_file_packet_lem 3 (not32 p.crc) (le32 id) w (omega arith))

    run_transfer_on :
        (meta : Bytes) (chunks : List Bytes) (w : W)
        → length meta ≤ 1392
        → run_transfer write pause topic id size meta chunks true rounds w
          ≡ end_transfer write pause topic id size true rounds (
              send_chunks write pause chunks
                (record { crc = crc32_start; seq = 0; cache = empty_cache })
                (log (sent_packet 1 size meta) w))
    unfolding run_transfer
    run_transfer_on meta chunks w h =
        let p : Progress = record { crc = crc32_start; seq = 0; cache = empty_cache } in
        ap
          (λ (x : Result ℕ × W).
            let y : Option Status × W = elim x.0 [
              | done n ↦
                  end_transfer write pause topic id size true rounds
                    (send_chunks write pause chunks p (x.1))
              | fail rc ↦ (some rc, x.1)
            ] in
            y)
          (send_file_packet_lem 1 size meta w h)

  -- send_file_path behind its checks, as long as bc_write_ex takes each packet. The START packet goes out,
  -- then each chunk that was read in a DATA packet with its number, in order, then the END packet
  -- with the checksum of the whole file; and what remains is the loop that waits for DONE, with a
  -- cache that gives back exactly the last 256 chunks.
  pub run_transfer_lem :
      (topic : Bytes) (id size : ℕ) (meta : Bytes) (chunks : List Bytes)
      (rounds : List (List Arrival)) (w : W)
      → length meta ≤ 1392
      → length chunks < u32_mod
      → All Fits chunks
      → (p : Progress) × (run_transfer write pause topic id size meta chunks true rounds w
          ≡ wait_done write pause topic id p
              (end_wait_rounds size)
              rounds
              (log_all (transfer_packets id size meta chunks) w))
        × (p.seq ≡ length chunks)
        × ((v : ℕ) → find_cache_slot p.cache v ≡ kept (length chunks) (nth chunks) v)
  run_transfer_lem topic id size meta chunks rounds w h l hs =
      let p : Progress = record { crc = crc32_start; seq = 0; cache = empty_cache } in
      let w1 = log (sent_packet 1 size meta) w in
      let (p', run, (sent, cache)) =
        send_chunks_lem chunks [] chunks p w1 refl (omega arith) hs nothing-IsSent
          (empty-IsCache (nth chunks)) in
      let crc : not32 p'.crc ≡ crc32 (concat chunks) = IsSent-crc32 chunks p' sent in
      (
        p',
        run_transfer_on topic id size rounds meta chunks w h
            ∙ ap (end_transfer write pause topic id size true rounds) run
            ∙ end_transfer_on topic id size rounds p' (log_all (data_packets 0 chunks) w1)
            ∙ ap (wait_done write pause topic id p' (end_wait_rounds size) rounds) (
                ap (λ (q : ℕ). log (sent_packet 3 q (le32 id)) (log_all (data_packets 0 chunks) w1))
                  crc
                ∙ sym (
                    log_all-append (data_packets 0 chunks)
                      (sent_packet 3 (crc32 (concat chunks)) (le32 id)) w1)),
        sent.counted,
        λ v. find_cache_slot-kept (nth chunks) (length chunks) p'.cache v cache,
      )
