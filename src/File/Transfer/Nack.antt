-- ===== src/File/Transfer/Nack.antt =====
-- What the sender of api/bc_file.c makes of a NACK.
use boardcommd.Base.{
  ℕ, zero, suc, ◌+◌, ◌<◌, ◌≤◌, ◌≡◌, ap, true, List, [], ◌∷◌, Bytes, Option, none, some, ltb, leb,
  length, u32_mod, le32, All, arith, if◌then◌else◌, rd32, ◌&&◌, Bool-cases, inl, inr,
}
use boardcommd.Types.{io, Result, done}
use boardcommd.Api.{Opts}
use boardcommd.File.{CacheSlot, parse_file_v2_control, find_cache_slot}
use boardcommd.File.Control.{control_hdr}
use boardcommd.File.Transfer.{Progress, Seen, after_resend, resend, on_control}
use boardcommd.File.Transfer.Cache.{kept}
use boardcommd.File.Transfer.Sent.{nth, Fits, sent_packet, send_file_packet_lem}

nth-Fits : (cs : List Bytes) (v : ℕ) → All Fits cs → Fits (nth cs v)
nth-Fits [] v h = omega arith
nth-Fits (c ∷ cs) zero h = h.0
nth-Fits (c ∷ cs) (suc v) h = nth-Fits cs v h.1

-- bc_write_ex takes each payload of at most 1400 bytes, the most that it allows; `log` is what this
-- does to the world.
module _ {W : Type 0} (write : Bytes → Opts → W → Result ℕ × W) (pause : ℕ → W → W)
    (log : Opts × Bytes → W → W)
    (takes : (p : Bytes) (opts : Opts) (w : W)
      → length p ≤ 1400
      → write p opts w ≡ (done (length p), log (opts, p) w)) where
  resend-kept :
      (cs : List Bytes) (v : ℕ) (s : Seen) (w : W)
      → All Fits cs
      → resend write pause (kept (length cs) (nth cs) v) s w ≡ (
          if ltb v (length cs) && leb (length cs) (v + 256)
          then (none, (record s { resent_any = true }, log (sent_packet 2 v (nth cs v)) w))
          else (some io, (s, w)))
  unfolding resend
  resend-kept cs v s w hs = elim (Bool-cases (ltb v (length cs) && leb (length cs) (v + 256))) [
    | inl inside ↦ rw inside (
        ap (λ (x : Result ℕ × W). after_resend write pause x s)
          (send_file_packet_lem write pause log takes 2 v (nth cs v) w (nth-Fits cs v hs)))
    | inr outside ↦ rw outside
  ]

  -- A NACK with the number of the transfer, for a sender that has sent the chunks `cs`: a chunk that
  -- was sent and is one of the last 256 goes out again, in the very packet that carried it before;
  -- for an older one sender_handle_controls gives up with BC_ERR_IO; and a NACK for a chunk that
  -- was not sent yet is passed over.
  pub on_control-nack :
      (cs : List Bytes) (id v : ℕ) (p : Progress) (s : Seen) (w : W)
      → id < u32_mod
      → All Fits cs
      → p.seq ≡ length cs
      → ((u : ℕ) → find_cache_slot p.cache u ≡ kept (length cs) (nth cs) u)
      → on_control write pause id p (control_hdr 4 v) (le32 id) s w ≡ (
          if leb (length cs) v
          then (none, (s, w))
          else if leb (length cs) (v + 256)
          then (none, (record s { resent_any = true }, log (sent_packet 2 v (nth cs v)) w))
          else (some io, (s, w)))
  unfolding on_control parse_file_v2_control
  on_control-nack cs id v p s w i hs n found =
      let same : rd32 (le32 id) ≡ id = omega arith in
      let again = resend-kept cs v s w hs in
      let looked = ap (λ (o : Option CacheSlot). resend write pause o s w) (found v) in
      ground (arith, n, same, looked, again)
