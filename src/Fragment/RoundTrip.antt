-- ===== src/Fragment/RoundTrip.antt =====
-- `bc_fragment_publish` against `bc_reasm_feed`: a long message comes back, whichever of its two
-- fragments comes first.
use boardcommd.Base.{
  ℕ, zero, suc, ◌+◌, ◌*◌, ◌<◌, ◌≤◌, ◌≡◌, refl, ap, ◌∙◌, subst, true, false, List, [], ◌∷◌, ◌++◌,
  Bytes, length, take, length-take, drop, take_all, get_or, get_or-set_self, set, set-set, arith,
  Option, none, some, if◌then◌else◌, ltb, ==_self, lt→leb,
}
use boardcommd.Types.{Status, Message, IsMessage, ok, not_found}
use boardcommd.Fragment.{
  Slot, Reasm, Fed, empty_slot, blit, open_slot, store, assembled, feed_slot, feed, piece, holds,
  publish, pieces_of,
}
use boardcommd.Fragment.Slots.{NoSlot, find_slot_free, find_slot_held, NoSlot-set}
use boardcommd.Fragment.Invariant.{IsReasm, All-get_or, empty-IsSlot, take-IsText, feed-IsReasm}
use boardcommd.Fragment.Chunks.{
  IsLong, chunk, half, full, length-chunk_zero, length-chunk_one, chunk-append, drop-piece,
  feed_found, feed_slot_stored, open_slot_free, open_slot_busy, half_state, length-chunk,
  store_last, store_first, feed_slot_first,
}

-- the mark that the first fragment leaves clear
other_bit : (i j : ℕ) → i + j ≡ 1 → ◌≡◌ {A = ℕ} (get_or (set (0 ∷ 0 ∷ []) i 1) j 0) 0
other_bit zero zero h = absurd (omega arith)
other_bit zero (suc zero) h = refl
other_bit zero (suc (suc j)) h = absurd (omega arith)
other_bit (suc zero) zero h = refl
other_bit (suc zero) (suc j) h = absurd (omega arith)
other_bit (suc (suc i)) j h = absurd (omega arith)

module _ (s : Slot) (m : Message) (v : IsLong m) (a : s.active ≡ false) where
  half_names :
      (i : ℕ)
      → let t = half s m i in
        (t.seq ≡ m.seq)
        × (t.src_node ≡ m.src_node)
        × (t.dst_node ≡ m.dst_node)
        × (t.qos ≡ m.qos)
        × (t.topic ≡ take 63 (take 63 m.topic))
        × (t.channel ≡ take 31 (take 31 m.channel))
  unfolding store open_slot piece
  half_names i = ground arith

  full_state : (i j : ℕ) → i + j ≡ 1 → let t = full s m i j in (t.received ≡ 2) × (t.total ≡ 2)
  full_state i j h =
      let (on, two, one, bits) = half_state s m i a in unfold store in (omega (arith, one), two)

  feed_slot_second :
      (i j : ℕ)
      → i + j ≡ 1
      → feed_slot (half s m i) (piece m 2 j) j 2
        ≡ (ok, record (full s m i j) { active = false }, some (assembled (full s m i j)))
  feed_slot_second i j h =
      let (on, two, one, bits) = half_state s m i a in
      let same = open_slot_busy (half s m i) m j on in
      let (all, two') = full_state i j h in
      feed_slot_stored (half s m i) (piece m 2 j) j 2 (ground (arith, on, two))
        (rw (drop-piece m j) (length-chunk m j v (omega arith))) (rw (same, bits) (other_bit i j h))
      ∙ rw (drop-piece m j, same, all, two')

  half_payload :
      (i : ℕ)
      → i < 2
      → let t = half s m i in
        (t.payload ≡ blit s.payload (i * 1392) (chunk m i))
        × (t.payload_len ≡ i * 1392 + length (chunk m i))
  half_payload i h =
      let (_, _, _, _, same, none_yet) = open_slot_free s m i a in
      unfold store in rw (same, none_yet) (refl, longer _)
    where
      longer : (n : ℕ) → (if ltb 0 n then n else 0) ≡ n
      longer n = ground arith

  one_pos : 0 < length (chunk m 1)
  one_pos = rw (length-chunk_one m v) (omega (arith, v.long))

  whole : chunk m 0 ++ chunk m 1 ≡ m.payload
  whole = chunk-append m v

  full_payload :
      (i j : ℕ)
      → i + j ≡ 1
      → length s.payload ≡ 1400
      → let t = full s m i j in
        (t.payload_len ≡ length m.payload) × (take t.payload_len t.payload ≡ m.payload)
  full_payload zero (suc zero) h b =
      let (bytes, len) = half_payload 0 (omega arith) in
      let zero_len = length-chunk_zero m v in
      let joined =
        store_last (half s m 0) s.payload (chunk m 0) (chunk m 1) zero_len one_pos bytes len in
      (joined.0 ∙ ap length whole, joined.1 ∙ whole)
  full_payload (suc zero) zero h b =
      let (bytes, len) = half_payload 1 (omega arith) in
      let joined =
        store_first (half s m 1) s.payload (chunk m 0) (chunk m 1) (length-chunk_zero m v) b bytes
          len one_pos in
      (joined.0 ∙ ap length whole, joined.1 ∙ whole)
  full_payload _ _ h b = absurd (omega arith)

take_thrice : (n : ℕ) (t : Bytes) → length t ≤ n → take n (take n (take n t)) ≡ t
take_thrice n t h =
    let once = take_all n t h in ap (λ u. take n (take n u)) once ∙ ap (take n) once ∙ once

full-message :
    (s : Slot) (m : Message) (i j : ℕ)
    → IsLong m
    → i + j ≡ 1
    → s.active ≡ false
    → length s.payload ≡ 1400
    → assembled (full s m i j) ≡ record m { flags = 0 }
full-message s m i j v h a b =
    let (seq, src, dst, qos, topic, channel) = half_names s m v a i in
    let (_, bytes) = full_payload s m v a i j h b in
    let topic_back =
      ap (take 63) topic ∙ take_thrice 63 m.topic (omega (arith, v.is.topic_text.fits)) in
    let channel_back =
      ap (take 31) channel ∙ take_thrice 31 m.channel (omega (arith, v.is.channel_text.fits)) in
    unfold store in
    (λ k. record {
      src_node = src k;
      dst_node = dst k;
      flags = 0;
      qos = qos k;
      seq = seq k;
      channel = channel_back k;
      topic = topic_back k;
      payload = bytes k;
    })

half-holds :
    (s : Slot) (m : Message) (i : ℕ)
    → IsLong m
    → s.active ≡ false
    → holds (half s m i) m.seq m.src_node ≡ true
half-holds s m i v a =
    let (on, _, _, _) = half_state s m i a in
    let (seq, src, _, _, _, _) = half_names s m v a i in
    rw (on, seq, src) (rw (==_self m.seq, ==_self m.src_node))

-- Some slot of the table is free.
abbrev pub HasFree : Reasm → Type 0
HasFree r = (k : ℕ) × (k < 16) × ((get_or r k empty_slot).active ≡ false)

-- A message of more than 1392 bytes is put together again from its two fragments, in either
-- order, at a table that holds no part of it and has a free slot `f`: the first fragment only says
-- that more is to come, the second returns the message, with no flags, and the slot that they took is
-- free again.
pub feed-piece :
    (r : Reasm) (m : Message) (i j f : ℕ)
    → IsReasm r
    → IsMessage m
    → 1392 < length m.payload
    → i + j ≡ 1
    → NoSlot r m.seq m.src_node
    → f < 16
    → (get_or r f empty_slot).active ≡ false
    → (r1 : Reasm) × (r2 : Reasm) × (feed r (piece m 2 i) ≡ (not_found, r1, none))
      × (feed r1 (piece m 2 j) ≡ (ok, r2, some (record m { flags = 0 })))
      × NoSlot r2 m.seq m.src_node
      × HasFree r2
feed-piece r m i j f w is long h absent f_in free =
    let v : IsLong m = record { is = is; long = long } in
    let (k, found, k_in, a) =
      find_slot_free r f m.seq m.src_node absent (omega (arith, w.slots)) free in
    let s = get_or r k empty_slot in
    let t = half s m i in
    let u : Slot = record (full s m i j) { active = false } in
    let room = (All-get_or r k w.all_slots empty-IsSlot).buffer in
    let first =
      feed_found r m i k (omega arith) found
      ∙ ap (λ (x : Fed). (x.0, set r k x.1, x.2)) (feed_slot_first s m i v (omega arith) a) in
    let held = find_slot_held r k m.seq m.src_node t absent k_in (half-holds s m i v a) in
    (
      set r k t,
      set r k u,
      first,
      feed_found (set r k t) m j k (omega arith) held
          ∙ rw
              (
                get_or-set_self r k t empty_slot k_in,
                feed_slot_second s m v a i j h,
                set-set r k t u,
                full-message s m i j v h a room,
              )
              refl,
      NoSlot-set r k m.seq m.src_node u absent refl,
      (
        k,
        omega (arith, k_in, w.slots),
        ap (λ (x : Slot). x.active) (get_or-set_self r k u empty_slot k_in),
      ),
    )

piece-IsMessage : (m : Message) (i : ℕ) → IsLong m → IsMessage (piece m 2 i)
unfolding piece
piece-IsMessage m i v = record {
  src_node_fits = v.is.src_node_fits;
  dst_node_fits = v.is.dst_node_fits;
  flags_fit = omega arith;
  qos_fits = v.is.qos_fits;
  seq_fits = v.is.seq_fits;
  channel_text = take-IsText 32 31 m.channel (omega arith) v.is.channel_text;
  topic_text = take-IsText 64 63 m.topic (omega arith) v.is.topic_text;
  payload_fits = omega (arith, length-take 1392 (drop (i * 1392) m.payload));
}

-- An `emit` that hands each fragment to `bc_reasm_feed` and keeps what comes out.
unfoldable pub collect :
    Message → Reasm × List (Option Message) → Status × (Reasm × List (Option Message))
collect frag (r, outs) = let (rc, r', out) = feed r frag in (ok, (r', out ∷ outs))

pieces_of_long : (m : Message) → IsLong m → pieces_of m ≡ 2
pieces_of_long m v = omega (arith, v.is.payload_fits, v.long)

publish_long :
    (m : Message) (r r1 r2 : Reasm) (a b : Option Message)
    → IsLong m
    → (feed r (piece m 2 0)).1 ≡ r1
    → (feed r (piece m 2 0)).2 ≡ a
    → (feed r1 (piece m 2 1)).1 ≡ r2
    → (feed r1 (piece m 2 1)).2 ≡ b
    → publish collect m (r, []) ≡ (ok, (r2, b ∷ a ∷ []))
unfolding publish collect
publish_long m r r1 r2 a b v e1 e2 e3 e4 =
    rw (pieces_of_long m v, lt→leb _ _ v.long, e1, e2, e3, e4)

-- What `bc_fragment_publish` sends for a message of more than 1392 bytes, fed to a well-formed table
-- with a free slot and without a part of the message, as it is sent, is two fragments. The second
-- gives the message back, but for its flags, which are lost: they come out as 0. The table is well
-- formed again, holds no part of the message, and has a free slot.
pub publish-feed :
    (r : Reasm) (m : Message) (f : ℕ)
    → IsReasm r
    → IsMessage m
    → 1392 < length m.payload
    → NoSlot r m.seq m.src_node
    → f < 16
    → (get_or r f empty_slot).active ≡ false
    → (r2 : Reasm) × (publish collect m (r, [])
        ≡ (ok, (r2, some (record m { flags = 0 }) ∷ none ∷ [])))
      × IsReasm r2
      × NoSlot r2 m.seq m.src_node
      × HasFree r2
publish-feed r m f w is long absent f_in free =
    let v : IsLong m = record { is = is; long = long } in
    let (r1, r2, first, second, gone, has_free) =
      feed-piece r m 0 1 f w is long (omega arith) absent f_in free in
    let one : (feed r (piece m 2 0)).1 ≡ r1 =
      ap (λ (x : Status × Reasm × Option Message). x.1) first in
    let two : (feed r1 (piece m 2 1)).1 ≡ r2 =
      ap (λ (x : Status × Reasm × Option Message). x.1) second in
    let w1 = subst IsReasm one (feed-IsReasm r (piece m 2 0) w (piece-IsMessage m 0 v)).0 in
    let w2 = subst IsReasm two (feed-IsReasm r1 (piece m 2 1) w1 (piece-IsMessage m 1 v)).0 in
    (
      r2,
      publish_long m r r1 r2 none (some (record m { flags = 0 })) v one
          (ap (λ (x : Status × Reasm × Option Message). x.2) first) two
          (ap (λ (x : Status × Reasm × Option Message). x.2) second),
      w2,
      gone,
      has_free,
    )
