-- ===== src/File/Receive/Start.antt =====
-- The START packet of a transfer of api/bc_file.c, and a transfer from it on.
use boardcommd.Base.{
  ℕ, ◌+◌, ◌<◌, ◌≤◌, ◌≡◌, refl, sym, ap, ◌∙◌, true, not, ◌||◌, List, [], ◌∷◌, ◌++◌, Bytes, Option,
  none, some, ◌==◌, length, length-append, drop, take, drop-append, drop_two, le16, le32, rd16,
  rd16-le16, u32_mod, All, arith, str_eq_self, take_all, if_intro,
}
use boardcommd.Types.{Status, ok, Result}
use boardcommd.Crc.{crc32, crc32_update}
use boardcommd.Bus.Send.{is_ok}
use boardcommd.Api.{Opts}
use boardcommd.File.{PktHdr, file_pkt_magic, parse_start_meta, start_names, channel_wanted}
use boardcommd.File.Send.{packet}
use boardcommd.File.Transfer.{start_meta}
use boardcommd.File.Receive.{
  Rx, Disk, new_rx, Round, Arrival, arrived, on_start, on_packet, on_arrival, recv_file_path,
}
use boardcommd.File.Receive.Steps.{loop_on, arrived_packet}
use boardcommd.File.Receive.Whole.{
  concat, Stream, IsChunk, Follows, parse_file_packet-packet, recv_loop-Stream,
}

start_names_of :
    (extra : Bytes) (off name_len channel_len : ℕ) (expect : Option Bytes)
    → rd16 (drop off extra) ≡ name_len
    → rd16 (drop (off + 2 + name_len) extra) ≡ channel_len
    → length extra ≡ off + 2 + name_len + 2 + channel_len
    → 0 < name_len
    → name_len ≤ 255
    → channel_len < 32
    → channel_len ≡ length (channel_wanted expect)
    → take channel_len (drop (off + 2 + name_len + 2) extra) ≡ channel_wanted expect
    → start_names extra off expect ≡ ok
unfolding start_names
start_names_of extra off name_len channel_len expect n c l some_name a b w t =
    let same = str_eq_self (channel_wanted expect) in rw (n, c, t) (ground (arith, l, w, same))

-- The names are accepted behind 5 bytes, if the channel is the one that is wanted.
start_names_lem :
    (front name channel : Bytes) (expect : Option Bytes)
    → length front ≡ 5
    → 0 < length name
    → length name ≤ 255
    → length channel < 32
    → channel_wanted expect ≡ channel
    → start_names
        (front ++ (le16 (length name) ++ (name ++ (le16 (length channel) ++ channel))))
        5
        expect
      ≡ ok
start_names_lem front name channel expect f a b c e =
    let tail = le16 (length channel) ++ channel in
    let rest = le16 (length name) ++ (name ++ tail) in
    let extra = front ++ rest in
    let at5 : drop 5 extra ≡ rest = drop-append front rest 5 (sym f) in
    let after : (k : ℕ) → drop (5 + 2 + length name + k) extra ≡ drop k tail = λ k.
      sym (drop_two 5 (2 + (length name + k)) (5 + 2 + length name + k) extra (omega arith))
      ∙ ap (drop (2 + (length name + k))) at5
      ∙ sym (drop_two 2 (length name + k) (2 + (length name + k)) rest refl)
      ∙ sym (drop_two (length name) k (length name + k) (name ++ tail) refl)
      ∙ ap (drop k) (drop-append name tail (length name) refl) in
    start_names_of extra 5 (length name) (length channel) expect
      (ap rd16 at5 ∙ rd16-le16 (length name) (name ++ tail) (omega arith))
      (ap (λ (k : ℕ). rd16 (drop k extra)) (omega arith)
        ∙ ap rd16 (after 0)
        ∙ rd16-le16 (length channel) channel (omega arith))
      (omega (arith, length-append front rest, length-append name tail, f)) a b c
      (ap length (sym e))
      (ap (take (length channel)) (after 2)
        ∙ take_all (length channel) channel (omega arith)
        ∙ sym e)

-- The metadata that the sender puts together is accepted by a receiver that waits for the same
-- channel, or for none where the sender has none, and the number of the transfer is read back.
pub parse_start_meta-start_meta :
    (id : ℕ) (name channel : Bytes) (expect : Option Bytes)
    → id < u32_mod
    → 0 < length name
    → length name ≤ 255
    → length channel < 32
    → channel_wanted expect ≡ channel
    → parse_start_meta (start_meta id name channel) expect true ≡ (ok, some id)
unfolding parse_start_meta
parse_start_meta-start_meta id name channel expect i a b c e =
    let names = start_names_lem (2 ∷ le32 id) name channel expect refl a b c e in
    let tail = le16 (length channel) ++ channel in
    let long = length-append name tail in ground (arith, names, long)

-- the receiver behind the START packet
abbrev started : ℕ → ℕ → Option Bytes → Rx
started id size old = record (new_rx old) {
  has_file = true;
  file = some [];
  expected_size = size;
  transfer_id = id;
  got_start = true;
  v2_mode = true;
}

started-Follows : (id size : ℕ) (old : Option Bytes) → Follows id size 0 [] (started id size old)
unfolding crc32_update
started-Follows id size old = record {
  started = refl;
  opened = refl;
  numbered = refl;
  unended = refl;
  same_id = refl;
  same_size = refl;
  next = refl;
  stored = refl;
  counted = refl;
  summed = refl;
}

module _ {W : Type 0} (write : Bytes → Opts → W → Result ℕ × W) (pause : ℕ → W → W)
    (channel : Option Bytes) (topic : Bytes) where
  start_round :
      (id size : ℕ) (meta : Bytes) (disk : Disk) (old : Option Bytes) (w : W)
      → disk.written ≡ true
      → size < u32_mod
      → parse_start_meta meta channel true ≡ (ok, some id)
      → on_arrival write pause channel topic
          (arrived topic (packet 1 1 size meta))
          disk
          (new_rx old)
          w
        ≡ (none, (started id size old, w))
  unfolding on_packet on_start
  start_round id size meta disk old w d z e =
      let p : PktHdr = record { magic = file_pkt_magic; type = 1; reserved = 1; value = size } in
      arrived_packet write pause channel topic (packet 1 1 size meta) meta p disk (new_rx old) w
        (parse_file_packet-packet 1 size meta (omega arith) z)
      ∙ rw (d, e)

  -- A file in any number of chunks, none of which begins with the number of the transfer (unless
  -- it has at most 4 bytes). Let the START packet arrive, then the DATA packets of the chunks in
  -- order and the END packet, with any number of repeated packets, packets of other topics and
  -- bytes that are no packet among them. recv_file_path returns BC_OK, and the file at the path is
  -- the file that was sent.
  pub recv_file_path-Stream :
      (subscribe : W → Status × W) (fd id : ℕ) (name path sender_channel : Bytes)
      (chunks : List Bytes) (disk : Disk) (later : List (Arrival × Disk)) (old : Option Bytes)
      (w : W)
      → let whole = concat chunks in
        let meta = start_meta id name sender_channel in
        disk.written ≡ true
        → 0 < length topic
        → 0 < length path
        → (subscribe w).0 ≡ ok
        → id < u32_mod
        → length whole < u32_mod
        → length chunks < u32_mod
        → 0 < length name
        → length name ≤ 255
        → length sender_channel < 32
        → channel_wanted channel ≡ sender_channel
        → All (IsChunk id) chunks
        → Stream topic id (crc32 whole) 0 chunks later
        → let x =
            recv_file_path write pause subscribe
              (some fd)
              channel
              topic
              path
              ((arrived topic (packet 1 1 (length whole) meta), disk) ∷ later)
              old
              w in
          (x.0 ≡ some ok) × (x.1.0.file ≡ some whole)
  unfolding recv_file_path
  recv_file_path-Stream subscribe fd id name path sender_channel chunks disk later old w d t p sub i
        z m a b c e hs s =
      let whole = concat chunks in
      let meta = start_meta id name sender_channel in
      let accepted = parse_start_meta-start_meta id name sender_channel channel i a b c e in
      let r = started id (length whole) old in
      let w1 = (subscribe w).1 in
      let on =
        loop_on write pause channel topic (arrived topic (packet 1 1 (length whole) meta)) disk
          later (new_rx old) r w1 w1
          (start_round id (length whole) meta disk old w1 d z accepted) in
      let (status, stored) =
        recv_loop-Stream write pause channel topic id (crc32 whole) 0 chunks later [] whole r w1 i z
          (omega arith) refl refl hs (started-Follows id (length whole) old) s in
      let P : Round W → Type 0 = λ x. (x.0 ≡ some ok) × (x.1.0.file ≡ some whole) in
      if_intro P ((length topic == 0) || (length path == 0))
        (λ empty. absurd (ground (arith, empty)))
        (λ _.
          if_intro P (not (is_ok (subscribe w).0)) (λ no'. absurd (ground (arith, sub, no')))
            (λ _. rw on (status, stored)))
