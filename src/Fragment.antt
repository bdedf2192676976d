-- ===== src/Fragment.antt =====
-- src/daemon/fragment.c: messages over 1392 bytes travel as fragments, which `bc_reasm_feed` puts
-- together again in one of 16 slots. A fragment's payload starts with 8 bytes, of which the first
-- four are its index and the number of fragments.
pub mod Slots
pub mod Invariant
pub mod Chunks
pub mod RoundTrip
pub mod Leak
mod Tests
use boardcommd.Base.{
  ℕ, zero, suc, ◌+◌, ◌-◌, ◌*◌, ◌/◌, ◌≡◌, Bool, true, false, ◌&&◌, ◌||◌, not, List, [], ◌∷◌, ◌++◌,
  Bytes, ◌==◌, ltb, leb, length, take, drop, get_or, set, replicate, rd16, le16, u16, if◌then◌else◌,
  Option, none, some,
}
use boardcommd.Types.{
  Status, invalid, not_found, nomem, ok, Message, max_payload_len, flag_fragment,
}

abbrev pub frag_hdr_size : ℕ
frag_hdr_size = 8

-- BC_FRAG_CHUNK_MAX
abbrev pub chunk_max : ℕ
chunk_max = 1392

abbrev pub reasm_slots : ℕ
reasm_slots = 16

-- `bc_reasm_slot_t`; `bitmap` has BC_MAX_PAYLOAD_LEN / BC_FRAG_CHUNK_MAX + 1 entries, `payload` is
-- the whole array.
pub record Slot : Type 0 where
  pub active : Bool
  pub seq : ℕ
  pub total : ℕ
  pub received : ℕ
  pub bitmap : List ℕ
  pub topic : Bytes
  pub channel : Bytes
  pub src_node : ℕ
  pub dst_node : ℕ
  pub qos : ℕ
  pub payload : Bytes
  pub payload_len : ℕ

-- `bc_reasm_t`
abbrev pub Reasm : Type 0
Reasm = List Slot

abbrev pub bitmap_len : ℕ
bitmap_len = 2

-- a slot after `memset`
abbrev pub empty_slot : Slot
empty_slot = record {
  active = false;
  seq = 0;
  total = 0;
  received = 0;
  bitmap = replicate bitmap_len 0;
  topic = [];
  channel = [];
  src_node = 0;
  dst_node = 0;
  qos = 0;
  payload = replicate max_payload_len 0;
  payload_len = 0;
}

-- `bc_reasm_init`
pub reasm_init : Reasm
reasm_init = replicate reasm_slots empty_slot

-- whether a slot collects the message `seq` of the node `src`
abbrev pub holds : Slot → ℕ → ℕ → Bool
holds s seq src = s.active && ((s.seq == seq) && (s.src_node == src))

-- the loop of `find_slot`, at index `i`, with the first free slot seen so far
unfoldable pub find_from : List Slot → ℕ → Option ℕ → ℕ → ℕ → Option ℕ
find_from [] i free seq src = free
find_from (s ∷ ss) i free seq src =
    if holds s seq src
    then some i
    else find_from ss (i + 1)
        (elim free [ some j ↦ some j | none ↦ if s.active then none else some i ]) seq src

-- `find_slot`; NULL is `none`, a pointer is the index of its slot.
pub find_slot : Reasm → ℕ → ℕ → Option ℕ
unfolding find_from
find_slot r seq src = find_from r 0 none seq src

-- `memcpy(buf + off, bs, len)`
abbrev pub blit : Bytes → ℕ → Bytes → Bytes
blit buf off bs = take off buf ++ (bs ++ drop (off + length bs) buf)

-- A free slot is set up for the message of a fragment; one in use stays as it is.
unfoldable pub open_slot : Slot → Message → ℕ → Slot
open_slot s frag total = if s.active then s else record s {
  active = true;
  seq = frag.seq;
  total = total;
  received = 0;
  src_node = frag.src_node;
  dst_node = frag.dst_node;
  qos = frag.qos;
  payload_len = 0;
  bitmap = replicate bitmap_len 0;
  topic = take 63 frag.topic;
  channel = take 31 frag.channel;
}

-- The chunk is copied to its place and counted.
unfoldable pub store : Slot → ℕ → Bytes → Slot
store s index chunk =
    let end = index * chunk_max + length chunk in
    record s {
      payload = blit s.payload (index * chunk_max) chunk;
      bitmap = set s.bitmap index 1;
      received = u16 (s.received + 1);
      payload_len = if ltb s.payload_len end then end else s.payload_len;
    }

-- the message that a complete slot holds
abbrev pub assembled : Slot → Message
assembled s = record {
  src_node = s.src_node;
  dst_node = s.dst_node;
  flags = 0;
  qos = s.qos;
  seq = s.seq;
  channel = take 31 s.channel;
  topic = take 63 s.topic;
  payload = take s.payload_len s.payload;
}

abbrev pub Fed : Type 0
Fed = Status × Slot × Option Message

-- `bc_reasm_feed` once it has found a slot
unfoldable pub feed_slot : Slot → Message → ℕ → ℕ → Fed
feed_slot s frag index total =
    let chunk = drop frag_hdr_size frag.payload in
    let s1 = open_slot s frag total in
    let s2 = store s1 index chunk in
    if s.active && not (s.total == total)
    then (invalid, s, none)
    else if ltb max_payload_len (index * chunk_max + length chunk)
    then (invalid, s1, none)
    else if not (get_or s1.bitmap index 0 == 0)
    then (not_found, s1, none)
    else if ltb s2.received s2.total
    then (not_found, s2, none)
    else (ok, record s2 { active = false }, some (assembled s2))

-- the two numbers at the head of a fragment
abbrev pub frag_index : Message → ℕ
frag_index frag = rd16 frag.payload

abbrev pub frag_total : Message → ℕ
frag_total frag = rd16 (drop 2 frag.payload)

-- `bc_reasm_feed`: the status, the slots, and what is stored in `*out`, if anything is.
unfoldable pub feed : Reasm → Message → Status × Reasm × Option Message
feed r frag =
    if ltb (length frag.payload) frag_hdr_size
    then (invalid, r, none)
    else if (frag_total frag == 0) || leb (frag_total frag) (frag_index frag)
    then (invalid, r, none)
    else elim (find_slot r frag.seq frag.src_node) [
      | none ↦ (nomem, r, none)
      | some i ↦
          let (rc, s, out) =
            feed_slot (get_or r i empty_slot) frag (frag_index frag) (frag_total frag) in
          (rc, set r i s, out)
    ]

-- the number of fragments, cast to `uint16_t`
abbrev pub pieces_of : Message → ℕ
pieces_of m = u16 ((length m.payload + chunk_max - 1) / chunk_max)

-- the fragment that `bc_fragment_publish` builds in round `index`
unfoldable pub piece : Message → ℕ → ℕ → Message
piece m total index = record {
  src_node = m.src_node;
  dst_node = m.dst_node;
  flags = flag_fragment;
  qos = m.qos;
  seq = m.seq;
  channel = take 31 m.channel;
  topic = take 63 m.topic;
  payload =
      le16 index
      ++ (le16 total ++ (replicate 4 0 ++ take chunk_max (drop (index * chunk_max) m.payload)));
}

-- What `emit` does to the world `W` is a parameter.
module _ {W : Type 0} (emit : Message → W → Status × W) where
  -- the loop, with `n` rounds left; it stops at the first status that is not BC_OK.
  unfoldable pub publish_from : Message → ℕ → ℕ → ℕ → W → Status × W
  unfolding piece
  publish_from m total zero index w = (ok, w)
  publish_from m total (suc n) index w =
      let (rc, w') = emit (piece m total index) w in
      elim rc [ ok ↦ publish_from m total n (index + 1) w' | other ↦ (other, w') ]

  -- `bc_fragment_publish`
  unfoldable pub publish : Message → W → Status × W
  unfolding publish_from
  publish m w =
      if leb (length m.payload) chunk_max
      then emit m w
      else if pieces_of m == 0
      then (invalid, w)
      else publish_from m (pieces_of m) (pieces_of m) 0 w
