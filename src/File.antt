-- ===== src/File.antt =====
-- The packets of the file transfer of api/bc_file.c.
pub mod Control
pub mod Send
pub mod Receive
pub mod Transfer
mod Tests
use boardcommd.Base.{
  ℕ, zero, suc, ◌+◌, ◌-◌, ◌%◌, Bool, true, ◌&&◌, ◌||◌, List, [], ◌∷◌, ◌++◌, Bytes, Option, none,
  some, ◌==◌, ltb, leb, length, get_elem?, get_or, set, take, drop, le16, le32, rd16, rd32, str_eq,
  bit_and, if◌then◌else◌, not, codes,
}
use boardcommd.Types.{Status, ok, invalid, not_found, Result, done, fail}
use boardcommd.Crc.{crc32_update, crc32_start, not32}

-- BC_FILE_PKT_MAGIC
abbrev pub file_pkt_magic : ℕ
file_pkt_magic = 0xbcf1

-- `bc_file_pkt_hdr_t`
pub record PktHdr : Type 0 where
  pub magic : ℕ
  pub type : ℕ
  pub reserved : ℕ
  pub value : ℕ

-- the 8 bytes of the packed header in memory
abbrev pub put_pkt_hdr : PktHdr → Bytes
put_pkt_hdr h = le16 h.magic ++ (h.type ∷ (h.reserved ∷ le32 h.value))

-- `parse_file_packet`: the header and the bytes behind it
unfoldable pub parse_file_packet : Bytes → Result (PktHdr × Bytes)
parse_file_packet bs =
    let h : PktHdr = record {
      magic = rd16 bs;
      type = get_or bs 2 0;
      reserved = get_or bs 3 0;
      value = rd32 (drop 4 bs);
    } in
    if ltb (length bs) 8
    then fail invalid
    else if not (h.magic == file_pkt_magic)
    then fail invalid
    else done (h, drop 8 bs)

-- `file_pkt_type_name`
unfoldable pub file_pkt_type_name : ℕ → Bytes
file_pkt_type_name type =
    if type == 1
    then codes "START"
    else if type == 2
    then codes "DATA"
    else if type == 3
    then codes "END"
    else if type == 4
    then codes "NACK"
    else if type == 5
    then codes "DONE"
    else codes "UNKNOWN"

-- `parse_file_v2_control`, for pointers that are not NULL
unfoldable pub parse_file_v2_control : PktHdr → Bytes → ℕ → ℕ → Status
parse_file_v2_control h extra expect_type expect_transfer_id =
    if not (h.type == expect_type) || ((bit_and h.reserved 1 == 0) || not (length extra == 4))
    then invalid
    else if rd32 extra == expect_transfer_id
    then ok
    else not_found

-- the text behind the last '/', if there is one
abbrev pub after_slash : Bytes → Option Bytes
after_slash [] = none
after_slash (c ∷ cs) =
    let rest = after_slash cs in
    elim rest [ some t ↦ some t | none ↦ if c == 47 then some cs else none ]

-- `basename_only`
unfoldable pub basename_only : Bytes → Bytes
basename_only path = elim (after_slash path) [ some t ↦ t | none ↦ path ]

-- the text that a pointer gives to the checksum, if it is not NULL
abbrev pub mix : ℕ → Option Bytes → ℕ
mix seed none = seed
mix seed (some t) = crc32_update seed t

-- `make_transfer_id`, with the values that `time` and `getpid` return
unfoldable pub make_transfer_id : ℕ → ℕ → Option Bytes → Option Bytes → ℕ → ℕ
make_transfer_id now pid topic path size_hint =
    let seed =
      crc32_update (crc32_update (crc32_update crc32_start (le32 now)) (le32 pid))
        (le32 size_hint) in
    not32 (mix (mix seed topic) path)

-- `bc_file_cache_slot_t`
pub record CacheSlot : Type 0 where
  pub valid : Bool
  pub seq : ℕ
  pub bytes : Bytes

-- `find_cache_slot`; the slot that the pointer points to
unfoldable pub find_cache_slot : List CacheSlot → ℕ → Option CacheSlot
find_cache_slot [] seq = none
find_cache_slot (s ∷ ss) seq = if s.valid && (s.seq == seq) then some s else find_cache_slot ss seq

-- `store_cache_slot`
unfoldable pub store_cache_slot : List CacheSlot → ℕ → Bytes → List CacheSlot
store_cache_slot cache seq bytes =
    set cache (seq % length cache) (record { valid = true; seq = seq; bytes = bytes })

-- `expect_channel == NULL || expect_channel[0] == '\0'`, or the channel
abbrev pub channel_wanted : Option Bytes → Bytes
channel_wanted none = []
channel_wanted (some c) = c

-- `parse_start_meta` behind the version and the transfer number, at `off`
unfoldable pub start_names : Bytes → ℕ → Option Bytes → Status
start_names extra off expect_channel =
    let name_len = rd16 (drop off extra) in
    let at = off + 2 + name_len in
    let channel_len = rd16 (drop at extra) in
    let wanted = channel_wanted expect_channel in
    if (name_len == 0) || (ltb 255 name_len || ltb (length extra) (off + 2 + name_len + 2))
    then invalid
    else if leb 32 channel_len || not (at + 2 + channel_len == length extra)
    then invalid
    else if length wanted == 0
    then (if channel_len == 0 then ok else invalid)
    else if not (channel_len == length wanted)
        || not (str_eq (take channel_len (drop (at + 2) extra)) wanted)
    then invalid
    else ok

-- `parse_start_meta`: the status, and the transfer number, if it is stored
unfoldable pub parse_start_meta : Bytes → Option Bytes → Bool → Status × Option ℕ
parse_start_meta extra expect_channel expect_v2 =
    if expect_v2
    then (if ltb (length extra) 9 || not (get_or extra 0 0 == 2)
        then (invalid, none)
        else (start_names extra 5 expect_channel, some (rd32 (drop 1 extra))))
    else if ltb (length extra) 4
    then (invalid, none)
    else (start_names extra 0 expect_channel, none)
