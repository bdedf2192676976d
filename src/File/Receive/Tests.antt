-- ===== src/File/Receive/Tests.antt =====
-- The receiver of a file at concrete inputs.
use boardcommd.Base.{
  ℕ, ◌≡◌, refl, inl, inr, true, List, [], ◌∷◌, Bytes, none, some, le32, length, arith, codes,
}
use boardcommd.Types.{Status, ok, err, Result, done}
use boardcommd.Crc.{crc32}
use boardcommd.Api.{Opts}
use boardcommd.File.{PktHdr, file_pkt_magic}
use boardcommd.File.Send.{packet}
use boardcommd.File.Transfer.{start_meta}
use boardcommd.File.Receive.{
  Rx, Disk, new_rx, Arrival, arrived, failed, took_data, recv_loop, recv_file_path,
}
use boardcommd.File.Receive.Safe.{Kept, recv_file_path-Kept}
use boardcommd.File.Receive.Jam.{recv_loop_jam}
use boardcommd.File.Receive.Whole.{concat, Stream, parse_file_packet-packet}
use boardcommd.File.Receive.Whole
use boardcommd.File.Receive.Start.{recv_file_path-Stream}

-- a daemon that takes each packet
abbrev takes_all : Bytes → Opts → List Bytes → Result ℕ × List Bytes
takes_all p opts w = (done (length p), p ∷ w)

abbrev no_pause : ℕ → List Bytes → List Bytes
no_pause us w = w

abbrev subscribed : List Bytes → Status × List Bytes
subscribed w = (ok, w)

abbrev works : Disk
works = record { written = true; torn = none; removed = true }

abbrev topic : Bytes
topic = codes "file.a"

abbrev chunks : List Bytes
chunks = (7 ∷ 8 ∷ []) ∷ ((9 ∷ []) ∷ [])

abbrev meta : Bytes
meta = start_meta 99 (codes "a.txt") []

abbrev data_packet : ℕ → Bytes → Arrival × Disk
data_packet n c = (arrived topic (packet 2 1 n c), works)

-- the second chunk comes too early, and the first one twice.
abbrev later : List (Arrival × Disk)
later =
    data_packet 1 (9 ∷ [])
    ∷ (data_packet 0 (7 ∷ 8 ∷ [])
        ∷ (data_packet 0 (7 ∷ 8 ∷ [])
            ∷ (data_packet 1 (9 ∷ [])
                ∷ ((arrived topic (packet 3 1 (crc32 (7 ∷ 8 ∷ 9 ∷ [])) (le32 99)), works) ∷ []))))

data_hdr : ℕ → PktHdr
data_hdr n = record { magic = file_pkt_magic; type = 2; reserved = 1; value = n }

later-Stream : Stream topic 99 (crc32 (7 ∷ 8 ∷ 9 ∷ [])) 0 chunks later
unfolding data_hdr
later-Stream =
    Whole.Stream.noise 0 chunks (data_packet 1 (9 ∷ []))
      (data_packet 0 (7 ∷ 8 ∷ [])
        ∷ (data_packet 0 (7 ∷ 8 ∷ [])
            ∷ (data_packet 1 (9 ∷ [])
                ∷ ((arrived topic (packet 3 1 (crc32 (7 ∷ 8 ∷ 9 ∷ [])) (le32 99)), works) ∷ []))))
      (inr (
        inr (
          data_hdr 1,
          9 ∷ [],
          parse_file_packet-packet 2 1 (9 ∷ []) (omega arith) (omega arith),
          inr (inl (refl, λ e. omega arith)),
        )))
      (Whole.Stream.chunk 0 (7 ∷ 8 ∷ []) ((9 ∷ []) ∷ []) works
        (data_packet 0 (7 ∷ 8 ∷ [])
          ∷ (data_packet 1 (9 ∷ [])
              ∷ ((arrived topic (packet 3 1 (crc32 (7 ∷ 8 ∷ 9 ∷ [])) (le32 99)), works) ∷ [])))
        refl
        (Whole.Stream.noise 1 ((9 ∷ []) ∷ []) (data_packet 0 (7 ∷ 8 ∷ []))
          (data_packet 1 (9 ∷ [])
            ∷ ((arrived topic (packet 3 1 (crc32 (7 ∷ 8 ∷ 9 ∷ [])) (le32 99)), works) ∷ []))
          (inr (
            inr (
              data_hdr 0,
              7 ∷ 8 ∷ [],
              parse_file_packet-packet 2 0 (7 ∷ 8 ∷ []) (omega arith) (omega arith),
              inr (inl (refl, λ e. omega arith)),
            )))
          (Whole.Stream.chunk 1 (9 ∷ []) [] works
            ((arrived topic (packet 3 1 (crc32 (7 ∷ 8 ∷ 9 ∷ [])) (le32 99)), works) ∷ []) refl
            (Whole.Stream.ends 2 works [] refl))))

recv_file_path-Stream_example :
    let x =
      recv_file_path takes_all no_pause subscribed
        (some 3)
        none
        topic
        (codes "b.txt")
        ((arrived topic (packet 1 1 3 meta), works) ∷ later)
        none
        [] in
    (x.0 ≡ some ok) × (x.1.0.file ≡ some (7 ∷ 8 ∷ 9 ∷ []))
recv_file_path-Stream_example =
    recv_file_path-Stream takes_all no_pause none topic subscribed 3 99 (codes "a.txt")
      (codes "b.txt") [] chunks works later none [] refl (omega arith) (omega arith) refl
      (omega arith) (omega arith) (omega arith) (omega arith) (omega arith) (omega arith) refl
      (omega arith) later-Stream

recv_file_path-Kept_example : Kept none (
    recv_file_path takes_all no_pause subscribed
      (some 3)
      none
      topic
      (codes "b.txt")
      ((arrived topic (packet 1 1 3 meta), works) ∷ ((failed err, works) ∷ []))
      none
      [])
recv_file_path-Kept_example =
    recv_file_path-Kept takes_all no_pause none subscribed (some 3) none topic (codes "b.txt")
      ((arrived topic (packet 1 1 3 meta), works) ∷ ((failed err, works) ∷ [])) []
      ((refl, refl), ((λ e. cc, (refl, refl)), tt))

-- a receiver that has seen the END packet, with two chunks missing
abbrev behind : Rx
behind = record (new_rx none) {
  has_file = true;
  file = some [];
  expected_size = 3;
  transfer_id = 99;
  got_start = true;
  got_end = true;
  v2_mode = true;
}

recv_loop_jam_example :
    recv_loop takes_all no_pause none topic
      ((arrived topic (packet 2 1 0 (7 ∷ 8 ∷ [])), works)
        ∷ ((arrived topic (packet 3 1 5 (le32 99)), works) ∷ []))
      behind
      []
    ≡ (none, (took_data behind (7 ∷ 8 ∷ []), []))
recv_loop_jam_example =
    recv_loop_jam takes_all no_pause none topic
      (record { magic = file_pkt_magic; type = 2; reserved = 1; value = 0 })
      (packet 2 1 0 (7 ∷ 8 ∷ [])) (7 ∷ 8 ∷ []) works
      ((arrived topic (packet 3 1 5 (le32 99)), works) ∷ []) behind [] refl
      (record { started = refl; opened = refl; ended = refl })
      (parse_file_packet-packet 2 0 (7 ∷ 8 ∷ []) (omega arith) (omega arith)) refl refl refl
      (omega arith) (λ e. omega arith)
      (
        (
          record { magic = file_pkt_magic; type = 3; reserved = 1; value = 5 },
          le32 99,
          parse_file_packet-packet 3 5 (le32 99) (omega arith) (omega arith),
          inl refl,
        ),
        tt,
      )
