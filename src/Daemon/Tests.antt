-- ===== src/Daemon/Tests.antt =====
-- A stream of two messages in three pieces.
use boardcommd.Base.{
  ℕ, suc, ◌≡◌, refl, arith, List, [], ◌∷◌, ◌++◌, Bytes, map, take, drop, get_or, false, subst, sym,
}
use boardcommd.Types.{Message, IsMessage, done}
use boardcommd.Protocol.{encode}
use boardcommd.Protocol.Layout.{put_header}
use boardcommd.Protocol.RoundTrip.{frame_of, encode_done, IsMessage-IsSendable}
use boardcommd.Daemon.{receive_loop}
use boardcommd.Daemon.Stream.{Encoded, no_frames, frame, handle_all}
use boardcommd.Daemon.Pieces.{Piece, arrival, joined, receive_loop-Encoded}

abbrev hello : Message
hello = record {
  src_node = 1;
  dst_node = 3;
  flags = 4;
  qos = 1;
  seq = 7;
  channel = b'c' ∷ [];
  topic = b'd' ∷ b'e' ∷ [];
  payload = 5 ∷ 0 ∷ 255 ∷ [];
}

hello-IsMessage : IsMessage hello
hello-IsMessage = ground arith

hello_encoded : encode hello ≡ done (frame_of hello)
hello_encoded =
    encode_done hello (IsMessage-IsSendable hello hello-IsMessage (λ e. ground (arith, e)))

abbrev both : Bytes
both = frame_of hello ++ (frame_of hello ++ [])

both-Encoded : Encoded (hello ∷ hello ∷ []) both
both-Encoded =
    frame hello (hello ∷ []) (frame_of hello) (frame_of hello ++ []) hello-IsMessage
      (λ e. ground (arith, e)) hello_encoded
      (frame hello [] (frame_of hello) [] hello-IsMessage (λ e. ground (arith, e)) hello_encoded
        no_frames)

-- The first piece ends in a header, the second one in the next frame.
abbrev pieces : List Piece
pieces =
    (get_or both 0 0, take 19 (drop 1 both))
    ∷ (get_or both 20 0, take 29 (drop 21 both))
    ∷ (get_or both 50 0, drop 51 both)
    ∷ []

pieces_lem : joined pieces ≡ both
unfolding put_header
pieces_lem = refl

pieces-Encoded : Encoded (hello ∷ hello ∷ []) (joined pieces)
pieces-Encoded = subst (Encoded (hello ∷ hello ∷ [])) (sym pieces_lem) both-Encoded

-- a bus that counts the messages
abbrev count : Message → ℕ → ℕ
count m n = suc n

receive_loop-Encoded_example :
    receive_loop count (map arrival pieces) [] 0
    ≡ (false, ([], handle_all count (hello ∷ hello ∷ []) 0))
receive_loop-Encoded_example =
    receive_loop-Encoded count pieces (hello ∷ hello ∷ []) 0 pieces-Encoded
