-- ===== src/Daemon/Pieces.antt =====
-- `on_transport_event` of src/daemon/main.c on a stream that arrives in pieces.
use boardcommd.Base.{
  ℕ, suc, ◌<◌, ◌≤◌, ◌≡◌, ◌≢◌, refl, sym, ap, ◌∙◌, subst, false, List, [], ◌∷◌, ◌++◌, Bytes, Option,
  some, ltb, leb, length, take, drop, take-append, append-nil, append_assoc, length-append, arith,
  dec_le, if_intro, get_or, map,
}
use boardcommd.Types.{Status, ok, not_found, Message, IsMessage, done}
use boardcommd.Protocol.{encode, frame_length}
use boardcommd.Protocol.Stream.{frame_length-encode}
use boardcommd.Daemon.{rx_size, Arrival, got, process_transport_frames, receive_loop}
use boardcommd.Daemon.Stream.{
  Encoded, no_frames, frame, head_frame, frame_bounds, handle_all, process_transport_frames-Encoded,
}

-- A buffer that holds the beginning of a stream of frames holds the frames of some messages and the
-- beginning of the next frame.
pub record Begun (ms : List Message) (p q : Bytes) : Type 0 where
  pub first : List Message
  pub rest : List Message
  pub bytes : Bytes
  pub tail : Bytes
  pub split : p ≡ bytes ++ tail
  pub messages : ms ≡ first ++ rest
  pub first_is : Encoded first bytes
  pub rest_is : Encoded rest (tail ++ q)
  pub short : length tail < 1600
  pub waits : (frame_length tail).0 ≡ not_found

no_frame : (frame_length []).0 ≡ not_found
unfolding frame_length
no_frame = refl

-- Of two ways of cutting the same bytes, the shorter first part is the beginning of the longer one.
cut_lem :
    (a b p q : Bytes)
    → a ++ b ≡ p ++ q
    → length a ≤ length p
    → (r : Bytes) × (p ≡ a ++ r) × (b ≡ r ++ q)
cut_lem [] b p q e h = (p, refl, e)
cut_lem (x ∷ a) b [] q e h = elim h [ ]
cut_lem (x ∷ a) b (y ∷ p) q e h =
    let first : x ≡ y = ap (λ l. get_or l 0 0) e in
    let (r, s, t) = cut_lem a b p q (ap (drop 1) e) (omega (arith, h)) in
    (r, ap (◌∷◌ y) s ∙ ap (λ z. z ∷ (a ++ r)) (sym first), t)

-- the beginning of a frame
part_waits :
    (m : Message) (f rest p q : Bytes)
    → IsMessage m
    → m.topic ≢ []
    → encode m ≡ done f
    → f ++ rest ≡ p ++ q
    → length p < length f
    → (frame_length p).0 ≡ not_found
part_waits m f rest p q v ne enc e h =
    let same : take (length p) (f ++ rest) ≡ p =
      ap (take (length p)) e ∙ take-append p q (length p) refl in
    let found =
      frame_length-encode m f rest (length p) v ne enc (omega (arith, length-append f rest)) in
    let t : leb (length f) (length p) ≡ false = ground arith in
    ap (λ x. (frame_length x).0) (sym same)
    ∙ (ap (λ x. x.0) found
        ∙ if_intro (λ (x : Status × Option ℕ). x.0 ≡ not_found) (ltb (length p) 36) (λ _. refl)
            (λ _. rw (t) refl))

begun_lem : (ms : List Message) (p q bs : Bytes) → Encoded ms bs → bs ≡ p ++ q → Begun ms p q
begun_lem [] [] q bs no_frames e = record {
  first = [];
  rest = [];
  bytes = [];
  tail = [];
  split = refl;
  messages = refl;
  first_is = no_frames;
  rest_is = subst (Encoded []) e no_frames;
  short = omega arith;
  waits = no_frame;
}
begun_lem [] (x ∷ p) q bs no_frames e = ground (arith, e)
begun_lem (m ∷ ms) p q bs (frame _ _ f rest v ne enc more) e = elim (dec_le (length f) (length p)) [
  | yes whole ↦
      let (r, s, t) = cut_lem f rest p q e whole in
      let b = begun_lem ms r q rest more t in
      record {
        first = m ∷ b.first;
        rest = b.rest;
        bytes = f ++ b.bytes;
        tail = b.tail;
        split = s ∙ (ap (λ x. f ++ x) b.split ∙ sym (append_assoc f b.bytes b.tail));
        messages = ap (◌∷◌ m) b.messages;
        first_is = frame m b.first f b.bytes v ne enc b.first_is;
        rest_is = b.rest_is;
        short = b.short;
        waits = b.waits;
      }
  | no part ↦
      let (_, most) = frame_bounds m f v ne enc in
      record {
        first = [];
        rest = m ∷ ms;
        bytes = [];
        tail = p;
        split = refl;
        messages = refl;
        first_is = no_frames;
        rest_is = subst (Encoded (m ∷ ms)) e (frame m ms f rest v ne enc more);
        short = omega (arith, most, part);
        waits = part_waits m f rest p q v ne enc e (omega (arith, part));
      }
]

ended :
    (ms : List Message) (bs : Bytes)
    → Encoded ms bs
    → (frame_length bs).0 ≡ not_found
    → (ms ≡ []) × (bs ≡ [])
ended [] bs no_frames t = (refl, refl)
ended (m ∷ ms) bs (frame _ _ f rest v ne e more) t =
    let (found, _) = head_frame m f rest v ne e in
    let bad : ok ≡ not_found = sym (ap (λ x. x.0) found) ∙ t in ground (arith, bad)

messages_le : (ms : List Message) (bs : Bytes) → Encoded ms bs → length ms ≤ length bs
messages_le [] bs no_frames = omega arith
messages_le (m ∷ ms) bs (frame _ _ f rest v ne e more) =
    let (least, _) = frame_bounds m f v ne e in
    omega (arith, least, messages_le ms rest more, length-append f rest)

-- a piece that `recv` gives, with at least one byte
abbrev pub Piece : Type 0
Piece = ℕ × Bytes

abbrev pub arrival : Piece → Arrival
arrival (x, xs) = got x xs

-- the bytes of the pieces
abbrev pub joined : List Piece → Bytes
joined [] = []
joined ((x, xs) ∷ ps) = (x ∷ xs) ++ joined ps

module _ {S : Type 0} (handle : Message → S → S) where
  handle_all-append :
      (xs ys : List Message) (s : S)
      → handle_all handle (xs ++ ys) s ≡ handle_all handle ys (handle_all handle xs s)
  handle_all-append [] ys s = refl
  handle_all-append (x ∷ xs) ys s = handle_all-append xs ys (handle x s)

  -- The loop, with the beginning of a frame in the buffer.
  receive_lem :
      (ps : List Piece) (ms : List Message) (rx : Bytes) (s : S)
      → Encoded ms (rx ++ joined ps)
      → length rx < 1600
      → (frame_length rx).0 ≡ not_found
      → receive_loop handle (map arrival ps) rx s ≡ (false, ([], handle_all handle ms s))
  unfolding receive_loop
  receive_lem [] ms rx s v h t =
      let (none_left, emptied) = ended ms rx (subst (Encoded ms) (append-nil rx) v) t in
      let full : leb rx_size (length rx) ≡ false = ground (arith, h) in
      rw (full, none_left, emptied) refl
  receive_lem ((x, xs) ∷ ps) ms rx s v h t =
      let all = rx ++ (x ∷ xs) in
      let b =
        begun_lem ms all (joined ps) (rx ++ joined ((x, xs) ∷ ps)) v
          (sym (append_assoc rx (x ∷ xs) (joined ps))) in
      let full : leb rx_size (length rx) ≡ false = ground (arith, h) in
      let enough : length b.first < suc (length all) = omega (
        arith,
        ap length b.split,
        length-append b.bytes b.tail,
        messages_le b.first b.bytes b.first_is,
      ) in
      let processed : process_transport_frames handle (suc (length all)) all s
          ≡ (some ok, (b.tail, handle_all handle b.first s)) =
        ap (λ y. process_transport_frames handle (suc (length all)) y s) b.split
        ∙ process_transport_frames-Encoded handle (suc (length all)) b.first b.bytes b.tail s
            b.first_is b.waits enough in
      let s' = handle_all handle b.first s in
      let handled : handle_all handle b.rest s' ≡ handle_all handle ms s =
        sym (ap (λ l. handle_all handle l s) b.messages ∙ handle_all-append b.first b.rest s) in
      rw (full, processed)
        (receive_lem ps b.rest b.tail s' b.rest_is b.short b.waits
          ∙ ap (λ u. (false, ([], u))) handled)

  -- A stream of the frames of any number of messages, whatever the pieces in which it arrives and
  -- however the pieces cut the frames: starting with an empty buffer, the loop of
  -- `on_transport_event` hands to the bus exactly the messages, each of them once and in order; it
  -- still waits for more, and the buffer is empty again.
  pub receive_loop-Encoded :
      (ps : List Piece) (ms : List Message) (s : S)
      → Encoded ms (joined ps)
      → receive_loop handle (map arrival ps) [] s ≡ (false, ([], handle_all handle ms s))
  receive_loop-Encoded ps ms s v = receive_lem ps ms [] s v (omega arith) no_frame
