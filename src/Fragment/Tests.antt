-- ===== src/Fragment/Tests.antt =====
-- Runs of the reassembly, and its theorems at concrete inputs.
use boardcommd.Base.{
  ◌≡◌, refl, [], ◌∷◌, ◌++◌, replicate, arith, some, none, All, All-replicate, true, false,
}
use boardcommd.Types.{Message, IsMessage, ok, invalid}
use boardcommd.Fragment.{Slot, Reasm, empty_slot, holds, feed, piece, publish}
use boardcommd.Fragment.Invariant.{IsReasm, IsSlot, IsOut, feed-IsReasm, empty-IsSlot}
use boardcommd.Fragment.RoundTrip.{publish-feed, collect, HasFree}
use boardcommd.Fragment.Slots.{NoSlot}
use boardcommd.Fragment.Leak.{IsJammed, feed_all, feed_all_jammed}

abbrev big : Message
big = record {
  src_node = 3;
  dst_node = 0;
  flags = 4;
  qos = 1;
  seq = 9;
  channel = [];
  topic = b't' ∷ [];
  payload = replicate 1392 1 ++ replicate 5 2;
}

big-IsMessage : IsMessage big
big-IsMessage = omega arith

abbrev fresh : Reasm
fresh = replicate 16 empty_slot

fresh-IsReasm : IsReasm fresh
fresh-IsReasm = record { slots = refl; all_slots = All-replicate IsSlot 16 empty-IsSlot }

-- three fragments announced, of which none is there
abbrev jam : Slot
jam = record empty_slot { active = true; seq = 1; total = 3; src_node = 2 }

jam-IsSlot : IsSlot jam
jam-IsSlot = omega arith

abbrev jammed : Reasm
jammed = replicate 16 jam

jammed-IsReasm : IsReasm jammed
jammed-IsReasm = record { slots = refl; all_slots = All-replicate IsSlot 16 jam-IsSlot }

feed_short : feed fresh (record big { payload = 0 ∷ 0 ∷ 1 ∷ [] }) ≡ (invalid, fresh, none)
unfolding feed
feed_short = refl

publish-feed_example :
    (r2 : Reasm) × (publish collect big (fresh, [])
      ≡ (ok, (r2, some (record big { flags = 0 }) ∷ none ∷ [])))
    × IsReasm r2
    × NoSlot r2 9 3
    × HasFree r2
publish-feed_example =
    publish-feed fresh big 0 fresh-IsReasm big-IsMessage (omega arith)
      (All-replicate (λ s. holds s 9 3 ≡ false) {x = empty_slot} 16 refl) (omega arith) refl

piece-IsMessage : IsMessage (piece big 2 0)
unfolding piece
piece-IsMessage = omega arith

last-IsMessage : IsMessage (piece big 2 1)
unfolding piece
last-IsMessage = omega arith

feed-IsReasm_example : IsReasm (feed fresh (piece big 2 0)).1 × IsOut (feed fresh (piece big 2 0)).2
feed-IsReasm_example = feed-IsReasm fresh (piece big 2 0) fresh-IsReasm piece-IsMessage

feed_all_jammed_example :
    All (λ out. out ≡ none) (feed_all jammed (piece big 2 0 ∷ piece big 2 1 ∷ []))
feed_all_jammed_example =
    feed_all_jammed jammed (piece big 2 0 ∷ piece big 2 1 ∷ []) jammed-IsReasm
      (All-replicate IsJammed 16 (record { active = refl; many = omega arith }))
      (piece-IsMessage, (last-IsMessage, tt))
