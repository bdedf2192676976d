-- ===== src/Shm/Tests.antt =====
-- The theorems on the rings at concrete inputs.
use boardcommd.Base.{◌≡◌, refl, arith, some, [], ◌∷◌, Bytes}
use boardcommd.Shm.{Ring, ring_write, ring_read, ring_peek_len, store_bytes, load_bytes}
use boardcommd.Shm.Queue.{IsQueue}
use boardcommd.Shm.Write.{ring, Written, ring_write_lem, write-IsRing}
use boardcommd.Shm.Read.{Taken, ring_read_lem}

-- an empty ring whose positions are about to wrap round
abbrev near_wrap : Ring
near_wrap = ring 4294967290 4294967290 (λ _. 0)

near_wrap-IsQueue : IsQueue near_wrap []
near_wrap-IsQueue = record {
  size_is = refl;
  head_fits = omega arith;
  tail_fits = omega arith;
  used = refl;
  fits = omega arith;
  held = tt;
}

abbrev hello : Bytes
hello = 104 ∷ 105 ∷ []

ring_write_lem_example :
    let (rc, r') = ring_write near_wrap hello in Written near_wrap [] hello rc r'
ring_write_lem_example = ring_write_lem near_wrap [] hello near_wrap-IsQueue

abbrev one_message : Ring
one_message = (ring_write near_wrap hello).1

one_message-IsQueue : IsQueue one_message (hello ∷ [])
one_message-IsQueue =
    write-IsRing 4294967290 4294967290 (λ _. 0) hello [] near_wrap-IsQueue (omega arith)

ring_read_lem_example :
    let (rc, r', out) = ring_read one_message 2 in Taken one_message 2 (hello ∷ []) rc r' out
ring_read_lem_example = ring_read_lem one_message (hello ∷ []) 2 one_message-IsQueue

ring_runs : (ring_read one_message 2).2 ≡ some hello
unfolding ring_read ring_peek_len ring_write store_bytes load_bytes
ring_runs = refl
