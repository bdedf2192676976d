-- ===== src/Client/Tests.antt =====
-- The theorems on a client's frames and on the bytes that wait for it, at concrete inputs.

use boardcommd.Base.{ℕ, ◌+◌, ◌%◌, ◌≡◌, refl, arith, Bool, [], ◌∷◌}
use boardcommd.Types.{Status, ok}
use boardcommd.Client.{
  Tx, took, interrupted, would_block, enqueue_client_tx, flush_client_tx, slice,
}
use boardcommd.Client.Pending.{IsTx, Flushed, flush_client_tx-Flushed}

-- a world that counts the calls
abbrev count : Bool → ℕ → Status × ℕ
count b w = (ok, w + 1)

-- three bytes at the end of the buffer
abbrev at_end : Tx
at_end = record { off = 4194301; len = 3; buf = λ j. j % 7 }

at_end-IsTx : IsTx at_end
at_end-IsTx = record { within = omega arith }

flush_client_tx-Flushed_example :
    let (rc, out, (t', w')) =
      flush_client_tx count (took 2 ∷ interrupted ∷ would_block ∷ []) at_end 0 in
    Flushed at_end out t'
flush_client_tx-Flushed_example =
    flush_client_tx-Flushed count (took 2 ∷ interrupted ∷ would_block ∷ []) at_end 0 at_end-IsTx
      (omega arith, tt)

enqueue_runs :
    let (rc, (t', w')) = enqueue_client_tx count at_end (8 ∷ 9 ∷ []) 0 in
    slice t'.buf t'.off t'.len ≡ 6 ∷ 0 ∷ 1 ∷ 8 ∷ 9 ∷ []
unfolding enqueue_client_tx
enqueue_runs = refl
