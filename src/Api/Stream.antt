-- ===== src/Api/Stream.antt =====
-- `write_all` and `read_all` of api/bc_client.c.
use boardcommd.Base.{
  ℕ, zero, suc, ◌-◌, ◌<◌, ◌≤◌, ◌≡◌, refl, sym, ◌∙◌, List, [], ◌∷◌, ◌++◌, Bytes, length, take, drop,
  arith, some, subst, length-append, length-drop, take-append-drop, take_two, drop_two, take-append,
  drop-append,
}
use boardcommd.Types.{ok}
use boardcommd.Client.{Reply, took, interrupted, would_block, broken}
use boardcommd.Api.{write_all, got, read_from, read_all}

-- The replies `rs` transfer exactly `n` bytes, in pieces of any size and with any number of EINTR
-- between them, and `rest` are those that follow.
pub data Transfers : List Reply → ℕ → List Reply → Type 0 where
  all_done : (rest : List Reply) → Transfers rest 0 rest
  piece :
      (k n : ℕ) (rs rest : List Reply)
      → suc k ≤ n
      → Transfers rs (n - suc k) rest
      → Transfers (took (suc k) ∷ rs) n rest
  again :
      (n : ℕ) (rs rest : List Reply)
      → 0 < n
      → Transfers rs n rest
      → Transfers (interrupted ∷ rs) n rest

-- `read_all` returns BC_OK once the replies transfer the bytes asked for, in whatever pieces: it has
-- stored the next bytes of the stream, and the stream goes on behind them.
pub read_all-Transfers :
    (rs rest : List Reply) (n : ℕ) (s : Bytes)
    → Transfers rs n rest
    → n ≤ length s
    → read_all n (record { replies = rs; stream = s })
      ≡ (got (take n s), record { replies = rest; stream = drop n s })
unfolding read_from
read_all-Transfers rs rest zero s (all_done _) h = refl
read_all-Transfers rs rest zero s (piece k _ rs' _ p t) h = elim p [ ]
read_all-Transfers rs rest zero s (again _ rs' _ p t) h = elim p [ ]
read_all-Transfers [] rest (suc n) s t h = elim t [ ]
read_all-Transfers (took zero ∷ rs') rest (suc n) s t h = elim t [ ]
read_all-Transfers (would_block ∷ rs') rest (suc n) s t h = elim t [ ]
read_all-Transfers (broken ∷ rs') rest (suc n) s t h = elim t [ ]
read_all-Transfers (took (suc k) ∷ rs') rest (suc n) s (piece _ _ _ _ p t) h =
    let e : suc n - suc k ≡ n - k = omega arith in
    let t' = subst (λ x. Transfers rs' x rest) e t in
    let ih : read_from rs' (n - k) (drop (suc k) s) ≡ (
      got (take (n - k) (drop (suc k) s)),
      record { replies = rest; stream = drop (n - k) (drop (suc k) s) },
    ) =
      read_all-Transfers rs' rest (n - k) (drop (suc k) s) t'
        (omega (arith, length-drop (suc k) s)) in
    rw
      (
        read_from,
        ih,
        take_two (suc k) (n - k) (suc n) s (omega arith),
        ih,
        drop_two (suc k) (n - k) (suc n) s (omega arith),
      )
      refl
read_all-Transfers (interrupted ∷ rs') rest (suc n) s (again _ _ _ p t) h =
    read_all-Transfers rs' rest (suc n) s t h

-- the same, for a stream that is split where the read ends
pub read_part :
    (rs rest : List Reply) (xs ys : Bytes) (n : ℕ)
    → n ≡ length xs
    → Transfers rs n rest
    → read_all n (record { replies = rs; stream = xs ++ ys })
      ≡ (got xs, record { replies = rest; stream = ys })
read_part rs rest xs ys n e t =
    read_all-Transfers rs rest n (xs ++ ys) t (omega (arith, length-append xs ys))
    ∙ rw (take-append xs ys n e, drop-append xs ys n e) refl

-- `write_all` returns BC_OK once the replies transfer the data, in whatever pieces, and then all of
-- the data has gone out, in order.
pub write_all-Transfers :
    (rs rest : List Reply) (bs : Bytes)
    → Transfers rs (length bs) rest
    → write_all rs bs ≡ (some ok, bs)
unfolding write_all
write_all-Transfers [] rest [] t = refl
write_all-Transfers (r ∷ rs) rest [] t = refl
write_all-Transfers [] rest (b ∷ bs) t = elim t [ ]
write_all-Transfers (took zero ∷ rs) rest (b ∷ bs) t = elim t [ ]
write_all-Transfers (would_block ∷ rs) rest (b ∷ bs) t = elim t [ ]
write_all-Transfers (broken ∷ rs) rest (b ∷ bs) t = elim t [ ]
write_all-Transfers (took (suc k) ∷ rs) rest (b ∷ bs) (piece _ _ _ _ p t) =
    let t' = subst (λ x. Transfers rs x rest) (sym (length-drop (suc k) (b ∷ bs))) t in
    rw (write_all-Transfers rs rest (drop (suc k) (b ∷ bs)) t', take-append-drop (suc k) (b ∷ bs))
      refl
write_all-Transfers (interrupted ∷ rs) rest (b ∷ bs) (again _ _ _ p t) =
    write_all-Transfers rs rest (b ∷ bs) t
