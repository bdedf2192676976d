-- ===== src/Tcp/Flush.antt =====
-- `tcp_flush_send` of src/transport/tcp/tcp_transport.c.
use boardcommd.Base.{
  ℕ, zero, suc, ◌+◌, ◌-◌, ◌≤◌, ◌≡◌, ◌⊎◌, inl, inr, refl, sym, ap, ◌∙◌, subst, Bool, false, List, [],
  ◌∷◌, ◌++◌, Bytes, Option, ltb, append_assoc, arith, if_intro,
}
use boardcommd.Types.{Status}
use boardcommd.Client.{Reply, took, interrupted, would_block, broken, slice}
use boardcommd.Client.Pending.{Honest, slice-append}
use boardcommd.Tcp.{Tcp, is_open, flush_loop, flush_send}
use boardcommd.Tcp.Queue.{waiting}

-- What a flush sent and left.
pub record Flushed (t : Tcp) (out : Bytes) (t' : Tcp) : Type 0 where
  pub in_order : out ++ waiting t' ≡ waiting t
  pub within : t'.send_off ≤ t'.send_len
  -- Of the transport only the positions change, and the end only when all is sent.
  pub only_queue : t' ≡ record t { send_off = t'.send_off; send_len = t'.send_len }
  pub end : (t'.send_len ≡ t.send_len) ⊎ (t'.send_len ≡ 0)

-- what `tcp_flush_send` returns
abbrev Done : {W : Type 0} → Tcp → Option Status × Bytes × (Tcp × W) → Type 0
Done t (rc, out, (t', w)) = Flushed t out t'

idle : (t : Tcp) → t.send_off ≤ t.send_len → Flushed t [] t
idle t h = record { in_order = refl; within = h; only_queue = refl; end = inl refl }

cleared :
    (t : Tcp)
    → t.send_off ≤ t.send_len
    → ltb t.send_off t.send_len ≡ false
    → Flushed t [] (record t { send_len = 0; send_off = 0 })
cleared t h e =
    let z : t.send_len - t.send_off ≡ 0 = ground arith in
    record { in_order = rw (z) refl; within = omega arith; only_queue = refl; end = inr refl }

module _ {W : Type 0} (reactor_mod reactor_add : ℕ → Bool → W → Status × W)
    (memory : W → Bool) where
  flush_loop-Flushed :
      (rs : List Reply) (t : Tcp) (w : W)
      → t.send_off ≤ t.send_len
      → Honest rs (t.send_len - t.send_off)
      → Done t (flush_loop reactor_mod reactor_add memory rs t w)
  unfolding flush_loop
  flush_loop-Flushed [] t w h _ =
      if_intro (Done t) (ltb t.send_off t.send_len) (λ _. idle t h) (cleared t h)
  flush_loop-Flushed (took zero ∷ rs) t w h _ =
      if_intro (Done t) (ltb t.send_off t.send_len) (λ _. idle t h) (cleared t h)
  flush_loop-Flushed (took (suc n) ∷ rs) t w h (k, hs) =
      let next = record t { send_off = t.send_off + suc n } in
      let e : t.send_len - t.send_off - suc n ≡ t.send_len - (t.send_off + suc n) = omega arith in
      let f = flush_loop-Flushed rs next w (omega (arith, k, h)) (subst (Honest rs) e hs) in
      let g : suc n + (t.send_len - (t.send_off + suc n)) ≡ t.send_len - t.send_off =
        omega (arith, k) in
      if_intro (Done t) (ltb t.send_off t.send_len)
        (λ _. record {
          in_order =
              append_assoc (slice t.send_buf t.send_off (suc n)) _ _
              ∙ (ap (λ x. slice t.send_buf t.send_off (suc n) ++ x) f.in_order
                  ∙ (sym (
                        slice-append t.send_buf t.send_off (suc n)
                          (t.send_len - (t.send_off + suc n)))
                      ∙ ap (slice t.send_buf t.send_off) g));
          within = f.within;
          only_queue = f.only_queue;
          end = f.end;
        })
        (cleared t h)
  flush_loop-Flushed (interrupted ∷ rs) t w h hs =
      if_intro (Done t) (ltb t.send_off t.send_len) (λ _. flush_loop-Flushed rs t w h hs)
        (cleared t h)
  flush_loop-Flushed (would_block ∷ rs) t w h _ =
      if_intro (Done t) (ltb t.send_off t.send_len) (λ _. idle t h) (cleared t h)
  flush_loop-Flushed (broken ∷ rs) t w h _ =
      if_intro (Done t) (ltb t.send_off t.send_len) (λ _. idle t h) (cleared t h)

  -- `tcp_flush_send`, whatever `send` replies, as long as it takes no more than it is given: what
  -- goes out and what still waits are together what waited, in order and with nothing lost or sent
  -- twice, and the positions stay in order.
  pub flush_send-Flushed :
      (rs : List Reply) (t : Tcp) (w : W)
      → t.send_off ≤ t.send_len
      → Honest rs (t.send_len - t.send_off)
      → let (rc, out, (t', w')) = flush_send reactor_mod reactor_add memory rs t w in
        Flushed t out t'
  flush_send-Flushed rs t w h hs =
      if_intro (Done t) (is_open t) (λ _. flush_loop-Flushed rs t w h hs) (λ _. idle t h)
