-- ===== src/Tcp/Queue.antt =====
-- What a TCP transport sends and keeps, in src/transport/tcp/tcp_transport.c.
use boardcommd.Base.{
  ℕ, ◌+◌, ◌-◌, ◌<◌, ◌≤◌, ◌≡◌, ◌≢◌, ◌↔◌, refl, Bool, true, [], ◌++◌, Bytes, Option, some, ltb,
  length, arith, Bool-cases, inl, inr,
}
use boardcommd.Types.{Status, ok, nomem}
use boardcommd.Client.{slice, copy_to}
use boardcommd.Client.Pending.{slice-append, slice_before, slice-copy_to}
use boardcommd.Tcp.{Tcp, send_cap, queue_send}

-- the bytes that wait to be sent
abbrev pub waiting : Tcp → Bytes
waiting t = slice t.send_buf t.send_off (t.send_len - t.send_off)

waiting_appended :
    (buf : ℕ → ℕ) (off len : ℕ) (bs : Bytes)
    → off ≤ len
    → slice (copy_to buf len bs) off (len + length bs - off) ≡ slice buf off (len - off) ++ bs
waiting_appended buf off len bs h =
    let e : len + length bs - off ≡ len - off + length bs = omega arith in
    let f : off + (len - off) ≡ len = omega arith in
    rw
      (
        e,
        slice-append (copy_to buf len bs) off (len - off) (length bs),
        f,
        slice-copy_to buf len bs,
        slice_before buf off (len - off) len bs (omega arith),
      )
      refl

module _ {W : Type 0} (reactor_mod reactor_add : ℕ → Bool → W → Status × W)
    (memory : W → Bool) where
  -- What `tcp_queue_send` does with the bytes.
  pub record Queued (t : Tcp) (bs : Bytes) (rc : Status) (t' : Tcp) : Type 0 where
    pub in_order : rc ≡ ok → waiting t' ≡ waiting t ++ bs
    pub unchanged : rc ≢ ok → t' ≡ t
    pub accepted_iff : (rc ≡ ok) ↔ (t.send_len - t.send_off + length bs ≤ send_cap)
    pub end : rc ≡ ok → t'.send_len ≡ t.send_len + length bs

  pub queue_send_lem :
      (t : Tcp) (bs : Bytes) (w : W)
      → t.has_buf ≡ true
      → t.send_off ≤ t.send_len
      → let (rc, (t', w')) = queue_send reactor_mod reactor_add memory t bs w in Queued t bs rc t'
  unfolding queue_send
  queue_send_lem t bs w b h =
      elim (Bool-cases (ltb send_cap (t.send_len - t.send_off + length bs))) [
        | inl over ↦ rw (over) (record {
          in_order = λ e. ground (arith, e);
          unchanged = λ _. refl;
          accepted_iff = ground (arith, over);
          end = λ e. ground (arith, e);
        })
        | inr under ↦
            rw (under, b)
              (record {
                in_order = λ _. waiting_appended t.send_buf t.send_off t.send_len bs h;
                unchanged = λ e. elim (e refl) [ ];
                accepted_iff = ground (arith, under);
                end = λ _. refl;
              })
      ]

  -- A bug: while part of the queue has been sent, `tcp_queue_send` accepts bytes that do not fit
  -- behind it: it compares the unsent bytes with the size of the buffer, but writes behind the sent
  -- ones too. It returns BC_OK, and the bytes end behind the end of the buffer.
  pub queue_send_overflow :
      (t : Tcp) (bs : Bytes) (w : W)
      → t.has_buf ≡ true
      → t.send_off ≤ t.send_len
      → t.send_len - t.send_off + length bs ≤ send_cap
      → send_cap < t.send_len + length bs
      → let (rc, (t', w')) = queue_send reactor_mod reactor_add memory t bs w in
        (rc ≡ ok) × (send_cap < t'.send_len)
  queue_send_overflow t bs w b h fits over =
      let (rc, (t', w')) = queue_send reactor_mod reactor_add memory t bs w in
      let q : Queued t bs rc t' = queue_send_lem t bs w b h in
      let accepted : rc ≡ ok = q.accepted_iff.1 fits in (accepted, omega (arith, q.end accepted))

module _ {W : Type 0} (reactor_mod reactor_add : ℕ → Bool → W → Status × W) (memory : W → Bool)
    (reactor_del close_fd : ℕ → W → W) (arm : ℕ → Option ℕ → W → W) where
  -- What `tcp_send` did with the bytes `bs`.
  pub record Sent (t : Tcp) (bs : Bytes) (rc : Option Status) (out : Bytes) (t' : Tcp)
      : Type 0 where
    pub in_order : rc ≡ some ok → out ++ waiting t' ≡ waiting t ++ bs
    pub refused : rc ≡ some nomem → (out ≡ []) × (t' ≡ t)

  -- What its loop does when nothing waits.
  record LoopSent (bs : Bytes) (rc : Option Status) (out : Bytes) (t' : Tcp) : Type 0 where
    in_order : rc ≡ some ok → out ++ waiting t' ≡ bs
    has_room : rc ≢ some nomem
