-- ===== src/Client/Receive/Drain.antt =====
-- `drain_client_shm` of src/daemon/client_manager.c against a queue of requests.
use boardcommd.Base.{
  ℕ, zero, suc, ◌<◌, ◌≤◌, ◌≡◌, refl, List, [], ◌∷◌, Option, some, length, map, All, arith,
}
use boardcommd.Types.{Status, ok}
use boardcommd.Shm.{Ring}
use boardcommd.Shm.Queue.{IsQueue}
use boardcommd.Shm.Read.{ring_read_next, ring_read_empty}
use boardcommd.Client.Frame.{Request, client_frame_max}
use boardcommd.Client.Frame.RoundTrip.{length-frame_of}
use boardcommd.Client.Receive.{after_frame, drain_ring}
use boardcommd.Client.Receive.Serve.{CanSend, bytes_of, process_frame_buffer-bytes_of}

bytes_of-fits : (r : Request) → CanSend r → length (bytes_of r) ≤ client_frame_max
bytes_of-fits r v =
    let c = v.channel_text.fits in
    let t = v.topic_text.fits in
    omega (arith, v.payload_fits, length-frame_of r.header r.channel r.topic r.payload)

module _ {S : Type 0} (handle : Request → S → Status × S) where
  -- What the loop makes of the request `r`, with the others behind it: a request that failed has
  -- left the ring all the same.
  abbrev pub lose_failed :
      Status → Status × (List Request × S) → List Request × S → Status × (List Request × S)
  lose_failed ok rest t = rest
  lose_failed other rest t = (other, t)

  -- the requests, handled in order
  abbrev pub serve_ring : List Request → S → Status × (List Request × S)
  serve_ring [] s = (ok, ([], s))
  serve_ring (r ∷ rs) s = let (rc, s') = handle r s in lose_failed rc (serve_ring rs s') (rs, s')

  -- The loop returned the status and the state of `r`, and the ring holds the requests that are left.
  pub record Drained (out : Option Status) (rx : Ring) (s : S)
      (reference : Status × (List Request × S)) : Type 0 where
    pub status : out ≡ some (reference.0)
    pub queue : IsQueue rx (map bytes_of (reference.1.0))
    pub state : s ≡ reference.1.1

  round_lem :
      (rc : Status) (rs : List Request) (rx : Ring) (s : S) (out : Option Status) (r' : Ring)
      (t : S) (reference : Status × (List Request × S))
      → IsQueue rx (map bytes_of rs)
      → Drained out r' t reference
      → (let (out', (r'', s')) = after_frame handle rc (out, (r', t)) (rx, s) in
          Drained out' r'' s' (lose_failed rc reference (rs, s)))
  round_lem ok rs rx s out r' t reference q h = h
  round_lem other rs rx s out r' t reference q h = record { status = refl; queue = q; state = refl }

  -- A ring that holds the frames of any number of requests: with more rounds than requests,
  -- `drain_client_shm` handles them in order and each of them once, up to the first that is not
  -- BC_OK, and returns its status. The ring then holds the requests behind that one: unlike the
  -- receive buffer, it has lost the request that failed.
  pub drain_ring-serve :
      (n : ℕ) (rs : List Request) (rx : Ring) (s : S)
      → All CanSend rs
      → IsQueue rx (map bytes_of rs)
      → length rs < n
      → let (out, (rx', s')) = drain_ring handle n rx s in Drained out rx' s' (serve_ring rs s)
  unfolding drain_ring
  drain_ring-serve zero rs rx s v q k = elim k [ ]
  drain_ring-serve (suc n) [] rx s v q k =
      rw (ring_read_empty rx client_frame_max q) (record { status = refl; queue = q; state = refl })
  drain_ring-serve (suc n) (r ∷ rs) rx s (v, vs) q k =
      let (rx', read, left) =
        ring_read_next rx (bytes_of r) (map bytes_of rs) client_frame_max q (bytes_of-fits r v) in
      let (rc, s') = handle r s in
      let ih = drain_ring-serve n rs rx' s' vs left (omega arith) in
      let (out, (r'', t)) = drain_ring handle n rx' s' in
      let step = round_lem rc rs rx' s' out r'' t (serve_ring rs s') left ih in
      rw (read, process_frame_buffer-bytes_of handle r s v) step
