-- ===== src/Client/Table/Deliver.antt =====
-- `deliver_to_client` of src/daemon/client_manager.c: what the client gets, and that no other
-- client is touched.
use boardcommd.Base.{
  ℕ, Bool, ◌≡◌, ◌≢◌, refl, sym, ◌∙◌, subst, List, [], ◌∷◌, Bytes, Option, none, some, arith,
}
use boardcommd.Types.{Status, ok}
use boardcommd.Ipc.{ipc_shm_kick}
use boardcommd.Shm.{ring_write}
use boardcommd.Shm.Queue.{IsQueue}
use boardcommd.Shm.Write.{Written, ring_write_lem}
use boardcommd.Client.{Tx, enqueue_client_tx}
use boardcommd.Client.Pending.{IsTx, Enqueued, queued, refused, enqueue_client_tx_lem}
use boardcommd.Client.Table.{
  Session, ClientCtx, find_client, put_client, own_header, kick_after, deliver_into, deliver_found,
  deliver_to_client,
}

pub find_client-fd :
    (cs : List ClientCtx) (fd : ℕ) (c : ClientCtx) → find_client cs fd ≡ some c → c.fd ≡ fd
unfolding find_client
find_client-fd [] fd c e = ground (arith, e)
find_client-fd (d ∷ cs) fd c e = let ih = find_client-fd cs fd c in ground (arith, e, ih)

pub find_client-put_client :
    (cs : List ClientCtx) (fd : ℕ) (old new : ClientCtx)
    → new.fd ≡ fd
    → find_client cs fd ≡ some old
    → find_client (put_client new cs) fd ≡ some new
unfolding find_client put_client
find_client-put_client [] fd old new e h = ground (arith, h)
find_client-put_client (c ∷ cs) fd old new e h =
    let ih = find_client-put_client cs fd old new e in ground (arith, e, h, ih)

pub find_client-put_client_ne :
    (cs : List ClientCtx) (g : ℕ) (new : ClientCtx)
    → g ≢ new.fd
    → find_client (put_client new cs) g ≡ find_client cs g
unfolding find_client put_client
find_client-put_client_ne [] g new ne = refl
find_client-put_client_ne (c ∷ cs) g new ne =
    let ih = find_client-put_client_ne cs g new ne in ground (arith, ne, ih)

-- The ring to the client holds the messages of the queue, if there is shared memory.
abbrev pub Rings : Option Session → List Bytes → Type 0
Rings none ms = Unit
Rings (some x) ms = IsQueue x.tx ms

-- What a delivery does to the client `c`.
pub data Took (c : ClientCtx) (ms : List Bytes) (frame : Bytes) (rc : Status) (c' : ClientCtx)
    : Type 0 where
  by_socket :
      c.shm ≡ none
      → c'.shm ≡ none
      → c'.rx ≡ c.rx
      → Enqueued c.tx frame rc c'.tx
      → Took c ms frame rc c'
  by_ring :
      (x x' : Session)
      → c.shm ≡ some x
      → c'.shm ≡ some x'
      → c'.rx ≡ c.rx
      → x'.rx ≡ x.rx
      → Written x.tx ms frame rc x'.tx
      → IsTx c'.tx
      → Took c ms frame rc c'

-- The client with descriptor `fd` took the delivery, and the others are as they were.
pub record DeliveredTo (cs : List ClientCtx) (fd : ℕ) (c : ClientCtx) (ms : List Bytes)
    (frame : Bytes) (rc : Status) (cs' : List ClientCtx) : Type 0 where
  pub client : ClientCtx
  pub found : find_client cs' fd ≡ some client
  pub took : Took c ms frame rc client
  pub others : (g : ℕ) → g ≢ fd → find_client cs' g ≡ find_client cs g

module _ {W : Type 0} (reactor_mod : ℕ → Bool → W → Status × W) where
  tx_after : (t : Tx) (bs : Bytes) (rc : Status) (t' : Tx) → Enqueued t bs rc t' → IsTx t'
  tx_after t bs rc t' (queued _ i _) = i
  tx_after t bs rc t' (refused _ _ i _) = i

  -- the delivery through the ring, for the status that the ring gave
  kick_lem :
      (rc : Status) (x x' : Session) (c c' : ClientCtx) (ms : List Bytes) (frame : Bytes)
      (cs : List ClientCtx) (fd : ℕ) (w : W)
      → c.shm ≡ some x
      → c'.shm ≡ some x'
      → c'.rx ≡ c.rx
      → c'.fd ≡ fd
      → x'.rx ≡ x.rx
      → Written x.tx ms frame rc x'.tx
      → IsTx c'.tx
      → find_client cs fd ≡ some c
      → let (out, (cs', w')) = kick_after reactor_mod rc c' (put_client c' cs, w) in
        DeliveredTo cs fd c ms frame out cs'
  kick_lem ok x x' c c' ms frame cs fd w s s' r d k wr i f =
      let kick = own_header ipc_shm_kick 0 in
      let (_, (t', w')) = enqueue_client_tx (reactor_mod c'.fd) c'.tx kick w in
      let q = enqueue_client_tx_lem (reactor_mod c'.fd) c'.tx kick w i in
      let once = find_client-put_client cs fd c c' d f in
      record {
        client = record c' { tx = t' };
        found = find_client-put_client (put_client c' cs) fd c' (record c' { tx = t' }) d once;
        took = by_ring x x' s s' r k wr (tx_after c'.tx kick _ t' q);
        others = λ g ne.
            let ne' : g ≢ c'.fd = λ e. ne (e ∙ d) in
            find_client-put_client_ne (put_client c' cs) g (record c' { tx = t' }) ne'
            ∙ find_client-put_client_ne cs g c' ne';
      }
  kick_lem rc x x' c c' ms frame cs fd w s s' r d k wr i f = record {
    client = c';
    found = find_client-put_client cs fd c c' d f;
    took = by_ring x x' s s' r k wr i;
    others = λ g ne. find_client-put_client_ne cs g c' (λ e. ne (e ∙ d));
  }

  into_lem :
      (m : Option Session) (c : ClientCtx) (ms : List Bytes) (frame : Bytes) (cs : List ClientCtx)
      (fd : ℕ) (w : W)
      → c.shm ≡ m
      → IsTx c.tx
      → Rings m ms
      → c.fd ≡ fd
      → find_client cs fd ≡ some c
      → let (rc, (cs', w')) = deliver_into reactor_mod m c frame (cs, w) in
        DeliveredTo cs fd c ms frame rc cs'
  into_lem none c ms frame cs fd w s i q d f =
      let (_, (t', w')) = enqueue_client_tx (reactor_mod c.fd) c.tx frame w in
      record {
        client = record c { tx = t' };
        found = find_client-put_client cs fd c (record c { tx = t' }) d f;
        took = by_socket s s refl (enqueue_client_tx_lem (reactor_mod c.fd) c.tx frame w i);
        others = λ g ne. find_client-put_client_ne cs g (record c { tx = t' }) (λ e. ne (e ∙ d));
      }
  into_lem (some x) c ms frame cs fd w s i q d f =
      let (rc, tx') = ring_write x.tx frame in
      let x' : Session = record { rx = x.rx; tx = tx' } in
      let c' : ClientCtx = record c { shm = some x' } in
      kick_lem rc x x' c c' ms frame cs fd w s refl refl d refl (ring_write_lem x.tx ms frame q) i f

  -- `deliver_to_client` for a client whose queue lies within its buffer and whose ring, if it has
  -- one, holds a queue of messages. Without shared memory the frame is put behind the bytes that
  -- wait, exactly if they leave room for it; with shared memory it is put into the ring, exactly if
  -- that has room, and the queue of bytes lies within its buffer again. What the client has sent,
  -- and all other clients, stay as they were.
  pub deliver_to_client_lem :
      (cs : List ClientCtx) (fd : ℕ) (c : ClientCtx) (ms : List Bytes) (frame : Bytes) (w : W)
      → find_client cs fd ≡ some c
      → IsTx c.tx
      → Rings c.shm ms
      → let (rc, (cs', w')) = deliver_to_client reactor_mod fd frame (cs, w) in
        DeliveredTo cs fd c ms frame rc cs'
  unfolding deliver_to_client
  deliver_to_client_lem cs fd c ms frame w f i q =
      subst
        (λ o.
          let (rc, (cs', w')) = deliver_found reactor_mod o frame (cs, w) in
          DeliveredTo cs fd c ms frame rc cs')
        (sym f) (into_lem c.shm c ms frame cs fd w refl i q (find_client-fd cs fd c f) f)
