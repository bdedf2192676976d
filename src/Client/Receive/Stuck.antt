-- ===== src/Client/Receive/Stuck.antt =====
-- A publication that src/daemon/client_manager.c keeps in the receive buffer.
use boardcommd.Base.{
  ℕ, suc, ◌≡◌, refl, sym, ap, ◌∙◌, subst, ◌⊎◌, inl, inr, true, false, Bytes, ◌++◌, Option, some,
  ◌==◌, ltb, length, arith, if_intro,
}
use boardcommd.Types.{Status, ok, nomem, not_found, Message}
use boardcommd.Ipc.{ipc_subscribe, ipc_publish}
use boardcommd.Router.{route}
use boardcommd.Bus.{Bus}
use boardcommd.Bus.Send.{is_ok, should_deliver_local}
use boardcommd.Bus.Deliver.{Local, refused, delivered, deliver_local}
use boardcommd.Bus.Publish.{
  publish, publish_local, publish_network, stamp, need_network, next_seq_after, delivered_of,
  or_nomem,
}
use boardcommd.Client.Frame.{Request}
use boardcommd.Client.Dispatch.{published, process_ipc_payload}
use boardcommd.Client.Receive.{process_messages, consume, next_message}
use boardcommd.Client.Receive.Serve.{CanSend, bytes_of, one_lem}

-- the two statuses with which the loop over the frames stops and keeps the frame
abbrev Keeps : Status → Type 0
Keeps rc = (rc ≡ not_found) ⊎ (rc ≡ nomem)

-- a publication of the client finds no route, on a bus that requires one
pub record NoRoute (b : Bus) (m : Message) : Type 0 where
  pub strict : b.require_route ≡ true
  pub needed : need_network b (stamp b m) ≡ true
  pub no_route : is_ok ((route b.router (stamp b m)).0) ≡ false

-- the settings that a local delivery leaves alone
abbrev SameSettings : Bus → Bus → Type 0
SameSettings b b' = (b'.router ≡ b.router) × (b'.require_route ≡ b.require_route)

or_nomem-Keeps : (l : Local) → Keeps (or_nomem l not_found)
or_nomem-Keeps refused = inr refl
or_nomem-Keeps (delivered n) = inl refl

module _ {W : Type 0} (send deliver : ℕ → Bytes → W → Status × W) where
  deliver_local-SameSettings :
      (source : Option ℕ) (m : Message) (b : Bus) (w : W)
      → SameSettings b ((deliver_local deliver source m (b, w)).1.0)
  unfolding deliver_local
  deliver_local-SameSettings source m b w =
      if_intro (SameSettings b) _ (λ _. (refl, refl)) (λ _. (refl, refl))

  publish_local-SameSettings :
      (source : Option ℕ) (m : Message) (b : Bus) (w : W)
      → SameSettings b ((publish_local send deliver source m (b, w)).1.0)
  unfolding publish_local
  publish_local-SameSettings source m b w =
      let (l, (b', w')) = deliver_local deliver source m (b, w) in
      let same = deliver_local-SameSettings source m b w in
      if_intro (λ (r : Local × (Bus × W)). SameSettings b (r.1.0)) (should_deliver_local b m)
        (λ _. if_intro (SameSettings b) (ltb 0 (delivered_of l)) (λ _. same) (λ _. same))
        (λ _. (refl, refl))

  publish_network-Keeps :
      (l : Local) (m : Message) (b : Bus) (w : W)
      → b.require_route ≡ true
      → is_ok ((route b.router m).0) ≡ false
      → Keeps ((publish_network send deliver true l m (b, w)).0)
  unfolding publish_network
  publish_network-Keeps l m b w strict no_route = rw (no_route, strict) (or_nomem-Keeps l)

  publish-Keeps :
      (source : Option ℕ) (msg : Message) (b : Bus) (w : W)
      → NoRoute b msg
      → Keeps ((publish send deliver source msg (b, w)).0)
  unfolding publish
  publish-Keeps source msg b w v =
      let m = stamp b msg in
      let b1 = record b { next_seq = next_seq_after b msg } in
      let (l, (b2, w2)) = publish_local send deliver source m (b1, w) in
      let (router_is, strict_is) = publish_local-SameSettings source m b1 w in
      let fails : is_ok ((route b2.router m).0) ≡ false =
        ap (λ r. is_ok ((route r m).0)) router_is ∙ v.no_route in
      subst (λ need. Keeps ((publish_network send deliver need l m (b2, w2)).0)) (sym v.needed)
        (publish_network-Keeps l m b2 w2 (strict_is ∙ v.strict) fails)

module _ {S : Type 0} (handle : Request → S → Status × S) where
  -- The loop stopped without an error, and with all that was in the buffer.
  abbrev pub Stopped : Bytes → Option Status × (Bytes × S) → Type 0
  Stopped rx (out, (rx', s)) = ((out ≡ some ok) ⊎ (out ≡ some nomem)) × (rx' ≡ rx)

  kept_lem :
      (rc : Status) (n length_of : ℕ) (rx : Bytes) (s : S)
      → Keeps rc
      → Stopped rx (
          let (rc', (rx', s')) = consume handle rc length_of rx s in
          next_message handle rc' (process_messages handle n rx' s') (rx', s'))
  kept_lem not_found n length_of rx s k = (inl refl, refl)
  kept_lem nomem n length_of rx s k = (inr refl, refl)
  kept_lem other n length_of rx s k = ground (arith, k)

  stopped_lem :
      (n : ℕ) (r : Request) (tail : Bytes) (s : S)
      → CanSend r
      → Keeps ((handle r s).0)
      → Stopped (bytes_of r ++ tail) (process_messages handle (suc n) (bytes_of r ++ tail) s)
  unfolding process_messages
  stopped_lem n r tail s v k =
      let (rc, s') = handle r s in
      subst
        (λ x. Stopped (bytes_of r ++ tail) (
          let (rc', (rx', t)) = x in
          next_message handle rc' (process_messages handle n rx' t) (rx', t)))
        (sym (one_lem handle r tail s v))
        (kept_lem rc n (length (bytes_of r)) (bytes_of r ++ tail) s' k)

-- A bug: on a bus that requires a route, a publication that needs the network and finds no route
-- stays at the head of the receive buffer. Whatever the subscribers on this board answer and
-- whatever bytes the client has sent after it, `process_messages` returns BC_OK or BC_ERR_NOMEM, and
-- the whole buffer is as it was.
pub process_messages-NoRoute :
    {W : Type 0} (send deliver : ℕ → Bytes → W → Status × W)
    (reply_stats setup_shm : ℕ → Bus × W → Status × (Bus × W)) (fd n : ℕ) (r : Request)
    (tail : Bytes) (b : Bus) (w : W)
    → CanSend r
    → r.header.type ≡ ipc_publish
    → NoRoute b (published r)
    → let handle = process_ipc_payload send deliver reply_stats setup_shm fd in
      Stopped handle
        (bytes_of r ++ tail)
        (process_messages handle (suc n) (bytes_of r ++ tail) (b, w))
unfolding process_ipc_payload
process_messages-NoRoute send deliver reply_stats setup_shm fd n r tail b w v k route_fails =
    let handle = process_ipc_payload send deliver reply_stats setup_shm fd in
    let t1 : (r.header.type == ipc_subscribe) ≡ false = ground (arith, k) in
    let t2 : (r.header.type == ipc_publish) ≡ true = ground (arith, k) in
    let kept : Keeps ((handle r (b, w)).0) =
      rw (t1, t2) (publish-Keeps send deliver (some fd) (published r) b w route_fails) in
    stopped_lem handle n r tail (b, w) v kept
