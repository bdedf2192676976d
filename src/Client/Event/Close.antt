-- ===== src/Client/Event/Close.antt =====
-- Closing a client, in src/daemon/client_manager.c.
use boardcommd.Base.{ℕ, Bool, ◌≡◌, ◌≢◌, refl, List, [], ◌∷◌, Bytes, none, arith}
use boardcommd.Types.{Status, Result}
use boardcommd.Bus.{Bus}
use boardcommd.Bus.Subscriptions.{keep, remove_client_lem}
use boardcommd.Client.Table.{Session, ClientCtx, unlink_client, find_client}
use boardcommd.Client.Event.{close_client}

-- No two clients have the same descriptor.
abbrev pub Distinct : List ClientCtx → Type 0
Distinct [] = Unit
Distinct (c ∷ cs) = (find_client cs c.fd ≡ none) × Distinct cs

find-unlink :
    (cs : List ClientCtx) (fd : ℕ) → Distinct cs → find_client (unlink_client fd cs) fd ≡ none
unfolding find_client unlink_client
find-unlink [] fd d = refl
find-unlink (c ∷ cs) fd (e, d) = let ih = find-unlink cs fd d in ground (arith, e, ih)

find-unlink_ne :
    (cs : List ClientCtx) (fd g : ℕ)
    → g ≢ fd
    → find_client (unlink_client fd cs) g ≡ find_client cs g
unfolding find_client unlink_client
find-unlink_ne [] fd g ne = refl
find-unlink_ne (c ∷ cs) fd g ne = let ih = find-unlink_ne cs fd g ne in ground (arith, ne, ih)

-- What a client's end leaves behind.
pub record Closed (fd : ℕ) (b : Bus) (cs : List ClientCtx) (b' : Bus) (cs' : List ClientCtx)
    : Type 0 where
  pub gone : find_client cs' fd ≡ none
  pub others : (g : ℕ) → g ≢ fd → find_client cs' g ≡ find_client cs g
  pub bus_is : b' ≡ record b { subscriptions = keep fd b.subscriptions }

module _ {W : Type 0} (reactor_mod : ℕ → Bool → W → Status × W) (reactor_del close_fd : ℕ → W → W)
    (send : ℕ → Bytes → W → Status × W) (shm_create : W → Result Session × W)
    (send_fd : ℕ → W → Status × W) (shm_close : Session → W → W) where
  -- `close_client` in a list without a descriptor twice: no client has the descriptor any more, the
  -- others are found as they were, and of the bus only the subscriptions of the client are removed.
  pub close_client_lem :
      (fd : ℕ) (b : Bus) (cs : List ClientCtx) (w : W)
      → Distinct cs
      → let (b', (cs', w')) =
          close_client reactor_mod reactor_del close_fd send shm_create send_fd shm_close fd
            (b, (cs, w)) in
        Closed fd b cs b' cs'
  close_client_lem fd b cs w d = record {
    gone = find-unlink cs fd d;
    others = find-unlink_ne cs fd;
    bus_is = remove_client_lem b fd;
  }
