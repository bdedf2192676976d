-- ===== src/File/Transfer/Cache.antt =====
-- The chunks that the sender of api/bc_file.c can send again.
use boardcommd.Base.{
  ℕ, zero, suc, ◌+◌, ◌%◌, ◌<◌, ◌≡◌, ◌≢◌, refl, sym, ap, ◌∙◌, subst, Bool, true, false, ◌&&◌, List,
  [], ◌∷◌, Bytes, Option, none, some, ◌==◌, ltb, leb, length, length-set, get_or, get_or-set_self,
  get_or-set_ne, set, replicate, length-replicate, arith, if◌then◌else◌, Bool-cases, inl, inr,
}
use boardcommd.File.{CacheSlot, find_cache_slot, store_cache_slot}
use boardcommd.File.Transfer.{retx_window, empty_cache}

abbrev pub slot_of : ℕ → Bytes → CacheSlot
slot_of seq bytes = record { valid = true; seq = seq; bytes = bytes }

abbrev pub no_slot : CacheSlot
no_slot = record { valid = false; seq = 0; bytes = [] }

-- What is kept of the chunks `0 ... n - 1`: the last 256.
abbrev pub kept : ℕ → (ℕ → Bytes) → ℕ → Option CacheSlot
kept n nth v = if ltb v n && leb n (v + retx_window) then some (slot_of v (nth v)) else none

-- a slot, if it holds the chunk `v`
abbrev holding : CacheSlot → ℕ → Option CacheSlot
holding s v = if s.valid && (s.seq == v) then some s else none

-- The slots from the index `k` on hold the chunks that belong there.
abbrev IsPlaced : List CacheSlot → ℕ → Type 0
IsPlaced cache k =
    (i : ℕ)
    → i < length cache
    → (get_or cache i no_slot).valid ≡ true
    → (get_or cache i no_slot).seq % 256 ≡ k + i

tail-IsPlaced :
    (s : CacheSlot) (ss : List CacheSlot) (k : ℕ) → IsPlaced (s ∷ ss) k → IsPlaced ss (suc k)
tail-IsPlaced s ss k p i l h = omega (arith, p (suc i) (omega arith) h)

find_none :
    (cache : List CacheSlot) (k v : ℕ)
    → IsPlaced cache k
    → v % 256 < k
    → find_cache_slot cache v ≡ none
unfolding find_cache_slot
find_none [] k v p l = refl
find_none (s ∷ ss) k v p l =
    let rest = find_none ss (suc k) v (tail-IsPlaced s ss k p) (omega arith) in
    let here = p 0 (omega arith) in ground (arith, rest, here)

find_at :
    (cache : List CacheSlot) (k j v : ℕ)
    → IsPlaced cache k
    → v % 256 ≡ k + j
    → j < length cache
    → find_cache_slot cache v ≡ holding (get_or cache j no_slot) v
unfolding find_cache_slot
find_at [] k j v p e l = elim l [ ]
find_at (s ∷ ss) k zero v p e l =
    let rest = find_none ss (suc k) v (tail-IsPlaced s ss k p) (omega arith) in ground (arith, rest)
find_at (s ∷ ss) k (suc j) v p e l =
    let here = p 0 (omega arith) in
    ground
      (arith, find_at ss (suc k) j v (tail-IsPlaced s ss k p) (omega arith) (omega arith), here)

-- The cache after `n` chunks.
pub record IsCache (nth : ℕ → Bytes) (n : ℕ) (cache : List CacheSlot) : Type 0 where
  pub sized : length cache ≡ retx_window
  pub placed : IsPlaced cache 0
  pub found : (v : ℕ) → holding (get_or cache (v % 256) no_slot) v ≡ kept n nth v

get_or-replicate : (n i : ℕ) → get_or (replicate n no_slot) i no_slot ≡ no_slot
get_or-replicate zero i = refl
get_or-replicate (suc n) zero = refl
get_or-replicate (suc n) (suc i) = get_or-replicate n i

nothing_kept : (nth : ℕ → Bytes) (v : ℕ) → holding no_slot v ≡ kept 0 nth v
nothing_kept nth v = ground arith

cleared-IsCache :
    (nth : ℕ → Bytes) (cache : List CacheSlot)
    → length cache ≡ retx_window
    → ((i : ℕ) → get_or cache i no_slot ≡ no_slot)
    → IsCache nth 0 cache
cleared-IsCache nth cache l h = record {
  sized = l;
  placed = λ i below valid. absurd (cc (valid, ap (λ (s : CacheSlot). s.valid) (h i)));
  found = λ v. ap (λ (s : CacheSlot). holding s v) (h (v % 256)) ∙ nothing_kept nth v;
}

pub empty-IsCache : (nth : ℕ → Bytes) → IsCache nth 0 empty_cache
empty-IsCache nth =
    cleared-IsCache nth empty_cache (length-replicate 256 no_slot) (get_or-replicate 256)

new_slot :
    (nth : ℕ → Bytes) (n v : ℕ)
    → v % 256 ≡ n % 256
    → holding (slot_of n (nth n)) v ≡ kept (suc n) nth v
new_slot nth n v e = elim (Bool-cases (n == v)) [
  | inl same ↦
      let q : n ≡ v = ground (arith, same) in
      subst (λ (u : ℕ). holding (slot_of n (nth n)) u ≡ kept (suc n) nth u) q (ground arith)
  | inr other ↦ ground (arith, other, e)
]

old_slot : (nth : ℕ → Bytes) (n v : ℕ) → v % 256 ≢ n % 256 → kept n nth v ≡ kept (suc n) nth v
old_slot nth n v e =
    let same : (ltb v n && leb n (v + 256)) ≡ (ltb v (suc n) && leb (suc n) (v + 256)) =
      ground (arith, e) in
    ap (λ (b : Bool). if b then some (slot_of v (nth v)) else none) same

module _ (nth : ℕ → Bytes) (n : ℕ) (cache : List CacheSlot) (c : IsCache nth n cache) where
  abbrev stored : List CacheSlot
  stored = set cache (n % 256) (slot_of n (nth n))

  stored_here : get_or stored (n % 256) no_slot ≡ slot_of n (nth n)
  stored_here = get_or-set_self cache (n % 256) (slot_of n (nth n)) no_slot (omega (arith, c.sized))

  stored_there : (i : ℕ) → n % 256 ≢ i → get_or stored i no_slot ≡ get_or cache i no_slot
  stored_there i ne = get_or-set_ne cache (n % 256) i (slot_of n (nth n)) no_slot ne

  set_placed :
      (i : ℕ)
      → i < length cache
      → (get_or stored i no_slot).valid ≡ true
      → (get_or stored i no_slot).seq % 256 ≡ 0 + i
  set_placed i below valid = elim (Bool-cases (n % 256 == i)) [
    | inl same ↦
        let q : n % 256 ≡ i = ground (arith, same) in
        subst (λ (k : ℕ). (get_or stored k no_slot).seq % 256 ≡ 0 + k) q
          (ap (λ (s : CacheSlot). s.seq % 256) stored_here ∙ omega arith)
    | inr other ↦
        let e = stored_there i (λ q. ground (arith, q, other)) in
        ap (λ (s : CacheSlot). s.seq % 256) e
        ∙ c.placed i below (ap (λ (s : CacheSlot). s.valid) (sym e) ∙ valid)
  ]

  set_found : (v : ℕ) → holding (get_or stored (v % 256) no_slot) v ≡ kept (suc n) nth v
  set_found v = elim (Bool-cases (n % 256 == v % 256)) [
    | inl same ↦
        let q : n % 256 ≡ v % 256 = ground (arith, same) in
        ap (λ (k : ℕ). holding (get_or stored k no_slot) v) (sym q)
        ∙ ap (λ (s : CacheSlot). holding s v) stored_here
        ∙ new_slot nth n v (sym q)
    | inr other ↦
        let ne : n % 256 ≢ v % 256 = λ q. ground (arith, q, other) in
        ap (λ (s : CacheSlot). holding s v) (stored_there (v % 256) ne)
        ∙ c.found v
        ∙ old_slot nth n v (λ q. ne (sym q))
  ]

pub store-IsCache :
    (nth : ℕ → Bytes) (n : ℕ) (cache : List CacheSlot)
    → IsCache nth n cache
    → IsCache nth (suc n) (store_cache_slot cache n (nth n))
unfolding store_cache_slot
store-IsCache nth n cache c =
    let s = slot_of n (nth n) in
    let at : n % length cache ≡ n % 256 = ap (λ (k : ℕ). n % k) c.sized in
    let inside : n % 256 < length cache = omega (arith, c.sized) in
    let e = ap (λ (k : ℕ). set cache k s) at in
    subst (IsCache nth (suc n)) (sym e) (record {
      sized = length-set cache (n % 256) s ∙ c.sized;
      placed = λ i below valid.
          set_placed nth n cache c i (omega (arith, length-set cache (n % 256) s)) valid;
      found = λ v. set_found nth n cache c v;
    })

-- A well-formed cache gives back a chunk exactly if it is one of the last 256.
pub find_cache_slot-kept :
    (nth : ℕ → Bytes) (n : ℕ) (cache : List CacheSlot) (v : ℕ)
    → IsCache nth n cache
    → find_cache_slot cache v ≡ kept n nth v
find_cache_slot-kept nth n cache v c =
    find_at cache 0 (v % 256) v c.placed (omega arith) (omega (arith, c.sized)) ∙ c.found v
