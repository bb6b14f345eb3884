-- ===== src/Store/Wg/Issue.antt =====
-- The WireGuard peer table through every operation on it.
use native.Mathlib.Nat.{mod-lt, two-pow-succ}
use fips_exit_gate.Base.{
  ℕ, zero, suc, ◌+◌, ◌^◌, ◌≤◌, ◌<◌, ◌≡◌, refl, ◌⊎◌, inl, inr, Bool, true, false, List, [], ◌∷◌,
  arith, ◌==◌, length, keep, All, Bool-cases, ==_iff,
}
use fips_exit_gate.Store.Authz.{any}
use fips_exit_gate.Store.Keys.{WgText, valid_wg_key}
use fips_exit_gate.Store.Wg.{
  Pool4, slots, host_bits, WgPeer, WgDb, has_idx, has_key, count_peers, slot, allocate,
}

-- No two peers share a slot or a key.
abbrev pub IsDistinct : List WgPeer → Type 0
IsDistinct [] = Unit
IsDistinct (p ∷ ps) = (has_idx p.idx ps ≡ false) × (has_key p.pubkey ps ≡ false) × IsDistinct ps

pub record IsTable (t : WgText) (size cap : ℕ) (peers : List WgPeer) : Type 0 where
  pub distinct : IsDistinct peers
  pub in_pool : All (λ (p : WgPeer). (2 ≤ p.idx) × (p.idx < 2 + size)) peers
  pub keys : All (λ (p : WgPeer). valid_wg_key t p.pubkey ≡ true) peers
  pub capped : (addr : ℕ) → count_peers addr peers ≤ cap

no_three : (h : ℕ) → 2 ^ h ≡ 3 → ⊥
no_three zero e = omega arith
no_three (suc h) e = omega (arith, two-pow-succ h)

pub slots-pos : (p : Pool4) → 0 < slots p
unfolding slots
slots-pos p = ground (arith, no_three (host_bits p))

any-keep :
    {A : Type 0} (q p : A → Bool) (xs : List A) → any q xs ≡ false → any q (keep p xs) ≡ false
unfolding any
any-keep q p [] h = refl
any-keep q p (x ∷ xs) h = ground (arith, any-keep q p xs)

All-keep : {A : Type 0} (P : A → Type 0) (p : A → Bool) (xs : List A) → All P xs → All P (keep p xs)
All-keep P p [] h = tt
All-keep P p (x ∷ xs) (h, hs) = elim (Bool-cases (p x)) [
  | inl y ↦ rw y (h, All-keep P p xs hs)
  | inr n ↦ rw n (All-keep P p xs hs)
]

length-keep-keep :
    {A : Type 0} (q p : A → Bool) (xs : List A) → length (keep q (keep p xs)) ≤ length (keep q xs)
length-keep-keep q p [] = omega arith
length-keep-keep q p (x ∷ xs) = ground (arith, length-keep-keep q p xs)

keep-IsDistinct : (p : WgPeer → Bool) (ps : List WgPeer) → IsDistinct ps → IsDistinct (keep p ps)
unfolding has_idx has_key
keep-IsDistinct p [] d = tt
keep-IsDistinct p (x ∷ xs) (i, k, d) = elim (Bool-cases (p x)) [
  | inl y ↦ rw y (any-keep _ p xs i, any-keep _ p xs k, keep-IsDistinct p xs d)
  | inr n ↦ rw n (keep-IsDistinct p xs d)
]

module _ (t : WgText) (size cap : ℕ) where
  pub keep-IsTable :
      (p : WgPeer → Bool) (ps : List WgPeer)
      → IsTable t size cap ps
      → IsTable t size cap (keep p ps)
  unfolding count_peers
  keep-IsTable p ps v = record {
    distinct = keep-IsDistinct p ps v.distinct;
    in_pool = All-keep _ p ps v.in_pool;
    keys = All-keep _ p ps v.keys;
    capped = λ addr.
        omega (arith, v.capped addr, length-keep-keep (λ (w : WgPeer). w.fips_addr == addr) p ps);
  }

-- Nothing is inserted, or a row in a free slot with a new key.
abbrev pub Allocates : ℕ → (ℕ → WgPeer) → WgDb → WgDb → Type 0
Allocates size row s s' =
    (s'.peers ≡ s.peers)
    ⊎ ((n : ℕ) × (s'.peers ≡ row (slot size n) ∷ s.peers)
        × (has_idx (row (slot size n)).idx s.peers ≡ false)
        × (has_key (row (slot size n)).pubkey s.peers ≡ false))

pub allocate-Allocates :
    (tries size : ℕ) (row : ℕ → WgPeer) (s : WgDb)
    → Allocates size row s (allocate tries size row s).0
unfolding allocate
allocate-Allocates zero size row s = inl refl
allocate-Allocates (suc tries) size row s =
    let p = row (slot size (s.alloc + 1)) in
    let ih = allocate-Allocates tries size row (record s { alloc = s.alloc + 1 }) in
    elim (Bool-cases (has_idx p.idx s.peers)) [
      | inl taken ↦ rw taken ih
      | inr free ↦ elim (Bool-cases (has_key p.pubkey s.peers)) [
        | inl dup ↦ rw (free, dup) (inl refl)
        | inr new ↦ rw (free, new) (inr (s.alloc + 1, refl, free, new))
      ]
    ]

module _ (t : WgText) (size cap : ℕ) (some_slot : 0 < size) where
  add-IsTable :
      (p : WgPeer) (n : ℕ) (ps : List WgPeer)
      → IsTable t size cap ps
      → p.idx ≡ slot size n
      → has_idx p.idx ps ≡ false
      → has_key p.pubkey ps ≡ false
      → valid_wg_key t p.pubkey ≡ true
      → count_peers p.fips_addr ps < cap
      → IsTable t size cap (p ∷ ps)
  unfolding count_peers slot
  add-IsTable p n ps v at free new valid room = record {
    distinct = (free, new, v.distinct);
    in_pool = (ground (arith, mod-lt n some_slot), v.in_pool);
    keys = (valid, v.keys);
    capped = λ addr. elim (Bool-cases (p.fips_addr == addr)) [
      | inl mine ↦ rw mine (rw ((==_iff p.fips_addr addr).0 mine) at room)
      | inr other ↦ rw other (v.capped addr)
    ];
  }

  pub allocated-IsTable :
      (row : ℕ → WgPeer) (addr : ℕ) (key : List ℕ) (s s' : WgDb)
      → IsTable t size cap s.peers
      → ((i : ℕ) → ((row i).idx ≡ i) × ((row i).pubkey ≡ key) × ((row i).fips_addr ≡ addr))
      → valid_wg_key t key ≡ true
      → count_peers addr s.peers < cap
      → Allocates size row s s'
      → IsTable t size cap s'.peers
  allocated-IsTable row addr key s s' v fields valid room (inl same) = rw same v
  allocated-IsTable row addr key s s' v fields valid room (inr (n, at, free, new)) =
      let (i, k, a) = fields (slot size n) in
      rw at (add-IsTable (row (slot size n)) n s.peers v i free new (rw k valid) (rw a room))
