-- ===== src/Store/Usage/Consume.antt =====
-- `consumeVolume`: what a draw takes from the entitlements of an account.
use mathlib.Core.List.{Memᴰ}
use fips_exit_gate.Base.{
  ℕ, suc, ◌+◌, ◌-◌, ◌≤◌, ◌<◌, ◌≡◌, ◌∙◌, refl, sym, ap, Bool, true, false, Option, none, some, List,
  [], ◌∷◌, arith, ◌==◌, ==_refl, ltb, if◌then◌else◌, length, min, All, Bool-cases, some_eq, inl,
  inr, ◌⊎◌,
}
use fips_exit_gate.Store.State.{Entitlement}
use fips_exit_gate.Store.Authz.{any}
use fips_exit_gate.Store.Authz.Paid.{of_any}
use fips_exit_gate.Store.Usage.{draws, sooner, earliest, use_volume}

unfoldable pub has_id : ℕ → List Entitlement → Bool
unfolding any
has_id id es = any (λ (e : Entitlement). e.id == id) es

-- No two rows have the same id.
abbrev pub IsKeyed : List Entitlement → Type 0
IsKeyed [] = Unit
IsKeyed (e ∷ es) = (has_id e.id es ≡ false) × IsKeyed es

-- The bytes that all entitlements have been charged.
unfoldable pub spent : List Entitlement → ℕ
spent [] = 0
spent (e ∷ es) = e.volume_used + spent es

-- No entitlement is charged beyond its volume.
abbrev pub IsWithin : List Entitlement → Type 0
IsWithin = All (λ (e : Entitlement). e.volume_used ≤ e.volume_bytes)

pub use_volume-absent :
    (id n : ℕ) (es : List Entitlement) → has_id id es ≡ false → use_volume id n es ≡ es
unfolding has_id use_volume
use_volume-absent id n [] h = refl
use_volume-absent id n (e ∷ es) h = elim (Bool-cases (e.id == id)) [
  | inl y ↦ cc (rw y at h)
  | inr x ↦ rw x (ap (◌∷◌ e) (use_volume-absent id n es (rw x at h)))
]

has_id-use_volume :
    (j id n : ℕ) (es : List Entitlement) → has_id j (use_volume id n es) ≡ has_id j es
unfolding has_id use_volume
has_id-use_volume j id n [] = refl
has_id-use_volume j id n (e ∷ es) = ground (arith, has_id-use_volume j id n es)

pub IsKeyed-use_volume :
    (id n : ℕ) (es : List Entitlement) → IsKeyed es → IsKeyed (use_volume id n es)
unfolding use_volume
IsKeyed-use_volume id n [] k = tt
IsKeyed-use_volume id n (e ∷ es) k =
    (ground (arith, has_id-use_volume e.id id n es, k.0), IsKeyed-use_volume id n es k.1)

-- The row of an id that stands in the tail is not the head's.
pub other_id :
    (e x : Entitlement) (es : List Entitlement)
    → Memᴰ e es
    → has_id x.id es ≡ false
    → (x.id == e.id) ≡ false
unfolding has_id
other_id e x es m absent = elim (Bool-cases (x.id == e.id)) [
  | inr n ↦ n
  | inl y ↦ cc (of_any (λ (z : Entitlement). z.id == x.id) es m (ground (arith, y)))
]

module _ (now acct : ℕ) where
  unfoldable pub left_of : Entitlement → ℕ
  left_of e = if draws now acct e then e.volume_bytes - e.volume_used else 0

  -- The bytes that the account can still draw.
  unfoldable pub capacity : List Entitlement → ℕ
  unfolding left_of
  capacity [] = 0
  capacity (e ∷ es) = left_of e + capacity es

  unfoldable pub sources : List Entitlement → ℕ
  sources [] = 0
  sources (e ∷ es) = (if draws now acct e then 1 else 0) + sources es

  pub zero_capacity : (es : List Entitlement) → earliest now acct es ≡ none → capacity es ≡ 0
  unfolding earliest capacity left_of
  zero_capacity [] h = refl
  zero_capacity (e ∷ es) h = ground (arith, zero_capacity es)

  sooner_pick :
      (e : Entitlement) (o : Option Entitlement) → (sooner e o ≡ e) ⊎ (o ≡ some (sooner e o))
  unfolding sooner
  sooner_pick e none = inl refl
  sooner_pick e (some f) = elim (Bool-cases (ltb f.expires_at e.expires_at)) [
    | inl y ↦ inr (rw y refl)
    | inr n ↦ inl (rw n refl)
  ]

  -- The chosen row is one that may be drawn from.
  pub earliest_ok :
      (es : List Entitlement) {e : Entitlement}
      → earliest now acct es ≡ some e
      → Memᴰ e es × (draws now acct e ≡ true)
  unfolding earliest
  earliest_ok [] h = cc
  earliest_ok (x ∷ es) {e = e} h = elim (Bool-cases (draws now acct x)) [
    | inr n ↦ let (m, d) = earliest_ok es (rw n at h) in (Memᴰ.tail m, d)
    | inl y ↦
        let same = some_eq (rw y at h) in
        elim (sooner_pick x (earliest now acct es)) [
          | inl here ↦
              let is : x ≡ e = sym here ∙ same in
              (Memᴰ.head (sym is), ap (draws now acct) (sym is) ∙ y)
          | inr there ↦ let (m, d) = earliest_ok es (there ∙ ap some same) in (Memᴰ.tail m, d)
        ]
  ]

  left_less :
      (e : Entitlement) (n : ℕ)
      → draws now acct e ≡ true
      → n ≤ e.volume_bytes - e.volume_used
      → left_of (record e { volume_used = e.volume_used + n }) + n ≡ left_of e
  unfolding left_of draws
  left_less e n d fits = ground arith

  -- A draw moves its bytes from the capacity to the charges.
  pub use_volume-move :
      (n : ℕ) (es : List Entitlement) {e : Entitlement}
      → Memᴰ e es
      → IsKeyed es
      → draws now acct e ≡ true
      → n ≤ e.volume_bytes - e.volume_used
      → (capacity (use_volume e.id n es) + n ≡ capacity es)
        × (spent (use_volume e.id n es) ≡ spent es + n)
  unfolding use_volume capacity spent
  use_volume-move n [] m k d fits = elim m [ ]
  use_volume-move n (x ∷ es) {e = e} (Memᴰ.head same) k d fits =
      let absent : has_id e.id es ≡ false = ap (λ (z : Entitlement). has_id z.id es) same ∙ k.0 in
      rw (← same, ==_refl e.id, use_volume-absent e.id n es absent)
        (omega (arith, left_less e n d fits), omega arith)
  use_volume-move n (x ∷ es) {e = e} (Memᴰ.tail m) k d fits =
      let (c, s) = use_volume-move n es m k.1 d fits in
      rw (other_id e x es m k.0) (omega (arith, c), omega (arith, s))

  exhausted :
      (e : Entitlement)
      → draws now acct (record e { volume_used = e.volume_used + (e.volume_bytes - e.volume_used) })
        ≡ false
  unfolding draws
  exhausted e = ground arith

  -- A draw of all that a row has left ends it as a source.
  pub use_volume-sources :
      (es : List Entitlement) {e : Entitlement}
      → Memᴰ e es
      → IsKeyed es
      → draws now acct e ≡ true
      → suc (sources (use_volume e.id (e.volume_bytes - e.volume_used) es)) ≡ sources es
  unfolding use_volume sources
  use_volume-sources [] m k d = elim m [ ]
  use_volume-sources (x ∷ es) {e = e} (Memᴰ.head same) k d =
      let absent : has_id e.id es ≡ false = ap (λ (z : Entitlement). has_id z.id es) same ∙ k.0 in
      rw
        (
          ← same,
          ==_refl e.id,
          use_volume-absent e.id (e.volume_bytes - e.volume_used) es absent,
          exhausted e,
          d,
        )
        (omega arith)
  use_volume-sources (x ∷ es) {e = e} (Memᴰ.tail m) k d =
      rw (other_id e x es m k.0) (omega (arith, use_volume-sources es m k.1 d))

  source_has_room : (e : Entitlement) → draws now acct e ≡ true → 0 < e.volume_bytes - e.volume_used
  unfolding draws
  source_has_room e d = ground arith

  pub sources-le : (es : List Entitlement) → sources es ≤ length es
  unfolding sources
  sources-le [] = omega arith
  sources-le (e ∷ es) = ground (arith, sources-le es)

  pub IsWithin-use_volume :
      (n : ℕ) (es : List Entitlement) {e : Entitlement}
      → Memᴰ e es
      → IsKeyed es
      → draws now acct e ≡ true
      → n ≤ e.volume_bytes - e.volume_used
      → IsWithin es
      → IsWithin (use_volume e.id n es)
  unfolding use_volume
  IsWithin-use_volume n [] m k d fits w = elim m [ ]
  IsWithin-use_volume n (x ∷ es) {e = e} (Memᴰ.head same) k d fits w =
      let absent : has_id e.id es ≡ false = ap (λ (z : Entitlement). has_id z.id es) same ∙ k.0 in
      rw (← same, ==_refl e.id, use_volume-absent e.id n es absent)
        (omega (arith, source_has_room e d, fits), w.1)
  IsWithin-use_volume n (x ∷ es) {e = e} (Memᴰ.tail m) k d fits w =
      rw (other_id e x es m k.0) (w.0, IsWithin-use_volume n es m k.1 d fits w.1)

  -- What a call of `consumeVolume` has done.
  pub record Charged (weighted : ℕ) (es after : List Entitlement) : Type 0 where
    pub charged : spent after ≡ spent es + min weighted (capacity es)
    pub drawn : capacity after ≡ capacity es - weighted
    pub within : IsWithin after
    pub keyed : IsKeyed after

  pub Charged-nothing : (es : List Entitlement) → IsWithin es → IsKeyed es → Charged 0 es es
  Charged-nothing es w k = record {
    charged = omega arith;
    drawn = omega arith;
    within = w;
    keyed = k;
  }
