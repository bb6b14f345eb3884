-- ===== src/Store/Usage/Drawn.antt =====
-- `consumeVolume` against the rows of an account: what it may draw from, and what it leaves alone.
use mathlib.Core.List.{Memᴰ}
use mathlib.Core.Path.{subst}
use fips_exit_gate.Base.{
  ℕ, zero, suc, ◌+◌, ◌-◌, ◌≤◌, ◌≡◌, ◌∙◌, refl, ap, Bool, true, false, List, [], ◌∷◌, arith, ◌==◌,
  ==_refl, ◌&&◌, not, leb, ◌⊎◌, length, min, Bool-cases, Option-cases, inl, inr,
}
use fips_exit_gate.Store.State.{Kind, volume, time, Entitlement}
use fips_exit_gate.Store.Authz.{is_time}
use fips_exit_gate.Store.Usage.{draws, earliest, use_volume, consume_loop, consume_volume}
use fips_exit_gate.Store.Usage.Consume.{
  IsKeyed, IsWithin, spent, capacity, left_of, has_id, earliest_ok, IsKeyed-use_volume,
  use_volume-absent, other_id,
}
use fips_exit_gate.Store.Usage.Charge.{consume_volume-Charged}

module _ (now acct : ℕ) where
  -- A volume entitlement of the account, in its validity window.
  pub record IsOpen (e : Entitlement) : Type 0 where
    pub mine : e.account_id ≡ acct
    pub metered : e.kind ≡ volume
    pub started : e.starts_at ≤ now
    pub running : now ≤ e.expires_at

  -- The bytes that are left on the open rows.
  pub data Left : List Entitlement → ℕ → Type 0 where
    no_row : Left [] 0
    open_row :
        {e : Entitlement} {es : List Entitlement} {n : ℕ}
        → IsOpen e
        → Left es n
        → Left (e ∷ es) (e.volume_bytes - e.volume_used + n)
    other_row :
        {e : Entitlement} {es : List Entitlement} {n : ℕ} → ¬ IsOpen e → Left es n → Left (e ∷ es) n

  -- The rows after some charges: only open ones have been charged, and nothing else of them changed.
  pub data Drawn : List Entitlement → List Entitlement → Type 0 where
    no_row : Drawn [] []
    charged :
        {e : Entitlement} {es es' : List Entitlement} (used : ℕ)
        → IsOpen e
        → e.volume_used ≤ used
        → Drawn es es'
        → Drawn (e ∷ es) (record e { volume_used = used } ∷ es')
    kept : {e : Entitlement} {es es' : List Entitlement} → Drawn es es' → Drawn (e ∷ es) (e ∷ es')

  volume_of : (k : Kind) → is_time k ≡ false → k ≡ volume
  unfolding is_time
  volume_of volume h = refl
  volume_of time h = cc

  IsOpen-of_draws : (e : Entitlement) → draws now acct e ≡ true → IsOpen e
  unfolding draws
  IsOpen-of_draws e h =
      let metered : is_time e.kind ≡ false = ground arith in
      record {
        mine = ground arith;
        metered = volume_of e.kind metered;
        started = ground arith;
        running = ground arith;
      }

  -- An open row that may not be drawn from is used up.
  open_not_drawn :
      (e : Entitlement) → IsOpen e → draws now acct e ≡ false → e.volume_bytes - e.volume_used ≡ 0
  unfolding draws is_time
  open_not_drawn e o h =
      let metered : is_time e.kind ≡ false = rw o.metered refl in
      ground (arith, o.mine, metered, o.started, o.running)

  abbrev opens : Entitlement → Bool
  opens e =
      e.account_id == acct && not (is_time e.kind) && leb e.starts_at now && leb now e.expires_at

  IsOpen-of_test : (e : Entitlement) → opens e ≡ true → IsOpen e
  IsOpen-of_test e h =
      let metered : is_time e.kind ≡ false = ground arith in
      record {
        mine = ground arith;
        metered = volume_of e.kind metered;
        started = ground arith;
        running = ground arith;
      }

  test_of_IsOpen : (e : Entitlement) → IsOpen e → opens e ≡ true
  unfolding is_time
  test_of_IsOpen e o =
      let metered : is_time e.kind ≡ false = rw o.metered refl in
      ground (arith, o.mine, metered, o.started, o.running)

  dec-IsOpen : (e : Entitlement) → IsOpen e ⊎ (¬ IsOpen e)
  dec-IsOpen e = elim (Bool-cases (opens e)) [
    | inl y ↦ inl (IsOpen-of_test e y)
    | inr n ↦ inr (λ o. not_both (opens e) (test_of_IsOpen e o) n)
  ]
    where
      not_both : (b : Bool) → b ≡ true → b ≡ false → ⊥
      not_both b p q = cc

  Left-capacity : (es : List Entitlement) → Left es (capacity now acct es)
  unfolding capacity left_of
  Left-capacity [] = no_row
  Left-capacity (e ∷ es) = elim (Bool-cases (draws now acct e)) [
    | inl y ↦ rw y (open_row (IsOpen-of_draws e y) (Left-capacity es))
    | inr n ↦ rw n (elim (dec-IsOpen e) [
      | inl o ↦
          let all : e.volume_bytes - e.volume_used ≡ 0 = open_not_drawn e o n in
          subst (λ m. Left (e ∷ es) (m + capacity now acct es)) all (open_row o (Left-capacity es))
      | inr closed ↦
          let same : capacity now acct es ≡ 0 + capacity now acct es = omega arith in
          subst (Left (e ∷ es)) same (other_row closed (Left-capacity es))
    ])
  ]

  Drawn-refl : (es : List Entitlement) → Drawn es es
  Drawn-refl [] = no_row
  Drawn-refl (e ∷ es) = kept (Drawn-refl es)

  Drawn-trans : {es fs gs : List Entitlement} → Drawn es fs → Drawn fs gs → Drawn es gs
  Drawn-trans no_row no_row = no_row
  Drawn-trans (charged used o le d) (charged more p le' d') =
      charged more o (omega (arith, le, le')) (Drawn-trans d d')
  Drawn-trans (charged used o le d) (kept d') = charged used o le (Drawn-trans d d')
  Drawn-trans (kept d) (charged more p le' d') = charged more p le' (Drawn-trans d d')
  Drawn-trans (kept d) (kept d') = kept (Drawn-trans d d')

  Drawn-use_volume :
      (n : ℕ) (es : List Entitlement) {e : Entitlement}
      → Memᴰ e es
      → IsKeyed es
      → IsOpen e
      → Drawn es (use_volume e.id n es)
  unfolding use_volume
  Drawn-use_volume n [] m k o = elim m [ ]
  Drawn-use_volume n (x ∷ es) {e = e} (Memᴰ.head same) k o =
      let absent : has_id e.id es ≡ false = ap (λ (z : Entitlement). has_id z.id es) same ∙ k.0 in
      rw (← same, ==_refl e.id, use_volume-absent e.id n es absent)
        (charged (e.volume_used + n) o (omega arith) (Drawn-refl es))
  Drawn-use_volume n (x ∷ es) {e = e} (Memᴰ.tail m) k o =
      rw (other_id e x es m k.0) (kept (Drawn-use_volume n es m k.1 o))

  Drawn-consume_loop :
      (fuel w : ℕ) (es : List Entitlement) → IsKeyed es → Drawn es (consume_loop fuel now acct w es)
  unfolding consume_loop
  Drawn-consume_loop zero w es k = Drawn-refl es
  Drawn-consume_loop (suc fuel) zero es k = Drawn-refl es
  Drawn-consume_loop (suc fuel) (suc w) es k = elim (Option-cases (earliest now acct es)) [
    | inl e ↦ rw (consume_loop, e) (Drawn-refl es)
    | inr (e, chosen) ↦
        let (m, d) = earliest_ok now acct es chosen in
        let c = min (suc w) (e.volume_bytes - e.volume_used) in
        rw (consume_loop, chosen)
          (Drawn-trans (Drawn-use_volume c es m k (IsOpen-of_draws e d)) (
            Drawn-consume_loop fuel (suc w - c) (use_volume e.id c es)
              (IsKeyed-use_volume e.id c es k)))
  ]

  -- What a call of `consumeVolume` has done.
  pub record Consumed (weighted : ℕ) (es after : List Entitlement) : Type 0 where
    pub left : ℕ
    pub counted : Left es left
    pub paid : spent after ≡ spent es + min weighted left
    pub only_open : Drawn es after
    pub within : IsWithin after

  -- Where ids are unique and no entitlement is overdrawn, a call of `consumeVolume` charges the whole
  -- amount or, if that is less, all that is left on the account's volume entitlements in their
  -- validity window. It changes nothing of any other row, and no more than the bytes used of these; it
  -- overdraws none of them, and its loop ends on its own.
  pub consume_volume-Consumed :
      (w : ℕ) (es : List Entitlement)
      → IsKeyed es
      → IsWithin es
      → Consumed w es (consume_volume now acct w es)
  consume_volume-Consumed w es k ok =
      let c = consume_volume-Charged now acct w es k ok in
      record {
        left = capacity now acct es;
        counted = Left-capacity es;
        paid = c.charged;
        only_open = unfold consume_volume in Drawn-consume_loop (suc (length es)) w es k;
        within = c.within;
      }
