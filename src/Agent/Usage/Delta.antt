-- ===== src/Agent/Usage/Delta.antt =====
-- `computeDelta` against what the kernel counts: no address is billed for bytes that did not pass.
use fips_exit_gate.Base.{
  ℕ, ◌+◌, ◌≤◌, ◌≡◌, ◌∙◌, refl, some, List, [], ◌∷◌, arith, ◌==◌, if◌then◌else◌, Bool-cases, inl,
  inr,
}
use fips_exit_gate.Base.Assoc.{
  lookup, insert, erase, lookup-insert, IsMap, lookup-head, lookup-tail,
}
use fips_exit_gate.Agent.State.{Addr, AcctKey, key_eq, key_beq, key_beq_iff, UsageSample}
use fips_exit_gate.Agent.Usage.{baseline, counter_delta, samples_of, baselines_of, compute_delta}

-- The bytes that a list of samples bills to an address.
unfoldable pub billed_to : Addr → List UsageSample → ℕ
billed_to x [] = 0
billed_to x (s ∷ ss) = (if s.addr == x then s.bytes else 0) + billed_to x ss

abbrev pub share : Addr → AcctKey → ℕ → ℕ
share x k n = if k.addr == x then n else 0

-- What the kernel does to the accounting set: it counts `n` bytes for a key, and creates the element
-- on the first of them.
unfoldable pub hit : AcctKey → ℕ → List (AcctKey × ℕ) → List (AcctKey × ℕ)
hit k n cur = insert k (baseline cur k + n) cur

counter_delta_hit : (b c n : ℕ) → counter_delta b (c + n) ≤ counter_delta b c + n
unfolding counter_delta
counter_delta_hit b c n = ground arith

counter_delta_ahead : (b c n : ℕ) → b ≤ c → counter_delta b (c + n) ≡ counter_delta b c + n
unfolding counter_delta
counter_delta_ahead b c n h = ground arith

counter_delta_zero : (b : ℕ) → b ≤ 0 → counter_delta b 0 ≡ 0
unfolding counter_delta
counter_delta_zero b h = ground arith

counter_delta_first : (b n : ℕ) → counter_delta b (0 + n) ≤ n
unfolding counter_delta
counter_delta_first b n = ground arith

baseline-cons :
    (j k : AcctKey) (c : ℕ) (cur : List (AcctKey × ℕ))
    → baseline ((j, c) ∷ cur) k ≡ (if key_beq j k then c else baseline cur k)
unfolding lookup
baseline-cons j k c cur = ground arith

hit-nil : (k : AcctKey) (n : ℕ) → hit k n [] ≡ (k, 0 + n) ∷ []
unfolding hit lookup insert
hit-nil k n = refl

hit-cons :
    (k j : AcctKey) (n c : ℕ) (cur : List (AcctKey × ℕ))
    → hit k n ((j, c) ∷ cur) ≡ (if key_beq j k then (k, c + n) ∷ cur else (j, c) ∷ hit k n cur)
unfolding hit lookup insert
hit-cons k j n c cur = ground arith

module _ (x : Addr) (services : List (ℕ × ℕ)) where
  -- What the next reading would bill.
  unfoldable pub pending : List (AcctKey × ℕ) → List (AcctKey × ℕ) → ℕ
  pending prev cur = billed_to x (samples_of prev cur services)

  pending-cons :
      (prev cur : List (AcctKey × ℕ)) (k : AcctKey) (c : ℕ)
      → pending prev ((k, c) ∷ cur)
        ≡ share x k (counter_delta (baseline prev k) c) + pending prev cur
  unfolding pending billed_to samples_of
  pending-cons prev cur k c = ground arith

  pub pending-hit-le :
      (prev cur : List (AcctKey × ℕ)) (k : AcctKey) (n : ℕ)
      → pending prev (hit k n cur) ≤ pending prev cur + share x k n
  pending-hit-le prev [] k n =
      ground (
        arith,
        hit-nil k n,
        pending-cons prev [] k (0 + n),
        counter_delta_first (baseline prev k) n,
      )
  pending-hit-le prev ((j, c) ∷ cur) k n = elim (Bool-cases (key_beq j k)) [
    | inl y ↦ ground (
      arith,
      (key_beq_iff j k).0 y,
      hit-cons k j n c cur,
      pending-cons prev cur k (c + n),
      pending-cons prev cur k c,
      counter_delta_hit (baseline prev k) c n,
    )
    | inr z ↦ ground (
      arith,
      hit-cons k j n c cur,
      pending-cons prev (hit k n cur) j c,
      pending-cons prev cur j c,
      pending-hit-le prev cur k n,
    )
  ]

  -- A counter that was not reset since its baseline is billed in full.
  pub pending-hit :
      (prev cur : List (AcctKey × ℕ)) (k : AcctKey) (n : ℕ)
      → baseline prev k ≤ baseline cur k
      → pending prev (hit k n cur) ≡ pending prev cur + share x k n
  pending-hit prev [] k n ahead = ground (
    arith,
    hit-nil k n,
    pending-cons prev [] k (0 + n),
    counter_delta_ahead (baseline prev k) 0 n (unfold lookup in ahead),
    counter_delta_zero (baseline prev k) (unfold lookup in ahead),
  )
  pending-hit prev ((j, c) ∷ cur) k n ahead = elim (Bool-cases (key_beq j k)) [
    | inl y ↦ ground (
      arith,
      (key_beq_iff j k).0 y,
      hit-cons k j n c cur,
      pending-cons prev cur k (c + n),
      pending-cons prev cur k c,
      counter_delta_ahead (baseline prev k) c n (ground (arith, baseline-cons j k c cur)),
    )
    | inr z ↦ ground (
      arith,
      hit-cons k j n c cur,
      pending-cons prev (hit k n cur) j c,
      pending-cons prev cur j c,
      pending-hit prev cur k n (ground (arith, baseline-cons j k c cur)),
    )
  ]

  pub pending-erase-le :
      (prev cur : List (AcctKey × ℕ)) (k : AcctKey) → pending prev (erase k cur) ≤ pending prev cur
  unfolding erase
  pending-erase-le prev [] k = omega arith
  pending-erase-le prev ((j, c) ∷ cur) k = ground (
    arith,
    pending-cons prev cur j c,
    pending-cons prev (erase k cur) j c,
    pending-erase-le prev cur k,
  )

  agreed_delta :
      (prev : List (AcctKey × ℕ)) (k : AcctKey) (c : ℕ)
      → lookup k prev ≡ some c
      → counter_delta (baseline prev k) c ≡ 0
  unfolding counter_delta
  agreed_delta prev k c e = rw (e, baseline) (ground arith)

  -- Baselines that agree with the counters leave nothing to bill.
  pending-zero :
      (prev cur : List (AcctKey × ℕ))
      → IsMap cur
      → ((j : AcctKey) (c : ℕ) → lookup j cur ≡ some c → lookup j prev ≡ some c)
      → pending prev cur ≡ 0
  pending-zero prev [] u agree = unfold pending billed_to samples_of in refl
  pending-zero prev ((k, c) ∷ cur) u agree = ground (
    arith,
    pending-cons prev cur k c,
    agreed_delta prev k c (agree k c (lookup-head k c cur)),
    pending-zero prev cur u.1 (λ j d found. agree j d (lookup-tail j k c d cur u.0 found)),
  )

lookup-baselines_of :
    (j : AcctKey) (cur : List (AcctKey × ℕ)) → lookup j (baselines_of cur) ≡ lookup j cur
unfolding baselines_of lookup
lookup-baselines_of j [] = refl
lookup-baselines_of j ((k, c) ∷ cur) =
    ground (arith, lookup-insert k j c (baselines_of cur), lookup-baselines_of j cur)

module _ (x : Addr) (services : List (ℕ × ℕ)) where
  pub billed-compute_delta :
      (prev cur : List (AcctKey × ℕ))
      → billed_to x (compute_delta prev cur services).0 ≡ pending x services prev cur
  unfolding compute_delta pending
  billed-compute_delta prev cur = refl

  -- After a reading nothing is left to bill until more bytes pass.
  pub pending-compute_delta :
      (prev cur : List (AcctKey × ℕ))
      → IsMap cur
      → pending x services (compute_delta prev cur services).1 cur ≡ 0
  unfolding compute_delta
  pending-compute_delta prev cur u =
      pending-zero x services (baselines_of cur) cur u
        (λ j c found. lookup-baselines_of j cur ∙ found)

pub pending-nil : (x : Addr) (services : List (ℕ × ℕ)) → pending x services [] [] ≡ 0
unfolding pending billed_to samples_of
pending-nil x services = refl

-- A reading stores the counters themselves as the next baselines.
pub baseline-compute_delta :
    (prev cur : List (AcctKey × ℕ)) (services : List (ℕ × ℕ)) (k : AcctKey)
    → baseline (compute_delta prev cur services).1 k ≡ baseline cur k
unfolding compute_delta
baseline-compute_delta prev cur services k = rw (lookup-baselines_of k cur, baseline)

pub baseline-hit :
    (k j : AcctKey) (n : ℕ) (cur : List (AcctKey × ℕ))
    → baseline (hit k n cur) j ≡ (if key_beq k j then baseline cur k + n else baseline cur j)
unfolding hit
baseline-hit k j n cur = ground (arith, lookup-insert k j (baseline cur k + n) cur)
