-- ===== src/Store/Usage/Weight.antt =====
-- The rate-weighted bytes of a sample, against the exact value and the width of an int64.
use native.Mathlib.Nat.{mul-le-mul, mul-add-div, add-mul, mul_assoc}
use fips_exit_gate.Base.{ℕ, ◌≡◌, ◌∙◌, ap, sym, ◌+◌, ◌*◌, ◌/◌, ◌%◌, ◌^◌, ◌≤◌, ◌<◌, arith}
use fips_exit_gate.Store.Usage.{clamp, max_sample_bytes, weigh}

clamp-le : (bytes : ℕ) → clamp bytes ≤ max_sample_bytes
unfolding clamp
clamp-le bytes = ground arith

abbrev mega : ℕ
mega = 1_000_000

-- Quotient and remainder, spread over a product.
split_mul : (b r : ℕ) → b * r ≡ mega * (b / mega * r) + b % mega * r
split_mul b r =
    ap (λ n. n * r) (split b)
    ∙ add-mul (mega * (b / mega)) (b % mega) r
    ∙ ap (λ n. n + b % mega * r) (mul_assoc mega (b / mega) r)
  where
    split : (n : ℕ) → n ≡ mega * (n / mega) + n % mega
    split n = omega arith

-- Where the rate is at most 2 ^ 42 parts per million, the weighted bytes of a clamped sample are
-- exactly its bytes times the rate, over a million and rounded down, whatever the node reported, and
-- each intermediate value fits in an int64.
pub weigh-clamp :
    (bytes rate : ℕ)
    → rate ≤ 2 ^ 42
    → let b = clamp bytes in
      (weigh b rate ≡ b * rate / 1_000_000)
      × (b / 1_000_000 * rate < 2 ^ 63)
      × (b % 1_000_000 * rate < 2 ^ 63)
      × (weigh b rate < 2 ^ 63)
unfolding weigh
weigh-clamp bytes rate small =
    let b = clamp bytes in
    let high : b / mega * rate ≤ 1_099_512 * 2 ^ 42 =
      mul-le-mul {n₂ = 1_099_512} (omega (arith, clamp-le bytes)) small in
    let low : b % mega * rate ≤ mega * 2 ^ 42 = mul-le-mul {n₂ = mega} (omega arith) small in
    (
      sym (
          ap (λ n. n / mega) (split_mul b rate)
          ∙ mul-add-div (omega arith) (b / mega * rate) (b % mega * rate)),
      omega (arith, high),
      omega (arith, low),
      omega (arith, high, low),
    )
