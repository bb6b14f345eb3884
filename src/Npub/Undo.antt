-- ===== src/Npub/Undo.antt =====
-- Every step of the checksum of Bech32 can be undone, so that no change of one group goes unseen.
use fips_exit_gate.Base.{
  ℕ, ◌+◌, ◌*◌, ◌/◌, ◌%◌, ◌^◌, ◌<◌, ◌≡◌, refl, sym, ap, ◌∙◌, Bool, true, List, [], ◌∷◌, ◌++◌, arith,
  ◌==◌, if◌then◌else◌, ==_iff, every, every_at,
}
use fips_exit_gate.Base.Xor.{◌xor◌, xor-zero, xor_cancel, xor_cancel_right, xor_fields}
use fips_exit_gate.Npub.{add_generators, polymod_step, polymod_from, polymod}
use fips_exit_gate.Npub.Regroup.{IsGroups}
use fips_exit_gate.Npub.Checksum.{
  feedback, shifted, polymod_step_lem, polymod_step-lt, polymod_from-append,
}

-- The five highest bits are told apart by the five lowest bits of what they add.
abbrev tells_apart : ℕ → ℕ → Bool
tells_apart a b = if feedback a % 2 ^ 5 == feedback b % 2 ^ 5 then a == b else true

feedback_table : every (λ a. every (λ b. tells_apart a b) 32) 32 ≡ true
unfolding every add_generators
feedback_table = refl

feedback-inj : (a b : ℕ) → a < 32 → b < 32 → feedback a % 2 ^ 5 ≡ feedback b % 2 ^ 5 → a ≡ b
feedback-inj a b ha hb e =
    let row = every_at (λ x. every (λ y. tells_apart x y) 32) 32 a ha feedback_table in
    let told = every_at (λ y. tells_apart a y) 32 b hb row in
    let same = (==_iff (feedback a % 2 ^ 5) (feedback b % 2 ^ 5)).1 e in
    (==_iff a b).0 (rw same at told)

xor_shifted-low : (x c : ℕ) → (x xor shifted c) % 2 ^ 5 ≡ x % 2 ^ 5
xor_shifted-low x c =
    let r = c % 2 ^ 25 in
    let fields = xor_fields 5 (x / 2 ^ 5) r (x % 2 ^ 5) 0 (omega arith) (omega arith) in
    let whole : x / 2 ^ 5 * 2 ^ 5 + x % 2 ^ 5 ≡ x = omega arith in
    let shift : r * 2 ^ 5 + 0 ≡ r * 2 ^ 5 = omega arith in
    let split = rw (whole, shift) at fields in omega (arith, split, xor-zero (x % 2 ^ 5))

xor_right : {a b : ℕ} (v : ℕ) → a xor v ≡ b xor v → a ≡ b
xor_right {a} {b} v e = sym (xor_cancel_right a v) ∙ ap (λ x. x xor v) e ∙ xor_cancel_right b v

xor_left : {a b : ℕ} (v : ℕ) → v xor a ≡ v xor b → a ≡ b
xor_left {a} {b} v e = sym (xor_cancel v a) ∙ ap (λ x. v xor x) e ∙ xor_cancel v b

-- A step can be undone: the register before it and the group it takes in are in the register after.
polymod_step-inj :
    (c d v : ℕ) → c < 2 ^ 30 → d < 2 ^ 30 → polymod_step c v ≡ polymod_step d v → c ≡ d
polymod_step-inj c d v hc hd e =
    let bc = c / 2 ^ 25 in
    let bd = d / 2 ^ 25 in
    let fed = sym (polymod_step_lem c v) ∙ e ∙ polymod_step_lem d v in
    let same : feedback bc xor shifted c ≡ feedback bd xor shifted d = xor_right v fed in
    let low =
      sym (xor_shifted-low (feedback bc) c)
      ∙ ap (λ (t : ℕ). t % 2 ^ 5) same
      ∙ xor_shifted-low (feedback bd) d in
    let high : bc ≡ bd = feedback-inj bc bd (omega arith) (omega arith) low in
    let rest : shifted c ≡ shifted d = xor_left (feedback bd) (rw high at same) in
    omega (arith, high, rest)

polymod_from-inj :
    (c d : ℕ) (ys : List ℕ)
    → c < 2 ^ 30
    → d < 2 ^ 30
    → IsGroups 5 ys
    → polymod_from c ys ≡ polymod_from d ys
    → c ≡ d
unfolding polymod_from
polymod_from-inj c d [] hc hd g e = e
polymod_from-inj c d (y ∷ ys) hc hd (hy, g) e = polymod_step-inj c d y hc hd (
    polymod_from-inj (polymod_step c y) (polymod_step d y) ys (polymod_step-lt c y (omega arith))
      (polymod_step-lt d y (omega arith)) g e)

-- No change of one group keeps the checksum.
pub polymod-inj :
    (xs ys : List ℕ) (v w : ℕ)
    → v < 2 ^ 5
    → w < 2 ^ 5
    → IsGroups 5 ys
    → polymod (xs ++ v ∷ ys) ≡ polymod (xs ++ w ∷ ys)
    → v ≡ w
unfolding polymod polymod_from
polymod-inj xs ys v w hv hw g e =
    let c = polymod_from 1 xs in
    let tails = sym (polymod_from-append 1 xs (v ∷ ys)) ∙ e ∙ polymod_from-append 1 xs (w ∷ ys) in
    let same =
      polymod_from-inj (polymod_step c v) (polymod_step c w) ys (polymod_step-lt c v (omega arith))
        (polymod_step-lt c w (omega arith)) g tails in
    xor_left _ (sym (polymod_step_lem c v) ∙ same ∙ polymod_step_lem c w)
