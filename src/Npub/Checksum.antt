-- ===== src/Npub/Checksum.antt =====
-- The checksum of Bech32: the register is linear in what is fed to it, so that six groups close it.
use native.Mathlib.Nat.{pow-le-pow_right}
use mathlib.Core.Path.{◌≡⟨◌⟩◌, ◌∎}
use fips_exit_gate.Base.{
  ℕ, zero, suc, ◌+◌, ◌*◌, ◌/◌, ◌%◌, ◌^◌, ◌≤◌, ◌<◌, ◌≡◌, refl, sym, ap, ◌∙◌, List, [], ◌∷◌, ◌++◌,
  map, inl, inr, arith, ◌==◌, length, All, Bool-cases,
}
use fips_exit_gate.Base.Xor.{
  ◌xor◌, zero-xor, xor-zero, xor_comm, xor_assoc, xor_cancel, xor-lt, xor_fields,
}
use fips_exit_gate.Base.Powers.{pow-add}
use fips_exit_gate.Npub.{
  generator, add_generators, polymod_step, polymod_from, polymod, checksum, digits_value,
}
use fips_exit_gate.Npub.Regroup.{IsGroups}

xor_swap : (x y z : ℕ) → (x xor y) xor z ≡ (x xor z) xor y
xor_swap x y z = xor_assoc x y z ∙ ap (λ t. x xor t) (xor_comm y z) ∙ sym (xor_assoc x z y)

add_generators-xor :
    (b i : ℕ) (gs : List ℕ) (x y : ℕ)
    → add_generators b i gs (x xor y) ≡ add_generators b i gs x xor y
unfolding add_generators
add_generators-xor b i [] x y = refl
add_generators-xor b i (g ∷ gs) x y = elim (Bool-cases (b / 2 ^ i % 2 == 1)) [
  | inl taken ↦ rw taken (
      ap (λ t. add_generators b (suc i) gs t) (xor_swap x y g)
      ∙ add_generators-xor b (suc i) gs (x xor g) y)
  | inr left_out ↦ rw left_out (add_generators-xor b (suc i) gs x y)
]

add_generators-lt :
    (b i : ℕ) (gs : List ℕ) (x : ℕ)
    → All (λ g. g < 2 ^ 30) gs
    → x < 2 ^ 30
    → add_generators b i gs x < 2 ^ 30
unfolding add_generators
add_generators-lt b i [] x h p = p
add_generators-lt b i (g ∷ gs) x (hg, h) p = elim (Bool-cases (b / 2 ^ i % 2 == 1)) [
  | inl taken ↦ rw taken (add_generators-lt b (suc i) gs (x xor g) h (xor-lt 30 x g p hg))
  | inr left_out ↦ rw left_out (add_generators-lt b (suc i) gs x h p)
]

-- The register below its five highest bits, shifted, and what those bits add.
abbrev pub shifted : ℕ → ℕ
shifted c = c % 2 ^ 25 * 2 ^ 5

abbrev pub feedback : ℕ → ℕ
feedback b = add_generators b 0 generator 0

pub polymod_step_lem : (c v : ℕ) → polymod_step c v ≡ (feedback (c / 2 ^ 25) xor shifted c) xor v
unfolding polymod_step
polymod_step_lem c v =
    let b = c / 2 ^ 25 in
    let fits : c % 2 ^ 25 * 2 ^ 5 % 2 ^ 32 ≡ shifted c = omega arith in
    rw fits (
      add_generators-xor b 0 generator (shifted c) v
      ∙ ap (λ x. add_generators b 0 generator x xor v) (sym (zero-xor (shifted c)))
      ∙ ap (λ x. x xor v) (add_generators-xor b 0 generator 0 (shifted c)))

pub polymod_step-lt : (c v : ℕ) → v < 2 ^ 30 → polymod_step c v < 2 ^ 30
polymod_step-lt c v h = rw (polymod_step_lem c v) (
    xor-lt 30 _ v
      (xor-lt 30 _ _ (add_generators-lt (c / 2 ^ 25) 0 generator 0 (omega arith) (omega arith))
        (omega arith))
      h)

shift-xor : (a b : ℕ) → (a xor b) * 2 ^ 5 ≡ a * 2 ^ 5 xor b * 2 ^ 5
shift-xor a b =
    let fields = xor_fields 5 a b 0 0 (omega arith) (omega arith) in
    let end_a : a * 2 ^ 5 + 0 ≡ a * 2 ^ 5 = omega arith in
    let end_b : b * 2 ^ 5 + 0 ≡ b * 2 ^ 5 = omega arith in
    omega (arith, rw (end_a, end_b) at fields, zero-xor 0)

xor-add : (a b : ℕ) → b < 2 ^ 5 → a * 2 ^ 5 xor b ≡ a * 2 ^ 5 + b
xor-add a b h =
    let fields = xor_fields 5 a 0 0 b (omega arith) h in
    let end_a : a * 2 ^ 5 + 0 ≡ a * 2 ^ 5 = omega arith in
    let end_b : 0 * 2 ^ 5 + b ≡ b = omega arith in
    let flat = rw (end_a, end_b) at fields in
    omega (arith, flat, ap (λ (t : ℕ). t * 2 ^ 5) (xor-zero a), zero-xor b)

-- A change `u` of the register below its highest bits comes out shifted, and `v` behind it.
polymod_step-xor :
    (c u v : ℕ)
    → u < 2 ^ 25
    → v < 2 ^ 5
    → polymod_step (c xor u) v ≡ polymod_step c 0 xor (u * 2 ^ 5 + v)
polymod_step-xor c u v hu hv =
    let q = c / 2 ^ 25 in
    let r = c % 2 ^ 25 in
    let split : c ≡ q * 2 ^ 25 + r = omega arith in
    let nothing : 0 * 2 ^ 25 + u ≡ u = omega arith in
    let fields = rw (nothing, xor-zero q) at (xor_fields 25 q 0 r u (omega arith) hu) in
    let whole : c xor u ≡ q * 2 ^ 25 + (r xor u) = ap (λ x. x xor u) split ∙ fields in
    let below = xor-lt 25 r u (omega arith) hu in
    let high : (c xor u) / 2 ^ 25 ≡ q = omega (arith, whole, below) in
    let low : (c xor u) % 2 ^ 25 ≡ r xor u = omega (arith, whole, below) in
    let shift : (r xor u) * 2 ^ 5 ≡ r * 2 ^ 5 xor u * 2 ^ 5 = shift-xor r u in
    let add : u * 2 ^ 5 xor v ≡ u * 2 ^ 5 + v = xor-add u v hv in
    let f = feedback q in
    polymod_step (c xor u) v
    ≡⟨ polymod_step_lem (c xor u) v ⟩
      (feedback ((c xor u) / 2 ^ 25) xor ((c xor u) % 2 ^ 25) * 2 ^ 5) xor v
    ≡⟨ (rw (high, low, shift) refl) ⟩ (f xor (r * 2 ^ 5 xor u * 2 ^ 5)) xor v
    ≡⟨ ap (λ x. x xor v) (sym (xor_assoc f (r * 2 ^ 5) (u * 2 ^ 5))) ⟩
      ((f xor r * 2 ^ 5) xor u * 2 ^ 5) xor v
    ≡⟨ xor_assoc (f xor r * 2 ^ 5) (u * 2 ^ 5) v ⟩ (f xor r * 2 ^ 5) xor (u * 2 ^ 5 xor v)
    ≡⟨ (rw add (ap (λ x. x xor (u * 2 ^ 5 + v)) (sym (xor-zero _) ∙ sym (polymod_step_lem c 0)))) ⟩
      polymod_step c 0 xor (u * 2 ^ 5 + v) ∎

pub polymod_from-append :
    (c : ℕ) (xs ys : List ℕ) → polymod_from c (xs ++ ys) ≡ polymod_from (polymod_from c xs) ys
unfolding polymod_from
polymod_from-append c [] ys = refl
polymod_from-append c (x ∷ xs) ys = polymod_from-append (polymod_step c x) xs ys

abbrev zeros : List ℕ → List ℕ
zeros ds = map (λ d. 0) ds

-- Up to six groups in a row change what as many zeros give by their number.
polymod_from-xor :
    (c u k : ℕ) (ds : List ℕ)
    → u < 2 ^ k
    → k + length ds * 5 ≤ 30
    → IsGroups 5 ds
    → polymod_from (c xor u) ds ≡ polymod_from c (zeros ds) xor digits_value 5 u ds
unfolding polymod_from digits_value
polymod_from-xor c u k [] hu fits g = refl
polymod_from-xor c u k (d ∷ ds) hu fits (hd, g) =
    let small : 2 ^ k ≤ 2 ^ 25 = pow-le-pow_right (omega arith) {i = k} {j = 25} (omega arith) in
    let e = pow-add k 5 in
    rw (polymod_step-xor c u d (omega arith) hd)
      (polymod_from-xor (polymod_step c 0) (u * 2 ^ 5 + d) (k + 5) ds (omega arith) (omega arith) g)

six_zeros : ℕ → ℕ
six_zeros c = polymod_from c (0 ∷ 0 ∷ 0 ∷ 0 ∷ 0 ∷ 0 ∷ [])

six_zeros-lt : (c : ℕ) → six_zeros c < 2 ^ 30
unfolding six_zeros polymod_from
six_zeros-lt c = polymod_step-lt (polymod_from c (0 ∷ 0 ∷ 0 ∷ 0 ∷ 0 ∷ [])) 0 (omega arith)

pub checksum-IsGroups : (n chk : ℕ) → IsGroups 5 (checksum n chk)
unfolding checksum
checksum-IsGroups zero chk = tt
checksum-IsGroups (suc n) chk = (omega arith, checksum-IsGroups n chk)

checksum-value : (chk : ℕ) → chk < 2 ^ 30 → digits_value 5 0 (checksum 6 chk) ≡ chk
unfolding digits_value checksum
checksum-value chk h = omega arith

-- The checksum of any groups closes the register.
pub polymod-checksum :
    (xs : List ℕ)
    → let chk = polymod (xs ++ 0 ∷ 0 ∷ 0 ∷ 0 ∷ 0 ∷ 0 ∷ []) xor 1 in
      polymod (xs ++ checksum 6 chk) ≡ 1
unfolding polymod six_zeros checksum
polymod-checksum xs =
    let c = polymod_from 1 xs in
    let z = six_zeros c in
    let chk = z xor 1 in
    let small = xor-lt 30 z 1 (six_zeros-lt c) (omega arith) in
    rw
      (
        polymod_from-append 1 xs (0 ∷ 0 ∷ 0 ∷ 0 ∷ 0 ∷ 0 ∷ []),
        polymod_from-append 1 xs (checksum 6 chk),
      )
      (ap (λ x. polymod_from x (checksum 6 chk)) (sym (xor-zero c))
        ∙ polymod_from-xor c 0 0 (checksum 6 chk) (omega arith) (omega arith)
            (checksum-IsGroups 6 chk)
        ∙ ap (λ x. z xor x) (checksum-value chk small)
        ∙ xor_cancel z 1)
