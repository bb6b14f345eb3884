-- ===== src/Npub/Convert.antt =====
-- `convertBits` from bytes to groups of five bits and back.
use native.Mathlib.Nat.{mod-lt, mul-le-mul_right, add-mul, mul_assoc}
use fips_exit_gate.Base.{
  ℕ, ◌+◌, ◌-◌, ◌*◌, ◌%◌, ◌^◌, ◌≤◌, ◌<◌, ◌≡◌, refl, sym, ap, ◌∙◌, true, false, List, [], ◌∷◌, ◌++◌,
  inl, inr, arith, ltb, leb, length, length-append, Bool-cases,
}
use fips_exit_gate.Base.Powers.{pow-sub}
use fips_exit_gate.Npub.{ok, last_group, convert_bits, digits_value}
use fips_exit_gate.Npub.Regroup.{
  IsGroups, IsGroups-append, two-pow-pos, digits_value-append, IsRegrouped, regroup_all,
  last_group_lem, digits_apart, digits_value-inj,
}

-- The groups hold the number with `pad` zero bits behind it, less than a group.
pub record IsPadded (from to : ℕ) (vs : List ℕ) (pad : ℕ) (out : List ℕ) : Type 0 where
  pub run : convert_bits vs from to true ≡ ok out
  pub value : digits_value to 0 out ≡ digits_value from 0 vs * 2 ^ pad
  pub count : length out * to ≡ length vs * from + pad
  pub groups : IsGroups to out
  pub few : pad < to

IsRegrouped-IsPadded :
    (from to : ℕ) (vs : List ℕ) (acc bits : ℕ) (out : List ℕ)
    → 0 < to
    → to ≤ 32
    → IsRegrouped from to vs acc bits out
    → (pad : ℕ) × (groups : List ℕ) × IsPadded from to vs pad groups
unfolding convert_bits
IsRegrouped-IsPadded from to vs acc bits out p w r = elim (Bool-cases (ltb 0 bits)) [
  | inl held ↦
      let pad = to - bits in
      let g = last_group to acc bits in
      let v = digits_value to 0 out in
      let small = mod-lt acc (two-pow-pos bits) in
      let last = last_group_lem to acc bits (omega (arith, r.few)) w in
      let e = pow-sub bits to (omega (arith, r.few)) in
      let row : (acc % 2 ^ bits + 1) * 2 ^ pad ≤ 2 ^ bits * 2 ^ pad =
        mul-le-mul_right (2 ^ pad) (omega (arith, small)) in
      (
        pad,
        out ++ g ∷ [],
        record {
          run = rw (r.run, held) refl;
          value = rw (digits_value-append to 0 out (g ∷ [])) (
              unfold digits_value in
              omega (
                arith,
                last,
                ap (λ (t : ℕ). t * 2 ^ pad) r.value,
                ap (λ (t : ℕ). v * t) e,
                add-mul (v * 2 ^ bits) (acc % 2 ^ bits) (2 ^ pad),
                mul_assoc v (2 ^ bits) (2 ^ pad),
              ));
          count =
              rw (length-append out (g ∷ []))
                (omega (arith, r.count, r.few, add-mul (length out) 1 to));
          groups = IsGroups-append to out (g ∷ []) r.groups (
            omega (arith, last, e, row, two-pow-pos pad, add-mul (acc % 2 ^ bits) 1 (2 ^ pad)),
            tt,
          );
          few = ground (arith, r.few);
        },
      )
  | inr empty ↦
      let none_held : bits ≡ 0 = ground arith in
      let value = rw none_held at r.value in
      (
        0,
        out,
        record {
          run = rw (r.run, empty) refl;
          value = omega (arith, value);
          count = omega (arith, r.count, none_held);
          groups = r.groups;
          few = p;
        },
      )
]

-- What is padded is read back, as long as less than a group was added.
pub convert_bits-back :
    (vs : List ℕ) (pad : ℕ) (groups : List ℕ)
    → IsGroups 8 vs
    → IsPadded 8 5 vs pad groups
    → convert_bits groups 5 8 false ≡ ok vs
unfolding convert_bits
convert_bits-back vs pad groups g d =
    let (acc, bits, out, r) = regroup_all 5 8 groups (omega arith) (omega arith) d.groups in
    let sizes : (length out ≡ length vs) × (bits ≡ pad) =
      omega (arith, r.count, d.count, r.few, d.few) in
    let few : bits < 5 = omega (arith, sizes.1, d.few) in
    let whole = r.value ∙ d.value ∙ ap (λ (k : ℕ). digits_value 8 0 vs * 2 ^ k) (sym sizes.1) in
    let (same, rest) =
      digits_apart (2 ^ bits) (digits_value 8 0 out) (digits_value 8 0 vs) (acc % 2 ^ bits) 0
        (mod-lt acc (two-pow-pos bits)) (two-pow-pos bits) (omega (arith, whole)) in
    let last : last_group 8 acc bits ≡ 0 =
      last_group_lem 8 acc bits (omega (arith, few)) (omega arith) ∙ rw rest (omega arith) in
    let found : out ≡ vs = (digits_value-inj 8 0 0 out vs sizes.0 r.groups g same).1 in
    let open_end : leb 5 bits ≡ false = ground (arith, few) in
    rw (r.run, open_end, last, found) refl

-- Any bytes are read back from their groups of five bits, padded with fewer than five.
pub convert_bits-convert_bits :
    (vs : List ℕ)
    → IsGroups 8 vs
    → (groups : List ℕ) × (convert_bits vs 8 5 true ≡ ok groups)
      × IsGroups 5 groups
      × (convert_bits groups 5 8 false ≡ ok vs)
convert_bits-convert_bits vs g =
    let (acc, bits, out, r) = regroup_all 8 5 vs (omega arith) (omega arith) g in
    let (pad, groups, d) = IsRegrouped-IsPadded 8 5 vs acc bits out (omega arith) (omega arith) r in
    (groups, d.run, d.groups, convert_bits-back vs pad groups g d)
