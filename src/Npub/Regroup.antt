-- ===== src/Npub/Regroup.antt =====
-- `convertBits`: the groups that it makes are digits of the number that it is given.
use native.Mathlib.Nat.{
  mul-add-div_right, one-le-pow, mul-le-mul_right, div-eq_of_lt, mod-add-mod, mod-eq_of_lt, mod-lt,
  mul_assoc, add-mul, mul_comm,
}
use fips_exit_gate.Base.{
  ℕ, zero, suc, ◌+◌, ◌-◌, ◌*◌, ◌/◌, ◌%◌, ◌^◌, ◌≤◌, ◌<◌, ◌≡◌, refl, sym, ap, ◌∙◌, some, List, [],
  ◌∷◌, ◌++◌, inl, inr, arith, leb, length, length-append, All, All-append, Bool-cases,
}
use fips_exit_gate.Base.Powers.{pow-add, pow-sub, mod-mul, mul-mod-mul, mod-mod-pow}
use fips_exit_gate.Npub.{emit, regroup, last_group, digits_value}

pub digits_value-append :
    (w n : ℕ) (ds es : List ℕ)
    → digits_value w n (ds ++ es) ≡ digits_value w (digits_value w n ds) es
unfolding digits_value
digits_value-append w n [] es = refl
digits_value-append w n (d ∷ ds) es = digits_value-append w (n * 2 ^ w + d) ds es

-- A list of groups of `w` bits.
abbrev pub IsGroups : ℕ → List ℕ → Type 0
IsGroups w ds = All (λ d. d < 2 ^ w) ds

pub IsGroups-append :
    (w : ℕ) (ds es : List ℕ) → IsGroups w ds → IsGroups w es → IsGroups w (ds ++ es)
IsGroups-append w = All-append (λ d. d < 2 ^ w)

pub two-pow-pos : (k : ℕ) → 0 < 2 ^ k
two-pow-pos k = one-le-pow k 2 (omega arith)

-- The number `n` of `l` bits is held by the groups that are out, and the lowest `bits` bits of `acc`.
record IsSplit (to n l acc bits : ℕ) (out : List ℕ) : Type 0 where
  value : digits_value to 0 out * 2 ^ bits + acc % 2 ^ bits ≡ n
  count : length out * to + bits ≡ l
  groups : IsGroups to out

IsSplit-emit :
    (to n l acc bits : ℕ) (out : List ℕ)
    → to ≤ bits
    → IsSplit to n l acc bits out
    → IsSplit to n l acc (bits - to) (out ++ (acc / 2 ^ (bits - to) % 2 ^ to) ∷ [])
unfolding digits_value
IsSplit-emit to n l acc bits out h s =
    let k = bits - to in
    let d = acc / 2 ^ k % 2 ^ to in
    let v = digits_value to 0 out in
    let e : bits ≡ k + to = omega arith in
    let low = mod-mul acc (2 ^ k) (2 ^ to) (two-pow-pos k) (two-pow-pos to) in
    let whole = rw (e, pow-add k to, low) at s.value in
    record {
      value = rw (digits_value-append to 0 out (d ∷ [])) (
          omega (
            arith,
            whole,
            add-mul (v * 2 ^ to) d (2 ^ k),
            mul_assoc v (2 ^ to) (2 ^ k),
            ap (λ (t : ℕ). v * t) (mul_comm (2 ^ k) (2 ^ to)),
          ));
      count = rw (length-append out (d ∷ [])) (omega (arith, s.count, add-mul (length out) 1 to));
      groups = IsGroups-append to out _ s.groups (mod-lt _ (two-pow-pos to), tt);
    }

emit-IsSplit :
    (to rounds n l acc bits : ℕ) (out : List ℕ)
    → 0 < to
    → bits ≤ rounds
    → IsSplit to n l acc bits out
    → let r = emit to rounds acc bits out in IsSplit to n l acc r.0 r.1 × (r.0 < to)
unfolding emit
emit-IsSplit to zero n l acc bits out p h s = (s, omega arith)
emit-IsSplit to (suc rounds) n l acc bits out p h s = elim (Bool-cases (leb to bits)) [
  | inl more ↦ rw more (
      emit-IsSplit to rounds n l acc (bits - to) _ p (ground arith)
        (IsSplit-emit to n l acc bits out (ground arith) s))
  | inr done ↦ rw done (s, ground arith)
]

IsSplit-shift :
    (from to n l acc bits v : ℕ) (out : List ℕ)
    → bits + from ≤ 32
    → v < 2 ^ from
    → IsSplit to n l acc bits out
    → IsSplit to (n * 2 ^ from + v) (l + from) (acc * 2 ^ from % 2 ^ 32 + v) (bits + from) out
IsSplit-shift from to n l acc bits v out h hv s =
    let m = 2 ^ from in
    let e = pow-add bits from in
    let low : acc * m % 2 ^ 32 % 2 ^ (bits + from) ≡ acc % 2 ^ bits * m =
      mod-mod-pow (acc * m) (bits + from) 32 h
      ∙ rw (e, mul_comm (2 ^ bits) m)
          (mul-mod-mul acc m (2 ^ bits) (two-pow-pos from) (two-pow-pos bits)) in
    let row : (acc % 2 ^ bits + 1) * m ≤ 2 ^ bits * m =
      let few = mod-lt acc (two-pow-pos bits) in mul-le-mul_right m (omega (arith, few)) in
    let sum : (acc * m % 2 ^ 32 + v) % 2 ^ (bits + from) ≡ acc % 2 ^ bits * m + v =
      sym (mod-add-mod (acc * m % 2 ^ 32) (2 ^ (bits + from)) v)
      ∙ rw low (mod-eq_of_lt (omega (arith, row, hv, e, add-mul (acc % 2 ^ bits) 1 m))) in
    record {
      value =
          rw (sum, e)
            (omega (
              arith,
              mul_assoc (digits_value to 0 out) (2 ^ bits) m,
              ap (λ (t : ℕ). t * m) s.value,
              add-mul (digits_value to 0 out * 2 ^ bits) (acc % 2 ^ bits) m,
            ));
      count = omega (arith, s.count);
      groups = s.groups;
    }

-- What the loop over the groups leaves: all of them are split up, and less than a group is held.
pub record IsRegrouped (from to : ℕ) (vs : List ℕ) (acc bits : ℕ) (out : List ℕ) : Type 0 where
  pub run : regroup from to vs 0 (0, []) ≡ some (acc, bits, out)
  pub value : digits_value to 0 out * 2 ^ bits + acc % 2 ^ bits ≡ digits_value from 0 vs
  pub count : length out * to + bits ≡ length vs * from
  pub groups : IsGroups to out
  pub few : bits < to

regroup-IsSplit :
    (from to n l acc bits : ℕ) (out vs : List ℕ)
    → 0 < to
    → to + from ≤ 33
    → bits < to
    → IsGroups from vs
    → IsSplit to n l acc bits out
    → (acc' : ℕ) × (bits' : ℕ) × (out' : List ℕ) × (regroup from to vs acc (bits, out)
        ≡ some (acc', bits', out'))
      × IsSplit to (digits_value from n vs) (l + length vs * from) acc' bits' out'
      × (bits' < to)
unfolding regroup digits_value
regroup-IsSplit from to n l acc bits out [] p w h g s =
    let e : l + 0 * from ≡ l = omega arith in (acc, bits, out, refl, rw e s, h)
regroup-IsSplit from to n l acc bits out (v ∷ vs) p w h (hv, g) s =
    let acc' = acc * 2 ^ from % 2 ^ 32 + v in
    let inside = IsSplit-shift from to n l acc bits v out (omega arith) hv s in
    let (t, few) =
      emit-IsSplit to (bits + from) _ _ acc' (bits + from) out p (omega arith) inside in
    let r = emit to (bits + from) acc' (bits + from) out in
    let (a, b, o, run, split, done) =
      regroup-IsSplit from to (n * 2 ^ from + v) (l + from) acc' r.0 r.1 vs p w few g t in
    let whole : v / 2 ^ from ≡ 0 = div-eq_of_lt hv in
    let e : l + from + length vs * from ≡ l + suc (length vs) * from =
      omega (arith, add-mul (length vs) 1 from) in
    (a, b, o, rw whole run, rw (← e) split, done)

pub regroup_all :
    (from to : ℕ) (vs : List ℕ)
    → 0 < to
    → to + from ≤ 33
    → IsGroups from vs
    → (acc : ℕ) × (bits : ℕ) × (out : List ℕ) × IsRegrouped from to vs acc bits out
regroup_all from to vs p w g =
    let start : IsSplit to 0 0 0 0 [] = record {
      value = start_value to;
      count = omega arith;
      groups = tt;
    } in
    let (acc, bits, out, run, split, few) = regroup-IsSplit from to 0 0 0 0 [] vs p w p g start in
    (
      acc,
      bits,
      out,
      record {
        run = run;
        value = split.value;
        count = omega (arith, split.count);
        groups = split.groups;
        few = few;
      },
    )
  where
    start_value : (to : ℕ) → digits_value to 0 [] * 2 ^ 0 + 0 % 2 ^ 0 ≡ 0
    start_value to = unfold digits_value in omega arith

pub last_group_lem :
    (to acc bits : ℕ)
    → bits ≤ to
    → to ≤ 32
    → last_group to acc bits ≡ acc % 2 ^ bits * 2 ^ (to - bits)
unfolding last_group
last_group_lem to acc bits h w =
    let p = 2 ^ (to - bits) in
    let e : 2 ^ to ≡ p * 2 ^ bits = pow-sub bits to h ∙ mul_comm (2 ^ bits) p in
    mod-mod-pow (acc * p) to 32 w
    ∙ rw e (mul-mod-mul acc p (2 ^ bits) (two-pow-pos (to - bits)) (two-pow-pos bits))

-- Digits below the base are found again in the number.
pub digits_apart : (m a b r s : ℕ) → r < m → s < m → a * m + r ≡ b * m + s → (a ≡ b) × (r ≡ s)
digits_apart m a b r s hr hs e =
    let pos : 0 < m = omega (arith, hr) in
    let quotient : a + r / m ≡ b + s / m =
      sym (mul-add-div_right pos a r) ∙ ap (λ (t : ℕ). t / m) e ∙ mul-add-div_right pos b s in
    let same : a ≡ b = omega (arith, quotient, div-eq_of_lt hr, div-eq_of_lt hs) in
    (same, omega (arith, e, ap (λ (t : ℕ). t * m) same))

pub digits_value-inj :
    (w n m : ℕ) (ds es : List ℕ)
    → length ds ≡ length es
    → IsGroups w ds
    → IsGroups w es
    → digits_value w n ds ≡ digits_value w m es
    → (n ≡ m) × (ds ≡ es)
unfolding digits_value
digits_value-inj w n m [] [] l g h e = (e, refl)
digits_value-inj w n m [] (y ∷ es) l g h e = absurd (omega arith)
digits_value-inj w n m (x ∷ ds) [] l g h e = absurd (omega arith)
digits_value-inj w n m (x ∷ ds) (y ∷ es) l (gx, g) (hy, h) e =
    let (top, rest) =
      digits_value-inj w (n * 2 ^ w + x) (m * 2 ^ w + y) ds es (omega arith) g h e in
    let (high, low) = digits_apart (2 ^ w) n m x y gx hy top in (high, cc)
