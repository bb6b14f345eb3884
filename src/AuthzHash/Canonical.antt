-- ===== src/AuthzHash/Canonical.antt =====
-- What is hashed stands for the set: the same for the same members, and different for others.
use fips_exit_gate.Base.{
  ℕ, ◌≡◌, refl, sym, ap, ◌∙◌, true, false, not, ◌&&◌, ◌||◌, List, [], ◌∷◌, ◌++◌, inl, inr, arith,
  All, Bool-cases, length,
}
use fips_exit_gate.Base.Equality.{same_bytes, same_bytes_iff}
use fips_exit_gate.AuthzHash.{less, sort_keys, fresh_keys, concat, no_key}
use fips_exit_gate.AuthzHash.Order.{
  less_irrefl, less_trans, less_apart, less_asym, has, AtLeast, Above, IsSorted, IsStrict,
  sort_keys-IsSorted, has-sort_keys,
}

-- Behind a key in order, the loop keeps the keys above it, each once.
record IsThinned (prev : List ℕ) (ks : List (List ℕ)) : Type 0 where
  above : Above prev (fresh_keys true prev ks)
  strict : IsStrict (fresh_keys true prev ks)
  members : (i : List ℕ) → has i (fresh_keys true prev ks) ≡ (has i ks && not (same_bytes i prev))

same_sym : (x y : List ℕ) → same_bytes x y ≡ same_bytes y x
same_sym x y = ground (arith, same_bytes_iff x y, same_bytes_iff y x)

Above-lower : (k j : List ℕ) (js : List (List ℕ)) → less k j ≡ true → Above j js → Above k js
Above-lower k j [] h p = tt
Above-lower k j (i ∷ js) h (q, p) = (less_trans k j i h q, Above-lower k j js h p)

has-AtLeast :
    (k i : List ℕ) (ks : List (List ℕ)) → AtLeast k ks → has i ks ≡ true → less i k ≡ false
unfolding has
has-AtLeast k i [] p h = cc
has-AtLeast k i (j ∷ js) (q, p) h = elim (Bool-cases (same_bytes i j)) [
  | inl same ↦ rw ((same_bytes_iff i j).0 same) q
  | inr other ↦ has-AtLeast k i js p (rw other at h)
]

-- A key below all of some is none of them.
behind :
    (i k prev : List ℕ) (ks : List (List ℕ))
    → same_bytes k prev ≡ false
    → AtLeast k ks
    → less prev k ≡ true
    → (same_bytes i k || has i ks && not (same_bytes i k))
      ≡ ((same_bytes i k || has i ks) && not (same_bytes i prev))
behind i k prev ks new q up = elim (Bool-cases (same_bytes i prev)) [
  | inr other ↦ ground (arith, other)
  | inl same ↦
      let e = (same_bytes_iff i prev).0 same in
      let not_k : same_bytes i k ≡ false = rw e (same_sym prev k ∙ new) in
      let absent : has i ks ≡ false = elim (Bool-cases (has i ks)) [
        | inl here ↦ cc (has-AtLeast k i ks q here, up, e)
        | inr gone ↦ gone
      ] in
      rw (same, not_k, absent) refl
]

fresh_keys-IsThinned :
    (prev : List ℕ) (ks : List (List ℕ)) → AtLeast prev ks → IsSorted ks → IsThinned prev ks
unfolding fresh_keys has
fresh_keys-IsThinned prev [] p s = record { above = tt; strict = tt; members = λ i. refl }
fresh_keys-IsThinned prev (k ∷ ks) (h, p) (q, s) = elim (Bool-cases (same_bytes k prev)) [
  | inl same ↦
      let r = fresh_keys-IsThinned prev ks p s in
      let e = (same_bytes_iff k prev).0 same in
      record {
        above = rw same r.above;
        strict = rw same r.strict;
        members = λ i. rw same (ground (arith, r.members i, ap (λ (x : List ℕ). same_bytes i x) e));
      }
  | inr new ↦
      let r = fresh_keys-IsThinned k ks q s in
      let up : less prev k ≡ true = elim (Bool-cases (less prev k)) [
        | inl below ↦ below
        | inr apart ↦
            let e = less_apart prev k apart h in cc ((same_bytes_iff k prev).1 (sym e), new)
      ] in
      record {
        above = rw new (up, Above-lower prev k (fresh_keys true k ks) up r.above);
        strict = rw new (r.above, r.strict);
        members = λ i. rw new (rw (r.members i) (behind i k prev ks new q up));
      }
]

-- The keys that are written, of a sorted list: in strict order, and with the same members.
pub fresh_keys-IsStrict :
    (prev : List ℕ) (ks : List (List ℕ))
    → IsSorted ks
    → IsStrict (fresh_keys false prev ks)
      × ((i : List ℕ) → has i (fresh_keys false prev ks) ≡ has i ks)
unfolding fresh_keys has
fresh_keys-IsStrict prev [] s = (tt, λ i. refl)
fresh_keys-IsStrict prev (k ∷ ks) (p, s) =
    let r = fresh_keys-IsThinned k ks p s in ((r.above, r.strict), λ i. ground (arith, r.members i))

has-Above : (k i : List ℕ) (ks : List (List ℕ)) → Above k ks → has i ks ≡ true → less k i ≡ true
unfolding has
has-Above k i [] p h = cc
has-Above k i (j ∷ js) (q, p) h = elim (Bool-cases (same_bytes i j)) [
  | inl same ↦ rw ((same_bytes_iff i j).0 same) q
  | inr other ↦ has-Above k i js p (rw other at h)
]

absent_below : (k : List ℕ) (ks : List (List ℕ)) → Above k ks → has k ks ≡ false
absent_below k ks p = elim (Bool-cases (has k ks)) [
  | inl here ↦ cc (has-Above k k ks p here, less_irrefl k)
  | inr gone ↦ gone
]

same_refl : (x : List ℕ) → same_bytes x x ≡ true
same_refl x = (same_bytes_iff x x).1 refl

heads_agree :
    (x y : List ℕ) (xs ys : List (List ℕ))
    → Above x xs
    → Above y ys
    → ((i : List ℕ) → has i (x ∷ xs) ≡ has i (y ∷ ys))
    → x ≡ y
unfolding has
heads_agree x y xs ys p q e = elim (Bool-cases (same_bytes x y)) [
  | inl same ↦ (same_bytes_iff x y).0 same
  | inr other ↦
      let in_ys : has x ys ≡ true = ground (arith, e x, same_refl x, other) in
      let in_xs : has y xs ≡ true = ground (arith, e y, same_refl y, same_sym x y, other) in
      cc (less_asym y x (has-Above y x ys q in_ys), has-Above x y xs p in_xs)
]

-- Two lists in strict order with the same members are the same list.
IsStrict-ext :
    (xs ys : List (List ℕ))
    → IsStrict xs
    → IsStrict ys
    → ((i : List ℕ) → has i xs ≡ has i ys)
    → xs ≡ ys
unfolding has
IsStrict-ext [] [] p q e = refl
IsStrict-ext [] (y ∷ ys) p q e = let bad : false ≡ true = ground (arith, e y, same_refl y) in cc bad
IsStrict-ext (x ∷ xs) [] p q e = let bad : true ≡ false = ground (arith, e x, same_refl x) in cc bad
IsStrict-ext (x ∷ xs) (y ∷ ys) (p, s) (q, r) e =
    let head = heads_agree x y xs ys p q e in
    ap (λ k. k ∷ xs) head ∙ ap (◌∷◌ y) (IsStrict-ext xs ys s r (λ i. tails i head))
  where
    tails : (i : List ℕ) → x ≡ y → has i xs ≡ has i ys
    tails i head = elim (Bool-cases (same_bytes i x)) [
      | inl same ↦
          let at = (same_bytes_iff i x).0 same in
          let left : has i xs ≡ false = rw at (absent_below x xs p) in
          let right : has i ys ≡ false = rw (at, head) (absent_below y ys q) in left ∙ sym right
      | inr other ↦
          let other_y : same_bytes i y ≡ false = rw (← head) other in
          ground (arith, e i, other, other_y)
    ]

pub same_keys :
    (xs ys : List (List ℕ))
    → ((i : List ℕ) → has i xs ≡ has i ys)
    → concat (fresh_keys false no_key (sort_keys xs))
      ≡ concat (fresh_keys false no_key (sort_keys ys))
same_keys xs ys e =
    let (sx, mx) = fresh_keys-IsStrict no_key (sort_keys xs) (sort_keys-IsSorted xs) in
    let (sy, my) = fresh_keys-IsStrict no_key (sort_keys ys) (sort_keys-IsSorted ys) in
    ap (λ ks. concat ks)
      (IsStrict-ext _ _ sx sy
        (λ i. mx i ∙ has-sort_keys i xs ∙ e i ∙ sym (has-sort_keys i ys) ∙ sym (my i)))

-- Keys of 16 bytes are read back from what is written of them.
abbrev pub AllKeys : List (List ℕ) → Type 0
AllKeys ks = All (λ k. length k ≡ 16) ks

append-inj :
    (xs ys vs ws : List ℕ) → length xs ≡ length ys → xs ++ vs ≡ ys ++ ws → (xs ≡ ys) × (vs ≡ ws)
append-inj [] [] vs ws l e = (refl, e)
append-inj [] (y ∷ ys) vs ws l e = absurd (omega arith)
append-inj (x ∷ xs) [] vs ws l e = absurd (omega arith)
append-inj (x ∷ xs) (y ∷ ys) vs ws l e =
    let (p, q) = append-inj xs ys vs ws (omega arith) (cc) in (cc, q)

pub concat-inj : (ks js : List (List ℕ)) → AllKeys ks → AllKeys js → concat ks ≡ concat js → ks ≡ js
unfolding concat
concat-inj [] [] p q e = refl
concat-inj [] ([] ∷ js) p (h, q) e = absurd (omega arith)
concat-inj [] ((b ∷ bs) ∷ js) p q e = cc
concat-inj ([] ∷ ks) [] (h, p) q e = absurd (omega arith)
concat-inj ((b ∷ bs) ∷ ks) [] p q e = cc
concat-inj (k ∷ ks) (j ∷ js) (h, p) (g, q) e =
    let (same, rest) = append-inj k j (concat ks) (concat js) (h ∙ sym g) e in
    let tails = concat-inj ks js p q rest in cc
