-- ===== src/AuthzHash/Order.antt =====
-- Lists of keys in order, and what sorting does.
use fips_exit_gate.Base.{
  ℕ, ◌≡◌, refl, Bool, true, false, ◌||◌, List, [], ◌∷◌, inl, inr, arith, All, Bool-cases,
}
use fips_exit_gate.Base.Equality.{same_bytes}
use fips_exit_gate.AuthzHash.{less, insert_key, sort_keys}

pub less_irrefl : (x : List ℕ) → less x x ≡ false
unfolding less
less_irrefl [] = refl
less_irrefl (x ∷ xs) = ground (arith, less_irrefl xs)

pub less_trans : (x y z : List ℕ) → less x y ≡ true → less y z ≡ true → less x z ≡ true
unfolding less
less_trans [] [] z p q = cc
less_trans [] (y ∷ ys) [] p q = cc
less_trans [] (y ∷ ys) (z ∷ zs) p q = refl
less_trans (x ∷ xs) [] z p q = cc
less_trans (x ∷ xs) (y ∷ ys) [] p q = cc
less_trans (x ∷ xs) (y ∷ ys) (z ∷ zs) p q = ground (arith, less_trans xs ys zs)

-- Keys that neither of which is below the other are equal.
pub less_apart : (x y : List ℕ) → less x y ≡ false → less y x ≡ false → x ≡ y
unfolding less
less_apart [] [] p q = refl
less_apart [] (y ∷ ys) p q = cc
less_apart (x ∷ xs) [] p q = cc
less_apart (x ∷ xs) (y ∷ ys) p q = ground (arith, less_apart xs ys)

pub less_asym : (x y : List ℕ) → less x y ≡ true → less y x ≡ false
less_asym x y p = elim (Bool-cases (less y x)) [
  | inl back ↦ cc (less_trans x y x p back, less_irrefl x)
  | inr fine ↦ fine
]

-- Whether a key is among some.
unfoldable pub has : List ℕ → List (List ℕ) → Bool
has j [] = false
has j (k ∷ ks) = same_bytes j k || has j ks

-- No key of `ks` is below `k`, and every key of `ks` is above `k`.
abbrev pub AtLeast : List ℕ → List (List ℕ) → Type 0
AtLeast k ks = All (λ j. less j k ≡ false) ks

abbrev pub Above : List ℕ → List (List ℕ) → Type 0
Above k ks = All (λ j. less k j ≡ true) ks

abbrev pub IsSorted : List (List ℕ) → Type 0
IsSorted [] = Unit
IsSorted (k ∷ ks) = AtLeast k ks × IsSorted ks

abbrev pub IsStrict : List (List ℕ) → Type 0
IsStrict [] = Unit
IsStrict (k ∷ ks) = Above k ks × IsStrict ks

AtLeast-insert_key :
    (b k : List ℕ) (js : List (List ℕ))
    → less k b ≡ false
    → AtLeast b js
    → AtLeast b (insert_key k js)
unfolding insert_key
AtLeast-insert_key b k [] h p = (h, tt)
AtLeast-insert_key b k (j ∷ js) h (q, p) = elim (Bool-cases (less k j)) [
  | inl front ↦ rw front (h, (q, p))
  | inr behind ↦ rw behind (q, AtLeast-insert_key b k js h p)
]

AtLeast-lower : (k j : List ℕ) (js : List (List ℕ)) → less k j ≡ true → AtLeast j js → AtLeast k js
AtLeast-lower k j [] h p = tt
AtLeast-lower k j (i ∷ js) h (q, p) = (lower, AtLeast-lower k j js h p)
  where
    lower : less i k ≡ false
    lower = elim (Bool-cases (less i k)) [
      | inl below ↦ cc (less_trans i k j below h, q)
      | inr fine ↦ fine
    ]

insert_key-IsSorted : (k : List ℕ) (js : List (List ℕ)) → IsSorted js → IsSorted (insert_key k js)
unfolding insert_key
insert_key-IsSorted k [] s = (tt, tt)
insert_key-IsSorted k (j ∷ js) (p, s) = elim (Bool-cases (less k j)) [
  | inl front ↦ rw front ((less_asym k j front, AtLeast-lower k j js front p), (p, s))
  | inr behind ↦ rw behind (AtLeast-insert_key j k js behind p, insert_key-IsSorted k js s)
]

pub sort_keys-IsSorted : (ks : List (List ℕ)) → IsSorted (sort_keys ks)
unfolding sort_keys
sort_keys-IsSorted [] = tt
sort_keys-IsSorted (k ∷ ks) = insert_key-IsSorted k (sort_keys ks) (sort_keys-IsSorted ks)

has-insert_key :
    (i k : List ℕ) (js : List (List ℕ)) → has i (insert_key k js) ≡ (same_bytes i k || has i js)
unfolding has insert_key
has-insert_key i k [] = refl
has-insert_key i k (j ∷ js) = ground (arith, has-insert_key i k js)

pub has-sort_keys : (i : List ℕ) (ks : List (List ℕ)) → has i (sort_keys ks) ≡ has i ks
unfolding has sort_keys
has-sort_keys i [] = refl
has-sort_keys i (k ∷ ks) = ground (arith, has-insert_key i k (sort_keys ks), has-sort_keys i ks)
