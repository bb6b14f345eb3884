-- ===== src/AuthzHash/Sets.antt =====
-- The bytes that are hashed, and the set of addresses.
use fips_exit_gate.Base.{
  ℕ, ◌≡◌, ◌↔◌, refl, sym, ap, ◌∙◌, true, false, List, [], ◌∷◌, map, inl, inr, arith, ◌==◌, ==_iff,
  ==_refl, Bool-cases, length,
}
use fips_exit_gate.Base.Equality.{same_bytes, same_bytes_iff}
use fips_exit_gate.Base.Sets.{contains, SameMembers}
use fips_exit_gate.AuthzHash.{hashed, fresh_keys, sort_keys, no_key}
use fips_exit_gate.AuthzHash.Order.{has, sort_keys-IsSorted, has-sort_keys}
use fips_exit_gate.AuthzHash.Canonical.{fresh_keys-IsStrict, same_keys, AllKeys, concat-inj}

-- `As16` has 16 bytes, and tells IPv6 addresses without a zone apart.
pub record IsAs16 (as16 : ℕ → List ℕ) : Type 0 where
  pub size : (a : ℕ) → length (as16 a) ≡ 16
  pub apart : (a b : ℕ) → as16 a ≡ as16 b → a ≡ b

AllKeys-has : (ks : List (List ℕ)) → ((i : List ℕ) → has i ks ≡ true → length i ≡ 16) → AllKeys ks
unfolding has
AllKeys-has [] h = tt
AllKeys-has (k ∷ ks) h =
    (h k (ground (arith, same_bytes_iff k k)), AllKeys-has ks (λ i m. h i (ground (arith, m))))

module _ (as16 : ℕ → List ℕ) (law : IsAs16 as16) where
  has-map : (a : ℕ) (xs : List ℕ) → has (as16 a) (map as16 xs) ≡ contains xs a
  unfolding has contains
  has-map a [] = refl
  has-map a (x ∷ xs) = elim (Bool-cases (x == a)) [
    | inl same ↦
        let e = (==_iff x a).0 same in
        let here = (same_bytes_iff (as16 a) (as16 x)).1 (ap as16 (sym e)) in rw (same, here) refl
    | inr other ↦
        let there : same_bytes (as16 a) (as16 x) ≡ false =
          elim (Bool-cases (same_bytes (as16 a) (as16 x))) [
            | inl clash ↦
                let e = law.apart a x ((same_bytes_iff (as16 a) (as16 x)).0 clash) in
                cc ((==_iff x a).1 (sym e), other)
            | inr fine ↦ fine
          ] in
        rw (other, there) (has-map a xs)
  ]

  of_has :
      (i : List ℕ) (xs : List ℕ)
      → has i (map as16 xs) ≡ true
      → (a : ℕ) × (i ≡ as16 a) × (contains xs a ≡ true)
  unfolding has contains
  of_has i [] h = cc
  of_has i (x ∷ xs) h = elim (Bool-cases (same_bytes i (as16 x))) [
    | inl here ↦ (x, (same_bytes_iff i (as16 x)).0 here, rw (==_refl x) refl)
    | inr there ↦ let (a, e, m) = of_has i xs (rw there at h) in (a, e, ground (arith, m))
  ]

  has_same :
      (xs ys : List ℕ) (i : List ℕ)
      → SameMembers xs ys
      → has i (map as16 xs) ≡ true
      → has i (map as16 ys) ≡ true
  has_same xs ys i s h = let (a, e, m) = of_has i xs h in rw e (has-map a ys ∙ sym (s a) ∙ m)

  has_equal :
      (xs ys : List ℕ) (i : List ℕ) → SameMembers xs ys → has i (map as16 xs) ≡ has i (map as16 ys)
  has_equal xs ys i s = elim (Bool-cases (has i (map as16 xs))) [
    | inl left ↦ left ∙ sym (has_same xs ys i s left)
    | inr left ↦ elim (Bool-cases (has i (map as16 ys))) [
      | inl right ↦ cc (has_same ys xs i (λ a. sym (s a)) right, left)
      | inr right ↦ left ∙ sym right
    ]
  ]

  keys_of : List ℕ → List (List ℕ)
  keys_of xs = fresh_keys false no_key (sort_keys (map as16 xs))

  has-keys_of : (i : List ℕ) (xs : List ℕ) → has i (keys_of xs) ≡ has i (map as16 xs)
  unfolding keys_of
  has-keys_of i xs =
      let (s, m) =
        fresh_keys-IsStrict no_key (sort_keys (map as16 xs)) (sort_keys-IsSorted (map as16 xs)) in
      m i ∙ has-sort_keys i (map as16 xs)

  keys_of-AllKeys : (xs : List ℕ) → AllKeys (keys_of xs)
  keys_of-AllKeys xs =
      AllKeys-has (keys_of xs)
        λ i h. let (a, e, m) = of_has i xs (sym (has-keys_of i xs) ∙ h) in rw e (law.size a)

  -- What is hashed of two lists of addresses is the same exactly if they have the same members.
  pub hashed_iff : (xs ys : List ℕ) → (hashed as16 xs ≡ hashed as16 ys) ↔ SameMembers xs ys
  unfolding hashed keys_of
  hashed_iff xs ys = (
    λ e a.
        let same =
          concat-inj (keys_of xs) (keys_of ys) (keys_of-AllKeys xs) (keys_of-AllKeys ys) e in
        sym (has-map a xs)
        ∙ sym (has-keys_of (as16 a) xs)
        ∙ ap (λ ks. has (as16 a) ks) same
        ∙ has-keys_of (as16 a) ys
        ∙ has-map a ys,
    λ s. same_keys (map as16 xs) (map as16 ys) (λ i. has_equal xs ys i s),
  )
