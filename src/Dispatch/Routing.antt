-- ===== src/Dispatch/Routing.antt =====
-- `pickUpstream` and `isOnion` of dispatch/route.go, in terms of the bytes of a name.
use fips_exit_gate.Base.{
  ℕ, ◌-◌, ◌≡◌, ◌≢◌, ◌⊎◌, ◌↔◌, refl, ◌∙◌, sym, ap, Bool, true, false, ◌&&◌, List, [], ◌∷◌, ◌++◌,
  arith, inl, inr, ◌==◌, leb, length, length-append, drop, take, take-append-drop, Bool-cases,
}
use fips_exit_gate.Base.Equality.{same_bytes_iff}
use fips_exit_gate.Dispatch.{NetText, Config, Target, trim_dot, has_suffix, is_onion, pick_upstream}

-- A name without the one dot that may end it.
abbrev pub IsTrimmed : List ℕ → List ℕ → Type 0
IsTrimmed name bare =
    (name ≡ bare ++ 46 ∷ []) ⊎ ((name ≡ bare) × ((b : List ℕ) → name ≢ b ++ 46 ∷ []))

not_nil : (x : ℕ) (xs : List ℕ) → x ∷ xs ≡ [] → ⊥
not_nil x xs h = cc

dot_end :
    (x y : ℕ) (xs b : List ℕ) → ((c : List ℕ) → y ∷ xs ≢ c ++ 46 ∷ []) → x ∷ y ∷ xs ≢ b ++ 46 ∷ []
dot_end x y xs [] plain h = not_nil y xs cc
dot_end x y xs (c ∷ cs) plain h = plain cs cc

IsTrimmed-trim_dot : (name : List ℕ) → IsTrimmed name (trim_dot name)
unfolding trim_dot
IsTrimmed-trim_dot [] = inr (refl, λ b h. nothing b h)
  where
    nothing : (b : List ℕ) → [] ≢ b ++ 46 ∷ []
    nothing [] h = cc
    nothing (x ∷ xs) h = cc
IsTrimmed-trim_dot (x ∷ []) = elim (Bool-cases (x == 46)) [
  | inl y ↦ let e : x ≡ 46 = ground arith in inl (rw (y, e) refl)
  | inr n ↦ inr (rw n refl, λ b h. single b h n)
]
  where
    single : (b : List ℕ) → x ∷ [] ≡ b ++ 46 ∷ [] → (x == 46) ≡ false → ⊥
    single [] h n = let e : x ≡ 46 = cc in ground (arith, e, n)
    single (c ∷ []) h n = cc
    single (c ∷ d ∷ cs) h n = cc
IsTrimmed-trim_dot (x ∷ y ∷ xs) = elim (IsTrimmed-trim_dot (y ∷ xs)) [
  | inl dotted ↦ inl (ap (◌∷◌ x) dotted)
  | inr (same, plain) ↦ inr (ap (◌∷◌ x) same, λ b. dot_end x y xs b plain)
]

trim_dot-dotted : (b : List ℕ) → trim_dot (b ++ 46 ∷ []) ≡ b
unfolding trim_dot
trim_dot-dotted [] = refl
trim_dot-dotted (x ∷ []) = refl
trim_dot-dotted (x ∷ y ∷ ys) = ap (◌∷◌ x) (trim_dot-dotted (y ∷ ys))

trim_dot-plain : (name : List ℕ) → ((b : List ℕ) → name ≢ b ++ 46 ∷ []) → trim_dot name ≡ name
unfolding trim_dot
trim_dot-plain [] plain = refl
trim_dot-plain (x ∷ []) plain = elim (Bool-cases (x == 46)) [
  | inl y ↦ let e : x ≡ 46 = ground arith in absurd (plain [] (rw e refl))
  | inr n ↦ rw n refl
]
trim_dot-plain (x ∷ y ∷ ys) plain =
    ap (◌∷◌ x) (trim_dot-plain (y ∷ ys) (λ b h. plain (x ∷ b) (ap (◌∷◌ x) h)))

trim_dot-IsTrimmed : (name bare : List ℕ) → IsTrimmed name bare → trim_dot name ≡ bare
trim_dot-IsTrimmed name bare (inl dotted) = rw dotted (trim_dot-dotted bare)
trim_dot-IsTrimmed name bare (inr (same, plain)) = trim_dot-plain name plain ∙ same

drop-front : (xs ys : List ℕ) → drop (length xs) (xs ++ ys) ≡ ys
drop-front [] ys = refl
drop-front (x ∷ xs) ys = drop-front xs ys

has_suffix_iff :
    (s suffix : List ℕ) → (has_suffix s suffix ≡ true) ↔ ((front : List ℕ) × (s ≡ front ++ suffix))
unfolding has_suffix
has_suffix_iff s suffix =
    let n = length s - length suffix in
    (
      λ h.
          let same : drop n s ≡ suffix = (same_bytes_iff (drop n s) suffix).0 (ground (arith, h)) in
          (take n s, sym (take-append-drop n s) ∙ ap (λ xs. take n s ++ xs) same),
      λ (front, e).
          let size = ap length e ∙ length-append front suffix in
          let at : n ≡ length front = omega (arith, size) in
          let end : drop n s ≡ suffix = rw (at, e) (drop-front front suffix) in
          let fits : leb (length suffix) (length s) ≡ true = ground (arith, size) in
          rw fits ((same_bytes_iff (drop n s) suffix).1 end),
    )

module _ (t : NetText) (cfg : Config) where
  -- The name of an onion service: in lower case, and without the dot that may end it, it has the
  -- suffix.
  abbrev pub IsOnionName : List ℕ → Type 0
  IsOnionName name =
      (bare : List ℕ) × IsTrimmed name bare
      × (front : List ℕ) × (t.lower bare ≡ front ++ cfg.onion_suffix)

  -- A domain that names an onion service goes to the Tor upstream, which is configured; anything else
  -- to the clearnet.
  abbrev pub IsRouted : Target → List ℕ → Type 0
  IsRouted g up =
      ((g.atyp ≡ 3) × IsOnionName g.host × (up ≡ cfg.tor_upstream) × (up ≢ []))
      ⊎ (((g.atyp ≡ 3) → ¬ IsOnionName g.host) × (up ≡ cfg.clearnet_upstream))

  is_onion_iff : (name : List ℕ) → (is_onion t name cfg.onion_suffix ≡ true) ↔ IsOnionName name
  unfolding is_onion
  is_onion_iff name = (
    λ h.
        let (front, e) = (has_suffix_iff (t.lower (trim_dot name)) cfg.onion_suffix).0 h in
        (trim_dot name, IsTrimmed-trim_dot name, front, e),
    λ (bare, trimmed, front, e).
        (has_suffix_iff (t.lower (trim_dot name)) cfg.onion_suffix).1
          (front, ap t.lower (trim_dot-IsTrimmed name bare trimmed) ∙ e),
  )

  pub pick_upstream-IsRouted :
      (g : Target) (up : List ℕ)
      → pick_upstream t g.host (g.atyp == 3) cfg ≡ (up, 0)
      → IsRouted g up
  unfolding pick_upstream
  pick_upstream-IsRouted g up h =
      elim (Bool-cases (g.atyp == 3 && is_onion t g.host cfg.onion_suffix)) [
        | inl y ↦ elim (Bool-cases (length cfg.tor_upstream == 0)) [
          | inl none_there ↦ absurd (refused (rw (y, none_there) at h))
          | inr there ↦
              let same : cfg.tor_upstream ≡ up =
                ap (λ (r : List ℕ × ℕ). r.0) (rw (y, there) at h) in
              inl (
                ground (arith, y),
                (is_onion_iff g.host).0 (ground (arith, y)),
                sym same,
                λ e. filled cfg.tor_upstream there (same ∙ e),
              )
        ]
        | inr n ↦ inr (
          λ domain onion.
              clash (g.atyp == 3) _ (ground (arith, domain)) ((is_onion_iff g.host).1 onion) n,
          sym (ap (λ (r : List ℕ × ℕ). r.0) (rw n at h)),
        )
      ]
    where
      refused : {up : List ℕ} → ◌≡◌ {A = List ℕ × ℕ} ([], 2) (up, 0) → ⊥
      refused e = let two : 2 ≡ 0 = ap (λ (r : List ℕ × ℕ). r.1) e in omega (arith, two)

      filled : (xs : List ℕ) → (length xs == 0) ≡ false → xs ≡ [] → ⊥
      filled xs there e = let none_left = ap length e in ground (arith, there, none_left)

      clash : (a b : Bool) → a ≡ true → b ≡ true → (a && b) ≡ false → ⊥
      clash a b p q r = ground (arith, p, q, r)
