-- ===== src/Npub/Slips.antt =====
-- One wrong character in an npub is noticed.
use mathlib.Core.List.{append_assoc}
use fips_exit_gate.Base.{
  ℕ, zero, suc, ◌<◌, ◌≡◌, refl, sym, ap, ◌∙◌, some, List, [], ◌∷◌, ◌++◌, inl, inr, ◌⊎◌, arith, ◌==◌,
  length, take, drop, Bool-cases, Option-cases, ==_iff, some_eq,
}
use fips_exit_gate.Npub.{
  Casing, ok, charset, char_at, next_index, index_byte, hrp_expand, polymod, with_symbol, symbols,
  npub_hrp, decode_npub,
}
use fips_exit_gate.Npub.Regroup.{IsGroups}
use fips_exit_gate.Npub.Undo.{polymod-inj}
use fips_exit_gate.Npub.Text.{IsPlain, IsCasing}
use fips_exit_gate.Npub.Accepted.{decode_npub-IsNpub}

-- The symbols around a character.
symbols-around :
    (xs ys : List ℕ) (a : ℕ) (gs : List ℕ)
    → symbols (xs ++ a ∷ ys) ≡ some gs
    → (us : List ℕ) × (i : ℕ) × (vs : List ℕ) × (symbols xs ≡ some us)
      × (index_byte charset a ≡ some i)
      × (symbols ys ≡ some vs)
      × (gs ≡ us ++ i ∷ vs)
unfolding symbols with_symbol
symbols-around [] ys a gs h = elim (Option-cases (index_byte charset a)) [
  | inl missing ↦ cc (rw missing at h)
  | inr (i, at) ↦ elim (Option-cases (symbols ys)) [
    | inl stop ↦ cc (rw (at, stop) at h)
    | inr (vs, rest) ↦ ([], i, vs, refl, at, rest, sym (some_eq (rw (at, rest) at h)))
  ]
]
symbols-around (x ∷ xs) ys a gs h = elim (Option-cases (index_byte charset x)) [
  | inl missing ↦ cc (rw missing at h)
  | inr (j, at) ↦ elim (Option-cases (symbols (xs ++ a ∷ ys))) [
    | inl stop ↦ cc (rw (at, stop) at h)
    | inr (hs, rest) ↦
        let (us, i, vs, p, q, r, e) = symbols-around xs ys a hs rest in
        (j ∷ us, i, vs, rw (at, p) refl, q, r, sym (some_eq (rw (at, rest) at h)) ∙ ap (◌∷◌ j) e)
  ]
]

index_byte_sound :
    (cs : List ℕ) (a i : ℕ) → index_byte cs a ≡ some i → (char_at cs i ≡ a) × (i < length cs)
unfolding index_byte next_index
index_byte_sound [] a i h = cc
index_byte_sound (c ∷ cs) a i h = elim (Bool-cases (c == a)) [
  | inl here ↦
      let zero_i = some_eq (rw here at h) in rw (← zero_i) ((==_iff c a).0 here, omega arith)
  | inr there ↦ elim (Option-cases (index_byte cs a)) [
    | inl missing ↦ cc (rw (there, missing) at h)
    | inr (j, at) ↦
        let next = some_eq (rw (there, at) at h) in
        let (found, below) = index_byte_sound cs a j at in rw (← next) (found, omega (arith, below))
  ]
]

symbols-IsGroups : (cs gs : List ℕ) → symbols cs ≡ some gs → IsGroups 5 gs
unfolding symbols with_symbol
symbols-IsGroups [] gs h = rw (← some_eq h) tt
symbols-IsGroups (c ∷ cs) gs h = elim (Option-cases (index_byte charset c)) [
  | inl missing ↦ cc (rw missing at h)
  | inr (i, at) ↦ elim (Option-cases (symbols cs)) [
    | inl stop ↦ cc (rw (at, stop) at h)
    | inr (is, rest) ↦
        rw (← some_eq (rw (at, rest) at h))
          ((index_byte_sound charset c i at).1, symbols-IsGroups cs is rest)
  ]
]

-- Where two texts with one different character start alike, the difference is behind the start.
behind :
    (n : ℕ) (xs ys : List ℕ) (a b : ℕ)
    → take n (xs ++ a ∷ ys) ≡ take n (xs ++ b ∷ ys)
    → (a ≡ b)
      ⊎ ((us : List ℕ) × (drop n (xs ++ a ∷ ys) ≡ us ++ a ∷ ys)
          × (drop n (xs ++ b ∷ ys) ≡ us ++ b ∷ ys))
behind zero xs ys a b h = inr (xs, refl, refl)
behind (suc n) [] ys a b h = inl (cc)
behind (suc n) (x ∷ xs) ys a b h = behind n xs ys a b (cc)

symbols-slip :
    (us ys : List ℕ) (a b : ℕ) (gs hs hrp : List ℕ)
    → symbols (us ++ a ∷ ys) ≡ some gs
    → symbols (us ++ b ∷ ys) ≡ some hs
    → polymod (hrp ++ gs) ≡ polymod (hrp ++ hs)
    → a ≡ b
symbols-slip us ys a b gs hs hrp p q e =
    let (front, i, back, p1, at_a, p2, whole) = symbols-around us ys a gs p in
    let (front', j, back', q1, at_b, q2, whole') = symbols-around us ys b hs q in
    let same_front = some_eq (sym q1 ∙ p1) in
    let same_back = some_eq (sym q2 ∙ p2) in
    let other : hs ≡ front ++ j ∷ back = rw (← same_front, ← same_back) whole' in
    let (char_i, below_i) = index_byte_sound charset a i at_a in
    let (char_j, below_j) = index_byte_sound charset b j at_b in
    let sums : polymod ((hrp ++ front) ++ i ∷ back) ≡ polymod ((hrp ++ front) ++ j ∷ back) =
      rw (append_assoc hrp front (i ∷ back), append_assoc hrp front (j ∷ back), ← whole, ← other)
        e in
    let same =
      polymod-inj (hrp ++ front) back i j below_i below_j (symbols-IsGroups ys back p2) sums in
    sym char_i ∙ ap (char_at charset) same ∙ char_j

-- One wrong character is noticed: of two texts in lower case that differ in one character, at any
-- place, `DecodeNpub` accepts at most one.
pub decode_npub-slip :
    (t : Casing) (xs ys : List ℕ) (a b : ℕ) (key key' : List ℕ)
    → IsCasing t
    → IsPlain (xs ++ a ∷ ys)
    → IsPlain (xs ++ b ∷ ys)
    → decode_npub t (xs ++ a ∷ ys) ≡ ok key
    → decode_npub t (xs ++ b ∷ ys) ≡ ok key'
    → a ≡ b
decode_npub-slip t xs ys a b key key' c pa pb ha hb =
    let p = decode_npub-IsNpub t (xs ++ a ∷ ys) key c pa ha in
    let q = decode_npub-IsNpub t (xs ++ b ∷ ys) key' c pb hb in
    elim (behind 5 xs ys a b (p.starts ∙ sym q.starts)) [
      | inl same ↦ same
      | inr (us, da, db) ↦
          symbols-slip us ys a b p.groups q.groups (hrp_expand npub_hrp) (rw da at p.goes_on)
            (rw db at q.goes_on) (p.closes ∙ sym q.closes)
    ]
