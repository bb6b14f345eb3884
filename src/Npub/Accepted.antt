-- ===== src/Npub/Accepted.antt =====
-- What `DecodeNpub` accepts: the shape of an npub.
use fips_exit_gate.Base.{
  ℕ, suc, ◌+◌, ◌≤◌, ◌≡◌, refl, sym, ap, ◌∙◌, true, false, ◌||◌, Option, none, some, List, [], ◌∷◌,
  ◌++◌, inl, inr, arith, ltb, ◌==◌, length, take, drop, length-take, Bool-cases, Option-cases,
  ==_iff, some_eq,
}
use fips_exit_gate.Base.Equality.{same_bytes, same_bytes_iff}
use fips_exit_gate.Npub.{
  Casing, Result, ok, err, ◌>>=◌, ◌>>◌, ensure, hrp_expand, polymod, checked, split_at, symbols,
  bech32_decode, npub_hrp, decode_npub, or_first, convert_bits, valid_x_only, last_index, not_npub,
  bad_length, invalid_pubkey,
}
use fips_exit_gate.Npub.Text.{IsPlain, IsCasing}

last_index-at :
    (s : List ℕ) (c pos : ℕ) → last_index s c ≡ some pos → take (suc pos) s ≡ take pos s ++ c ∷ []
unfolding last_index or_first
last_index-at [] c pos h = cc
last_index-at (b ∷ bs) c pos h = elim (Option-cases (last_index bs c)) [
  | inr (i, later) ↦
      let next = some_eq (rw later at h) in rw (← next) (ap (◌∷◌ b) (last_index-at bs c i later))
  | inl last ↦ elim (Bool-cases (b == c)) [
    | inl here ↦
        let first = some_eq (rw (last, here) at h) in
        rw (← first) (ap (λ x. x ∷ []) ((==_iff b c).0 here))
    | inr there ↦ cc (rw (last, there) at h)
  ]
]

-- A text that starts with `npub1`, goes on in the alphabet, and has a good checksum.
pub record IsNpub (s : List ℕ) : Type 0 where
  pub groups : List ℕ
  pub starts : take 5 s ≡ npub_hrp ++ b'1' ∷ []
  pub goes_on : symbols (drop 5 s) ≡ some groups
  pub closes : polymod (hrp_expand npub_hrp ++ groups) ≡ 1

ok_eq : {A : Type 0} {a b : A} → Result.ok a ≡ ok b → a ≡ b
ok_eq h = cc

checked-ok :
    (hrp : List ℕ) (o : Option (List ℕ)) (r : List ℕ × List ℕ)
    → checked hrp o ≡ ok r
    → (groups : List ℕ) × (o ≡ some groups) × (polymod (hrp_expand hrp ++ groups) ≡ 1) × (r.0 ≡ hrp)
unfolding checked
checked-ok hrp none r h = cc
checked-ok hrp (some groups) r h = elim (Bool-cases (polymod (hrp_expand hrp ++ groups) == 1)) [
  | inl good ↦ (
    groups,
    refl,
    (==_iff _ 1).0 good,
    ap (λ (p : List ℕ × List ℕ). p.0) (sym (ok_eq (rw good at h))),
  )
  | inr bad ↦ cc (rw bad at h)
]

split_at-ok :
    (s : List ℕ) (o : Option ℕ) (r : List ℕ × List ℕ)
    → split_at s o ≡ ok r
    → (pos : ℕ) × (o ≡ some pos)
      × (pos + 7 ≤ length s)
      × (checked (take pos s) (symbols (drop (suc pos) s)) ≡ ok r)
unfolding split_at
split_at-ok s none r h = cc
split_at-ok s (some pos) r h = elim (Bool-cases (ltb pos 1 || ltb (length s) (pos + 7))) [
  | inl short ↦ cc (rw short at h)
  | inr long ↦ (pos, refl, ground arith, rw long at h)
]

bech32_decode-IsNpub :
    (t : Casing) (s : List ℕ) (r : List ℕ × List ℕ)
    → IsCasing t
    → IsPlain s
    → bech32_decode t s ≡ ok r
    → same_bytes r.0 npub_hrp ≡ true
    → IsNpub s
unfolding bech32_decode
bech32_decode-IsNpub t s r c p h e =
    let kept = c.lower_plain s p in
    let same = (same_bytes_iff s s).1 refl in
    let (pos, at, long, run) = split_at-ok s (last_index s b'1') r (rw (kept, same) at h) in
    let (groups, read, closed, front) =
      checked-ok (take pos s) (symbols (drop (suc pos) s)) r run in
    let prefix : take pos s ≡ npub_hrp = sym front ∙ (same_bytes_iff r.0 npub_hrp).0 e in
    let four : pos ≡ 4 =
      sym (length-take pos s (omega (arith, long))) ∙ ap (λ (xs : List ℕ). length xs) prefix in
    let cut = last_index-at s b'1' pos at ∙ ap (λ xs. xs ++ b'1' ∷ []) prefix in
    let starts = rw four at cut in
    let goes_on = rw four at read in
    record {
      groups = groups;
      starts = starts;
      goes_on = goes_on;
      closes = ap (λ x. polymod (hrp_expand x ++ groups)) (sym prefix) ∙ closed;
    }

decode_npub-ok :
    (t : Casing) (s key : List ℕ)
    → decode_npub t s ≡ ok key
    → (r : List ℕ × List ℕ) × (bech32_decode t s ≡ ok r) × (same_bytes r.0 npub_hrp ≡ true)
unfolding decode_npub
decode_npub-ok t s key h = go (bech32_decode t s) refl h
  where
    go :
        (o : Result (List ℕ × List ℕ))
        → bech32_decode t s ≡ o
        → (do
          (hrp, groups) ← o
          ensure (same_bytes hrp npub_hrp) not_npub
          payload ← convert_bits groups 5 8 false
          ensure (length payload == 32) bad_length
          ensure (valid_x_only payload) invalid_pubkey
          ok payload)
          ≡ ok key
        → (r : List ℕ × List ℕ) × (bech32_decode t s ≡ ok r) × (same_bytes r.0 npub_hrp ≡ true)
    go (ok r) e h = elim (Bool-cases (same_bytes r.0 npub_hrp)) [
      | inl good ↦ (r, e, good)
      | inr bad ↦ cc (rw bad at h)
    ]
    go (err x) e h = cc

pub decode_npub-IsNpub :
    (t : Casing) (s key : List ℕ) → IsCasing t → IsPlain s → decode_npub t s ≡ ok key → IsNpub s
decode_npub-IsNpub t s key c p h =
    let (r, run, prefix) = decode_npub-ok t s key h in bech32_decode-IsNpub t s r c p run prefix
