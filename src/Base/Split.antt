-- ===== src/Base/Split.antt =====
-- `strings.Split` at a separator of one byte, and what puts the parts together again.
use mathlib.Core.Path.{◌≡◌, refl, ap, ◌∙◌}
use mathlib.Core.Logic.{inl, inr}
use mathlib.Core.Bool.{Bool, true, not, ◌&&◌}
use mathlib.Core.List.{List, [], ◌∷◌, ◌++◌}
use Prim.Native.Nat.{ℕ}
use native.Mathlib.Omega.{arith}
use fips_exit_gate.Base.Tests.{◌==◌, if◌then◌else◌, Bool-cases}

-- The part in front, and the rest of the parts: there is always one.
unfoldable pub add_front : ℕ → ℕ → List ℕ × List (List ℕ) → List ℕ × List (List ℕ)
add_front sep b (part, parts) = if b == sep then ([], part ∷ parts) else (b ∷ part, parts)

unfoldable pub split_on : ℕ → List ℕ → List ℕ × List (List ℕ)
unfolding add_front
split_on sep [] = ([], [])
split_on sep (b ∷ bs) = add_front sep b (split_on sep bs)

unfoldable pub lacks : ℕ → List ℕ → Bool
lacks sep [] = true
lacks sep (b ∷ bs) = not (b == sep) && lacks sep bs

pub split_on-front :
    (sep : ℕ) (a r : List ℕ)
    → lacks sep a ≡ true
    → split_on sep (a ++ sep ∷ r) ≡ (a, (split_on sep r).0 ∷ (split_on sep r).1)
unfolding split_on add_front lacks
split_on-front sep [] r plain = ground arith
split_on-front sep (b ∷ bs) r plain = elim (Bool-cases (b == sep)) [
  | inl here ↦ absurd (ground arith)
  | inr other ↦ rw (split_on-front sep bs r (ground arith), other) refl
]

pub split_on-last : (sep : ℕ) (a : List ℕ) → lacks sep a ≡ true → split_on sep a ≡ (a, [])
unfolding split_on add_front lacks
split_on-last sep [] plain = refl
split_on-last sep (b ∷ bs) plain = elim (Bool-cases (b == sep)) [
  | inl here ↦ absurd (ground arith)
  | inr other ↦ rw (split_on-last sep bs (ground arith), other) refl
]

unfoldable pub join : ℕ → List ℕ × List (List ℕ) → List ℕ
join sep (part, []) = part
join sep (part, next ∷ parts) = part ++ sep ∷ join sep (next, parts)

join-front : (sep b : ℕ) (p : List ℕ × List (List ℕ)) → join sep (b ∷ p.0, p.1) ≡ b ∷ join sep p
unfolding join
join-front sep b (part, []) = refl
join-front sep b (part, next ∷ parts) = refl

join-add_front :
    (sep b : ℕ) (p : List ℕ × List (List ℕ)) → join sep (add_front sep b p) ≡ b ∷ join sep p
unfolding add_front join
join-add_front sep b p = elim (Bool-cases (b == sep)) [
  | inl here ↦ rw here (ap (λ x. x ∷ join sep p) (ground arith))
  | inr other ↦ rw other (join-front sep b p)
]

pub join-split_on : (sep : ℕ) (v : List ℕ) → join sep (split_on sep v) ≡ v
unfolding split_on join
join-split_on sep [] = refl
join-split_on sep (b ∷ bs) =
    join-add_front sep b (split_on sep bs) ∙ ap (λ xs. b ∷ xs) (join-split_on sep bs)
