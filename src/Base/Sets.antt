-- ===== src/Base/Sets.antt =====
-- Go's set-shaped maps (`map[netip.Addr]struct{}`) as lists of members, read through `contains`.
-- The program never depends on a map's iteration order, so the order of a list is any order.
use Prim.Native.Nat.{ℕ}
use mathlib.Core.Path.{◌≡◌, refl}
use mathlib.Core.Bool.{Bool, false, not, ◌&&◌, ◌||◌}
use mathlib.Core.List.{List, [], ◌∷◌, ◌++◌}
use native.Mathlib.Omega.{arith}
use fips_exit_gate.Base.Tests.{◌==◌, if◌then◌else◌}
use fips_exit_gate.Base.Lists.{keep}

unfoldable pub contains : List ℕ → ℕ → Bool
contains [] a = false
contains (x ∷ xs) a = x == a || contains xs a

-- Two lists with the same members.
abbrev pub SameMembers : List ℕ → List ℕ → Type 0
SameMembers xs ys = (a : ℕ) → contains xs a ≡ contains ys a

pub contains-append :
    (xs ys : List ℕ) (a : ℕ) → contains (xs ++ ys) a ≡ (contains xs a || contains ys a)
unfolding contains
contains-append [] ys a = refl
contains-append (x ∷ xs) ys a = ground (arith, contains-append xs ys a)

pub contains-keep :
    (p : ℕ → Bool) (xs : List ℕ) (a : ℕ) → contains (keep p xs) a ≡ (contains xs a && p a)
unfolding contains
contains-keep p [] a = refl
contains-keep p (x ∷ xs) a = ground (arith, contains-keep p xs a)

-- The members of `xs` that are not in `ys`.
abbrev pub without : List ℕ → List ℕ → List ℕ
without ys xs = keep (λ a. not (contains ys a)) xs

-- The set that a Go loop `for … { set[a] = struct{}{} }` builds.
abbrev pub add_member : List ℕ → ℕ → List ℕ
add_member s a = if contains s a then s else a ∷ s

unfoldable pub to_set : List ℕ → List ℕ
to_set [] = []
to_set (x ∷ xs) = add_member (to_set xs) x

pub contains-to_set : (xs : List ℕ) (a : ℕ) → contains (to_set xs) a ≡ contains xs a
unfolding to_set contains
contains-to_set [] a = refl
contains-to_set (x ∷ xs) a = ground (arith, contains-to_set xs a, contains-to_set xs x)
