-- ===== src/AuthzHash.antt =====
-- pkg/authzhash/authzhash.go: the fingerprint of an authorized set, which depends neither on the
-- order of the addresses nor on repetitions.
pub mod Order
pub mod Canonical
pub mod Sets
use fips_exit_gate.Base.{ℕ, Bool, true, false, ◌&&◌, List, [], ◌∷◌, ◌++◌, map, ltb, if◌then◌else◌}
use fips_exit_gate.Base.Equality.{same_bytes}

-- `bytes.Compare(x, y) < 0`.
unfoldable pub less : List ℕ → List ℕ → Bool
less [] [] = false
less [] (y ∷ ys) = true
less (x ∷ xs) [] = false
less (x ∷ xs) (y ∷ ys) =
    let rest = less xs ys in if ltb x y then true else if ltb y x then false else rest

-- `sort.Slice`: keys that compare as equal are equal, so that every sorting gives the same.
unfoldable pub insert_key : List ℕ → List (List ℕ) → List (List ℕ)
unfolding less
insert_key k [] = k ∷ []
insert_key k (j ∷ js) = let rest = insert_key k js in if less k j then k ∷ j ∷ js else j ∷ rest

unfoldable pub sort_keys : List (List ℕ) → List (List ℕ)
unfolding insert_key
sort_keys [] = []
sort_keys (k ∷ ks) = insert_key k (sort_keys ks)

-- The keys that the loop writes: `later` is `i > 0`.
unfoldable pub fresh_keys : Bool → List ℕ → List (List ℕ) → List (List ℕ)
fresh_keys later prev [] = []
fresh_keys later prev (k ∷ ks) =
    let skipped = fresh_keys true prev ks in
    let kept = k ∷ fresh_keys true k ks in if later && same_bytes k prev then skipped else kept

unfoldable pub concat : List (List ℕ) → List ℕ
concat [] = []
concat (k ∷ ks) = k ++ concat ks

abbrev pub no_key : List ℕ
no_key = 0 ∷ 0 ∷ 0 ∷ 0 ∷ 0 ∷ 0 ∷ 0 ∷ 0 ∷ 0 ∷ 0 ∷ 0 ∷ 0 ∷ 0 ∷ 0 ∷ 0 ∷ 0 ∷ []

-- What the hash is computed over, of the addresses' `As16`.
unfoldable pub hashed : (ℕ → List ℕ) → List ℕ → List ℕ
unfolding sort_keys fresh_keys concat
hashed as16 addrs = concat (fresh_keys false no_key (sort_keys (map as16 addrs)))

-- `Of`: `finger` is the hash, cut to 16 bytes, in hexadecimal.
unfoldable pub of : (List ℕ → ℕ) → (ℕ → List ℕ) → List ℕ → ℕ
unfolding hashed
of finger as16 addrs = finger (hashed as16 addrs)
