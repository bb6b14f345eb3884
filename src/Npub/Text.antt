-- ===== src/Npub/Text.antt =====
-- The characters of an npub: the alphabet of Bech32, and the split at the last `1`.
use fips_exit_gate.Base.{
  ℕ, suc, ◌^◌, ◌<◌, ◌≡◌, refl, ap, Bool, true, false, not, ◌&&◌, Option, none, some, List, [], ◌∷◌,
  ◌++◌, map, ltb, leb, ◌==◌, length, All, ==_iff, every, every_at, and_left, and_right,
}
use fips_exit_gate.Npub.{Casing, charset, char_at, index_byte, last_index, symbols}
use fips_exit_gate.Npub.Regroup.{IsGroups}

-- A byte of ASCII that is no capital letter.
abbrev pub is_plain : ℕ → Bool
is_plain b = ltb b 128 && not (leb b'A' b && leb b b'Z')

abbrev pub IsPlain : List ℕ → Type 0
IsPlain s = All (λ b. is_plain b ≡ true) s

-- `strings.ToLower` leaves such a text alone.
pub record IsCasing (t : Casing) : Type 0 where
  pub lower_plain : (s : List ℕ) → IsPlain s → t.to_lower s ≡ s

abbrev is_index : Option ℕ → ℕ → Bool
is_index none d = false
is_index (some i) d = i == d

not-true : (b : Bool) → not b ≡ true → b ≡ false
not-true true h = cc
not-true false h = refl

-- What the alphabet has to have: characters are told apart, in lower case, and none is the separator.
abbrev is_char : ℕ → Bool
is_char d =
    let c = char_at charset d in
    is_index (index_byte charset c) d && (is_plain c && not (c == b'1'))

char_table : every is_char 32 ≡ true
unfolding every index_byte
char_table = refl

is_index_lem : (o : Option ℕ) (d : ℕ) → is_index o d ≡ true → o ≡ some d
is_index_lem none d h = cc
is_index_lem (some i) d h = ap some ((==_iff i d).0 h)

pub index_byte-char_at : (d : ℕ) → d < 2 ^ 5 → index_byte charset (char_at charset d) ≡ some d
index_byte-char_at d h = is_index_lem _ d (and_left _ _ (every_at is_char 32 d h char_table))

char_at-plain : (d : ℕ) → d < 2 ^ 5 → is_plain (char_at charset d) ≡ true
char_at-plain d h = and_left _ _ (and_right _ _ (every_at is_char 32 d h char_table))

char_at-other : (d : ℕ) → d < 2 ^ 5 → (char_at charset d == b'1') ≡ false
char_at-other d h =
    let c = char_at charset d in
    let good = every_at is_char 32 d h char_table in
    let other : not (c == b'1') ≡ true =
      and_right (is_plain c) _ (and_right (is_index (index_byte charset c) d) _ good) in
    not-true _ other

abbrev pub chars : List ℕ → List ℕ
chars groups = map (char_at charset) groups

pub chars-IsPlain : (groups : List ℕ) → IsGroups 5 groups → IsPlain (chars groups)
chars-IsPlain [] g = tt
chars-IsPlain (d ∷ ds) (h, g) = (char_at-plain d h, chars-IsPlain ds g)

pub symbols-chars : (groups : List ℕ) → IsGroups 5 groups → symbols (chars groups) ≡ some groups
unfolding symbols
symbols-chars [] g = refl
symbols-chars (d ∷ ds) (h, g) = rw (index_byte-char_at d h, symbols-chars ds g) refl

last_index-chars : (groups : List ℕ) → IsGroups 5 groups → last_index (chars groups) b'1' ≡ none
unfolding last_index
last_index-chars [] g = refl
last_index-chars (d ∷ ds) (h, g) = rw (last_index-chars ds g, char_at-other d h) refl

-- The last `1` of a text whose tail has none.
pub last_index-split :
    (hrp groups : List ℕ)
    → IsGroups 5 groups
    → last_index (hrp ++ b'1' ∷ chars groups) b'1' ≡ some (length hrp)
unfolding last_index
last_index-split [] groups g = rw (last_index-chars groups g) refl
last_index-split (c ∷ hrp) groups g = rw (last_index-split hrp groups g) refl

pub length-chars : (groups : List ℕ) → length (chars groups) ≡ length groups
length-chars [] = refl
length-chars (d ∷ ds) = ap (λ n. suc n) (length-chars ds)
