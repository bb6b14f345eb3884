-- ===== src/Examples/Npub.antt =====
-- The key and the npub of the NIP-19 test vector.
use fips_exit_gate.Base.{
  ℕ, List, [], ◌∷◌, ◌++◌, true, ◌≡◌, refl, arith, Bool, ◌&&◌, and_left, and_right,
}
use fips_exit_gate.Base.Equality.{same_bytes}
use fips_exit_gate.Npub.{Casing, ok, encode_npub, decode_npub, valid_x_only}
use fips_exit_gate.Npub.Text.{is_plain, IsPlain, IsCasing}
use fips_exit_gate.Npub.RoundTrip.{decode_npub-encode_npub}
use fips_exit_gate.Npub.Slips.{decode_npub-slip}

abbrev key : List ℕ
key =
    126 ∷ 126 ∷ 156 ∷ 66 ∷ 169 ∷ 27 ∷ 254 ∷ 241 ∷ 159 ∷ 169 ∷ 41 ∷ 229 ∷ 253 ∷ 161 ∷ 183 ∷ 46 ∷ 14
    ∷ 188 ∷ 26 ∷ 76 ∷ 17 ∷ 65 ∷ 103 ∷ 62 ∷ 39 ∷ 148 ∷ 35 ∷ 77 ∷ 134 ∷ 173 ∷ 223 ∷ 78 ∷ []

abbrev front : List ℕ
front =
    110 ∷ 112 ∷ 117 ∷ 98 ∷ 49 ∷ 48 ∷ 101 ∷ 108 ∷ 102 ∷ 99 ∷ 115 ∷ 52 ∷ 102 ∷ 114 ∷ 48 ∷ 108 ∷ 48
    ∷ 114 ∷ 56 ∷ 97 ∷ 102 ∷ 57 ∷ 56 ∷ 106 ∷ 108 ∷ 109 ∷ 103 ∷ 100 ∷ 104 ∷ 57 ∷ 99 ∷ 56 ∷ 116 ∷ 99
    ∷ 120 ∷ 106 ∷ []

abbrev back : List ℕ
back =
    122 ∷ 57 ∷ 113 ∷ 107 ∷ 119 ∷ 48 ∷ 51 ∷ 56 ∷ 106 ∷ 115 ∷ 51 ∷ 53 ∷ 109 ∷ 112 ∷ 52 ∷ 100 ∷ 109
    ∷ 97 ∷ 56 ∷ 113 ∷ 122 ∷ 118 ∷ 106 ∷ 112 ∷ 116 ∷ 103 ∷ []

abbrev no_case : Casing
no_case = record { to_lower = λ s. s; to_upper = λ s. s }

no_case-IsCasing : IsCasing no_case
no_case-IsCasing = record { lower_plain = λ s p. refl }

key_good : valid_x_only key ≡ true
unfolding valid_x_only
key_good = refl

text_of_key : encode_npub key ≡ front ++ 118 ∷ back
unfolding encode_npub
text_of_key = refl

key_of_text : decode_npub no_case (front ++ 118 ∷ back) ≡ ok key
unfolding decode_npub same_bytes
key_of_text = refl

abbrev all_plain : List ℕ → Bool
all_plain [] = true
all_plain (b ∷ bs) = is_plain b && all_plain bs

all_plain-IsPlain : (s : List ℕ) → all_plain s ≡ true → IsPlain s
all_plain-IsPlain [] h = tt
all_plain-IsPlain (b ∷ bs) h = (
  and_left (is_plain b) (all_plain bs) h,
  all_plain-IsPlain bs (and_right (is_plain b) (all_plain bs) h),
)

decode_npub-encode_npub_example : decode_npub no_case (encode_npub key) ≡ ok key
decode_npub-encode_npub_example =
    decode_npub-encode_npub no_case key no_case-IsCasing (omega arith) refl key_good

decode_npub-slip_example : ◌≡◌ {A = ℕ} 118 118
decode_npub-slip_example =
    decode_npub-slip no_case front back 118 118 key key no_case-IsCasing
      (all_plain-IsPlain (front ++ 118 ∷ back) refl) (all_plain-IsPlain (front ++ 118 ∷ back) refl)
      key_of_text key_of_text
