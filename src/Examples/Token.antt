-- ===== src/Examples/Token.antt =====
-- A captive token that is signed and verified.
use fips_exit_gate.Base.{
  ℕ, ◌+◌, ◌-◌, ◌≡◌, refl, ap, true, some, List, [], ◌∷◌, map, arith, ltb, if◌then◌else◌,
}
use fips_exit_gate.Base.Equality.{same_bytes}
use fips_exit_gate.Base.Split.{lacks}
use fips_exit_gate.Captive.Token.{
  TokenText, IsTokenText, IsAuthentic, accepted, rejected, expired, sign, verify, verify-sign,
  verify-IsAuthentic,
}
use fips_exit_gate.Examples.Portal.{first_byte}

-- Bytes are moved past the separator; a number is one digit.
abbrev past_bar : List ℕ → List ℕ
past_bar s = map (λ b. b + 125) s

abbrev moved : TokenText
moved = record {
  mac = λ m. 5 ∷ [];
  encode64 = past_bar;
  decode64 = λ s. some (map (λ b. b - 125) s);
  format_int = λ n. (n + 125) ∷ [];
  parse_int = λ s. first_byte (map (λ b. b - 125) s);
  addr_text = λ a. (a + 125) ∷ [];
  parse_addr = λ s. first_byte (map (λ b. b - 125) s);
}

past_bar_plain : (s : List ℕ) → lacks 124 (past_bar s) ≡ true
unfolding lacks
past_bar_plain [] = refl
past_bar_plain (b ∷ bs) = ground (arith, past_bar_plain bs)

past_bar_back : (s : List ℕ) → map (λ b. b - 125) (past_bar s) ≡ s
past_bar_back [] = refl
past_bar_back (b ∷ bs) = rw (past_bar_back bs) (ap (λ x. x ∷ bs) (omega arith))

moved-IsTokenText : IsTokenText moved
unfolding lacks
moved-IsTokenText = record {
  encode_plain = past_bar_plain;
  int_plain = λ n. ground arith;
  addr_plain = λ a. ground arith;
  decode_encode = λ s. ap some (past_bar_back s);
  parse_format = λ n h. ap some (omega arith);
  parse_addr_text = λ a. ap some (omega arith);
}

verify-sign_example :
    verify moved (sign moved 31 400) 200 ≡ (if ltb 400 200 then rejected expired else accepted 31)
verify-sign_example = verify-sign moved 31 400 200 moved-IsTokenText (omega arith)

fresh_token : verify moved (sign moved 31 400) 200 ≡ accepted 31
unfolding verify sign same_bytes
fresh_token = refl

verify-IsAuthentic_example : IsAuthentic moved 200 (sign moved 31 400) 31
verify-IsAuthentic_example = verify-IsAuthentic moved (sign moved 31 400) 200 31 fresh_token
