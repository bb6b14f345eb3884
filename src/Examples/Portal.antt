-- ===== src/Examples/Portal.antt =====
-- A node that enrols and announces itself, a login that is tried twice, and its cookie.
use fips_exit_gate.Base.{
  ℕ, ◌+◌, ◌-◌, ◌≡◌, refl, ap, map, true, false, Option, none, some, List, [], ◌∷◌, arith, take,
}
use fips_exit_gate.Base.Equality.{same_bytes}
use fips_exit_gate.Base.Assoc.{lookup, insert}
use fips_exit_gate.Store.Keys.{WgText}
use fips_exit_gate.Store.Exits.{ExitDb, create_enroll_token, enroll_node}
use fips_exit_gate.Store.Exits.Enrolled.{
  no_exits, then_exit, token_issued, enrolled, IsExits, ExitRun-IsExits,
}
use fips_exit_gate.Base.Split.{split_on, lacks}
use fips_exit_gate.Login.{LoginText, AuthEvent, challenge_tag, Seen, extract_challenge, auth_verify}
use fips_exit_gate.Login.Session.{
  SessionText, IsSessionText, session, set_session, clear_session, session-set_session, IsSigned,
  session-IsSigned,
}
use fips_exit_gate.Login.SingleUse.{expiry, no_more, auth_verify_once}

abbrev plain : WgText
plain = record {
  trim = λ s. s;
  decode = λ s. some (take 32 s);
  split_host_port = λ s. none;
  atoi = λ s. none;
}

abbrev no_db : ExitDb
no_db = record { tokens = []; exits = [] }

abbrev double : ℕ → ℕ
double n = n + n

abbrev issued_one : ExitDb
issued_one = create_enroll_token double 4 no_db

ExitRun-IsExits_example : IsExits plain (enroll_node double 1 7 4 issued_one).0
ExitRun-IsExits_example =
    ExitRun-IsExits plain double (then_exit (then_exit no_exits (token_issued 4)) (enrolled 1 7 4))

-- An expiry is its only byte, a code is what it authenticates.
abbrev pub first_byte : List ℕ → Option ℕ
first_byte [] = none
first_byte (b ∷ bs) = some b

abbrev codes : LoginText
codes = record {
  mac_of = λ m. 9 ∷ [];
  parse_int = first_byte;
  url_host = λ u. some u;
  equal_fold = same_bytes;
}

abbrev event : AuthEvent
event = record {
  npub = 11;
  kind = 27235;
  created_at = 50;
  tags = (challenge_tag ∷ (1 ∷ 46 ∷ 130 ∷ 46 ∷ 9 ∷ []) ∷ []) ∷ ((117 ∷ []) ∷ (8 ∷ []) ∷ []) ∷ [];
}

abbrev used_one : Seen
used_one = (1 ∷ 46 ∷ 130 ∷ 46 ∷ 9 ∷ [], 180) ∷ []

accepted_once : auth_verify codes 60 (8 ∷ []) [] event [] ≡ (used_one, true)
unfolding auth_verify same_bytes lookup insert
accepted_once = refl

expires_at_130 : expiry codes (extract_challenge event) ≡ some 130
unfolding expiry split_on extract_challenge same_bytes
expires_at_130 = refl

auth_verify_once_example : auth_verify codes 100 (8 ∷ []) [] event used_one ≡ (used_one, false)
auth_verify_once_example =
    auth_verify_once codes [] 60 130 60 100 (8 ∷ []) (8 ∷ []) event event [] used_one used_one
      expires_at_130 (omega arith) accepted_once no_more (omega arith) refl

-- A text is the numbers 47 places up, so that it has no dot, and so is a decimal, of one digit.
abbrev shifted : SessionText
shifted = record {
  session_mac = λ m. 9 ∷ [];
  encode64 = map (λ b. b + 47);
  decode64 = λ s. some (map (λ b. b - 47) s);
  format_int = λ n. (n + 47) ∷ [];
  parse_int = λ s. first_byte (map (λ b. b - 47) s);
}

shifted_plain : (s : List ℕ) → lacks 46 (map (λ b. b + 47) s) ≡ true
unfolding lacks
shifted_plain [] = refl
shifted_plain (b ∷ bs) = ground (arith, shifted_plain bs)

shifted_back : (s : List ℕ) → map (λ b. b - 47) (map (λ b. b + 47) s) ≡ s
shifted_back [] = refl
shifted_back (b ∷ bs) = rw (shifted_back bs) (ap (λ x. x ∷ bs) (omega arith))

shifted-IsSessionText : IsSessionText shifted
unfolding lacks
shifted-IsSessionText = record {
  mac_plain = λ m. refl;
  encode_plain = shifted_plain;
  int_plain = λ n. ground arith;
  decode_encode = λ s. ap some (shifted_back s);
  parse_format = λ n h. ap some (omega arith);
}

session-set_session_example :
    (session shifted 700000 (some (set_session shifted true 100000 (7 ∷ [])).value) ≡ some (7 ∷ []))
    × (session shifted 700000 (some (clear_session true).value) ≡ none)
session-set_session_example =
    session-set_session shifted shifted-IsSessionText true 100000 700000 (7 ∷ []) (omega arith)

read_back :
    session shifted 700000 (some (set_session shifted true 100000 (7 ∷ [])).value) ≡ some (7 ∷ [])
unfolding session set_session same_bytes
read_back = refl

session-IsSigned_example :
    IsSigned shifted 700000 (set_session shifted true 100000 (7 ∷ [])).value (7 ∷ [])
session-IsSigned_example =
    session-IsSigned shifted 700000 (set_session shifted true 100000 (7 ∷ [])).value (7 ∷ [])
      read_back
