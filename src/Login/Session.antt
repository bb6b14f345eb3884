-- ===== src/Login/Session.antt =====
-- backend/session.go: the signed cookie that holds who is logged in. Texts are lists of bytes, and
-- instants are seconds.
use mathlib.Core.Path.{subst}
use mathlib.Core.List.{append_assoc}
use fips_exit_gate.Base.{
  ℕ, ◌≤◌, ap, ◌+◌, ◌*◌, ◌^◌, Bool, true, ◌&&◌, Option, none, some, List, [], ◌∷◌, ◌++◌, leb,
  if◌then◌else◌, ◌≡◌, refl, ◌<◌, arith, Bool-cases, inl, inr,
}
use fips_exit_gate.Base.Equality.{same_bytes, same_bytes_iff}
use fips_exit_gate.Base.Split.{split_on, lacks, join, split_on-front, split_on-last, join-split_on}
use fips_exit_gate.Login.{is_live}

-- Go's library: `sessionMAC` under the portal's secret, `base64.RawURLEncoding`,
-- `strconv.FormatInt` and `strconv.ParseInt` (a negative number reads 0: it is as far in the past).
pub record SessionText : Type 0 where
  pub session_mac : List ℕ → List ℕ
  pub encode64 : List ℕ → List ℕ
  pub decode64 : List ℕ → Option (List ℕ)
  pub format_int : ℕ → List ℕ
  pub parse_int : List ℕ → Option ℕ

-- `http.Cookie`, less its constant fields. No expiry is a `MaxAge` of -1: it is deleted.
pub record Cookie : Type 0 where
  pub value : List ℕ
  pub secure : Bool
  pub expires : Option ℕ

abbrev pub session_ttl_hours : ℕ
session_ttl_hours = 24 * 7

unfoldable pub clear_session : Bool → Cookie
clear_session secure = record { value = []; secure = secure; expires = none }

module _ (t : SessionText) where
  unfoldable pub set_session : Bool → ℕ → List ℕ → Cookie
  set_session secure now npub =
      let exp = now + session_ttl_hours * 3600 in
      let payload = t.encode64 npub ++ 46 ∷ t.format_int exp in
      record { value = payload ++ 46 ∷ t.session_mac payload; secure = secure; expires = some exp }

  unfoldable session_parts : ℕ → List ℕ × List (List ℕ) → Option (List ℕ)
  unfolding is_live
  session_parts now (b, []) = none
  session_parts now (b, exp ∷ []) = none
  session_parts now (b, exp ∷ mac ∷ []) =
      if same_bytes mac (t.session_mac (b ++ 46 ∷ exp)) && is_live now (t.parse_int exp)
      then t.decode64 b
      else none
  session_parts now (b, exp ∷ mac ∷ more ∷ parts) = none

  -- `session`, of the value of the request's cookie.
  unfoldable pub session : ℕ → Option (List ℕ) → Option (List ℕ)
  unfolding session_parts split_on
  session now none = none
  session now (some value) = session_parts now (split_on 46 value)

-- What the code relies on: neither base64 nor a decimal has a dot, and both are read back.
pub record IsSessionText (t : SessionText) : Type 0 where
  pub mac_plain : (m : List ℕ) → lacks 46 (t.session_mac m) ≡ true
  pub encode_plain : (s : List ℕ) → lacks 46 (t.encode64 s) ≡ true
  pub int_plain : (n : ℕ) → lacks 46 (t.format_int n) ≡ true
  pub decode_encode : (s : List ℕ) → t.decode64 (t.encode64 s) ≡ some s
  pub parse_format : (n : ℕ) → n < 2 ^ 63 → t.parse_int (t.format_int n) ≡ some n

-- The cookie `v` is the portal's: under its secret, in the name of `npub`, and with time left.
pub record IsSigned (t : SessionText) (now : ℕ) (v npub : List ℕ) : Type 0 where
  pub name : List ℕ
  pub until : List ℕ
  pub deadline : ℕ
  pub signed : v ≡ name ++ 46 ∷ (until ++ 46 ∷ t.session_mac (name ++ 46 ∷ until))
  pub named : t.decode64 name ≡ some npub
  pub dated : t.parse_int until ≡ some deadline
  pub in_time : now ≤ deadline

module _ (t : SessionText) where
  is_live_deadline :
      (now : ℕ) (e : Option ℕ) → is_live now e ≡ true → (d : ℕ) × (e ≡ some d) × (now ≤ d)
  unfolding is_live
  is_live_deadline now none h = cc
  is_live_deadline now (some d) h = (d, refl, ground arith)

  session_parts-IsSigned :
      (now : ℕ) (p : List ℕ × List (List ℕ)) (npub : List ℕ)
      → session_parts t now p ≡ some npub
      → IsSigned t now (join 46 p) npub
  unfolding session_parts join
  session_parts-IsSigned now (b, []) npub h = cc
  session_parts-IsSigned now (b, exp ∷ []) npub h = cc
  session_parts-IsSigned now (b, exp ∷ mac ∷ []) npub h =
      let signs = same_bytes mac (t.session_mac (b ++ 46 ∷ exp)) in
      elim (Bool-cases (signs && is_live now (t.parse_int exp))) [
        | inl good ↦
            let same : signs ≡ true = ground arith in
            let (d, dated, early) = is_live_deadline now (t.parse_int exp) (ground arith) in
            record {
              name = b;
              until = exp;
              deadline = d;
              signed = ap (λ m. b ++ 46 ∷ (exp ++ 46 ∷ m)) ((same_bytes_iff _ _).0 same);
              named = rw good at h;
              dated = dated;
              in_time = early;
            }
        | inr bad ↦ cc (rw bad at h)
      ]
  session_parts-IsSigned now (b, exp ∷ mac ∷ more ∷ parts) npub h = cc

  -- Whoever the portal reads from a cookie is named in it: the cookie is signed under the portal's
  -- secret over exactly that name and a deadline, and the deadline has not passed.
  pub session-IsSigned :
      (now : ℕ) (v npub : List ℕ) → session t now (some v) ≡ some npub → IsSigned t now v npub
  unfolding session
  session-IsSigned now v npub h =
      subst (λ w. IsSigned t now w npub) (join-split_on 46 v)
        (session_parts-IsSigned now (split_on 46 v) npub h)

module _ (t : SessionText) (ok : IsSessionText t) where
  set_session-split :
      (secure : Bool) (now : ℕ) (npub : List ℕ)
      → let b = t.encode64 npub in
        let exp = t.format_int (now + session_ttl_hours * 3600) in
        split_on 46 (set_session t secure now npub).value
        ≡ (b, exp ∷ t.session_mac (b ++ 46 ∷ exp) ∷ [])
  unfolding set_session
  set_session-split secure now npub =
      let b = t.encode64 npub in
      let exp = t.format_int (now + session_ttl_hours * 3600) in
      let mac = t.session_mac (b ++ 46 ∷ exp) in
      rw
        (
          append_assoc b (46 ∷ exp) (46 ∷ mac),
          split_on-front 46 b (exp ++ 46 ∷ mac) (ok.encode_plain npub),
          split_on-front 46 exp mac (ok.int_plain _),
          split_on-last 46 mac (ok.mac_plain _),
        )
        refl

  -- While the clock's seconds fit 63 bits: who has logged in is read back from the cookie until its
  -- seven days are over, and no one afterwards; and a portal reads no one from the cookie that a
  -- logout leaves.
  pub session-set_session :
      (secure : Bool) (now later : ℕ) (npub : List ℕ)
      → now + 604800 < 2 ^ 63
      → (session t later (some (set_session t secure now npub).value)
          ≡ (if leb later (now + 604800) then some npub else none))
        × (session t later (some (clear_session secure).value) ≡ none)
  unfolding session session_parts is_live clear_session split_on
  session-set_session secure now later npub fits =
      let m = t.session_mac (t.encode64 npub ++ 46 ∷ t.format_int (now + 604800)) in
      let itself : same_bytes m m ≡ true = (same_bytes_iff m m).1 refl in
      (
        rw
            (
              set_session-split secure now npub,
              ok.decode_encode npub,
              ok.parse_format (now + 604800) fits,
              itself,
            )
            refl,
        refl,
      )
