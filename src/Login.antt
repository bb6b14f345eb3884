-- ===== src/Login.antt =====
-- backend/nostr/challenge.go and `authVerify` of backend/portal.go: login challenges, which are used
-- at most once. Challenges are lists of bytes, instants are seconds.
pub mod SingleUse
pub mod Session
use fips_exit_gate.Base.{
  ℕ, suc, ◌+◌, ◌-◌, Bool, true, false, not, ◌&&◌, ◌||◌, Option, none, some, List, [], ◌∷◌, ◌++◌,
  ltb, leb, ◌==◌, if◌then◌else◌, length, keep,
}
use fips_exit_gate.Base.Equality.{same_bytes, bytes_eq}
use fips_exit_gate.Base.Split.{split_on}
use fips_exit_gate.Base.Assoc.{lookup, insert}

-- Go's library: the message authentication code of `macOf` under the portal's secret, in its text
-- form, `strconv.ParseInt` (a negative number reads 0: it is as far in the past), the host of
-- `url.Parse` (`none` if there is no host), and `strings.EqualFold`.
pub record LoginText : Type 0 where
  pub mac_of : List ℕ → List ℕ
  pub parse_int : List ℕ → Option ℕ
  pub url_host : List ℕ → Option (List ℕ)
  pub equal_fold : List ℕ → List ℕ → Bool

-- What `nostr.Verify` has found in an event whose signature is good.
pub record AuthEvent : Type 0 where
  pub npub : ℕ
  pub kind : ℕ
  pub created_at : ℕ
  pub tags : List (List (List ℕ))

abbrev pub challenge_ttl : ℕ
challenge_ttl = 120

abbrev pub auth_event_kind : ℕ
auth_event_kind = 27235

unfoldable pub is_live : ℕ → Option ℕ → Bool
is_live now none = false
is_live now (some exp) = leb now exp

module _ (t : LoginText) where
  unfoldable pub verify_parts : ℕ → List ℕ × List (List ℕ) → Bool
  unfolding is_live
  verify_parts now (nonce, []) = false
  verify_parts now (nonce, exp ∷ []) = false
  verify_parts now (nonce, exp ∷ mac ∷ []) =
      same_bytes mac (t.mac_of (nonce ++ 46 ∷ exp)) && is_live now (t.parse_int exp)
  verify_parts now (nonce, exp ∷ mac ∷ more ∷ parts) = false

  -- `VerifyChallenge`, true if there is no error.
  unfoldable pub verify_challenge : List ℕ → ℕ → Bool
  unfolding verify_parts split_on
  verify_challenge challenge now = verify_parts now (split_on 46 challenge)

-- `"challenge"`.
abbrev pub challenge_tag : List ℕ
challenge_tag = 99 ∷ 104 ∷ 97 ∷ 108 ∷ 108 ∷ 101 ∷ 110 ∷ 103 ∷ 101 ∷ []

unfoldable pub extract_tag : List ℕ → List (List (List ℕ)) → List ℕ
extract_tag name [] = []
extract_tag name ([] ∷ tags) = extract_tag name tags
extract_tag name ((key ∷ []) ∷ tags) = extract_tag name tags
extract_tag name ((key ∷ value ∷ more) ∷ tags) =
    let rest = extract_tag name tags in if same_bytes key name then value else rest

unfoldable pub extract_challenge : AuthEvent → List ℕ
unfolding extract_tag
extract_challenge e = extract_tag challenge_tag e.tags

-- `UsedChallenges`: the challenges that have been used, with the time up to which each is kept.
abbrev pub Seen : Type 0
Seen = List (List ℕ × ℕ)

unfoldable pub is_fresh : ℕ → Option ℕ → Bool
is_fresh now none = true
is_fresh now (some exp) = ltb exp now

unfoldable pub prune : ℕ → Seen → Seen
prune now [] = []
prune now ((c, exp) ∷ seen) =
    let rest = prune now seen in if ltb exp now then rest else (c, exp) ∷ rest

-- `Consume`.
unfoldable pub consume : List ℕ → ℕ → Seen → Seen × Bool
unfolding is_fresh prune
consume challenge now seen =
    if is_fresh now (lookup challenge seen)
    then (
      insert challenge (now + challenge_ttl)
          (if ltb 1024 (length seen) then prune now seen else seen),
      true,
    )
    else (seen, false)

-- `"u"`.
abbrev pub audience_tag : List ℕ
audience_tag = 117 ∷ []

unfoldable pub is_timely : ℕ → AuthEvent → Bool
is_timely now e = leb now (e.created_at + challenge_ttl) && leb e.created_at (now + 60)

-- `authVerify` from the verified event on; true if `CreateAccount` is reached.
module _ (t : LoginText) where
  unfoldable pub is_host : Option (List ℕ) → List ℕ → Bool
  is_host none host = false
  is_host (some h) host = t.equal_fold h host

  unfoldable pub is_public : Option (List ℕ) → Option (List ℕ) → Bool
  is_public none url = false
  is_public (some h) none = false
  is_public (some h) (some own) = t.equal_fold h own

  -- `audienceOK` for a request to `host` on a portal whose public URL is `public_url`.
  unfoldable pub audience_ok : List ℕ → List ℕ → List ℕ → Bool
  unfolding is_host is_public
  audience_ok u host public_url =
      is_host (t.url_host u) host || is_public (t.url_host u) (t.url_host public_url)

  unfoldable pub auth_verify : ℕ → List ℕ → List ℕ → AuthEvent → Seen → Seen × Bool
  unfolding verify_challenge extract_challenge is_timely consume audience_ok extract_tag
  auth_verify now host public_url e seen =
      if e.kind == auth_event_kind
        && verify_challenge t (extract_challenge e) now
        && is_timely now e
        && audience_ok (extract_tag audience_tag e.tags) host public_url
      then consume (extract_challenge e) now seen
      else (seen, false)
