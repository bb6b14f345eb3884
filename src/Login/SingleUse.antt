-- ===== src/Login/SingleUse.antt =====
-- A login challenge that has been accepted is never accepted again.
use fips_exit_gate.Base.{
  ℕ, ◌+◌, ◌≤◌, ◌<◌, ◌≡◌, refl, ◌∙◌, sym, ap, ◌⊎◌, inl, inr, Bool, true, false, ◌&&◌, Option, none,
  some, List, [], ◌∷◌, arith, ltb, leb, ◌==◌, if◌then◌else◌, length, Bool-cases,
}
use fips_exit_gate.Base.Equality.{same_bytes, same_bytes_iff, bytes_eq}
use fips_exit_gate.Base.Assoc.{lookup, insert, lookup-insert}
use fips_exit_gate.Base.Split.{split_on}
use fips_exit_gate.Login.{
  LoginText, AuthEvent, challenge_ttl, is_live, verify_parts, verify_challenge, extract_challenge,
  extract_tag, audience_tag, audience_ok, is_timely, auth_event_kind, Seen, is_fresh, prune,
  consume, auth_verify,
}

-- A challenge is remembered up to an instant at least.
abbrev until : ℕ → Option ℕ → Bool
until at none = false
until at (some exp) = leb at exp

until-prune :
    (c : List ℕ) (now at : ℕ) (seen : Seen)
    → now ≤ at
    → until at (lookup c seen) ≡ true
    → until at (lookup c (prune now seen)) ≡ true
unfolding lookup prune
until-prune c now at [] le h = h
until-prune c now at ((d, exp) ∷ seen) le h = ground (arith, until-prune c now at seen)

until-not_fresh :
    (now at : ℕ) (o : Option ℕ) → now ≤ at → until at o ≡ true → is_fresh now o ≡ false
unfolding is_fresh
until-not_fresh now at none le h = cc
until-not_fresh now at (some exp) le h = ground arith

until-maybe :
    (c : List ℕ) (now at : ℕ) (b : Bool) (seen : Seen)
    → now ≤ at
    → until at (lookup c seen) ≡ true
    → until at (lookup c (if b then prune now seen else seen)) ≡ true
until-maybe c now at true seen le h = until-prune c now at seen le h
until-maybe c now at false seen le h = h

-- While it is remembered, a challenge is neither forgotten nor fresh.
until-consume :
    (c d : List ℕ) (now at : ℕ) (seen : Seen)
    → now ≤ at
    → until at (lookup c seen) ≡ true
    → until at (lookup c (consume d now seen).0) ≡ true
unfolding consume
until-consume c d now at seen le h = elim (Bool-cases (is_fresh now (lookup d seen))) [
  | inr used ↦ rw used h
  | inl fresh ↦
      let m = if ltb 1024 (length seen) then prune now seen else seen in
      elim (Bool-cases (same_bytes d c)) [
        | inl same ↦
            let eq : d ≡ c = (same_bytes_iff d c).0 same in
            let stale = until-not_fresh now at (lookup c seen) le h in
            let new : is_fresh now (lookup c seen) ≡ true = rw eq at fresh in cc
        | inr other ↦
            rw (fresh, lookup-insert d c (now + challenge_ttl) m, other)
              (until-maybe c now at (ltb 1024 (length seen)) seen le h)
      ]
]

consumed :
    (c : List ℕ) (now : ℕ) (seen seen' : Seen)
    → consume c now seen ≡ (seen', true)
    → until (now + challenge_ttl) (lookup c seen') ≡ true
unfolding consume
consumed c now seen seen' h = elim (Bool-cases (is_fresh now (lookup c seen))) [
  | inr used ↦ cc (rw used at h)
  | inl fresh ↦
      let m = if ltb 1024 (length seen) then prune now seen else seen in
      let same : insert c (now + challenge_ttl) m ≡ seen' = cc (rw fresh at h) in
      let itself : same_bytes c c ≡ true = (same_bytes_iff c c).1 refl in
      rw (← same, lookup-insert c c (now + challenge_ttl) m, itself) (ground arith)
]

refused :
    (c : List ℕ) (now at : ℕ) (seen : Seen)
    → now ≤ at
    → until at (lookup c seen) ≡ true
    → consume c now seen ≡ (seen, false)
unfolding consume
refused c now at seen le h = rw (until-not_fresh now at (lookup c seen) le h) refl

module _ (t : LoginText) where
  expiry_of : List ℕ × List (List ℕ) → Option ℕ
  expiry_of (nonce, []) = none
  expiry_of (nonce, exp ∷ parts) = t.parse_int exp

  -- The expiry that a challenge carries.
  unfoldable pub expiry : List ℕ → Option ℕ
  unfolding expiry_of
  expiry challenge = expiry_of (split_on 46 challenge)

  parts-live :
      (now : ℕ) (p : List ℕ × List (List ℕ))
      → verify_parts t now p ≡ true
      → is_live now (expiry_of p) ≡ true
  unfolding verify_parts expiry_of
  parts-live now (nonce, []) h = cc
  parts-live now (nonce, exp ∷ []) h = cc
  parts-live now (nonce, exp ∷ mac ∷ []) h = ground arith
  parts-live now (nonce, exp ∷ mac ∷ more ∷ parts) h = cc

  expired :
      (c : List ℕ) (now exp : ℕ)
      → expiry c ≡ some exp
      → exp < now
      → verify_challenge t c now ≡ false
  unfolding expiry verify_challenge is_live
  expired c now exp e late = elim (Bool-cases (verify_parts t now (split_on 46 c))) [
    | inr fails ↦ fails
    | inl verified ↦
        let live = parts-live now (split_on 46 c) verified in
        let on_time : leb now exp ≡ true = rw e at live in absurd (ground arith)
  ]

module _ (t : LoginText) (public_url : List ℕ) where
  -- Attempts to log in one after the other, with any events to any hosts, from an instant on.
  pub data Attempts (start : ℕ) (seen : Seen) : ℕ → Seen → Type 0 where
    no_more : Attempts start seen start seen
    attempt :
        {at : ℕ} {s : Seen} (now : ℕ) (host : List ℕ) (e : AuthEvent)
        → Attempts start seen at s
        → at ≤ now
        → Attempts start seen now (auth_verify t now host public_url e s).0

  verify-consume :
      (now : ℕ) (host : List ℕ) (e : AuthEvent) (seen : Seen)
      → (auth_verify t now host public_url e seen ≡ (seen, false))
        ⊎ ((auth_verify t now host public_url e seen ≡ consume (extract_challenge e) now seen)
            × (verify_challenge t (extract_challenge e) now ≡ true))
  unfolding auth_verify
  verify-consume now host e seen = elim (Bool-cases (checks e now)) [
    | inl good ↦ inr (rw good refl, ground (arith, good))
    | inr bad ↦ inl (rw bad refl)
  ]
    where
      checks : AuthEvent → ℕ → Bool
      checks e now =
          e.kind == auth_event_kind
          && verify_challenge t (extract_challenge e) now
          && is_timely now e
          && audience_ok t (extract_tag audience_tag e.tags) host public_url

  Attempts-until :
      (c : List ℕ) (start keep : ℕ) (seen : Seen) (at : ℕ) (s : Seen)
      → until keep (lookup c seen) ≡ true
      → Attempts start seen at s
      → (keep < at) ⊎ (until keep (lookup c s) ≡ true)
  Attempts-until c start keep seen _ _ h no_more = inr h
  Attempts-until c start keep seen _ _ h (attempt {at = before} {s = s'} now host e r le) =
      elim (Attempts-until c start keep seen before s' h r) [
        | inl late ↦ inl (omega arith)
        | inr kept ↦ elim (Bool-cases (leb now keep)) [
          | inr late ↦ inl (ground arith)
          | inl early ↦ elim (verify-consume now host e s') [
            | inl same ↦ inr (rw same kept)
            | inr (same, _) ↦
                inr
                  (rw same (until-consume c (extract_challenge e) now keep s' (ground arith) kept))
          ]
        ]
      ]

  -- A challenge with an expiry at most its lifetime ahead, as one that has been issued before, is
  -- accepted once: whatever attempts follow, under whatever host names, on a clock that does not go
  -- back, no later event that carries it opens a session under any host name.
  pub auth_verify_once :
      (now exp at later : ℕ) (host other : List ℕ) (e f : AuthEvent) (seen seen' s : Seen)
      → expiry t (extract_challenge e) ≡ some exp
      → exp ≤ now + challenge_ttl
      → auth_verify t now host public_url e seen ≡ (seen', true)
      → Attempts now seen' at s
      → at ≤ later
      → extract_challenge f ≡ extract_challenge e
      → auth_verify t later other public_url f s ≡ (s, false)
  auth_verify_once now exp at later host other e f seen seen' s expires soon accepted r le same =
      elim (verify-consume later other f s) [
        | inl rejected ↦ rejected
        | inr (uses, verified) ↦ elim (verify-consume now host e seen) [
          | inl no_way ↦ cc
          | inr (used, _) ↦
              let c = extract_challenge e in
              let keep = now + challenge_ttl in
              let kept = consumed c now seen seen' (sym used ∙ accepted) in
              elim (Bool-cases (leb later keep)) [
                | inl early ↦ elim (Attempts-until c now keep seen' at s kept r) [
                  | inl late ↦ absurd (ground arith)
                  | inr still ↦
                      uses
                      ∙ ap (λ (x : List ℕ). consume x later s) same
                      ∙ refused c later keep s (ground arith) still
                ]
                | inr late ↦
                    let dead = expired t c later exp expires (ground arith) in
                    let alive : verify_challenge t c later ≡ true = rw same at verified in
                    absurd (cc)
              ]
        ]
      ]
