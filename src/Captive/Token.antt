-- ===== src/Captive/Token.antt =====
-- pkg/captivetoken/token.go: the signed hint in the redirect of the captive portal, which names the
-- address that was not authorized. Texts are lists of bytes, instants are seconds.
use mathlib.Core.List.{append_assoc}
use fips_exit_gate.Base.{
  ℕ, ◌^◌, ◌≤◌, ◌<◌, ◌≡◌, refl, sym, ap, ◌∙◌, Bool, true, false, Option, none, some, List, [], ◌∷◌,
  ◌++◌, inl, inr, arith, ltb, if◌then◌else◌, Bool-cases, Option-cases,
}
use fips_exit_gate.Base.Equality.{same_bytes, same_bytes_iff}
use fips_exit_gate.Base.Split.{split_on, lacks, join, split_on-front, split_on-last, join-split_on}

-- Go's library: `mac` under the shared secret, `base64.RawURLEncoding`, `strconv.FormatInt` and
-- `strconv.ParseInt` (a negative number reads 0: it is as far in the past), and the text of a
-- `netip.Addr` with `ParseAddr`.
pub record TokenText : Type 0 where
  pub mac : List ℕ → List ℕ
  pub encode64 : List ℕ → List ℕ
  pub decode64 : List ℕ → Option (List ℕ)
  pub format_int : ℕ → List ℕ
  pub parse_int : List ℕ → Option ℕ
  pub addr_text : ℕ → List ℕ
  pub parse_addr : List ℕ → Option ℕ

pub data TokenError : Type 0 where
  bad_base64 malformed bad_signature bad_expiry expired bad_addr : TokenError

pub data Verified : Type 0 where
  accepted : ℕ → Verified
  rejected : TokenError → Verified

abbrev pub ttl_seconds : ℕ
ttl_seconds = 300

module _ (t : TokenText) where
  -- `Sign`.
  unfoldable pub sign : ℕ → ℕ → List ℕ
  sign addr exp =
      let payload = t.addr_text addr ++ 124 ∷ t.format_int exp in
      t.encode64 (payload ++ 124 ∷ t.encode64 (t.mac payload))

  unfoldable pub is_authentic : List ℕ → Option (List ℕ) → Bool
  is_authentic payload none = false
  is_authentic payload (some got) = same_bytes (t.mac payload) got

  unfoldable pub named_addr : Option ℕ → Verified
  named_addr none = rejected bad_addr
  named_addr (some addr) = accepted addr

  unfoldable pub before_expiry : ℕ → List ℕ → Option ℕ → Verified
  unfolding named_addr
  before_expiry now addr none = rejected bad_expiry
  before_expiry now addr (some exp) =
      if ltb exp now then rejected expired else named_addr (t.parse_addr addr)

  unfoldable pub verify_token_parts : ℕ → List ℕ × List (List ℕ) → Verified
  unfolding is_authentic before_expiry
  verify_token_parts now (addr, []) = rejected malformed
  verify_token_parts now (addr, exp ∷ []) = rejected malformed
  verify_token_parts now (addr, exp ∷ mac ∷ []) =
      if is_authentic (addr ++ 124 ∷ exp) (t.decode64 mac)
      then before_expiry now addr (t.parse_int exp)
      else rejected bad_signature
  verify_token_parts now (addr, exp ∷ mac ∷ more ∷ parts) = rejected malformed

  unfoldable pub verify_raw : ℕ → Option (List ℕ) → Verified
  unfolding verify_token_parts split_on
  verify_raw now none = rejected bad_base64
  verify_raw now (some raw) = verify_token_parts now (split_on 124 raw)

  -- `Verify`.
  unfoldable pub verify : List ℕ → ℕ → Verified
  unfolding verify_raw
  verify token now = verify_raw now (t.decode64 token)

-- What the code relies on: neither base64, nor a decimal, nor an address without a zone has a bar,
-- and all three are read back.
pub record IsTokenText (t : TokenText) : Type 0 where
  pub encode_plain : (s : List ℕ) → lacks 124 (t.encode64 s) ≡ true
  pub int_plain : (n : ℕ) → lacks 124 (t.format_int n) ≡ true
  pub addr_plain : (a : ℕ) → lacks 124 (t.addr_text a) ≡ true
  pub decode_encode : (s : List ℕ) → t.decode64 (t.encode64 s) ≡ some s
  pub parse_format : (n : ℕ) → n < 2 ^ 63 → t.parse_int (t.format_int n) ≡ some n
  pub parse_addr_text : (a : ℕ) → t.parse_addr (t.addr_text a) ≡ some a

-- The token is authentic: the secret's code is over exactly this address and a deadline that has
-- not passed.
pub record IsAuthentic (t : TokenText) (now : ℕ) (token : List ℕ) (addr : ℕ) : Type 0 where
  pub name : List ℕ
  pub until : List ℕ
  pub code : List ℕ
  pub deadline : ℕ
  pub raw : t.decode64 token ≡ some (name ++ 124 ∷ (until ++ 124 ∷ code))
  pub signed : t.decode64 code ≡ some (t.mac (name ++ 124 ∷ until))
  pub dated : t.parse_int until ≡ some deadline
  pub in_time : now ≤ deadline
  pub named : t.parse_addr name ≡ some addr

module _ (t : TokenText) where
  -- What `Sign` makes up to the largest date of 63 bits, `Verify` accepts with its address until the
  -- expiry, and as expired afterwards.
  pub verify-sign :
      (addr exp now : ℕ)
      → IsTokenText t
      → exp < 2 ^ 63
      → verify t (sign t addr exp) now ≡ (if ltb exp now then rejected expired else accepted addr)
  unfolding verify verify_raw sign verify_token_parts is_authentic before_expiry named_addr
  verify-sign addr exp now law fits =
      let a = t.addr_text addr in
      let e = t.format_int exp in
      let m = t.mac (a ++ 124 ∷ e) in
      let itself = (same_bytes_iff m m).1 refl in
      rw
        (
          law.decode_encode ((a ++ 124 ∷ e) ++ 124 ∷ t.encode64 m),
          append_assoc a (124 ∷ e) (124 ∷ t.encode64 m),
          split_on-front 124 a (e ++ 124 ∷ t.encode64 m) (law.addr_plain addr),
          split_on-front 124 e (t.encode64 m) (law.int_plain exp),
          split_on-last 124 (t.encode64 m) (law.encode_plain m),
          law.decode_encode m,
          itself,
          law.parse_format exp fits,
          law.parse_addr_text addr,
        )
        refl

  parts-IsAuthentic :
      (now : ℕ) (token : List ℕ) (p : List ℕ × List (List ℕ)) (addr : ℕ)
      → t.decode64 token ≡ some (join 124 p)
      → verify_token_parts t now p ≡ accepted addr
      → IsAuthentic t now token addr
  unfolding verify_token_parts is_authentic before_expiry named_addr join
  parts-IsAuthentic now token (name, []) addr raw h = cc
  parts-IsAuthentic now token (name, until ∷ []) addr raw h = cc
  parts-IsAuthentic now token (name, until ∷ code ∷ []) addr raw h =
      elim (Option-cases (t.decode64 code)) [
        | inl unreadable ↦ cc (rw unreadable at h)
        | inr (got, read) ↦ elim (Bool-cases (same_bytes (t.mac (name ++ 124 ∷ until)) got)) [
          | inr forged ↦ cc (rw (read, forged) at h)
          | inl same ↦ elim (Option-cases (t.parse_int until)) [
            | inl undated ↦ cc (rw (read, same, undated) at h)
            | inr (deadline, dated) ↦ elim (Bool-cases (ltb deadline now)) [
              | inl late ↦ cc (rw (read, same, dated, late) at h)
              | inr early ↦ elim (Option-cases (t.parse_addr name)) [
                | inl nameless ↦ cc (rw (read, same, dated, early, nameless) at h)
                | inr (a, named) ↦
                    let e = rw (read, same, dated, early, named) at h in
                    let found : a ≡ addr = cc in
                    record {
                      name = name;
                      until = until;
                      code = code;
                      deadline = deadline;
                      raw = raw;
                      signed =
                          read ∙ ap (λ (x : List ℕ). some x) (sym ((same_bytes_iff _ _).0 same));
                      dated = dated;
                      in_time = ground arith;
                      named = named ∙ ap (λ (x : ℕ). some x) found;
                    }
              ]
            ]
          ]
        ]
      ]
  parts-IsAuthentic now token (name, until ∷ code ∷ more ∷ parts) addr raw h = cc

  -- An address that `Verify` accepts is named in the token, which is signed under the shared secret
  -- over that name and a deadline that has not passed.
  pub verify-IsAuthentic :
      (token : List ℕ) (now addr : ℕ)
      → verify t token now ≡ accepted addr
      → IsAuthentic t now token addr
  unfolding verify verify_raw
  verify-IsAuthentic token now addr h = elim (Option-cases (t.decode64 token)) [
    | inl unreadable ↦ cc (rw unreadable at h)
    | inr (raw, read) ↦
        parts-IsAuthentic now token (split_on 124 raw) addr
          (read ∙ ap (λ (x : List ℕ). some x) (sym (join-split_on 124 raw))) (rw read at h)
  ]
