-- ===== src/MeshAddr.antt =====
-- pkg/fipsaddr/fipsaddr.go: the mesh address of a node, which is derived from its public key.
use fips_exit_gate.Base.{
  ℕ, ◌≡◌, ◌↔◌, refl, sym, Bool, true, false, not, ◌&&◌, List, [], ◌∷◌, inl, inr, arith, ◌==◌,
  if◌then◌else◌, length, take, drop, Bool-cases,
}
use fips_exit_gate.Base.Equality.{same_bytes, same_bytes_iff}
use fips_exit_gate.Npub.{
  Casing, Result, ok, ◌>>=◌, ensure, wrong_address, decode_npub, encode_npub, valid_x_only,
}
use fips_exit_gate.Npub.Regroup.{IsGroups}
use fips_exit_gate.Npub.Text.{IsCasing}
use fips_exit_gate.Npub.RoundTrip.{decode_npub-encode_npub}

-- `netip.Addr`: four bytes, or sixteen and a zone, or the zero value.
pub data IpAddr : Type 0 where
  no_addr : IpAddr
  v4 : List ℕ → IpAddr
  v6 : List ℕ → List ℕ → IpAddr

unfoldable pub same_addr : IpAddr → IpAddr → Bool
same_addr no_addr no_addr = true
same_addr (v4 x) (v4 y) = same_bytes x y
same_addr (v6 x z) (v6 y w) = same_bytes x y && same_bytes z w
same_addr no_addr (v4 y) = false
same_addr no_addr (v6 y w) = false
same_addr (v4 x) no_addr = false
same_addr (v4 x) (v6 y w) = false
same_addr (v6 x z) no_addr = false
same_addr (v6 x z) (v4 y) = false

-- The first twelve bytes of an IPv4 address that is written as an IPv6 address.
abbrev pub mapped : List ℕ
mapped = 0 ∷ 0 ∷ 0 ∷ 0 ∷ 0 ∷ 0 ∷ 0 ∷ 0 ∷ 0 ∷ 0 ∷ 255 ∷ 255 ∷ []

-- `Is4In6`, and `Unmap`.
unfoldable pub is_4in6 : IpAddr → Bool
is_4in6 no_addr = false
is_4in6 (v4 x) = false
is_4in6 (v6 x z) = same_bytes (take 12 x) mapped

unfoldable pub unmap : IpAddr → IpAddr
unmap no_addr = no_addr
unmap (v4 x) = v4 x
unmap (v6 x z) = if same_bytes (take 12 x) mapped then v4 (drop 12 x) else v6 x z

-- `AddressPrefix`.
abbrev pub address_prefix : ℕ
address_prefix = 0xfd

-- The first byte of `Prefix`, fd00::/8.
abbrev pub prefix_byte : ℕ
prefix_byte = 0xfd

unfoldable pub starts_with : ℕ → List ℕ → Bool
starts_with b [] = false
starts_with b (x ∷ xs) = x == b

-- `Prefix.Contains`, of fd00::/8: an address with a zone is in no prefix.
unfoldable pub in_prefix : IpAddr → Bool
unfolding starts_with
in_prefix no_addr = false
in_prefix (v4 x) = false
in_prefix (v6 x z) = same_bytes z [] && starts_with prefix_byte x

unfoldable pub is_6 : IpAddr → Bool
is_6 no_addr = false
is_6 (v4 x) = false
is_6 (v6 x z) = true

-- `Valid`.
unfoldable pub valid : IpAddr → Bool
unfolding is_6 is_4in6 in_prefix
valid addr = is_6 addr && not (is_4in6 addr) && in_prefix addr

module _ (sha256 : List ℕ → List ℕ) where
  unfoldable pub node_addr : List ℕ → List ℕ
  node_addr pubkey = take 16 (sha256 pubkey)

  unfoldable pub from_pubkey : List ℕ → IpAddr
  unfolding node_addr
  from_pubkey pubkey = v6 (address_prefix ∷ take 15 (node_addr pubkey)) []

  module _ (t : Casing) where
    unfoldable pub from_npub : List ℕ → Result IpAddr
    unfolding from_pubkey
    from_npub npub = do pubkey ← decode_npub t npub; ok (from_pubkey pubkey)

    unfoldable pub check_derivation : List ℕ → IpAddr → Result (Unit {0})
    unfolding from_npub unmap
    check_derivation npub addr = do
      derived ← from_npub npub
      ensure (same_addr derived (unmap addr)) wrong_address

pub same_addr_iff : (a b : IpAddr) → (same_addr a b ≡ true) ↔ (a ≡ b)
unfolding same_addr
same_addr_iff no_addr no_addr = (λ h. refl, λ h. refl)
same_addr_iff (v4 x) (v4 y) = ground (arith, same_bytes_iff x y)
same_addr_iff (v6 x z) (v6 y w) = ground (arith, same_bytes_iff x y, same_bytes_iff z w)
same_addr_iff no_addr (v4 y) = (λ h. cc, λ h. cc)
same_addr_iff no_addr (v6 y w) = (λ h. cc, λ h. cc)
same_addr_iff (v4 x) no_addr = (λ h. cc, λ h. cc)
same_addr_iff (v4 x) (v6 y w) = (λ h. cc, λ h. cc)
same_addr_iff (v6 x z) no_addr = (λ h. cc, λ h. cc)
same_addr_iff (v6 x z) (v4 y) = (λ h. cc, λ h. cc)

-- The npub of a valid key belongs to exactly one address, which lies inside the mesh:
-- `CheckDerivation` accepts no other, up to `Unmap`.
check_derivation_lem :
    (sha256 : List ℕ → List ℕ) (t : Casing) (key : List ℕ) (addr : IpAddr)
    → IsCasing t
    → IsGroups 8 key
    → length key ≡ 32
    → valid_x_only key ≡ true
    → (valid (from_pubkey sha256 key) ≡ true)
      × ((check_derivation sha256 t (encode_npub key) addr ≡ ok tt)
          ↔ (unmap addr ≡ from_pubkey sha256 key))
unfolding check_derivation valid same_bytes
check_derivation_lem sha256 t key addr c g l v =
    let read = decode_npub-encode_npub t key c g l v in
    let mine = from_pubkey sha256 key in
    let (to, from) = same_addr_iff mine (unmap addr) in (refl, rw read (accept mine (unmap addr)))
  where
    accept : (a b : IpAddr) → (ensure (same_addr a b) wrong_address ≡ ok tt) ↔ (b ≡ a)
    accept a b = elim (Bool-cases (same_addr a b)) [
      | inl same ↦ rw same (λ h. sym ((same_addr_iff a b).0 same), λ h. refl)
      | inr other ↦ rw other (λ h. cc, λ h. cc ((same_addr_iff a b).1 (sym h), other))
    ]
