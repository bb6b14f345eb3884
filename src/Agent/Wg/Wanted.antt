-- ===== src/Agent/Wg/Wanted.antt =====
-- `desiredPeers` of agent/wg.go against the peers of the response.
use fips_exit_gate.Base.{
  ℕ, ◌≡◌, ◌≢◌, ◌↔◌, ◌⊎◌, refl, ◌∙◌, sym, ap, Bool, true, false, ◌||◌, ◌++◌, Option, none, some,
  List, [], ◌∷◌, arith, inl, inr, if◌then◌else◌, Bool-cases,
}
use fips_exit_gate.Base.Equality.{same_bytes, same_bytes_iff, bytes_eq}
use fips_exit_gate.Base.Assoc.{lookup, insert, lookup-insert}
use fips_exit_gate.Store.Authz.{any}
use fips_exit_gate.Agent.Wg.{
  Text, Peer, WgPeerInfo, WgPeersResponse, has_text, non_empty, allowed_ips, fill_peers,
  desired_peers,
}
use fips_exit_gate.Agent.Wg.Diff.{has_text-sort}

-- The last peer of a key.
abbrev pub last_peer : Text → List WgPeerInfo → Option WgPeerInfo
last_peer k [] = none
last_peer k (p ∷ ps) = elim (last_peer k ps) [
  | some q ↦ some q
  | none ↦ if same_bytes p.pubkey k then some p else none
]

-- Exactly the addresses that a peer names, where an empty text names none.
abbrev pub HasAddresses : Option WgPeerInfo → Option (List Text) → Type 0
HasAddresses none none = Unit
HasAddresses (some p) (some ips) =
    (t : Text) → (has_text t ips ≡ true) ↔ ((t ≢ []) × ((t ≡ p.ip4) ⊎ (t ≡ p.ip6)))
HasAddresses _ _ = ⊥

has_text-append :
    (t : Text) (xs ys : List Text) → has_text t (xs ++ ys) ≡ (has_text t xs || has_text t ys)
unfolding has_text any
has_text-append t [] ys = refl
has_text-append t (x ∷ xs) ys = ground (arith, has_text-append t xs ys)

has_text-non_empty : (t a : Text) → (has_text t (non_empty a) ≡ true) ↔ ((t ≢ []) × (t ≡ a))
unfolding has_text any non_empty
has_text-non_empty t [] = (λ h. cc, λ h. absurd (h.0 h.1))
has_text-non_empty t (b ∷ bs) = (
  λ h.
      let e : t ≡ b ∷ bs = ground (arith, h, same_bytes_iff t (b ∷ bs)) in
      (λ n. cons_nil b bs (sym e ∙ n), e),
  λ h. ground (arith, h.1, same_bytes_iff t (b ∷ bs)),
)
  where
    cons_nil : (b : ℕ) (bs : Text) → b ∷ bs ≡ [] → ⊥
    cons_nil b bs h = cc

allowed_ips_lem : (p : WgPeerInfo) → HasAddresses (some p) (some (allowed_ips p))
unfolding allowed_ips
allowed_ips_lem p t =
    let same =
      has_text-sort t (non_empty p.ip4 ++ non_empty p.ip6)
      ∙ has_text-append t (non_empty p.ip4) (non_empty p.ip6) in
    let (to4, from4) = has_text-non_empty t p.ip4 in
    let (to6, from6) = has_text-non_empty t p.ip6 in
    (
      λ h. elim (Bool-cases (has_text t (non_empty p.ip4))) [
        | inl y ↦ let (n, e) = to4 y in (n, inl e)
        | inr x ↦ let (n, e) = to6 (right x (sym same ∙ h)) in (n, inr e)
      ],
      λ (n, which). same ∙ elim which [
        | inl e ↦ ap (λ b. b || has_text t (non_empty p.ip6)) (from4 (n, e))
        | inr e ↦ or_true (has_text t (non_empty p.ip4)) (from6 (n, e))
      ],
    )
  where
    right : {a b : Bool} → a ≡ false → (a || b) ≡ true → b ≡ true
    right {a = false} p h = h
    right {a = true} p h = cc

    or_true : (a : Bool) {b : Bool} → b ≡ true → (a || b) ≡ true
    or_true true h = refl
    or_true false h = h

-- What the peers of a list say of a key, over what was there.
abbrev over : Option WgPeerInfo → Option (List Text) → Option (List Text)
over none o = o
over (some p) o = some (allowed_ips p)

lookup-fill_peers :
    (k : Text) (ps : List WgPeerInfo) (m : List Peer)
    → lookup k (fill_peers ps m) ≡ over (last_peer k ps) (lookup k m)
unfolding fill_peers
lookup-fill_peers k [] m = refl
lookup-fill_peers k (p ∷ ps) m =
    lookup-fill_peers k ps (insert p.pubkey (allowed_ips p) m)
    ∙ ap (over (last_peer k ps)) (lookup-insert p.pubkey k (allowed_ips p) m)
    ∙ step (last_peer k ps) (same_bytes p.pubkey k)
  where
    step :
        (q : Option WgPeerInfo) (b : Bool)
        → over q (if b then some (allowed_ips p) else lookup k m)
          ≡ over (elim q [ some r ↦ some r | none ↦ if b then some p else none ]) (lookup k m)
    step none true = refl
    step none false = refl
    step (some r) b = refl

pub HasAddresses-desired_peers :
    (k : Text) (resp : WgPeersResponse)
    → HasAddresses (last_peer k resp.peers) (lookup k (desired_peers resp))
unfolding desired_peers
HasAddresses-desired_peers k resp =
    rw (lookup-fill_peers k resp.peers []) (found (last_peer k resp.peers))
  where
    found : (o : Option WgPeerInfo) → HasAddresses o (over o (lookup k []))
    found none = unfold lookup in tt
    found (some p) = allowed_ips_lem p
