-- ===== src/Gate/Slots.antt =====
-- The slots of a peer table and the addresses of its rows, as the agent looks them up.
use fips_exit_gate.Base.{
  ◌≡◌, refl, ◌∙◌, ap, Bool, true, false, not, ◌||◌, some, List, [], ◌∷◌, ◌++◌, arith, inl, inr,
  ◌==◌, All, Bool-cases, some_eq,
}
use fips_exit_gate.Base.Equality.{same_bytes, same_bytes_iff, bytes_eq}
use fips_exit_gate.Base.Assoc.{lookup, insert}
use fips_exit_gate.Store.Authz.{any}
use fips_exit_gate.Store.Wg.{WgPeer, has_idx}
use fips_exit_gate.Store.Wg.Issue.{IsDistinct}
use fips_exit_gate.Agent.Wg.{Text, Peer, WgPeerInfo, text_leb, place, sort, non_empty, allowed_ips}
use fips_exit_gate.Agent.Wg.Diff.{shares, clear}

-- Two rows are one, by their keys, or have different slots.
abbrev pub apart_at : WgPeer → WgPeer → Bool
apart_at q p = same_bytes p.pubkey q.pubkey || not (p.idx == q.idx)

others-back :
    (x : WgPeer) (ps : List WgPeer) → has_idx x.idx ps ≡ false → All (λ p. apart_at x p ≡ true) ps
unfolding has_idx any
others-back x [] h = tt
others-back x (p ∷ ps) h = (ground arith, others-back x ps (ground arith))

others-front :
    (x : WgPeer) (ps : List WgPeer)
    → has_idx x.idx ps ≡ false
    → All (λ q. All (λ p. apart_at q p ≡ true) ps) ps
    → All (λ q. All (λ p. apart_at q p ≡ true) (x ∷ ps)) ps
others-front x ps h all = go ps h all
  where
    go :
        (qs : List WgPeer)
        → has_idx x.idx qs ≡ false
        → All (λ q. All (λ p. apart_at q p ≡ true) ps) qs
        → All (λ q. All (λ p. apart_at q p ≡ true) (x ∷ ps)) qs
    go [] h u = tt
    go (q ∷ qs) h (u, us) = (
      (unfold has_idx in unfold any in ground arith, u),
      go qs (unfold has_idx in unfold any in ground arith) us,
    )

pub IsDistinct-apart_at :
    (ps : List WgPeer) → IsDistinct ps → All (λ q. All (λ p. apart_at q p ≡ true) ps) ps
IsDistinct-apart_at [] d = tt
IsDistinct-apart_at (x ∷ ps) (i, k, d) =
    let itself : same_bytes x.pubkey x.pubkey ≡ true = (same_bytes_iff x.pubkey x.pubkey).1 refl in
    ((rw itself refl, others-back x ps i), others-front x ps i (IsDistinct-apart_at ps d))

any-place :
    (f : Text → Bool) (x : Text) (ts : List Text) → any f (place text_leb x ts) ≡ (f x || any f ts)
unfolding any place
any-place f x [] = refl
any-place f x (t ∷ ts) = ground (arith, any-place f x ts)

any-sort : (f : Text → Bool) (ts : List Text) → any f (sort text_leb ts) ≡ any f ts
unfolding any sort
any-sort f [] = refl
any-sort f (t ∷ ts) = any-place f t (sort text_leb ts) ∙ ap (λ b. f t || b) (any-sort f ts)

-- What fails for both addresses fails for the allowed ones.
pub any-allowed_ips :
    (f : Text → Bool) (p : WgPeerInfo)
    → f p.ip4 ≡ false
    → f p.ip6 ≡ false
    → any f (allowed_ips p) ≡ false
unfolding allowed_ips
any-allowed_ips f p h k = any-sort f (non_empty p.ip4 ++ non_empty p.ip6) ∙ both p.ip4 p.ip6 h k
  where
    both : (a b : Text) → f a ≡ false → f b ≡ false → any f (non_empty a ++ non_empty b) ≡ false
    both [] [] h k = unfold non_empty in unfold any in refl
    both [] (y ∷ ys) h k = unfold non_empty in unfold any in rw k refl
    both (x ∷ xs) [] h k = unfold non_empty in unfold any in rw h refl
    both (x ∷ xs) (y ∷ ys) h k = unfold non_empty in unfold any in rw (h, k) refl

pub All-insert :
    (P : Peer → Type 0) (k : Text) (ips : List Text) (m : List Peer)
    → P (k, ips)
    → All P m
    → All P (insert k ips m)
unfolding insert
All-insert P k ips [] h u = (h, tt)
All-insert P k ips ((j, jps) ∷ m) h (g, u) = elim (Bool-cases (same_bytes j k)) [
  | inl same ↦ rw same (h, u)
  | inr other ↦ rw other (g, All-insert P k ips m h u)
]

pub All-lookup :
    (P : Peer → Type 0) (k : Text) (ips : List Text) (m : List Peer)
    → All P m
    → lookup k m ≡ some ips
    → P (k, ips)
unfolding lookup
All-lookup P k ips [] u h = cc
All-lookup P k ips ((j, jps) ∷ m) (g, u) h = elim (Bool-cases (same_bytes j k)) [
  | inr other ↦ All-lookup P k ips m u (rw other at h)
  | inl same ↦
      let key : j ≡ k = (same_bytes_iff j k).0 same in
      let val : jps ≡ ips = some_eq (rw same at h) in rw (← key, ← val) g
]

-- A row that shares no address with a peer of another key.
abbrev pub clear_from : Text → List Text → Peer → Bool
clear_from k ips (j, jps) = same_bytes j k || not (shares jps ips)

pub All-clear :
    (k : Text) (ips : List Text) (m : List Peer)
    → All (λ e. clear_from k ips e ≡ true) m
    → clear k ips m ≡ true
unfolding clear
All-clear k ips [] u = refl
All-clear k ips ((j, jps) ∷ m) (g, u) = ground (arith, All-clear k ips m u)
