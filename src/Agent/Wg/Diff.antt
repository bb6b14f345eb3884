-- ===== src/Agent/Wg/Diff.antt =====
-- `diffPeers` of agent/wg.go: its change turns the listed peers into the desired ones.
use fips_exit_gate.Base.{
  ◌≡◌, refl, ◌∙◌, ap, ◌↔◌, Bool, true, not, ◌&&◌, ◌||◌, Option, none, some, List, [], ◌∷◌, arith,
  inl, inr, if◌then◌else◌, Bool-cases,
}
use fips_exit_gate.Base.Equality.{same_bytes, same_bytes_iff, bytes_eq}
use fips_exit_gate.Base.Assoc.{lookup, insert, IsMap, insert-IsMap}
use fips_exit_gate.Store.Authz.{any}
use fips_exit_gate.Agent.Wg.{
  Text, Peer, WgPeerInfo, WgPeersResponse, text_leb, peer_leb, place, sort, same_texts, has_text,
  allowed_ips, fill_peers, desired_peers, is_same, to_add,
}

-- A change as it reads at one key.
abbrev pub or_else : Option (List Text) → Option (List Text) → Option (List Text)
or_else none o = o
or_else (some ips) o = some ips

unfoldable pub edited : Text → List Peer → List Text → Option (List Text) → Option (List Text)
edited k add del before = if has_text k del then none else or_else (lookup k add) before

-- No other peer of a list has one of these addresses.
unfoldable pub shares : List Text → List Text → Bool
shares a b = any (λ (t : Text). has_text t b) a

unfoldable pub clear : Text → List Text → List Peer → Bool
unfolding shares
clear k ips [] = true
clear k ips ((j, jps) ∷ m) = (same_bytes j k || not (shares jps ips)) && clear k ips m

pub same_texts_iff : (xs ys : List Text) → (same_texts xs ys ≡ true) ↔ (xs ≡ ys)
unfolding same_texts
same_texts_iff [] [] = (λ h. refl, λ h. refl)
same_texts_iff [] (y ∷ ys) = (λ h. cc, λ h. cc)
same_texts_iff (x ∷ xs) [] = (λ h. cc, λ h. cc)
same_texts_iff (x ∷ xs) (y ∷ ys) = ground (arith, same_texts_iff xs ys, same_bytes_iff x y)

fill_peers-IsMap : (ps : List WgPeerInfo) (m : List Peer) → IsMap m → IsMap (fill_peers ps m)
unfolding fill_peers
fill_peers-IsMap [] m u = u
fill_peers-IsMap (p ∷ ps) m u =
    fill_peers-IsMap ps (insert p.pubkey (allowed_ips p) m)
      (insert-IsMap p.pubkey (allowed_ips p) m u)

pub desired_peers-IsMap : (resp : WgPeersResponse) → IsMap (desired_peers resp)
unfolding desired_peers
desired_peers-IsMap resp = fill_peers-IsMap resp.peers [] tt

has_text-place :
    (k j : Text) (ts : List Text) → has_text k (place text_leb j ts) ≡ has_text k (j ∷ ts)
unfolding has_text any place
has_text-place k j [] = refl
has_text-place k j (t ∷ ts) = ground (arith, has_text-place k j ts)

pub has_text-sort : (k : Text) (ts : List Text) → has_text k (sort text_leb ts) ≡ has_text k ts
unfolding sort has_text any
has_text-sort k [] = refl
has_text-sort k (t ∷ ts) =
    has_text-place k t (sort text_leb ts) ∙ ap (λ b. same_bytes k t || b) (has_text-sort k ts)

lookup-place :
    (k j : Text) (ips : List Text) (m : List Peer)
    → lookup j m ≡ none
    → lookup k (place peer_leb (j, ips) m) ≡ lookup k ((j, ips) ∷ m)
unfolding lookup place
lookup-place k j ips [] h = refl
lookup-place k j ips ((i, v) ∷ m) h =
    ground
      (arith, same_bytes_iff i j, same_bytes_iff j k, same_bytes_iff i k, lookup-place k j ips m)

pub lookup-sort : (k : Text) (m : List Peer) → IsMap m → lookup k (sort peer_leb m) ≡ lookup k m
unfolding lookup sort
lookup-sort k [] u = refl
lookup-sort k ((j, ips) ∷ m) (new, u) =
    lookup-place k j ips (sort peer_leb m) (lookup-sort j m u ∙ new)
    ∙ ap (λ o. if same_bytes j k then some ips else o) (lookup-sort k m u)

clear-place :
    (k j : Text) (ips jps : List Text) (m : List Peer)
    → clear k ips (place peer_leb (j, jps) m) ≡ clear k ips ((j, jps) ∷ m)
unfolding clear place
clear-place k j ips jps [] = refl
clear-place k j ips jps ((i, v) ∷ m) = ground (arith, clear-place k j ips jps m)

pub clear-sort :
    (k : Text) (ips : List Text) (m : List Peer) → clear k ips (sort peer_leb m) ≡ clear k ips m
unfolding clear sort
clear-sort k ips [] = refl
clear-sort k ips ((j, jps) ∷ m) =
    clear-place k j ips jps (sort peer_leb m)
    ∙ ap (λ b. (same_bytes j k || not (shares jps ips)) && b) (clear-sort k ips m)

place-IsMap :
    (j : Text) (ips : List Text) (m : List Peer)
    → lookup j m ≡ none
    → IsMap m
    → IsMap (place peer_leb (j, ips) m)
unfolding lookup place
place-IsMap j ips [] h u = (h, tt)
place-IsMap j ips ((i, v) ∷ m) h u =
    ground
      (arith, same_bytes_iff i j, same_bytes_iff j i, lookup-place i j ips m, place-IsMap j ips m)

pub sort-IsMap : (m : List Peer) → IsMap m → IsMap (sort peer_leb m)
unfolding sort
sort-IsMap [] u = tt
sort-IsMap ((j, ips) ∷ m) (new, u) =
    place-IsMap j ips (sort peer_leb m) (lookup-sort j m u ∙ new) (sort-IsMap m u)

-- What is added for a key: what it should have, if the listing has something else.
abbrev pub added_at : Option (List Text) → Option (List Text) → Option (List Text)
added_at have none = none
added_at have (some want) = if is_same have want then none else some want

pub lookup-to_add :
    (k : Text) (current desired : List Peer)
    → IsMap desired
    → lookup k (to_add current desired) ≡ added_at (lookup k current) (lookup k desired)
unfolding lookup to_add
lookup-to_add k current [] u = refl
lookup-to_add k current ((j, want) ∷ desired) (new, u) =
    let ih = lookup-to_add k current desired u in
    elim (Bool-cases (same_bytes j k)) [
      | inl here ↦
          let at : j ≡ k = (same_bytes_iff j k).0 here in
          let left : lookup k desired ≡ none = rw at at new in
          let itself : same_bytes k k ≡ true = rw at at here in
          rw at (elim (Bool-cases (is_same (lookup k current) want)) [
            | inl same ↦
                rw (same, itself) (ih ∙ ap (added_at (lookup k current)) left ∙ rw same refl)
            | inr new_one ↦ rw (new_one, itself) (rw new_one refl)
          ])
      | inr there ↦ elim (Bool-cases (is_same (lookup j current) want)) [
        | inl same ↦ rw (same, there) ih
        | inr new_one ↦ rw (new_one, there) ih
      ]
    ]
