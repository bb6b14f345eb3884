-- ===== src/Agent/Wg/Table.antt =====
-- A batch of `applyWgPeers` that goes through: the interface has the desired peers.
use fips_exit_gate.Base.{
  ◌≡◌, refl, ◌∙◌, sym, ap, Bool, true, false, not, ◌&&◌, Option, none, some, List, [], ◌∷◌, arith,
  inl, inr, if◌then◌else◌, Bool-cases, some_eq,
}
use fips_exit_gate.Base.Equality.{same_bytes, same_bytes_iff, bytes_eq}
use fips_exit_gate.Base.Assoc.{lookup, IsMap}
use fips_exit_gate.Store.Authz.{any}
use fips_exit_gate.Agent.Wg.{
  Text, Peer, same_texts, has_text, is_same, to_add, is_wanted, to_del, diff_peers, WgIface,
  set_peers,
}
use fips_exit_gate.Agent.Wg.Diff.{
  or_else, edited, clear, same_texts_iff, has_text-sort, lookup-sort, clear-sort, sort-IsMap,
  added_at, lookup-to_add,
}

abbrev pub clear_of : Text → Option (List Text) → List Peer → Bool
clear_of k none m = true
clear_of k (some ips) m = clear k ips m

-- No two peers of a list are given one address.
abbrev pub IsRouted : List Peer → Type 0
IsRouted m = (k : Text) → clear_of k (lookup k m) m ≡ true

-- The documented behaviour of `wg set`: it replaces the addresses of the peers that it is given and
-- removes others; a peer's addresses stay its own unless another peer is given one of them.
pub record IsWgIface {W : Type 0} (g : WgIface W) : Type 0 where
  pub listed :
      (w : W) (m : List Peer) → g.list_peers w ≡ some m → (k : Text) → lookup k m ≡ g.peer_at w k
  pub changed :
      (add : List Peer) (del : List Text) (w w' : W)
      → IsMap add
      → g.wg_set add del w ≡ some w'
      → (k : Text) → clear_of k (edited k add del (g.peer_at w k)) add ≡ true
      → g.peer_at w' k ≡ edited k add del (g.peer_at w k)

to_add-IsMap : (current desired : List Peer) → IsMap desired → IsMap (to_add current desired)
unfolding to_add lookup
to_add-IsMap current [] u = tt
to_add-IsMap current ((j, want) ∷ desired) (new, u) =
    let ih = to_add-IsMap current desired u in
    elim (Bool-cases (is_same (lookup j current) want)) [
      | inl same ↦ rw same ih
      | inr new_one ↦
          let fresh : lookup j (to_add current desired) ≡ none =
            lookup-to_add j current desired u ∙ ap (added_at (lookup j current)) new in
          rw new_one (fresh, ih)
    ]

has_text-to_del :
    (k : Text) (current desired : List Peer)
    → has_text k (to_del desired current)
      ≡ (is_wanted (lookup k current) && not (is_wanted (lookup k desired)))
unfolding has_text any to_del lookup is_wanted
has_text-to_del k [] desired = refl
has_text-to_del k ((j, ips) ∷ current) desired =
    let ih = has_text-to_del k current desired in
    elim (Bool-cases (same_bytes j k)) [
      | inl here ↦
          let at : j ≡ k = (same_bytes_iff j k).0 here in
          let itself : same_bytes k k ≡ true = rw at at here in
          rw at (elim (Bool-cases (is_wanted (lookup k desired))) [
            | inl y ↦ rw (y, itself) (ih ∙ rw y (ground arith))
            | inr n ↦ rw (n, itself) refl
          ])
      | inr there ↦
          let back : same_bytes k j ≡ false =
            ground (arith, same_bytes_iff k j, same_bytes_iff j k) in
          elim (Bool-cases (is_wanted (lookup j desired))) [
            | inl y ↦ rw (y, there) ih
            | inr n ↦ rw (n, there, back) ih
          ]
    ]

clear-to_add :
    (k : Text) (ips : List Text) (current desired : List Peer)
    → clear k ips desired ≡ true
    → clear k ips (to_add current desired) ≡ true
unfolding clear to_add
clear-to_add k ips current [] h = refl
clear-to_add k ips current ((j, want) ∷ desired) h =
    ground (arith, clear-to_add k ips current desired)

edit_cases :
    (have want : Option (List Text))
    → (if is_wanted have && not (is_wanted want) then none else or_else (added_at have want) have)
      ≡ want
unfolding is_wanted is_same
edit_cases none none = refl
edit_cases none (some w) = refl
edit_cases (some h) none = refl
edit_cases (some h) (some w) = elim (Bool-cases (same_texts h w)) [
  | inl same ↦ rw same (ap (λ (x : List Text). some x) ((same_texts_iff h w).0 same))
  | inr other ↦ rw other refl
]

-- The change of `diffPeers`, at every key.
pub diff_peers-edited :
    (current desired : List Peer) (k : Text)
    → IsMap desired
    → edited k (diff_peers current desired).0 (diff_peers current desired).1 (lookup k current)
      ≡ lookup k desired
unfolding edited diff_peers
diff_peers-edited current desired k u =
    rw
      (
        has_text-sort k (to_del desired current),
        has_text-to_del k current desired,
        lookup-sort k (to_add current desired) (to_add-IsMap current desired u),
        lookup-to_add k current desired u,
      )
      (edit_cases (lookup k current) (lookup k desired))

module _ {W : Type 0} (g : WgIface W) (laws : IsWgIface g) where
  -- `SetPeers`, the empty change included.
  pub set_peers-edited :
      (add : List Peer) (del : List Text) (w w' : W)
      → IsMap add
      → set_peers g add del w ≡ some w'
      → (k : Text) → clear_of k (edited k add del (g.peer_at w k)) add ≡ true
      → g.peer_at w' k ≡ edited k add del (g.peer_at w k)
  unfolding set_peers edited has_text any lookup
  set_peers-edited [] [] w w' u h k c = ap (λ x. g.peer_at x k) (sym (some_eq h))
  set_peers-edited (p ∷ add) del w w' u h k c = laws.changed (p ∷ add) del w w' u h k c
  set_peers-edited [] (d ∷ del) w w' u h k c = laws.changed [] (d ∷ del) w w' u h k c

  pub clear_of-diff :
      (k : Text) (o : Option (List Text)) (current desired : List Peer)
      → clear_of k o desired ≡ true
      → clear_of k o (diff_peers current desired).0 ≡ true
  unfolding diff_peers
  clear_of-diff k none current desired h = refl
  clear_of-diff k (some ips) current desired h =
      clear-sort k ips (to_add current desired) ∙ clear-to_add k ips current desired h

  pub diff_peers-IsMap :
      (current desired : List Peer) → IsMap desired → IsMap (diff_peers current desired).0
  unfolding diff_peers
  diff_peers-IsMap current desired u =
      sort-IsMap (to_add current desired) (to_add-IsMap current desired u)

  -- The change of a diff against the listing, at every key: it is what is desired, and routed.
  pub diff_peers-desired :
      (current desired : List Peer) (w : W) (k : Text)
      → IsMap desired
      → IsRouted desired
      → g.list_peers w ≡ some current
      → let (add, del) = diff_peers current desired in
        (edited k add del (g.peer_at w k) ≡ lookup k desired)
        × (clear_of k (edited k add del (g.peer_at w k)) add ≡ true)
  diff_peers-desired current desired w k u routed listed =
      let (add, del) = diff_peers current desired in
      let edit : edited k add del (g.peer_at w k) ≡ lookup k desired =
        ap (edited k add del) (sym (laws.listed w current listed k))
        ∙ diff_peers-edited current desired k u in
      (
        edit,
        ap (λ o. clear_of k o add) edit
            ∙ clear_of-diff k (lookup k desired) current desired (routed k),
      )
