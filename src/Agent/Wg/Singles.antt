-- ===== src/Agent/Wg/Singles.antt =====
-- `applyWgPeers` of agent/wg.go after a batch that failed: the peers to add, one by one.
use fips_exit_gate.Base.{
  ℕ, ◌≡◌, refl, ◌∙◌, ap, ◌⊎◌, inl, inr, true, false, Option, none, some, List, [], ◌∷◌, arith,
  if◌then◌else◌, Bool-cases, Option-cases, some_eq,
}
use fips_exit_gate.Base.Equality.{same_bytes, same_bytes_iff, bytes_eq}
use fips_exit_gate.Base.Assoc.{lookup, IsMap}
use fips_exit_gate.Store.Authz.{any}
use fips_exit_gate.Agent.Wg.{Text, Peer, has_text, WgIface, set_peers, skip, add_each}
use fips_exit_gate.Agent.Wg.Diff.{edited, clear}
use fips_exit_gate.Agent.Wg.Table.{clear_of, IsWgIface, set_peers-edited}

module _ {W : Type 0} (g : WgIface W) where
  -- The states that a sync goes through, from its start on.
  pub data IsReached (start : W) : W → Type 0 where
    at_start : IsReached start start
    changed :
        {w w' : W} (add : List Peer) (del : List Text)
        → IsReached start w
        → set_peers g add del w ≡ some w'
        → IsReached start w'

  -- On a state of this sync, the interface refuses to give a key its addresses, or to remove it, when
  -- asked for that alone.
  abbrev pub IsRefused : W → Text → Option (List Text) → Type 0
  IsRefused start k none = (w : W) × IsReached start w × (set_peers g [] (k ∷ []) w ≡ none)
  IsRefused start k (some ips) =
      (w : W) × IsReached start w × (set_peers g ((k, ips) ∷ []) [] w ≡ none)

  pub IsReached-skip :
      (start : W) (add : List Peer) (del : List Text) (r : W × ℕ)
      → IsReached start r.0
      → IsReached start (skip g r (set_peers g add del r.0)).0
  unfolding skip
  IsReached-skip start add del (w, n) q = elim (Option-cases (set_peers g add del w)) [
    | inl e ↦ rw e q
    | inr (w', e) ↦ rw e (changed add del q e)
  ]

  pub IsReached-add_each :
      (start : W) (add : List Peer) (r : W × ℕ)
      → IsReached start r.0
      → IsReached start (add_each g add r).0
  unfolding add_each
  IsReached-add_each start [] r q = q
  IsReached-add_each start (p ∷ add) r q =
      IsReached-add_each start add (skip g r (set_peers g (p ∷ []) [] r.0))
        (IsReached-skip start (p ∷ []) [] r q)

module _ {W : Type 0} (g : WgIface W) (laws : IsWgIface g) where
  one_add :
      (j : Text) (jps : List Text) (w w' : W)
      → set_peers g ((j, jps) ∷ []) [] w ≡ some w'
      → (k : Text) (o : Option (List Text))
      → (if same_bytes j k then some jps else g.peer_at w k) ≡ o
      → clear_of k o ((j, jps) ∷ []) ≡ true
      → g.peer_at w' k ≡ o
  unfolding edited has_text any lookup
  one_add j jps w w' h k o at c =
      let e : edited k ((j, jps) ∷ []) [] (g.peer_at w k) ≡ o = elim (Bool-cases (same_bytes j k)) [
        | inl y ↦ rw y (rw y at at)
        | inr n ↦ rw n (rw n at at)
      ] in
      set_peers-edited g laws ((j, jps) ∷ []) [] w w' (refl, tt) h k
        (ap (λ x. clear_of k x ((j, jps) ∷ [])) e ∙ c)
      ∙ e

  clear_split :
      (k j : Text) (jps : List Text) (o : Option (List Text)) (m : List Peer)
      → clear_of k o ((j, jps) ∷ m) ≡ true
      → (clear_of k o ((j, jps) ∷ []) ≡ true) × (clear_of k o m ≡ true)
  unfolding clear
  clear_split k j jps none m h = (refl, refl)
  clear_split k j jps (some ips) m h = ground arith

  -- A key with no change of its own, or whose change has been made, keeps its addresses.
  skip-keeps :
      (j : Text) (jps : List Text) (r : W × ℕ) (k : Text) (o : Option (List Text))
      → same_bytes j k ≡ false
      → g.peer_at r.0 k ≡ o
      → clear_of k o ((j, jps) ∷ []) ≡ true
      → g.peer_at (skip g r (set_peers g ((j, jps) ∷ []) [] r.0)).0 k ≡ o
  unfolding skip
  skip-keeps j jps (w, n) k o other h c = elim (Option-cases (set_peers g ((j, jps) ∷ []) [] w)) [
    | inl e ↦ rw e h
    | inr (w', e) ↦ rw e (one_add j jps w w' e k o (rw other h) c)
  ]

  pub add_each-keeps :
      (add : List Peer) (r : W × ℕ) (k : Text) (o : Option (List Text))
      → lookup k add ≡ none
      → g.peer_at r.0 k ≡ o
      → clear_of k o add ≡ true
      → g.peer_at (add_each g add r).0 k ≡ o
  unfolding add_each lookup
  add_each-keeps [] r k o new h c = h
  add_each-keeps ((j, jps) ∷ add) r k o new h c =
      let (head, tail) = clear_split k j jps o add c in
      let other : same_bytes j k ≡ false = ground arith in
      add_each-keeps add (skip g r (set_peers g ((j, jps) ∷ []) [] r.0)) k o (rw other at new)
        (skip-keeps j jps r k o other h head) tail

  skip-adds :
      (start : W) (k : Text) (ips : List Text) (r : W × ℕ)
      → IsReached g start r.0
      → (g.peer_at (skip g r (set_peers g ((k, ips) ∷ []) [] r.0)).0 k ≡ some ips)
        ⊎ IsRefused g start k (some ips)
  unfolding skip clear
  skip-adds start k ips (w, n) q = elim (Option-cases (set_peers g ((k, ips) ∷ []) [] w)) [
    | inl e ↦ inr (w, q, e)
    | inr (w', e) ↦
        let itself : same_bytes k k ≡ true = (same_bytes_iff k k).1 refl in
        inl (rw e (one_add k ips w w' e k (some ips) (rw itself refl) (rw itself refl)))
  ]

  pub add_each-adds :
      (start : W) (add : List Peer) (r : W × ℕ) (k : Text) (ips : List Text)
      → IsReached g start r.0
      → IsMap add
      → lookup k add ≡ some ips
      → clear k ips add ≡ true
      → (g.peer_at (add_each g add r).0 k ≡ some ips) ⊎ IsRefused g start k (some ips)
  unfolding add_each lookup
  add_each-adds start [] r k ips q u at c = cc
  add_each-adds start ((j, jps) ∷ add) r k ips q (new, u) at c =
      let r' = skip g r (set_peers g ((j, jps) ∷ []) [] r.0) in
      let (head, tail) = clear_split k j jps (some ips) add c in
      elim (Bool-cases (same_bytes j k)) [
        | inl here ↦
            let same : j ≡ k = (same_bytes_iff j k).0 here in
            let gives : jps ≡ ips = some_eq (rw here at at) in
            let only : clear j jps add ≡ true = rw (same, gives) tail in
            rw (← same, ← gives)
              (elim (skip-adds start j jps r q) [
                | inl done ↦ inl (add_each-keeps add r' j (some jps) new done only)
                | inr refused ↦ inr refused
              ])
        | inr there ↦
            add_each-adds start add r' k ips (IsReached-skip g start ((j, jps) ∷ []) [] r q) u
              (rw there at at) tail
      ]
