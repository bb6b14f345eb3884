-- ===== src/Agent/Wg/Retry.antt =====
-- `applyWgPeers` of agent/wg.go: the only changes that are missing are those that the interface
-- refuses.
use mathlib.Core.Path.{subst}
use fips_exit_gate.Base.{
  ℕ, ◌+◌, ◌≡◌, refl, ◌∙◌, sym, ◌⊎◌, inl, inr, Bool, true, false, Option, none, some, List, [], ◌∷◌,
  arith, ◌==◌, if◌then◌else◌, length, Bool-cases, Option-cases,
}
use fips_exit_gate.Base.Equality.{same_bytes, same_bytes_iff, bytes_eq}
use fips_exit_gate.Base.Assoc.{lookup, IsMap}
use fips_exit_gate.Store.Authz.{any}
use fips_exit_gate.Agent.Wg.{
  Text, Peer, WgPeersResponse, has_text, desired_peers, diff_peers, WgIface, set_peers, WgAgent,
  skip, add_each, del_each, synced, after_batch, apply_listed, apply_wg_peers,
}
use fips_exit_gate.Agent.Wg.Diff.{or_else, edited, clear, desired_peers-IsMap}
use fips_exit_gate.Agent.Wg.Table.{
  clear_of, IsRouted, IsWgIface, set_peers-edited, diff_peers-IsMap, diff_peers-desired,
}
use fips_exit_gate.Agent.Wg.Singles.{
  IsReached, at_start, IsRefused, IsReached-skip, IsReached-add_each, add_each-keeps, add_each-adds,
}
use fips_exit_gate.Agent.Wg.Wanted.{last_peer, HasAddresses, HasAddresses-desired_peers}

module _ {W : Type 0} (g : WgIface W) (laws : IsWgIface g) where
  skip-removes :
      (start : W) (j : Text) (r : W × ℕ) (k : Text) (o : Option (List Text))
      → IsReached g start r.0
      → (if same_bytes k j then none else g.peer_at r.0 k) ≡ o
      → (g.peer_at (skip g r (set_peers g [] (j ∷ []) r.0)).0 k ≡ o)
        ⊎ (IsRefused g start j none
            × (g.peer_at (skip g r (set_peers g [] (j ∷ []) r.0)).0 k ≡ g.peer_at r.0 k))
  unfolding skip edited has_text any lookup
  skip-removes start j (w, n) k o q at = elim (Option-cases (set_peers g [] (j ∷ []) w)) [
    | inl e ↦ inr (rw e ((w, q, e), refl))
    | inr (w', e) ↦
        let edit : edited k [] (j ∷ []) (g.peer_at w k) ≡ o = elim (Bool-cases (same_bytes k j)) [
          | inl y ↦ rw y (rw y at at)
          | inr n ↦ rw n (rw n at at)
        ] in
        inl (rw e (set_peers-edited g laws [] (j ∷ []) w w' tt e k (nothing k _) ∙ edit))
  ]
    where
      nothing : (k : Text) (x : Option (List Text)) → clear_of k x [] ≡ true
      nothing k none = refl
      nothing k (some ips) = unfold clear in refl

  -- A removal leaves the other keys as they are, and no key that was gone comes back.
  skip-stays :
      (j : Text) (r : W × ℕ) (k : Text)
      → (same_bytes k j ≡ false) ⊎ (g.peer_at r.0 k ≡ none)
      → g.peer_at (skip g r (set_peers g [] (j ∷ []) r.0)).0 k ≡ g.peer_at r.0 k
  skip-stays j r k why =
      elim (skip-removes r.0 j r k (g.peer_at r.0 k) at_start (stays (same_bytes k j) why)) [
        | inl h ↦ h
        | inr (_, h) ↦ h
      ]
    where
      stays :
          {o : Option (List Text)} (b : Bool)
          → (b ≡ false) ⊎ (o ≡ none)
          → (if b then none else o) ≡ o
      stays true (inl h) = cc
      stays true (inr h) = sym h
      stays false h = refl

  del_each-stays :
      (del : List Text) (r : W × ℕ) (k : Text)
      → (has_text k del ≡ false) ⊎ (g.peer_at r.0 k ≡ none)
      → g.peer_at (del_each g del r).0 k ≡ g.peer_at r.0 k
  unfolding del_each has_text any
  del_each-stays [] r k why = refl
  del_each-stays (j ∷ del) r k (inl other) =
      let (here, there) : (same_bytes k j ≡ false) × (has_text k del ≡ false) =
        (ground arith, ground arith) in
      del_each-stays del (skip g r (set_peers g [] (j ∷ []) r.0)) k (inl there)
      ∙ skip-stays j r k (inl here)
  del_each-stays (j ∷ del) r k (inr gone) =
      let step = skip-stays j r k (inr gone) in
      del_each-stays del (skip g r (set_peers g [] (j ∷ []) r.0)) k (inr (step ∙ gone)) ∙ step

  del_each-removes :
      (start : W) (del : List Text) (r : W × ℕ) (k : Text)
      → IsReached g start r.0
      → has_text k del ≡ true
      → (g.peer_at (del_each g del r).0 k ≡ none) ⊎ IsRefused g start k none
  unfolding del_each has_text any
  del_each-removes start [] r k q at = cc
  del_each-removes start (j ∷ del) r k q at =
      let r' = skip g r (set_peers g [] (j ∷ []) r.0) in
      elim (Bool-cases (same_bytes k j)) [
        | inl here ↦
            let same : k ≡ j = (same_bytes_iff k j).0 here in
            elim (skip-removes start j r k none q (rw here refl)) [
              | inl gone ↦ inl (del_each-stays del r' k (inr gone) ∙ gone)
              | inr (refused, _) ↦ inr (subst (λ i. IsRefused g start i none) (sym same) refused)
            ]
        | inr there ↦
            del_each-removes start del r' k (IsReached-skip g start [] (j ∷ []) r q)
              (rw there at at)
      ]

  -- One by one: every key is as the change has it, unless its own change is refused.
  each-edited :
      (add : List Peer) (del : List Text) (w : W) (n : ℕ) (k : Text)
      → IsMap add
      → clear_of k (edited k add del (g.peer_at w k)) add ≡ true
      → (g.peer_at (del_each g del (add_each g add (w, n))).0 k ≡ edited k add del (g.peer_at w k))
        ⊎ IsRefused g w k (edited k add del (g.peer_at w k))
  unfolding edited
  each-edited add del w n k u c = elim (Bool-cases (has_text k del)) [
    | inl gone ↦ rw gone (
        del_each-removes w del (add_each g add (w, n)) k
          (IsReached-add_each g w add (w, n) at_start) gone)
    | inr stays ↦
        let r = add_each g add (w, n) in
        rw (stays, del_each-stays del r k (inl stays)) (added (lookup k add) refl (rw stays at c))
  ]
    where
      added :
          (o : Option (List Text))
          → lookup k add ≡ o
          → clear_of k (or_else o (g.peer_at w k)) add ≡ true
          → (g.peer_at (add_each g add (w, n)).0 k ≡ or_else o (g.peer_at w k))
            ⊎ IsRefused g w k (or_else o (g.peer_at w k))
      added none e c = inl (add_each-keeps g laws add (w, n) k (g.peer_at w k) e refl c)
      added (some ips) e c = add_each-adds g laws w add (w, n) k ips at_start u e c

  -- What a call that returns no error has done.
  abbrev IsDone : WgPeersResponse → W → WgAgent W → Type 0
  IsDone resp start a =
      ((k : Text)
        → (g.peer_at a.wg_world k ≡ lookup k (desired_peers resp))
          ⊎ IsRefused g start k (lookup k (desired_peers resp)))
      × (a.wg_etag ≡ resp.etag)

  -- Every key has the addresses of its peer in the response, and a key without a peer has none;
  -- unless the interface refused just that, asked for it alone.
  abbrev pub IsApplied : WgPeersResponse → W → WgAgent W → Type 0
  IsApplied resp start a =
      ((k : Text)
        → (o : Option (List Text)) × HasAddresses (last_peer k resp.peers) o
          × ((g.peer_at a.wg_world k ≡ o) ⊎ IsRefused g start k o))
      × (a.wg_etag ≡ resp.etag)

  after_batch-IsDone :
      (resp : WgPeersResponse) (a a' : WgAgent W) (current : List Peer) (o : Option W)
      → IsRouted (desired_peers resp)
      → g.list_peers a.wg_world ≡ some current
      → let (add, del) = diff_peers current (desired_peers resp) in
        set_peers g add del a.wg_world ≡ o
        → after_batch g resp add del a o ≡ (a', true)
        → IsDone resp a.wg_world a'
  unfolding after_batch synced
  after_batch-IsDone resp a a' current (some w) routed listed e h =
      let desired = desired_peers resp in
      let (add, del) = diff_peers current desired in
      let u = desired_peers-IsMap resp in
      let same : synced g resp 0 w a ≡ a' = cc in
      rw (← same) (
        λ k.
            let (edit, free) =
              diff_peers-desired g laws current desired a.wg_world k u routed listed in
            inl (
              set_peers-edited g laws add del a.wg_world w
                (diff_peers-IsMap g laws current desired u) e k free
              ∙ edit),
        refl,
      )
  after_batch-IsDone resp a a' current none routed listed e h =
      let desired = desired_peers resp in
      let (add, del) = diff_peers current desired in
      let u = desired_peers-IsMap resp in
      let r = del_each g del (add_each g add (a.wg_world, 0)) in
      elim (Bool-cases (r.1 == length add + length del)) [
        | inl every ↦ cc (rw every at h)
        | inr some_left ↦
            let same : synced g resp r.1 r.0 a ≡ a' = cc (rw some_left at h) in
            rw (← same) (
              λ k.
                  let (edit, free) =
                    diff_peers-desired g laws current desired a.wg_world k u routed listed in
                  subst (λ o. (g.peer_at r.0 k ≡ o) ⊎ IsRefused g a.wg_world k o) edit
                    (each-edited add del a.wg_world 0 k (diff_peers-IsMap g laws current desired u)
                      free),
              refl,
            )
      ]

  apply_listed-IsDone :
      (resp : WgPeersResponse) (a a' : WgAgent W) (o : Option (List Peer))
      → IsRouted (desired_peers resp)
      → g.list_peers a.wg_world ≡ o
      → apply_listed g resp a o ≡ (a', true)
      → IsDone resp a.wg_world a'
  unfolding apply_listed
  apply_listed-IsDone resp a a' none routed e h = cc
  apply_listed-IsDone resp a a' (some current) routed e h =
      after_batch-IsDone resp a a' current _ routed e refl h

  -- When no two peers of the response are given one address, a sync that returns no error leaves the
  -- agent with the response's etag, and each key on the interface with exactly the addresses, of both
  -- kinds, that its last peer in the response names, or without an entry if the response has none.
  -- Only a key may differ for which the interface refused just that, asked for it alone on a state
  -- that this sync went through.
  pub apply_wg_peers-IsApplied :
      (resp : WgPeersResponse) (a a' : WgAgent W)
      → IsRouted (desired_peers resp)
      → apply_wg_peers g resp a ≡ (a', true)
      → IsApplied resp a.wg_world a'
  unfolding apply_wg_peers
  apply_wg_peers-IsApplied resp a a' routed h =
      let (keys, etag) = apply_listed-IsDone resp a a' (g.list_peers a.wg_world) routed refl h in
      (λ k. (lookup k (desired_peers resp), HasAddresses-desired_peers k resp, keys k), etag)
