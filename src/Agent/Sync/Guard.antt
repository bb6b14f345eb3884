-- ===== src/Agent/Sync/Guard.antt =====
-- The guards of `applyAuthz`: what they refuse, and that a refusal changes nothing.
use fips_exit_gate.Base.{
  ℕ, ◌≡◌, refl, sym, ap, ◌∙◌, inl, inr, ◌⊎◌, Bool, true, false, not, Option, none, some, List, [],
  ◌∷◌, arith, ltb, ◌<◌, ◌*◌, ◌≤◌, length, keep, Option-cases, some_eq, if_cases, ltb→lt,
}
use mathlib.Core.Path.{fun_ext}
use fips_exit_gate.Base.Sets.{contains, contains-to_set, without, SameMembers}
use fips_exit_gate.Agent.State.{Addr, AuthzResponse, Runtime, Agent}
use fips_exit_gate.Agent.Host.{Host, IsHost, with_runtime}
use fips_exit_gate.Agent.Sync.{
  SyncError, mass_revoke, rev_regression, host_failed, addrs_of, refuses, only_live, present_only,
  saved, advance, commit, apply_full, apply_delta, apply_authz,
}
use fips_exit_gate.Agent.Sync.Outcomes.{desired, apply_full_ok}
use fips_exit_gate.Agent.Sync.Reconcile.{apply_authz-full}

-- The members of a listing that a later live set has lost.
abbrev pub lost : List Addr → List Addr → List Addr
lost live current = keep (λ x. not (contains live x)) current

lost_eq :
    (live desired current : List Addr)
    → SameMembers live desired
    → lost live current ≡ without desired current
lost_eq live desired current h =
    ap (λ (p : Addr → Bool). keep p current) (fun_ext (λ x. ap not (h x)))

module _ {W : Type 0} where
  refuses_bound :
      (resp : AuthzResponse) (a : Agent W) (del current : List Addr)
      → resp.force ≡ false
      → a.allow_mass_revoke ≡ false
      → refuses resp a del current ≡ false
      → (length del ≤ a.mass_revoke_min) ⊎ (length del * 2 ≤ length current)
  unfolding refuses
  refuses_bound resp a del current force allow passed = ground arith

module _ {W : Type 0} (h : Host W) (laws : IsHost h) where
  -- A full response that neither the backend forces nor the operator allows, and that is applied,
  -- revokes at most `mass_revoke_min` of the addresses that were live, or at most half of them.
  pub apply_authz-revokes_few :
      (resp : AuthzResponse) (a : Agent W) (current : List Addr) {a' : Agent W}
      → resp.full ≡ true
      → resp.force ≡ false
      → a.allow_mass_revoke ≡ false
      → h.list_authorized a.world ≡ some current
      → apply_authz h resp a ≡ (a', none)
      → (length (lost (h.members a'.world) current) ≤ a.mass_revoke_min)
        ⊎ (length (lost (h.members a'.world) current) * 2 ≤ length current)
  unfolding apply_authz
  apply_authz-revokes_few resp a current {a' = a'} full force allow listed e =
      let (seen, p, _, passed) =
        apply_full_ok h resp a (h.list_authorized a.world) (rw full at e) in
      let same : seen ≡ current = some_eq (sym p ∙ listed) in
      let wanted : SameMembers (h.members a'.world) (desired resp) = λ x.
        (apply_authz-full h laws resp a full e).0 x
        ∙ sym (contains-to_set (addrs_of resp.addresses) x) in
      rw (lost_eq (h.members a'.world) (desired resp) current wanted) (
        refuses_bound resp a (without (desired resp) current) current force allow
          (rw same at passed))

module _ {W : Type 0} (h : Host W) where
  -- The set could not be listed, or it refused a batch.
  abbrev CannotApply : W → Type 0
  CannotApply w =
      (h.list_authorized w ≡ none)
      ⊎ ((add : List Addr) × (del : List Addr) × (h.apply_authorized add del w ≡ none))

  -- The kernel took a batch, and then the runtime file could not be written: the cursor has moved in
  -- memory, and nothing else.
  abbrev CannotSave : ℕ → Agent W → Agent W → Type 0
  CannotSave rev a a' =
      (add : List Addr) × (del : List Addr) × (w : W) × (h.apply_authorized add del a.world
        ≡ some w)
      × (h.write_runtime (record a.rt { authz_rev = rev }) w ≡ none)
      × (a' ≡ record a { world = w; rt = record a.rt { authz_rev = rev } })

  -- What each error of `applyAuthz` says of the agent before and after it.
  abbrev pub Explains : AuthzResponse → Agent W → Agent W → SyncError → Type 0
  Explains resp a a' (mass_revoke del live) =
      (a' ≡ a)
      × (resp.force ≡ false)
      × (a.allow_mass_revoke ≡ false)
      × (a.mass_revoke_min < del)
      × (live < del * 2)
  Explains resp a a' (rev_regression got cursor) =
      (a' ≡ a) × (got ≡ resp.rev) × (cursor ≡ a.rt.authz_rev) × (got < cursor)
  Explains resp a a' host_failed = ((a' ≡ a) × CannotApply a.world) ⊎ CannotSave resp.rev a a'

  abbrev pub Explained : AuthzResponse → Agent W → Agent W × Option SyncError → Type 0
  Explained resp a (a', none) = Unit
  Explained resp a (a', some x) = Explains resp a a' x

  refuses-Explains :
      (resp : AuthzResponse) (a : Agent W) (del current : List Addr)
      → refuses resp a del current ≡ true
      → Explains resp a a (mass_revoke (length del) (length current))
  unfolding refuses
  refuses-Explains resp a del current y = ground arith

  advance-Explained :
      (add del : List Addr) (resp : AuthzResponse) (a : Agent W) (w : W)
      → h.apply_authorized add del a.world ≡ some w
      → Explained resp a (advance h resp.rev a (some w))
  unfolding advance saved with_runtime
  advance-Explained add del resp a w p =
      let r : Runtime = record a.rt { authz_rev = resp.rev } in
      elim (Option-cases (h.write_runtime r w)) [
        | inl e ↦ rw e (inr (add, del, w, p, e, refl))
        | inr (w', e) ↦ rw e tt
      ]

  commit-Explained :
      (add del : List Addr) (resp : AuthzResponse) (a : Agent W)
      → Explained resp a (commit h add del resp.rev a)
  unfolding commit
  commit-Explained add del resp a = elim (Option-cases (h.apply_authorized add del a.world)) [
    | inl n ↦ rw n (unfold advance in inl (refl, inr (add, del, n)))
    | inr (w, p) ↦ rw p (advance-Explained add del resp a w p)
  ]

  apply_full-Explained :
      (resp : AuthzResponse) (a : Agent W) (o : Option (List Addr))
      → h.list_authorized a.world ≡ o
      → Explained resp a (apply_full h resp a o)
  unfolding apply_full
  apply_full-Explained resp a none e = inl (refl, inl e)
  apply_full-Explained resp a (some current) e =
      let del = without (desired resp) current in
      if_cases (Explained resp a) (refuses resp a del current) (refuses-Explains resp a del current)
        (λ _. commit-Explained (without current (desired resp)) del resp a)

  unlisted : (del : List Addr) (w : W) → present_only h del w ≡ none → h.list_authorized w ≡ none
  unfolding present_only only_live
  unlisted [] w e = cc
  unlisted (d ∷ del) w e = elim (Option-cases (h.list_authorized w)) [
    | inl n ↦ n
    | inr (l, p) ↦ cc (rw p at e)
  ]

  apply_delta-Explained :
      (resp : AuthzResponse) (a : Agent W) (o : Option (List Addr))
      → present_only h resp.del a.world ≡ o
      → Explained resp a (apply_delta h resp a o)
  unfolding apply_delta
  apply_delta-Explained resp a none e = inl (refl, inl (unlisted resp.del a.world e))
  apply_delta-Explained resp a (some del) e = commit-Explained _ del resp a

  pub apply_authz-Explained :
      (resp : AuthzResponse) (a : Agent W) → Explained resp a (apply_authz h resp a)
  unfolding apply_authz
  apply_authz-Explained resp a =
      if_cases (Explained resp a) resp.full
        (λ _. apply_full-Explained resp a (h.list_authorized a.world) refl)
        (λ _.
          if_cases (Explained resp a) (ltb resp.rev a.rt.authz_rev)
            (λ back. (refl, refl, refl, ltb→lt _ _ back))
            (λ _. apply_delta-Explained resp a (present_only h resp.del a.world) refl))
