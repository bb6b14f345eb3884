-- ===== src/Agent/Sync/Reconcile.antt =====
-- `applyAuthz` when it succeeds: the live set becomes what the backend sent, in both modes.
use fips_exit_gate.Base.{
  ◌≡◌, refl, ◌∙◌, inl, inr, Bool, true, false, not, ◌&&◌, ◌||◌, none, List, arith, ltb, ◌≤◌,
  Bool-cases,
}
use fips_exit_gate.Base.Sets.{contains, contains-keep, contains-to_set, without, SameMembers}
use fips_exit_gate.Agent.State.{Addr, AuthzResponse, Agent}
use fips_exit_gate.Agent.Host.{Host, IsHost}
use fips_exit_gate.Agent.Sync.{addrs_of, present_only, apply_authz}
use fips_exit_gate.Agent.Sync.Outcomes.{
  desired, commit_ok, apply_full_ok, apply_delta_ok, present_only_ok,
}

-- The edit of a diff turns any listing into the desired set.
diff_edit :
    (current live desired : List Addr) (x : Addr)
    → contains current x ≡ contains live x
    → ((contains live x || contains (without current desired) x)
        && not (contains (without desired current) x))
      ≡ contains desired x
diff_edit current live desired x e =
    rw
      (
        contains-keep (λ a. not (contains current a)) desired x,
        contains-keep (λ a. not (contains desired a)) current x,
        e,
      )
      (cases (contains live x) (contains desired x))
  where
    cases : (l d : Bool) → ((l || (d && not l)) && not (l && not d)) ≡ d
    cases true true = refl
    cases true false = refl
    cases false true = refl
    cases false false = refl

module _ {W : Type 0} (h : Host W) (laws : IsHost h) where
  -- A full response that is applied leaves the live set with exactly the members it names, and the
  -- cursor at its revision.
  pub apply_authz-full :
      (resp : AuthzResponse) (a : Agent W) {a' : Agent W}
      → resp.full ≡ true
      → apply_authz h resp a ≡ (a', none)
      → SameMembers (h.members a'.world) (addrs_of resp.addresses) × (a'.rt.authz_rev ≡ resp.rev)
  unfolding apply_authz
  apply_authz-full resp a full e =
      let (current, listed, batch, _) =
        apply_full_ok h resp a (h.list_authorized a.world) (rw full at e) in
      let (set, rev) = commit_ok h laws _ _ resp.rev a batch in
      (
        λ x.
            set x
            ∙ diff_edit current (h.members a.world) (desired resp) x
                (laws.list_members a.world current listed x)
            ∙ contains-to_set (addrs_of resp.addresses) x,
        rev,
      )

  -- A delta that is applied adds its adds, removes those of its dels that were live, changes no
  -- other member, and never moves the cursor back.
  pub apply_authz-delta :
      (resp : AuthzResponse) (a : Agent W) {a' : Agent W}
      → resp.full ≡ false
      → apply_authz h resp a ≡ (a', none)
      → ((x : Addr)
          → contains (h.members a'.world) x ≡ (
              (contains (h.members a.world) x || contains (addrs_of resp.add) x)
              && not (contains resp.del x && contains (h.members a.world) x)))
        × (a'.rt.authz_rev ≡ resp.rev)
        × (a.rt.authz_rev ≤ a'.rt.authz_rev)
  unfolding apply_authz
  apply_authz-delta resp a full e = elim (Bool-cases (ltb resp.rev a.rt.authz_rev)) [
    | inl back ↦ cc (rw (full, back) at e)
    | inr fresh ↦
        let (del, kept, batch) =
          apply_delta_ok h resp a (present_only h resp.del a.world) (rw (full, fresh) at e) in
        let (set, rev) = commit_ok h laws (addrs_of resp.add) del resp.rev a batch in
        (λ x. rw (← present_only_ok h laws resp.del a.world kept x) (set x), rev, ground arith)
  ]
