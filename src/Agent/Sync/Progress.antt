-- ===== src/Agent/Sync/Progress.antt =====
-- `applyAuthz` on a host that works: no batch is refused for a member that is gone already, so
-- the cursor always gets past a response that the guards let through.
use fips_exit_gate.Base.{
  ℕ, ◌≡◌, refl, sym, ◌∙◌, ◌⊎◌, inl, inr, Bool, true, false, none, some, List, [], ◌∷◌, ◌≤◌, keep,
  and_left, and_right, le→not_ltb,
}
use fips_exit_gate.Base.Sets.{contains, contains-keep, without}
use fips_exit_gate.Agent.State.{Addr, AuthzResponse, Runtime, Agent}
use fips_exit_gate.Agent.Host.{Host, IsHost, with_runtime, writes-with_runtime}
use fips_exit_gate.Agent.Sync.{
  addrs_of, refuses, present_only, saved, advance, commit, apply_full, apply_delta, apply_authz,
}
use fips_exit_gate.Agent.Sync.Outcomes.{desired, present_only_ok}

-- A host on which nothing fails, but for a batch that deletes an absent member.
pub record IsReliable {W : Type 0} (h : Host W) : Type 0 where
  pub lists : (w : W) → (l : List Addr) × (h.list_authorized w ≡ some l)
  pub applies :
      (add del : List Addr) (w : W)
      → ((x : Addr) → contains del x ≡ true → contains (h.members w) x ≡ true)
      → (w' : W) × (h.apply_authorized add del w ≡ some w')
  pub writes : (r : Runtime) (w : W) → (w' : W) × (h.write_runtime r w ≡ some w')

saved_done : {W : Type 0} (p : Agent W × Bool) → p.1 ≡ true → saved p ≡ (p.0, none)
unfolding saved
saved_done (a, true) e = refl
saved_done (a, false) e = cc

module _ {W : Type 0} (h : Host W) (laws : IsHost h) (works : IsReliable h) where
  commit_applies :
      (add del : List Addr) (rev : ℕ) (a : Agent W)
      → ((x : Addr) → contains del x ≡ true → contains (h.members a.world) x ≡ true)
      → (a' : Agent W) × (commit h add del rev a ≡ (a', none))
  unfolding commit advance
  commit_applies add del rev a live =
      let (w, p) = works.applies add del a.world live in
      let f = λ (r : Runtime). record r { authz_rev = rev } in
      let b : Agent W = record a { world = w } in
      let ok : (with_runtime h f b).1 ≡ true =
        writes-with_runtime h f b (works.writes (f b.rt) w) in
      ((with_runtime h f b).0, rw p (saved_done (with_runtime h f b) ok))

  pub present_only_total :
      (del : List Addr) (w : W) → (l : List Addr) × (present_only h del w ≡ some l)
  unfolding present_only
  present_only_total [] w = ([], refl)
  present_only_total (d ∷ del) w = let (l, e) = works.lists w in (keep (contains l) (d ∷ del), rw e)

  -- On such a host a delta that does not run backwards is applied, whichever of its dels are gone
  -- already, and so is a full response that the backend forces.
  pub apply_authz_applies :
      (resp : AuthzResponse) (a : Agent W)
      → ((resp.full ≡ true) × (resp.force ≡ true))
        ⊎ ((resp.full ≡ false) × (a.rt.authz_rev ≤ resp.rev))
      → (a' : Agent W) × (apply_authz h resp a ≡ (a', none))
  unfolding apply_authz apply_full apply_delta refuses
  apply_authz_applies resp a (inl (full, force)) =
      let (current, listed) = works.lists a.world in
      let (a', e) =
        commit_applies (without current (desired resp)) (without (desired resp) current) resp.rev a
          (λ x d.
            sym (laws.list_members a.world current listed x)
            ∙ and_left _ _ (sym (contains-keep _ current x) ∙ d)) in
      (a', simp (full, force, listed) e)
  apply_authz_applies resp a (inr (part, ahead)) =
      let (del, kept) = present_only_total resp.del a.world in
      let (a', e) = commit_applies (addrs_of resp.add) del resp.rev a (λ x d.
        and_right (contains resp.del x) (contains (h.members a.world) x)
          (sym (present_only_ok h laws resp.del a.world kept x) ∙ d)) in
      (a', simp (part, le→not_ltb ahead, kept) e)
