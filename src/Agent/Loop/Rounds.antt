-- ===== src/Agent/Loop/Rounds.antt =====
-- Iterations of the sync loop: how drift is repaired, and where a refused response leads.
use fips_exit_gate.Base.{
  ℕ, ◌+◌, ◌-◌, ◌<◌, ◌≡◌, ◌∙◌, refl, ap, true, false, Option, none, some, List, arith, ltb, leb,
  if_cases, inl, lt→ltb,
}
use fips_exit_gate.Base.Sets.{SameMembers, contains}
use fips_exit_gate.Agent.State.{Addr, AuthzResponse, Runtime, Agent}
use fips_exit_gate.Agent.Host.{
  Host, IsHost, rt-with_runtime, members-with_runtime, with_runtime_frame,
}
use fips_exit_gate.Agent.Sync.{
  SyncError, mass_revoke, rev_regression, host_failed, addrs_of, apply_authz,
}
use fips_exit_gate.Agent.Sync.Reconcile.{apply_authz-full}
use fips_exit_gate.Agent.Sync.Guard.{Explained, apply_authz-Explained}
use fips_exit_gate.Agent.Sync.Progress.{IsReliable, apply_authz_applies}
use fips_exit_gate.Agent.Grace.{persist_authz_ok_every, mark_authz_ok}
use fips_exit_gate.Agent.Loop.{
  SyncLoop, Request, Reply, answer, full_due, take_resync, send, sync_round,
}

module _ {W : Type 0} (h : Host W) where
  pub rev-mark_authz_ok :
      (now : ℕ) (a : Agent W) → (mark_authz_ok h now a).rt.authz_rev ≡ a.rt.authz_rev
  unfolding mark_authz_ok
  rev-mark_authz_ok now a =
      if_cases (λ (b : Agent W). b.rt.authz_rev ≡ a.rt.authz_rev)
        (leb persist_authz_ok_every (now - a.rt.last_authz_ok))
        (λ _.
          ap (λ (r : Runtime). r.authz_rev)
            (rt-with_runtime h (λ r. record r { last_authz_ok = now })
              (record a { last_authz_ok = now })))
        (λ _. refl)

  pub members-mark_authz_ok :
      IsHost h
      → (now : ℕ) (a : Agent W) → h.members (mark_authz_ok h now a).world ≡ h.members a.world
  unfolding mark_authz_ok
  members-mark_authz_ok laws now a =
      if_cases (λ (b : Agent W). h.members b.world ≡ h.members a.world)
        (leb persist_authz_ok_every (now - a.rt.last_authz_ok))
        (λ _.
          members-with_runtime h laws (λ r. record r { last_authz_ok = now })
            (record a { last_authz_ok = now }))
        (λ _. refl)

module _ {W : Type 0} (h : Host W) where
  mark_authz_ok_frame :
      (now : ℕ) (a : Agent W)
      → mark_authz_ok h now a ≡ record a {
        last_authz_ok = now;
        rt = (mark_authz_ok h now a).rt;
        world = (mark_authz_ok h now a).world;
      }
  unfolding mark_authz_ok
  mark_authz_ok_frame now a =
      if_cases (λ (b : Agent W). b ≡ record a { last_authz_ok = now; rt = b.rt; world = b.world })
        (leb persist_authz_ok_every (now - a.rt.last_authz_ok))
        (λ _.
          with_runtime_frame h (λ r. record r { last_authz_ok = now })
            (record a { last_authz_ok = now }))
        (λ _. refl)

module _ {W : Type 0} (h : Host W) (laws : IsHost h) (works : IsReliable h) where
  -- Drift repair. Whatever the kernel's set has become, the first iteration in which a full pull is
  -- due, against a backend that answers a full request with a full, forced response, leaves exactly
  -- the backend's set live, the cursor at its revision, and the pull done.
  pub sync_round_repairs :
      (asked answered : ℕ) (backend : Request → Reply) (resp : AuthzResponse) (a : Agent W)
      (l : SyncLoop)
      → full_due asked a l ≡ true
      → backend (record { rev = 0; full = true }) ≡ answer resp
      → resp.full ≡ true
      → resp.force ≡ true
      → let (a', l') = sync_round h asked answered backend a l in
        SameMembers (h.members a'.world) (addrs_of resp.addresses)
        × (a'.rt.authz_rev ≡ resp.rev)
        × (l' ≡ record { force_full = false; last_full = answered; backoff = 0 })
  unfolding sync_round
  sync_round_repairs asked answered backend resp a l due replied full force =
      let b = (take_resync a).0 in
      let (a', applied) = apply_authz_applies h laws works resp b (inl (full, force)) in
      let (set, rev) = apply_authz-full h laws resp b full applied in
      simp (due, replied, applied)
        (
          λ x.
              ap (λ (m : List Addr). contains m x) (members-mark_authz_ok h laws answered a')
              ∙ set x,
          rev-mark_authz_ok h answered a' ∙ rev,
          refl,
        )

module _ {W : Type 0} (h : Host W) where
  refused_whole :
      (resp : AuthzResponse) (b : Agent W) (p : Agent W × Option SyncError) {del current : ℕ}
      → Explained h resp b p
      → p.1 ≡ some (mass_revoke del current)
      → p ≡ (b, some (mass_revoke del current))
  refused_whole resp b (b', none) why e = cc
  refused_whole resp b (b', some (mass_revoke del current)) why e = cc (why.0)
  refused_whole resp b (b', some (rev_regression got cursor)) why e = cc
  refused_whole resp b (b', some host_failed) why e = cc

  take_resync_lem : (a : Agent W) → (take_resync a).0 ≡ record a { force_resync = false }
  unfolding take_resync
  take_resync_lem a = ground arith

  held_state :
      (asked answered : ℕ) (backend : Request → Reply) (resp : AuthzResponse) (a : Agent W)
      (l : SyncLoop) (del current : ℕ)
      → full_due asked a l ≡ true
      → backend (record { rev = 0; full = true }) ≡ answer resp
      → (apply_authz h resp (take_resync a).0).1 ≡ some (mass_revoke del current)
      → 0 < a.rt.authz_rev
      → sync_round h asked answered backend a l ≡ (
        mark_authz_ok h answered (take_resync a).0,
        record { force_full = false; last_full = answered; backoff = 0 },
      )
  unfolding sync_round
  held_state asked answered backend resp a l del current due replied refused cursor =
      let b = (take_resync a).0 in
      let whole = refused_whole resp b _ (apply_authz-Explained h resp b) refused in
      let cur : ltb 0 b.rt.authz_rev ≡ true =
        rw (take_resync_lem a) (lt→ltb 0 a.rt.authz_rev cursor) in
      simp (due, replied, whole, cur)

  held_test :
      (later answered : ℕ) (b a : Agent W)
      → b.force_resync ≡ false
      → b.full_sync_every ≡ a.full_sync_every
      → b.rt.authz_rev ≡ a.rt.authz_rev
      → later < answered + a.full_sync_every
      → (send later b (record { force_full = false; last_full = answered; backoff = 0 })).2
        ≡ record { rev = a.rt.authz_rev; full = false }
  unfolding send
  held_test later answered b a calm every rev soon = ground arith

  -- The request that follows a held pull.
  held_request :
      (later answered : ℕ) (a : Agent W)
      → later < answered + a.full_sync_every
      → (send later
          (mark_authz_ok h answered (take_resync a).0)
          (record { force_full = false; last_full = answered; backoff = 0 })).2
        ≡ record { rev = a.rt.authz_rev; full = false }
  held_request later answered a soon =
      let frame = mark_authz_ok_frame h answered (take_resync a).0 in
      let taken = take_resync_lem a in
      held_test later answered (mark_authz_ok h answered (take_resync a).0) a
        (ap (λ (b : Agent W). b.force_resync) frame ∙ ap (λ (b : Agent W). b.force_resync) taken)
        (ap (λ (b : Agent W). b.full_sync_every) frame
          ∙ ap (λ (b : Agent W). b.full_sync_every) taken)
        (rev-mark_authz_ok h answered (take_resync a).0
          ∙ ap (λ (b : Agent W). b.rt.authz_rev) taken)
        soon

  -- A full pull that the mass-revoke guard refuses, on an agent with a cursor: the live set and the
  -- cursor stay, and until the next pull falls due (or a heartbeat asks for one) the loop goes on
  -- from that cursor with deltas.
  pub sync_round_held :
      IsHost h
      → (asked answered : ℕ) (backend : Request → Reply) (resp : AuthzResponse) (a : Agent W)
        (l : SyncLoop) (del current : ℕ)
      → full_due asked a l ≡ true
      → backend (record { rev = 0; full = true }) ≡ answer resp
      → (apply_authz h resp (take_resync a).0).1 ≡ some (mass_revoke del current)
      → 0 < a.rt.authz_rev
      → let (a', l') = sync_round h asked answered backend a l in
        (h.members a'.world ≡ h.members a.world)
        × (a'.rt.authz_rev ≡ a.rt.authz_rev)
        × (l'.backoff ≡ 0)
        × ((later : ℕ)
            → later < answered + a.full_sync_every
            → (send later a' l').2 ≡ record { rev = a.rt.authz_rev; full = false })
  sync_round_held laws asked answered backend resp a l del current due replied refused cursor =
      rw (held_state asked answered backend resp a l del current due replied refused cursor) (
        members-mark_authz_ok h laws answered (take_resync a).0
            ∙ ap (λ (b : Agent W). h.members b.world) (take_resync_lem a),
        rev-mark_authz_ok h answered (take_resync a).0
            ∙ ap (λ (b : Agent W). b.rt.authz_rev) (take_resync_lem a),
        refl,
        λ later soon. held_request later answered a soon,
      )
