-- ===== src/Gate/Drift.antt =====
-- Heartbeats: a kernel set that has drifted from the authorized set is found out.
use fips_exit_gate.Base.{
  ℕ, ◌≡◌, refl, ap, true, not, some, List, arith, ◌==◌, ==_iff, Bool-cases, inl, inr,
}
use fips_exit_gate.Base.Sets.{SameMembers}
use fips_exit_gate.Base.Assoc.{keys}
use fips_exit_gate.AuthzHash.{hashed, of}
use fips_exit_gate.AuthzHash.Sets.{IsAs16, hashed_iff}
use fips_exit_gate.Agent.State.{Addr, AgentConfig, Agent}
use fips_exit_gate.Agent.Host.{Host}
use fips_exit_gate.Agent.Loop.{SyncLoop, request_resync, full_due}
use fips_exit_gate.Agent.Heartbeat.{run_heartbeat, apply_config, request_of}
use fips_exit_gate.Store.State.{Authz}
use fips_exit_gate.Store.Authz.{max_rev}
use fips_exit_gate.Api.{heartbeat, is_drift, authz_status}

is_drift_lem :
    (digest : List Addr → ℕ) (rev : ℕ) (s : Authz) (live : List Addr)
    → rev ≡ max_rev s.revisions
    → is_drift (request_of digest rev (some live)) (authz_status digest s)
      ≡ not (digest live == digest (keys s.current))
unfolding is_drift request_of authz_status
is_drift_lem digest rev s live e = ground (arith, e)

module _ {W : Type 0} (h : Host W) (digest : List Addr → ℕ) where
  -- With any hash that tells the two sets apart if they differ.
  run_heartbeat_finds :
      (cfg : AgentConfig) (s : Authz) (a : Agent W) (live : List Addr)
      → h.list_authorized a.world ≡ some live
      → a.rt.authz_rev ≡ max_rev s.revisions
      → (digest live ≡ digest (keys s.current) → SameMembers live (keys s.current))
      → let a' = run_heartbeat h digest (λ req. some (heartbeat digest cfg s req)) a in
        (¬ SameMembers live (keys s.current)
          → (asked : ℕ) (l : SyncLoop) → full_due asked a' l ≡ true)
        × (digest live ≡ digest (keys s.current) → a'.force_resync ≡ a.force_resync)
  unfolding run_heartbeat heartbeat full_due
  run_heartbeat_finds cfg s a live listed caught_up tells =
      let drift = is_drift_lem digest a.rt.authz_rev s live caught_up in
      elim (Bool-cases (digest live == digest (keys s.current))) [
        | inl same ↦
            let eq = (==_iff (digest live) (digest (keys s.current))).0 same in
            (
              λ differ. absurd (differ (tells eq)),
              λ _. rw (listed, drift, same) (unfold apply_config in refl),
            )
        | inr apart ↦ (
          λ _ asked l.
              rw (listed, drift, apart) (unfold apply_config request_resync in ground arith),
          λ eq. absurd (ground (arith, eq, apart)),
        )
      ]

-- An agent at the backend's revision sends a heartbeat, and the hash does not collide on the two sets.
-- If its live set is not the authorized set, a full pull is due at the next iteration of its loop; if
-- it is, in whatever order the two sides list it, no resync is asked for.
pub run_heartbeat_exact :
    {W : Type 0} (h : Host W) (finger : List ℕ → ℕ) (as16 : ℕ → List ℕ) (cfg : AgentConfig)
    (s : Authz) (a : Agent W) (live : List Addr)
    → IsAs16 as16
    → h.list_authorized a.world ≡ some live
    → a.rt.authz_rev ≡ max_rev s.revisions
    → (of finger as16 live ≡ of finger as16 (keys s.current)
        → hashed as16 live ≡ hashed as16 (keys s.current))
    → let a' =
        run_heartbeat h (of finger as16) (λ req. some (heartbeat (of finger as16) cfg s req)) a in
      (¬ SameMembers live (keys s.current)
        → (asked : ℕ) (l : SyncLoop) → full_due asked a' l ≡ true)
      × (SameMembers live (keys s.current) → a'.force_resync ≡ a.force_resync)
run_heartbeat_exact h finger as16 cfg s a live law listed caught_up no_collision =
    let exact = hashed_iff as16 law live (keys s.current) in
    let (differs, agrees) =
      run_heartbeat_finds h (of finger as16) cfg s a live listed caught_up
        (λ e. exact.0 (no_collision e)) in
    (differs, λ same. agrees (unfold of in ap finger (exact.1 same)))
