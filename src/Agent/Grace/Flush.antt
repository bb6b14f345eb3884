-- ===== src/Agent/Grace/Flush.antt =====
-- `graceCheck`: when it flushes, and what a flush leaves.
use fips_exit_gate.Base.{
  ℕ, ◌+◌, ◌*◌, ◌/◌, ◌⊎◌, ◌≤◌, ◌<◌, ◌≡◌, ◌∙◌, refl, sym, ap, Bool, true, false, not, ◌&&◌, ◌||◌,
  some, List, [], ◌∷◌, arith, inl, inr, Bool-cases,
}
use fips_exit_gate.Base.Sets.{contains, SameMembers}
use fips_exit_gate.Agent.State.{Addr, Agent}
use fips_exit_gate.Agent.Host.{Host, IsHost}
use fips_exit_gate.Agent.Sync.Progress.{IsReliable}
use fips_exit_gate.Agent.Grace.{
  is_over, is_settled, init_last_authz_ok, grace_check, flush_listed, minute,
}

module _ {W : Type 0} where
  -- The instants at which a process that started at `boot` may flush, in plain arithmetic.
  pub record MayFlush (boot now : ℕ) (a : Agent W) : Type 0 where
    pub chosen : a.fail_closed_after_grace ≡ true
    pub stale : a.last_authz_ok + a.cfg.grace_minutes * minute < now
    pub seen :
        (boot + 10 * minute ≤ now)
        ⊎ ((0 < a.cfg.grace_minutes * minute / 2) × (boot + a.cfg.grace_minutes * minute / 2 ≤ now))

  MayFlush-of_tests :
      (boot now : ℕ) (a : Agent W)
      → 0 < boot
      → a.started_at ≡ boot
      → (not (is_over now a) || not a.fail_closed_after_grace || not (is_settled now a)) ≡ false
      → MayFlush boot now a
  unfolding is_over is_settled
  MayFlush-of_tests boot now a real started passed = ground arith

  tests_of_MayFlush :
      (now : ℕ) (a : Agent W)
      → a.fail_closed_after_grace ≡ true
      → a.last_authz_ok + a.cfg.grace_minutes * minute < now
      → a.started_at + 10 * minute ≤ now
      → (not (is_over now a) || not a.fail_closed_after_grace || not (is_settled now a)) ≡ false
  unfolding is_over is_settled
  tests_of_MayFlush now a chosen stale seen = ground arith

module _ {W : Type 0} (h : Host W) where
  -- In a process that started at `boot`, and that has kept the start that `initLastAuthzOK` noted,
  -- the check leaves the agent alone, or the operator chose to fail closed, the backend's last answer
  -- is older than the grace window, and ten minutes have passed since `boot`, or half of that window
  -- where the half is not 0. `boot` itself is not Go's zero time.
  pub grace_check-MayFlush :
      (boot now : ℕ) (a0 a : Agent W)
      → 0 < boot
      → a.started_at ≡ (init_last_authz_ok boot a0).started_at
      → (grace_check h now a ≡ a) ⊎ MayFlush boot now a
  unfolding grace_check init_last_authz_ok
  grace_check-MayFlush boot now a0 a real started =
      let test = not (is_over now a) || not a.fail_closed_after_grace || not (is_settled now a) in
      elim (Bool-cases test) [
        | inl kept ↦ inl (rw kept)
        | inr passed ↦ inr (MayFlush-of_tests boot now a real started passed)
      ]

module _ {W : Type 0} (h : Host W) (laws : IsHost h) (works : IsReliable h) where
  flush_listed_empty :
      (a : Agent W) (current : List Addr)
      → SameMembers current (h.members a.world)
      → SameMembers (h.members (flush_listed h a (some current)).world) []
  unfolding flush_listed
  flush_listed_empty a [] same x = sym (same x)
  flush_listed_empty a (c ∷ current) same x =
      let (w, p) = works.applies [] (c ∷ current) a.world (λ y d. sym (same y) ∙ d) in
      rw p (
        laws.apply_members [] (c ∷ current) a.world w p x
        ∙ ap (λ b. (contains (h.members a.world) x || contains [] x) && not b) (same x)
        ∙ gone (contains (h.members a.world) x))
    where
      gone : (b : Bool) → ((b || contains [] x) && not b) ≡ contains [] x
      gone true = unfold contains in refl
      gone false = unfold contains in refl

  -- Where the operator chose to fail closed, the grace window has passed and the process has run for
  -- ten minutes, the check on a host that works leaves no address authorized.
  pub grace_check_flushes :
      (now : ℕ) (a : Agent W)
      → a.fail_closed_after_grace ≡ true
      → a.last_authz_ok + a.cfg.grace_minutes * minute < now
      → a.started_at + 10 * minute ≤ now
      → SameMembers (h.members (grace_check h now a).world) []
  unfolding grace_check
  grace_check_flushes now a chosen stale seen =
      let (current, listed) = works.lists a.world in
      simp (tests_of_MayFlush now a chosen stale seen, listed)
        (flush_listed_empty a current (laws.list_members a.world current listed))
