-- ===== src/Examples/Drift.antt =====
-- A witness for the drift check of heartbeats: the set of Backend, and a kernel that was flushed.
use fips_exit_gate.Base.{ℕ, ◌≡◌, refl, true, false, some, List, [], ◌∷◌, ◌+◌, arith}
use fips_exit_gate.Base.Sets.{SameMembers}
use fips_exit_gate.Base.Assoc.{keys}
use fips_exit_gate.AuthzHash.{hashed, of}
use fips_exit_gate.AuthzHash.Sets.{IsAs16}
use fips_exit_gate.Agent.State.{AgentConfig, Agent, clean_runtime}
use fips_exit_gate.Agent.Heartbeat.{run_heartbeat}
use fips_exit_gate.Agent.Loop.{SyncLoop, full_due}
use fips_exit_gate.Store.Authz.{max_rev}
use fips_exit_gate.Api.{heartbeat}
use fips_exit_gate.Gate.Drift.{run_heartbeat_exact}
use fips_exit_gate.Examples.Backend.{gone}
use fips_exit_gate.Examples.Kernel.{Kernel, kernel_host, agent_with}

-- An address is the first of its 16 bytes, and a hash takes one byte.
abbrev sixteen : ℕ → List ℕ
sixteen a = a ∷ 0 ∷ 0 ∷ 0 ∷ 0 ∷ 0 ∷ 0 ∷ 0 ∷ 0 ∷ 0 ∷ 0 ∷ 0 ∷ 0 ∷ 0 ∷ 0 ∷ 0 ∷ []

sixteen-IsAs16 : IsAs16 sixteen
sixteen-IsAs16 = record { size = λ a. refl; apart = λ a b h. cc }

abbrev finger : List ℕ → ℕ
finger [] = 0
finger (b ∷ bs) = b + 1

abbrev flushed_agent : Agent Kernel
flushed_agent = agent_with [] (record (clean_runtime false) { authz_rev = 3 })

abbrev settings : AgentConfig
settings = record { usage_interval_s = 30; grace_minutes = 240; services = [] }

at_revision : flushed_agent.rt.authz_rev ≡ max_rev gone.revisions
unfolding max_rev
at_revision = refl

told_apart :
    of finger sixteen [] ≡ of finger sixteen (keys gone.current)
    → hashed sixteen [] ≡ hashed sixteen (keys gone.current)
unfolding of hashed
told_apart e = absurd (omega (arith, e))

run_heartbeat_exact_example :
    let a' =
      run_heartbeat kernel_host
        (of finger sixteen)
        (λ req. some (heartbeat (of finger sixteen) settings gone req))
        flushed_agent in
    (¬ SameMembers [] (keys gone.current) → (asked : ℕ) (l : SyncLoop) → full_due asked a' l ≡ true)
    × (SameMembers [] (keys gone.current) → a'.force_resync ≡ flushed_agent.force_resync)
run_heartbeat_exact_example =
    run_heartbeat_exact kernel_host finger sixteen settings gone flushed_agent [] sixteen-IsAs16
      refl at_revision told_apart
