-- ===== src/Examples/Sync.antt =====
-- Witnesses for the agent's sync, its loop and its grace clock, on the kernel of Kernel.
use fips_exit_gate.Base.{
  ℕ, ◌+◌, ◌*◌, ◌≤◌, ◌<◌, ◌≡◌, ◌⊎◌, refl, true, false, none, some, List, [], ◌∷◌, length, arith,
}
use fips_exit_gate.Base.Sets.{contains, SameMembers, to_set}
use fips_exit_gate.Agent.State.{Addr, AuthzMember, AuthzResponse, Agent, clean_runtime}
use fips_exit_gate.Agent.Sync.{mass_revoke, addrs_of, apply_authz}
use fips_exit_gate.Agent.Sync.Guard.{lost, apply_authz-revokes_few}
use fips_exit_gate.Agent.Grace.{mark_authz_ok, init_last_authz_ok, grace_check}
use fips_exit_gate.Agent.Grace.Flush.{MayFlush, grace_check-MayFlush, grace_check_flushes}
use fips_exit_gate.Agent.Loop.{
  Request, Reply, answer, full_due, take_resync, send, sync_round, start_loop,
}
use fips_exit_gate.Agent.Loop.Rounds.{sync_round_repairs, sync_round_held}
use fips_exit_gate.Examples.Kernel.{Kernel, kernel_host, kernel_laws, kernel_works, agent_with}

abbrev member : Addr → AuthzMember
member a = record { addr = a; account = 7 }

abbrev both : List Addr
both = 3 ∷ 4 ∷ []

abbrev two_live : Agent Kernel
two_live = agent_with both (record (clean_runtime false) { authz_rev = 5 })

abbrev whole : AuthzResponse
whole = record {
  rev = 9;
  full = true;
  addresses = member 4 ∷ member 6 ∷ member 4 ∷ [];
  add = [];
  del = [];
  force = false;
}

abbrev forced : AuthzResponse
forced = record whole { force = true }

-- It deletes a member that is live and one that is gone already.
abbrev part : AuthzResponse
part = record {
  rev = 8;
  full = false;
  addresses = [];
  add = member 6 ∷ [];
  del = 3 ∷ 5 ∷ [];
  force = false;
}

abbrev after_whole : Agent Kernel
after_whole = (apply_authz kernel_host whole two_live).0

abbrev after_part : Agent Kernel
after_part = (apply_authz kernel_host part two_live).0

whole_applied : apply_authz kernel_host whole two_live ≡ (after_whole, none)
unfolding apply_authz contains to_set
whole_applied = refl

part_applied : apply_authz kernel_host part two_live ≡ (after_part, none)
unfolding apply_authz contains to_set
part_applied = refl

apply_authz-revokes_few_example :
    (length (lost (kernel_host.members after_whole.world) both) ≤ 50)
    ⊎ (length (lost (kernel_host.members after_whole.world) both) * 2 ≤ length both)
apply_authz-revokes_few_example =
    apply_authz-revokes_few kernel_host kernel_laws whole two_live both {a' = after_whole} refl refl
      refl refl whole_applied

-- A response that runs backwards.
abbrev stale : AuthzResponse
stale = record part { rev = 2 }

-- A backend that answers every request with the same response.
abbrev always : AuthzResponse → Request → Reply
always resp req = answer resp

start_due : full_due 1000 two_live start_loop ≡ true
unfolding full_due start_loop
start_due = refl

sync_round_repairs_example :
    let (a', l') = sync_round kernel_host 1000 2000 (always forced) two_live start_loop in
    SameMembers (kernel_host.members a'.world) (addrs_of forced.addresses)
    × (a'.rt.authz_rev ≡ forced.rev)
    × (l' ≡ record { force_full = false; last_full = 2000; backoff = 0 })
sync_round_repairs_example =
    sync_round_repairs kernel_host kernel_laws kernel_works 1000 2000 (always forced) forced
      two_live start_loop start_due refl refl refl

-- With no absolute threshold left, two deletions of two live members are refused.
abbrev strict : Agent Kernel
strict = record two_live { mass_revoke_min = 0 }

abbrev emptied : AuthzResponse
emptied = record whole { addresses = [] }

emptied_refused :
    (apply_authz kernel_host emptied (take_resync strict).0).1 ≡ some (mass_revoke 2 2)
unfolding apply_authz contains to_set take_resync
emptied_refused = refl

strict_due : full_due 1000 strict start_loop ≡ true
unfolding full_due start_loop
strict_due = refl

sync_round_held_example :
    let (a', l') = sync_round kernel_host 1000 2000 (always emptied) strict start_loop in
    (kernel_host.members a'.world ≡ kernel_host.members strict.world)
    × (a'.rt.authz_rev ≡ strict.rt.authz_rev)
    × (l'.backoff ≡ 0)
    × ((later : ℕ)
        → later < 2000 + strict.full_sync_every
        → (send later a' l').2 ≡ record { rev = strict.rt.authz_rev; full = false })
sync_round_held_example =
    sync_round_held kernel_host kernel_laws 1000 2000 (always emptied) emptied strict start_loop 2 2
      strict_due refl emptied_refused (omega arith)

-- A process that has run for five hours and last heard from the backend when it started.
abbrev lonely : Agent Kernel
lonely = record two_live { last_authz_ok = 60_000_000_000; started_at = 60_000_000_000 }

abbrev five_hours : ℕ
five_hours = 18_060_000_000_000

grace_check-MayFlush_example :
    (grace_check kernel_host five_hours lonely ≡ lonely) ⊎ MayFlush 60_000_000_000 five_hours lonely
grace_check-MayFlush_example =
    grace_check-MayFlush kernel_host 60_000_000_000 five_hours two_live lonely (omega arith)
      (unfold init_last_authz_ok in refl)

grace_check_flushes_example :
    SameMembers (kernel_host.members (grace_check kernel_host five_hours lonely).world) []
grace_check_flushes_example =
    grace_check_flushes kernel_host kernel_laws kernel_works five_hours lonely refl (omega arith)
      (omega arith)

-- The process that starts on the runtime which `lonely` left.
abbrev reborn : Agent Kernel
reborn = record two_live { rt = (mark_authz_ok kernel_host five_hours lonely).rt }
