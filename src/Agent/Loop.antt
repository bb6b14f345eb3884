-- ===== src/Agent/Loop.antt =====
-- agent/agent.go, `runSync`: one iteration of the authz loop, from the request that it sends to the
-- handling of the reply, and the back-off between retries.
--
-- `asked` and `answered` are the agent's clock when the request is sent and when the reply is
-- handled (a long poll lies between them). Metrics and log lines are left out; the back-off's jitter
-- only stretches the wait, and the model keeps the wait without it.
pub mod Backoff
pub mod Rounds
use fips_exit_gate.Base.{
  ℕ, ◌+◌, ◌-◌, ◌*◌, Bool, true, false, not, ◌&&◌, ◌||◌, Option, none, some, ltb, leb, ◌==◌,
  if◌then◌else◌,
}
use fips_exit_gate.Agent.State.{AuthzResponse, Agent}
use fips_exit_gate.Agent.Host.{Host}
use fips_exit_gate.Agent.Sync.{SyncError, mass_revoke, rev_regression, host_failed, apply_authz}
use fips_exit_gate.Agent.Grace.{second, mark_authz_ok, grace_check}

abbrev pub backoff_max : ℕ
backoff_max = 60 * second

-- The rung that `next` moves to, which is also the wait before its jitter.
unfoldable pub next_backoff : ℕ → ℕ
next_backoff cur =
    let doubled = if cur == 0 then second else if ltb cur backoff_max then cur * 2 else cur in
    if ltb backoff_max doubled then backoff_max else doubled

-- The loop's own variables.
pub record SyncLoop : Type 0 where
  pub force_full : Bool
  pub last_full : ℕ
  pub backoff : ℕ

unfoldable pub start_loop : SyncLoop
start_loop = record { force_full = true; last_full = 0; backoff = 0 }

-- What `getAuthz` asks for and answers with: `unchanged` is a 204, `failed` any other error.
pub record Request : Type 0 where
  pub rev : ℕ
  pub full : Bool

pub data Reply : Type 0 where
  unchanged : Reply
  failed : Reply
  answer : AuthzResponse → Reply

module _ {W : Type 0} where
  unfoldable pub request_resync : Agent W → Agent W
  request_resync a = record a { force_resync = true }

  unfoldable pub take_resync : Agent W → Agent W × Bool
  take_resync a = if a.force_resync then (record a { force_resync = false }, true) else (a, false)

  -- A full pull is due on demand, or `full_sync_every` after the last one (0 turns that off).
  unfoldable pub full_due : ℕ → Agent W → SyncLoop → Bool
  full_due asked a l =
      l.force_full
      || a.force_resync
      || (ltb 0 a.full_sync_every && leb a.full_sync_every (asked - l.last_full))

  -- The head of an iteration, up to the call of `getAuthz`.
  unfoldable pub send : ℕ → Agent W → SyncLoop → Agent W × SyncLoop × Request
  unfolding take_resync full_due
  send asked a l =
      let due = full_due asked a l in
      (
        (take_resync a).0,
        record l { force_full = due },
        record { rev = if due then 0 else a.rt.authz_rev; full = due },
      )

unfoldable pub reset : SyncLoop → SyncLoop
reset l = record l { backoff = 0 }

unfoldable pub retry : SyncLoop → SyncLoop
unfolding next_backoff
retry l = record l { backoff = next_backoff l.backoff }

-- A full pull that has been answered is done.
unfoldable pub full_done : ℕ → SyncLoop → SyncLoop
full_done answered l =
    if l.force_full then record l { force_full = false; last_full = answered } else l

module _ {W : Type 0} (h : Host W) where
  -- What follows `applyAuthz`, on each of its outcomes. `persisted` is the cursor at the request.
  unfoldable pub settle : ℕ → ℕ → SyncLoop → Agent W × Option SyncError → Agent W × SyncLoop
  unfolding reset retry full_done
  settle answered persisted l (a, none) = (mark_authz_ok h answered a, reset (full_done answered l))
  settle answered persisted l (a, some (mass_revoke del current)) = (
    mark_authz_ok h answered a,
    if l.force_full && ltb 0 persisted then reset (full_done answered l) else retry l,
  )
  settle answered persisted l (a, some (rev_regression got cursor)) =
      (mark_authz_ok h answered a, retry (record l { force_full = true }))
  settle answered persisted l (a, some host_failed) = (a, retry l)

  unfoldable pub receive : ℕ → ℕ → Reply → Agent W → SyncLoop → Agent W × SyncLoop
  unfolding settle
  receive answered persisted unchanged a l =
      (mark_authz_ok h answered a, reset (full_done answered l))
  receive answered persisted failed a l = (grace_check h answered a, retry l)
  receive answered persisted (answer resp) a l = settle answered persisted l (apply_authz h resp a)

  -- A whole iteration against a backend's reply to the request.
  unfoldable pub sync_round : ℕ → ℕ → (Request → Reply) → Agent W → SyncLoop → Agent W × SyncLoop
  unfolding send receive
  sync_round asked answered backend a l =
      let (a', l', req) = send asked a l in receive answered a'.rt.authz_rev (backend req) a' l'
