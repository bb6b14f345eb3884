-- ===== src/Agent/Grace.antt =====
-- agent/agent.go, the grace clock: `markAuthzOK`, `initLastAuthzOK`, and `graceCheck`, which may
-- flush the whole authorized set once the backend has been away for too long.
--
-- `now.Sub(t)` on instants is `now - t`: where the clock has run backwards Go's negative duration
-- passes none of the tests below, and neither does 0.
pub mod Clock
pub mod Flush
use fips_exit_gate.Base.{
  ℕ, ◌+◌, ◌-◌, ◌*◌, ◌/◌, Bool, true, false, not, ◌&&◌, ◌||◌, Option, none, some, List, [], ◌∷◌, ltb,
  leb, ◌==◌, if◌then◌else◌,
}
use fips_exit_gate.Agent.State.{Addr, Runtime, Agent}
use fips_exit_gate.Agent.Host.{Host, with_runtime}

abbrev pub second : ℕ
second = 1_000_000_000

abbrev pub minute : ℕ
minute = 60_000_000_000

abbrev pub persist_authz_ok_every : ℕ
persist_authz_ok_every = minute

module _ {W : Type 0} where
  unfoldable pub grace_window : Agent W → ℕ
  grace_window a = a.cfg.grace_minutes * minute

  -- Ten minutes, or half of the grace window if that is shorter and not 0.
  unfoldable pub startup_grace : Agent W → ℕ
  unfolding grace_window
  startup_grace a =
      let half = grace_window a / 2 in
      if ltb 0 half && ltb half (10 * minute) then half else 10 * minute

  -- `now` is the time at the start of the process.
  unfoldable pub init_last_authz_ok : ℕ → Agent W → Agent W
  init_last_authz_ok now a = record a {
    last_authz_ok = if a.rt.last_authz_ok == 0 then now else a.rt.last_authz_ok;
    started_at = now;
  }

  unfoldable pub is_over : ℕ → Agent W → Bool
  unfolding grace_window
  is_over now a = ltb (grace_window a) (now - a.last_authz_ok)

  unfoldable pub is_settled : ℕ → Agent W → Bool
  unfolding startup_grace
  is_settled now a = a.started_at == 0 || leb (startup_grace a) (now - a.started_at)

module _ {W : Type 0} (h : Host W) where
  -- The clock in memory moves on every answer; the one on disk, at most once a minute.
  unfoldable pub mark_authz_ok : ℕ → Agent W → Agent W
  mark_authz_ok now a =
      let a' = record a { last_authz_ok = now } in
      if leb persist_authz_ok_every (now - a.rt.last_authz_ok)
      then (with_runtime h (λ r. record r { last_authz_ok = now }) a').0
      else a'

  flushed : Agent W → Option W → Agent W
  flushed a none = a
  flushed a (some w) = record a { world = w }

  flush_listed : Agent W → Option (List Addr) → Agent W
  unfolding flushed
  flush_listed a none = a
  flush_listed a (some []) = a
  flush_listed a (some (x ∷ current)) = flushed a (h.apply_authorized [] (x ∷ current) a.world)

  unfoldable pub grace_check : ℕ → Agent W → Agent W
  unfolding is_over is_settled flush_listed
  grace_check now a =
      if not (is_over now a) || not a.fail_closed_after_grace || not (is_settled now a)
      then a
      else flush_listed a (h.list_authorized a.world)
