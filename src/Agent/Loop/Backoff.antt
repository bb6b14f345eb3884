-- ===== src/Agent/Loop/Backoff.antt =====
-- The retry ladder of the sync loop.
use fips_exit_gate.Base.{ℕ, zero, suc, ◌*◌, ◌^◌, ◌<◌, ◌≡◌, refl, arith, min}
use fips_exit_gate.Agent.Grace.{second}
use fips_exit_gate.Agent.Loop.{backoff_max, next_backoff}

-- The rung after `n` failures in a row.
unfoldable pub rung : ℕ → ℕ
rung zero = 0
rung (suc n) = next_backoff (rung n)

step_up : (cur : ℕ) → 0 < cur → next_backoff cur ≡ min (cur * 2) backoff_max
unfolding next_backoff
step_up cur pos = ground arith

pos : (n : ℕ) → 0 < rung (suc n)
unfolding rung next_backoff
pos n = ground arith

-- After n + 1 failures in a row the loop waits 2 ^ n seconds, and never longer than a minute.
pub rung_lem : (n : ℕ) → rung (suc n) ≡ min (2 ^ n * second) backoff_max
unfolding rung
rung_lem zero = unfold next_backoff in refl
rung_lem (suc n) = omega (arith, step_up (rung (suc n)) (pos n), rung_lem n)
