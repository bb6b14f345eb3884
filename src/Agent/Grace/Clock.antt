-- ===== src/Agent/Grace/Clock.antt =====
-- The grace clock in memory and on disk.
use fips_exit_gate.Agent.State.{Agent}
use fips_exit_gate.Agent.Host.{Host}
