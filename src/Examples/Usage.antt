-- ===== src/Examples/Usage.antt =====
-- Witnesses for the accounting of the agent, on the kernel of Kernel.
use fips_exit_gate.Base.{ℕ, ◌≤◌, ◌≡◌, false, List, [], ◌∷◌, ◌++◌, if◌then◌else◌, arith}
use fips_exit_gate.Agent.State.{
  AcctKey, known, UsageReport, UsageAck, Runtime, Agent, clean_runtime,
}
use fips_exit_gate.Agent.Usage.{Tick, compute_delta, collect, flush_buffer}
use fips_exit_gate.Agent.Usage.Meter.{Event, traffic, reset, read, new_meter, run, never_overbills}
use fips_exit_gate.Agent.Usage.Buffer.{flush_buffer-append, flush_buffer_empties}
use fips_exit_gate.Agent.Usage.Collect.{Queued, collect-Queued}
use fips_exit_gate.Examples.Kernel.{Kernel, kernel_host, kernel_works, agent_with}

abbrev web : AcctKey
web = record { addr = 3; port = 1080 }

abbrev services : List (ℕ × ℕ)
services = (1080, 1) ∷ []

-- 70 bytes, of which a reset hides 20 from the readings.
abbrev day : List Event
day = traffic web 50 ∷ read ∷ traffic web 20 ∷ reset web ∷ read ∷ []

never_overbills_example :
    (run 3 services new_meter day).billed ≤ (run 3 services new_meter day).passed
never_overbills_example = never_overbills 3 services day

abbrev calm : List Event
calm = traffic web 50 ∷ read ∷ traffic web 20 ∷ []

abbrev report : ℕ → UsageReport
report id = record {
  report_id = id;
  counter_epoch = 1;
  window_end = 100;
  samples = record { service = known 1; addr = 3; bytes = 50 } ∷ [];
}

abbrev buffered : Runtime
buffered = record (clean_runtime false) { buffered_usage = report 11 ∷ report 12 ∷ [] }

abbrev busy : Agent Kernel
busy = agent_with (3 ∷ 4 ∷ []) buffered

abbrev acks : List UsageAck
acks = record { ack = 11; revoke = 4 ∷ 8 ∷ [] } ∷ record { ack = 12; revoke = [] } ∷ []

flush_buffer-append_example :
    (flush_buffer kernel_host acks busy).1
      ++ (flush_buffer kernel_host acks busy).0.rt.buffered_usage
    ≡ busy.rt.buffered_usage
flush_buffer-append_example = flush_buffer-append kernel_host acks busy

flush_buffer_empties_example : (flush_buffer kernel_host acks busy).0.rt.buffered_usage ≡ []
flush_buffer_empties_example =
    flush_buffer_empties kernel_host (kernel_works.writes) acks busy (omega arith)

abbrev tick : Tick
tick = record { epoch = 1; fresh_id = 13; now = 130 }

-- The buffer is full, so that its oldest report leaves.
collect-Queued_example :
    Queued 2 buffered.buffered_usage
      (collect 2 services tick ((web, 90) ∷ []) buffered).buffered_usage
      (if buffered.prime_baselines
        then []
        else (compute_delta buffered.baselines ((web, 90) ∷ []) services).0)
collect-Queued_example = collect-Queued 2 services tick ((web, 90) ∷ []) buffered (omega arith)
