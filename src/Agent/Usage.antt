-- ===== src/Agent/Usage.antt =====
-- agent/usage.go and the usage loop of agent/agent.go: deltas of the kernel's byte counters, the
-- bounded buffer of reports, their delivery, and the revocations that an ack carries.
pub mod Delta
pub mod Meter
pub mod Buffer
pub mod Collect
pub mod Revoke
use fips_exit_gate.Base.{
  ℕ, zero, suc, ◌+◌, ◌-◌, Bool, true, false, not, Option, none, some, List, [], ◌∷◌, ◌++◌, ltb, leb,
  ◌==◌, if◌then◌else◌, length, drop, keep,
}
use fips_exit_gate.Base.Assoc.{lookup, insert, keys}
use fips_exit_gate.Base.Equality.{nat_eq}
use fips_exit_gate.Base.Sets.{contains}
use fips_exit_gate.Agent.State.{
  Addr, AcctKey, key_eq, ServiceLabel, known, unknown, UsageSample, UsageReport, UsageAck, Runtime,
  Agent,
}
use fips_exit_gate.Agent.Host.{Host, with_runtime}
use fips_exit_gate.Agent.Sync.{present_only}

-- A missing baseline reads as Go's zero value.
abbrev pub baseline : List (AcctKey × ℕ) → AcctKey → ℕ
baseline prev k = elim (lookup k prev) [ none ↦ 0 | some last ↦ last ]

-- A counter below its baseline was reset, so that all of it is new.
unfoldable pub counter_delta : ℕ → ℕ → ℕ
counter_delta last bytes = if leb last bytes then bytes - last else bytes

unfoldable pub service_label : List (ℕ × ℕ) → ℕ → ServiceLabel
service_label services port = elim (lookup port services) [ none ↦ unknown port | some k ↦ known k ]

-- The samples of one pass over the counters. Each key of a Go map comes once.
unfoldable pub samples_of :
    List (AcctKey × ℕ) → List (AcctKey × ℕ) → List (ℕ × ℕ) → List UsageSample
unfolding counter_delta service_label
samples_of prev [] services = []
samples_of prev ((k, bytes) ∷ cur) services =
    let rest = samples_of prev cur services in
    let delta = counter_delta (baseline prev k) bytes in
    if delta == 0
    then rest
    else record { service = service_label services k.port; addr = k.addr; bytes = delta } ∷ rest

-- `next[bk] = absBytes` for each counter.
unfoldable pub baselines_of : List (AcctKey × ℕ) → List (AcctKey × ℕ)
baselines_of [] = []
baselines_of ((k, bytes) ∷ cur) = insert k bytes (baselines_of cur)

unfoldable pub compute_delta :
    List (AcctKey × ℕ) → List (AcctKey × ℕ) → List (ℕ × ℕ) → List UsageSample × List (AcctKey × ℕ)
unfolding samples_of baselines_of
compute_delta prev cur services = (samples_of prev cur services, baselines_of cur)

-- What a collection is given from outside: the boot id, a fresh report id, and the time.
pub record Tick : Type 0 where
  pub epoch : ℕ
  pub fresh_id : ℕ
  pub now : ℕ

-- The oldest reports go when there are more than `limit`.
unfoldable pub bounded : ℕ → List UsageReport → List UsageReport
bounded limit reports =
    if ltb limit (length reports) then drop (length reports - limit) reports else reports

-- A window with no samples makes no report.
unfoldable pub queue_report : ℕ → Tick → List UsageSample → Runtime → Runtime
unfolding bounded
queue_report limit t samples rt = if length samples == 0 then rt else record rt {
  buffered_usage = bounded limit (
      rt.buffered_usage
      ++ record {
        report_id = t.fresh_id;
        counter_epoch = t.epoch;
        window_end = t.now;
        samples = samples;
      }
        ∷ []);
}

-- The change that `collectAndBuffer` makes under the lock.
unfoldable pub collect : ℕ → List (ℕ × ℕ) → Tick → List (AcctKey × ℕ) → Runtime → Runtime
unfolding compute_delta queue_report
collect limit services t cur rt =
    let (samples, next) = compute_delta rt.baselines cur services in
    let rt' = record rt { baselines = next; counter_epoch = t.epoch } in
    if rt.prime_baselines
    then record rt' { prime_baselines = false }
    else queue_report limit t samples rt'

-- `flushBuffer`'s change after an ack: the report leaves the head of the buffer, if it is there.
unfoldable pub drop_acked : ℕ → List UsageReport → List UsageReport
drop_acked id [] = []
drop_acked id (r ∷ rest) = if r.report_id == id then rest else r ∷ rest

-- The accounting elements of the revoked addresses, over all services.
unfoldable pub acct_of : List Addr → List (AcctKey × ℕ) → List AcctKey
acct_of addrs existing = keep (λ (k : AcctKey). contains addrs k.addr) (keys existing)

module _ {W : Type 0} (h : Host W) where
  collect_read : Tick → Agent W → Option (List (AcctKey × ℕ)) → Agent W × Bool
  unfolding collect
  collect_read t a none = (a, false)
  collect_read t a (some cur) = with_runtime h (collect a.buffer_cap a.services t cur) a

  unfoldable pub collect_and_buffer : Tick → Agent W → Agent W × Bool
  unfolding collect_read
  collect_and_buffer t a = collect_read t a (h.read_acct a.world)

  -- A failure of either call is logged and ignored.
  gc_deleted : Agent W → Option W → Agent W
  gc_deleted a none = a
  gc_deleted a (some w) = record a { world = w }

  gc_read : List Addr → Agent W → Option (List (AcctKey × ℕ)) → Agent W
  unfolding gc_deleted
  gc_read addrs a none = a
  gc_read addrs a (some existing) = gc_deleted a (h.delete_acct (acct_of addrs existing) a.world)

  unfoldable pub gc_acct : List Addr → Agent W → Agent W
  unfolding gc_read
  gc_acct addrs a = gc_read addrs a (h.read_acct a.world)

  revoke_batch : List Addr → Agent W → Option W → Agent W
  revoke_batch revoke a none = a
  revoke_batch revoke a (some w) = gc_acct revoke (record a { world = w })

  revoke_present : List Addr → Agent W → Option (List Addr) → Agent W
  unfolding revoke_batch
  revoke_present revoke a none = a
  revoke_present revoke a (some del) = revoke_batch revoke a (h.apply_authorized [] del a.world)

  -- The inline revocations of an ack. Every failure is logged, and the rest is skipped.
  unfoldable pub apply_revocations : List Addr → Agent W → Agent W
  unfolding revoke_present
  apply_revocations [] a = a
  apply_revocations (x ∷ revoke) a =
      revoke_present (x ∷ revoke) a (present_only h (x ∷ revoke) a.world)

  -- One delivery that the backend acked: its revocations, and the report's removal. The Boolean
  -- says whether the loop goes on.
  unfoldable pub deliver : UsageReport → UsageAck → Agent W → Agent W × Bool
  deliver r ack a =
      with_runtime h (λ rt. record rt { buffered_usage = drop_acked r.report_id rt.buffered_usage })
        (apply_revocations ack.revoke a)

  -- The list holds the answers of `postUsage`, call after call, up to the first call that fails;
  -- the loop ends there, at an empty buffer, or at a runtime file that cannot be written. Beside the
  -- agent it returns the reports that were acked, in the order of their delivery.
  unfoldable pub flush_loop :
      List UsageAck → List UsageReport → Agent W → Agent W × List UsageReport
  flush_loop [] buffer a = (a, [])
  flush_loop (ack ∷ acks) [] a = (a, [])
  flush_loop (ack ∷ acks) (r ∷ rest) a =
      let (a', going) = deliver r ack a in
      let (a'', sent) = flush_loop acks a'.rt.buffered_usage a' in
      if going then (a'', r ∷ sent) else (a', r ∷ [])

  unfoldable pub flush_buffer : List UsageAck → Agent W → Agent W × List UsageReport
  unfolding flush_loop
  flush_buffer acks a = flush_loop acks a.rt.buffered_usage a
