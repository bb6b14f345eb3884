-- ===== src/Agent/Usage/Collect.antt =====
-- A collection: what it queues, what a full buffer drops, and the window after lost state.
use fips_exit_gate.Base.{
  ℕ, suc, ◌+◌, ◌-◌, ◌≤◌, ◌<◌, ◌⊎◌, ◌≡◌, ◌∙◌, refl, sym, ap, Bool, true, false, List, [], ◌∷◌, ◌++◌,
  arith, inl, inr, ◌==◌, ltb, length, length-append, length-drop, drop, take, take-append-drop,
  length-take, if◌then◌else◌, Bool-cases,
}
use mathlib.Core.List.{append-nil}
use fips_exit_gate.Agent.State.{AcctKey, UsageSample, UsageReport, Runtime}
use fips_exit_gate.Agent.Usage.{Tick, compute_delta, bounded, queue_report, collect}

-- A buffer against its bound: the overflow leaves at the front.
nothing_over : (limit : ℕ) (n : ℕ) → ltb limit n ≡ false → n - limit ≡ 0
nothing_over limit n h = ground arith

bounded-drop :
    (limit : ℕ) (reports : List UsageReport)
    → bounded limit reports ≡ drop (length reports - limit) reports
unfolding bounded
bounded-drop limit reports = elim (Bool-cases (ltb limit (length reports))) [
  | inl over ↦ rw over
  | inr fits ↦ rw (fits, nothing_over limit (length reports) fits)
]

-- What a collection does to the buffer.
pub record Queued (limit : ℕ) (old new : List UsageReport) (samples : List UsageSample)
    : Type 0 where
  pub dropped : List UsageReport
  pub added : List UsageReport
  pub order : dropped ++ new ≡ old ++ added
  pub overflow : length dropped ≡ length old + length added - limit
  pub bound : length new ≤ limit
  pub carried :
      ((added ≡ []) × (samples ≡ []))
      ⊎ ((r : UsageReport) × (added ≡ r ∷ []) × (r.samples ≡ samples) × (0 < length samples))

suc-ne-zero : (n : ℕ) → (suc n == 0) ≡ false
suc-ne-zero n = ground arith

unchanged : (limit : ℕ) (old : List UsageReport) → length old ≤ limit → Queued limit old old []
unchanged limit old fits = record {
  dropped = [];
  added = [];
  order = sym (append-nil old);
  overflow = omega arith;
  bound = fits;
  carried = inl (refl, refl);
}

queued :
    (limit : ℕ) (old : List UsageReport) (r : UsageReport)
    → length old ≤ limit
    → 0 < length r.samples
    → Queued limit old (bounded limit (old ++ r ∷ [])) r.samples
queued limit old r fits some_samples =
    let all : List UsageReport = old ++ r ∷ [] in
    let over = length all - limit in
    let size = length-append old (r ∷ []) in
    record {
      dropped = take over all;
      added = r ∷ [];
      order = rw (bounded-drop limit all) (take-append-drop over all);
      overflow = length-take over all (omega arith) ∙ ap (λ n. n - limit) size;
      bound = rw (bounded-drop limit all) (omega (arith, length-drop over all));
      carried = inr (r, refl, refl, some_samples);
    }

queue_report-Queued :
    (limit : ℕ) (t : Tick) (samples : List UsageSample) (rt : Runtime)
    → length rt.buffered_usage ≤ limit
    → Queued limit rt.buffered_usage (queue_report limit t samples rt).buffered_usage samples
unfolding queue_report
queue_report-Queued limit t [] rt fits = unchanged limit rt.buffered_usage fits
queue_report-Queued limit t (s ∷ ss) rt fits = rw (suc-ne-zero (length ss)) (
    queued limit rt.buffered_usage
      (record {
        report_id = t.fresh_id;
        counter_epoch = t.epoch;
        window_end = t.now;
        samples = s ∷ ss;
      })
      fits (omega arith))

by_prime :
    (limit : ℕ) (old : List UsageReport) (primed : Bool) (skip queue : Runtime)
    (samples : List UsageSample)
    → Queued limit old skip.buffered_usage []
    → Queued limit old queue.buffered_usage samples
    → Queued limit old
        (if primed then skip else queue).buffered_usage
        (if primed then [] else samples)
by_prime limit old true skip queue samples p q = p
by_prime limit old false skip queue samples p q = q

-- A collection into a buffer within its bound keeps it there. If `computeDelta` gives samples, and
-- this is not the first window after lost state, it queues one report, which carries them, behind the
-- others; otherwise it queues none. Only the oldest reports leave, as many as pass the bound.
pub collect-Queued :
    (limit : ℕ) (services : List (ℕ × ℕ)) (t : Tick) (cur : List (AcctKey × ℕ)) (rt : Runtime)
    → length rt.buffered_usage ≤ limit
    → Queued limit rt.buffered_usage
        (collect limit services t cur rt).buffered_usage
        (if rt.prime_baselines then [] else (compute_delta rt.baselines cur services).0)
unfolding collect
collect-Queued limit services t cur rt fits =
    let (samples, next) = compute_delta rt.baselines cur services in
    let rt' : Runtime = record rt { baselines = next; counter_epoch = t.epoch } in
    by_prime limit rt.buffered_usage rt.prime_baselines (record rt' { prime_baselines = false })
      (queue_report limit t samples rt') samples (unchanged limit rt.buffered_usage fits)
      (queue_report-Queued limit t samples rt' fits)
