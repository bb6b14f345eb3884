-- ===== src/Agent/Usage/Meter.antt =====
-- Any interleaving of traffic, counter resets and readings: `computeDelta` never bills an address
-- for more than what passed for it, and bills all of it when no counter was reset.
use fips_exit_gate.Base.{ℕ, ◌+◌, ◌≤◌, ◌≡◌, Bool, true, false, List, [], ◌∷◌, arith, All}
use fips_exit_gate.Base.Assoc.{lookup, erase, IsMap, insert-IsMap, erase-IsMap}
use fips_exit_gate.Agent.State.{Addr, AcctKey, key_eq, key_beq_iff}
use fips_exit_gate.Agent.Usage.{baseline, compute_delta}
use fips_exit_gate.Agent.Usage.Delta.{
  billed_to, share, hit, pending, pending-hit-le, pending-erase-le, billed-compute_delta,
  pending-compute_delta, pending-hit, pending-nil, baseline-compute_delta, baseline-hit,
}

-- The kernel and the agent, as one address sees them: the counters, the stored baselines, and the
-- bytes that were billed to it and that passed for it so far.
pub record Meter : Type 0 where
  pub counters : List (AcctKey × ℕ)
  pub baselines : List (AcctKey × ℕ)
  pub billed : ℕ
  pub passed : ℕ

-- Traffic counts; a reset is a set flush, an element's removal or a reboot; a read is a collection.
pub data Event : Type 0 where
  traffic : AcctKey → ℕ → Event
  reset : AcctKey → Event
  read : Event

abbrev pub new_meter : Meter
new_meter = record { counters = []; baselines = []; billed = 0; passed = 0 }

module _ (x : Addr) (services : List (ℕ × ℕ)) where
  unfoldable pub step : Meter → Event → Meter
  step m (traffic k n) = record m { counters = hit k n m.counters; passed = m.passed + share x k n }
  step m (reset k) = record m { counters = erase k m.counters }
  step m read =
      let (samples, next) = compute_delta m.baselines m.counters services in
      record m { baselines = next; billed = m.billed + billed_to x samples }

  unfoldable pub run : Meter → List Event → Meter
  run m [] = m
  run m (e ∷ es) = run (step m e) es

  record IsFair (m : Meter) : Type 0 where
    map : IsMap m.counters
    fair : m.billed + pending x services m.baselines m.counters ≤ m.passed

  step-IsFair : (m : Meter) (e : Event) → IsFair m → IsFair (step m e)
  unfolding step hit
  step-IsFair m (traffic k n) f = record {
    map = insert-IsMap k (baseline m.counters k + n) m.counters f.map;
    fair =
        unfold hit in omega (arith, f.fair, pending-hit-le x services m.baselines m.counters k n);
  }
  step-IsFair m (reset k) f = record {
    map = erase-IsMap k m.counters f.map;
    fair = omega (arith, f.fair, pending-erase-le x services m.baselines m.counters k);
  }
  step-IsFair m read f = record {
    map = f.map;
    fair = ground (
      arith,
      billed-compute_delta x services m.baselines m.counters,
      pending-compute_delta x services m.baselines m.counters f.map,
    );
  }

  run-IsFair : (m : Meter) (es : List Event) → IsFair m → IsFair (run m es)
  unfolding run
  run-IsFair m [] f = f
  run-IsFair m (e ∷ es) f = run-IsFair (step m e) es (step-IsFair m e f)

  -- Whatever the order of traffic, resets and readings, what an address was billed never exceeds
  -- the bytes that passed for it.
  pub never_overbills : (es : List Event) → (run new_meter es).billed ≤ (run new_meter es).passed
  never_overbills es =
      let f =
        run-IsFair new_meter es
          (record { map = tt; fair = omega (arith, pending-nil x services) }) in
      omega (arith, f.fair)

  abbrev no_reset : Event → Bool
  no_reset (reset k) = false
  no_reset _ = true

  abbrev pub NoResets : List Event → Type 0
  NoResets = All (λ e. no_reset e ≡ true)

  record IsExact (m : Meter) : Type 0 where
    map : IsMap m.counters
    exact : m.billed + pending x services m.baselines m.counters ≡ m.passed
    ahead : (k : AcctKey) → baseline m.baselines k ≤ baseline m.counters k

  step-IsExact : (m : Meter) (e : Event) → no_reset e ≡ true → IsExact m → IsExact (step m e)
  unfolding step
  step-IsExact m (traffic k n) ok f = record {
    map = unfold hit in insert-IsMap k (baseline m.counters k + n) m.counters f.map;
    exact = omega (arith, f.exact, pending-hit x services m.baselines m.counters k n (f.ahead k));
    ahead =
        λ j. ground (arith, f.ahead j, f.ahead k, baseline-hit k j n m.counters, key_beq_iff k j);
  }
  step-IsExact m (reset k) ok f = cc
  step-IsExact m read ok f = record {
    map = f.map;
    exact = ground (
      arith,
      f.exact,
      billed-compute_delta x services m.baselines m.counters,
      pending-compute_delta x services m.baselines m.counters f.map,
    );
    ahead = λ j. ground (arith, baseline-compute_delta m.baselines m.counters services j);
  }

  run-IsExact : (m : Meter) (es : List Event) → NoResets es → IsExact m → IsExact (run m es)
  unfolding run
  run-IsExact m [] ok f = f
  run-IsExact m (e ∷ es) ok f = run-IsExact (step m e) es ok.1 (step-IsExact m e ok.0 f)

  -- With no reset among the events, a reading leaves an address billed for exactly what passed.
  pub bills_exactly :
      (es : List Event)
      → NoResets es
      → (step (run new_meter es) read).billed ≡ (step (run new_meter es) read).passed
  unfolding step
  bills_exactly es ok =
      let start : IsExact new_meter = record {
        map = tt;
        exact = omega (arith, pending-nil x services);
        ahead = λ k. unfold lookup in omega arith;
      } in
      let m = run new_meter es in
      let end = run-IsExact new_meter es ok start in
      ground (arith, end.exact, billed-compute_delta x services m.baselines m.counters)
