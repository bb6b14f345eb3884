-- ===== src/Store/Usage/Charge.antt =====
-- `consumeVolume` as a whole: its loop ends, and charges what there is to charge.
use fips_exit_gate.Base.{
  ℕ, zero, suc, ◌+◌, ◌-◌, ◌≤◌, ◌<◌, ◌≡◌, refl, ap, List, arith, leb, length, min, Option-cases,
  Bool-cases, inl, inr,
}
use fips_exit_gate.Store.State.{Entitlement}
use fips_exit_gate.Store.Usage.{earliest, use_volume, consume_loop, consume_volume}
use fips_exit_gate.Store.Usage.Consume.{
  IsKeyed, IsWithin, spent, capacity, sources, IsKeyed-use_volume, IsWithin-use_volume,
  zero_capacity, earliest_ok, use_volume-move, use_volume-sources, sources-le, Charged,
  Charged-nothing,
}

module _ (now acct : ℕ) where
  consume_nothing : (fuel : ℕ) (es : List Entitlement) → consume_loop fuel now acct 0 es ≡ es
  unfolding consume_loop
  consume_nothing zero es = refl
  consume_nothing (suc fuel) es = refl

  Charged-last :
      (fuel n : ℕ) (es : List Entitlement)
      → n ≡ 0
      → IsWithin es
      → IsKeyed es
      → Charged now acct n es (consume_loop fuel now acct n es)
  Charged-last fuel n es e ok k = rw (e, consume_nothing fuel es) (Charged-nothing now acct es ok k)

  -- One turn, and then the rest of the loop.
  Charged-turn :
      (c w : ℕ) (es after : List Entitlement) {es' : List Entitlement}
      → c ≤ w
      → (capacity now acct es' + c ≡ capacity now acct es) × (spent es' ≡ spent es + c)
      → Charged now acct (w - c) es' after
      → Charged now acct w es after
  Charged-turn c w es after le (cap, sp) rest = record {
    charged = omega (arith, rest.charged, le, cap, sp);
    drawn = omega (arith, rest.drawn, le, cap);
    within = rest.within;
    keyed = rest.keyed;
  }

  Charged-loop :
      (fuel w : ℕ) (es : List Entitlement)
      → IsKeyed es
      → IsWithin es
      → sources now acct es < fuel
      → Charged now acct w es (consume_loop fuel now acct w es)
  unfolding consume_loop
  Charged-loop zero w es k ok few = elim few [ ]
  Charged-loop (suc fuel) zero es k ok few = Charged-nothing now acct es ok k
  Charged-loop (suc fuel) (suc w) es k ok few = elim (Option-cases (earliest now acct es)) [
    | inl e ↦
        let nil = zero_capacity now acct es e in
        rw (consume_loop, e)
          (record {
            charged = omega (arith, nil);
            drawn = omega (arith, nil);
            within = ok;
            keyed = k;
          })
    | inr (e, chosen) ↦
        let (m, d) = earliest_ok now acct es chosen in
        let room = e.volume_bytes - e.volume_used in
        let c = min (suc w) room in
        let es' = use_volume e.id c es in
        let fits : c ≤ room = omega arith in
        let ok' = IsWithin-use_volume now acct c es m k d fits ok in
        let after = consume_loop fuel now acct (suc w - c) es' in
        let rest : Charged now acct (suc w - c) es' after = elim (Bool-cases (leb (suc w) room)) [
          | inl all ↦
              Charged-last fuel (suc w - c) es' (ground arith) ok' (IsKeyed-use_volume e.id c es k)
          | inr some_left ↦
              let full : c ≡ room = ground arith in
              let used = use_volume-sources now acct es m k d in
              let fewer = ap (λ n. sources now acct (use_volume e.id n es)) full in
              Charged-loop fuel (suc w - c) es' (IsKeyed-use_volume e.id c es k) ok'
                (omega (arith, used, fewer, few))
        ] in
        rw (consume_loop, chosen)
          (Charged-turn c (suc w) es after (omega arith) (use_volume-move now acct c es m k d fits)
            rest)
  ]

  -- Where ids are unique and no entitlement is overdrawn, a call of `consumeVolume` charges the whole
  -- amount or, if that is less, all that the account has left in its usable volume entitlements; it
  -- charges nothing else, overdraws none of them, and its loop ends on its own.
  pub consume_volume-Charged :
      (w : ℕ) (es : List Entitlement)
      → IsKeyed es
      → IsWithin es
      → Charged now acct w es (consume_volume now acct w es)
  unfolding consume_volume
  consume_volume-Charged w es k ok =
      Charged-loop (suc (length es)) w es k ok (omega (arith, sources-le now acct es))
