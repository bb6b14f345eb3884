-- ===== src/Examples/Billing.antt =====
-- Witnesses for purchases and for the billing of usage, on the tables of Backend.
use fips_exit_gate.Base.{
  ℕ, ◌*◌, ◌/◌, ◌%◌, ◌^◌, ◌<◌, ◌≡◌, ◌↔◌, refl, true, false, none, List, [], ◌∷◌, arith,
}
use fips_exit_gate.Base.Sets.{contains}
use fips_exit_gate.Store.State.{Entitlement, volume, Db}
use fips_exit_gate.Store.Authz.{any, is_member}
use fips_exit_gate.Store.Authz.Paid.{IsPaid}
use fips_exit_gate.Store.Purchases.{is_settled, is_grant_of, is_some}
use fips_exit_gate.Store.Purchases.Rows.{grants, rows, settled_rows}
use fips_exit_gate.Store.Purchases.Settled.{IsSound, Keeps}
use fips_exit_gate.Store.Purchases.History.{
  paid, seen, happen, History, begin, after, History-Keeps,
}
use fips_exit_gate.Store.Usage.{
  ReportInput, clamp, weigh, consume_volume, is_duplicate, record_report, ingest_usage,
}
use fips_exit_gate.Store.Usage.Weight.{weigh-clamp}
use fips_exit_gate.Store.Usage.Consume.{IsKeyed, IsWithin, has_id}
use fips_exit_gate.Store.Usage.Drawn.{Consumed, consume_volume-Consumed}
use fips_exit_gate.Store.Usage.Ingest.{
  no_report, then_report, ingest_usage_again, ingest_usage_revokes, ingest_usage-IsWithin,
}
use fips_exit_gate.Examples.Backend.{shop}

abbrev quota : ℕ → ℕ → ℕ → Entitlement
quota id used until = record {
  id = id;
  account_id = 1;
  purchase_id = none;
  kind = volume;
  volume_bytes = 100;
  volume_used = used;
  starts_at = 10;
  expires_at = until;
}

-- The second runs out first.
abbrev quotas : List Entitlement
quotas = quota 1 0 90 ∷ quota 2 70 50 ∷ []

quotas-IsKeyed : IsKeyed quotas
unfolding has_id any
quotas-IsKeyed = (refl, (refl, tt))

quotas-IsWithin : IsWithin quotas
quotas-IsWithin = (omega arith, (omega arith, tt))

consume_volume-Consumed_example : Consumed 20 1 80 quotas (consume_volume 20 1 80 quotas)
consume_volume-Consumed_example =
    consume_volume-Consumed 20 1 80 quotas quotas-IsKeyed quotas-IsWithin

weigh-clamp_example :
    (weigh (clamp 5_000_000) 1_500_000 ≡ clamp 5_000_000 * 1_500_000 / 1_000_000)
    × (clamp 5_000_000 / 1_000_000 * 1_500_000 < 2 ^ 63)
    × (clamp 5_000_000 % 1_000_000 * 1_500_000 < 2 ^ 63)
    × (weigh (clamp 5_000_000) 1_500_000 < 2 ^ 63)
weigh-clamp_example = weigh-clamp 5_000_000 1_500_000 (omega arith)

abbrev usage : ReportInput
usage = record {
  report_id = 501;
  counter_epoch = 1;
  window_end = 20;
  samples = record { service = 1; addr = 31; bytes = 40 } ∷ [];
}

ingest_usage_again_example :
    let db' =
      (ingest_usage 24 25 7
        (record usage { report_id = 502 })
        (ingest_usage 20 21 7 usage shop).0).0 in
    ingest_usage 30 31 7 usage db' ≡ (db', [])
ingest_usage_again_example =
    ingest_usage_again 20 7 usage shop 21 30 31 7 usage
      (then_report 24 25 7 (record usage { report_id = 502 }) no_report) refl

usage_is_new : is_duplicate usage.report_id shop ≡ false
unfolding is_duplicate
usage_is_new = refl

ingest_usage_revokes_example :
    (contains (ingest_usage 20 21 7 usage shop).1 31 ≡ true)
    ↔ ((is_member 31 shop.authz.current ≡ true) × ¬ IsPaid 21 (record_report 20 7 usage shop) 31)
ingest_usage_revokes_example = ingest_usage_revokes 20 7 usage shop 21 31 usage_is_new

shop-IsKeyed : IsKeyed shop.entitlements
unfolding has_id any
shop-IsKeyed = (refl, (refl, tt))

shop-IsWithin : IsWithin shop.entitlements
shop-IsWithin = (omega arith, (omega arith, tt))

ingest_usage-IsWithin_example : IsWithin (ingest_usage 20 21 7 usage shop).0.entitlements
ingest_usage-IsWithin_example = ingest_usage-IsWithin 20 21 7 usage shop shop-IsKeyed shop-IsWithin

pub shop-IsSound : IsSound shop
unfolding rows grants settled_rows is_settled is_grant_of is_some
shop-IsSound = record { keyed = λ id. ground arith; matched = λ id. ground arith }

-- The invoice of the pending purchase is paid.
abbrev later_on : Db
later_on = happen (happen shop (seen 703)) (paid 20 63 703)

bought : History shop later_on
bought = after (paid 20 63 703) (after (seen 703) begin tt) tt

History-Keeps_example : Keeps shop later_on
History-Keeps_example = History-Keeps {db = shop} {db' = later_on} shop-IsSound bought
