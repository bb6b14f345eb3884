-- ===== src/Examples/Retention.antt =====
-- Three samples of two reports, of which one is old; the old one joins a daily total.
use fips_exit_gate.Base.{ℕ, ◌/◌, ◌≡◌, refl, none, some, List, [], ◌∷◌}
use fips_exit_gate.Store.State.{Db}
use fips_exit_gate.Store.Retention.{DailyRow, aggregate_usage}
use fips_exit_gate.Store.Retention.Totals.{total, aggregate_usage-total}
use fips_exit_gate.Examples.Backend.{shop}

abbrev metered : Db
metered = record shop {
  reports =
      record { id = 1; node_id = 1; counter_epoch = 1; window_end = 86500 }
      ∷ record { id = 2; node_id = 1; counter_epoch = 1; window_end = 180000 }
      ∷ [];
  samples =
      record { report_id = 1; service_id = some 5; fips_addr = 31; account_id = some 1; bytes = 40 }
      ∷ record { report_id = 1; service_id = none; fips_addr = 31; account_id = some 1; bytes = 9 }
      ∷ record {
        report_id = 2;
        service_id = some 5;
        fips_addr = 31;
        account_id = some 1;
        bytes = 7;
      }
      ∷ [];
}

abbrev first_day : List DailyRow
first_day = record { account_id = 1; service_id = 5; day = 1; bytes = 100 } ∷ []

abbrev day_of : ℕ → ℕ
day_of window = window / 86400

folded :
    (aggregate_usage day_of 100000 metered first_day).1
    ≡ record { account_id = 1; service_id = 5; day = 1; bytes = 140 } ∷ []
unfolding aggregate_usage
folded = refl

removed :
    ((aggregate_usage day_of 100000 metered first_day).2 ≡ 2)
    × ((aggregate_usage day_of 100000 metered first_day).3 ≡ 1)
unfolding aggregate_usage
removed = (refl, refl)

aggregate_usage-total_example :
    let (db', daily', _, _) = aggregate_usage day_of 100000 metered first_day in
    total day_of 1 5 1 db' daily' ≡ total day_of 1 5 1 metered first_day
aggregate_usage-total_example = aggregate_usage-total day_of 100000 1 5 1 metered first_day
