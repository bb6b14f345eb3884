-- ===== src/Store/Retention.antt =====
-- `AggregateUsage` of backend/store/retention.go: raw samples of old reports become daily totals. The
-- statement folds and deletes over one snapshot. Totals are natural numbers.
pub mod Totals
use fips_exit_gate.Base.{
  ℕ, ◌+◌, ◌-◌, Bool, true, false, not, ◌&&◌, Option, none, some, List, [], ◌∷◌, ltb, ◌==◌,
  if◌then◌else◌, length, keep,
}
use fips_exit_gate.Store.State.{ReportRow, SampleRow, Db}
use fips_exit_gate.Store.Authz.{any}

-- `usage_daily`.
pub record DailyRow : Type 0 where
  pub account_id : ℕ
  pub service_id : ℕ
  pub day : ℕ
  pub bytes : ℕ

unfoldable pub same_day : ℕ → ℕ → ℕ → DailyRow → Bool
same_day account service day r = r.account_id == account && r.service_id == service && r.day == day

-- `GROUP BY` with `sum(bytes)`, and `ON CONFLICT … DO UPDATE`: one row for a key.
unfoldable pub add_row : DailyRow → List DailyRow → List DailyRow
unfolding same_day
add_row r [] = r ∷ []
add_row r (q ∷ qs) =
    let rest = add_row r qs in
    if same_day r.account_id r.service_id r.day q
    then record q { bytes = q.bytes + r.bytes } ∷ qs
    else q ∷ rest

unfoldable pub add_rows : List DailyRow → List DailyRow → List DailyRow
unfolding add_row
add_rows [] qs = qs
add_rows (r ∷ rs) qs = add_rows rs (add_row r qs)

-- The join with the reports, on their primary key.
unfoldable pub window_of : ℕ → List ReportRow → Option ℕ
window_of report [] = none
window_of report (r ∷ rs) =
    let rest = window_of report rs in if r.id == report then some r.window_end else rest

unfoldable pub is_before : ℕ → Option ℕ → Bool
is_before cutoff none = false
is_before cutoff (some window) = ltb window cutoff

unfoldable pub is_old : ℕ → List ReportRow → SampleRow → Bool
unfolding is_before window_of
is_old cutoff reports s = is_before cutoff (window_of s.report_id reports)

unfoldable pub and_row : Option DailyRow → List DailyRow → List DailyRow
and_row none rows = rows
and_row (some r) rows = r ∷ rows

-- `date_trunc('day', …)` in the session's time zone is a parameter.
module _ (day_of : ℕ → ℕ) where
  unfoldable pub row_of : Option ℕ → Option ℕ → Option ℕ → ℕ → Option DailyRow
  row_of (some account) (some service) (some window) bytes =
      some
        (record { account_id = account; service_id = service; day = day_of window; bytes = bytes })
  row_of none service window bytes = none
  row_of (some account) none window bytes = none
  row_of (some account) (some service) none bytes = none

  -- The row that a sample counts for: none without an account or with an unknown service.
  unfoldable pub daily_row : List ReportRow → SampleRow → Option DailyRow
  unfolding row_of window_of
  daily_row reports s = row_of s.account_id s.service_id (window_of s.report_id reports) s.bytes

  unfoldable pub old_rows : ℕ → List ReportRow → List SampleRow → List DailyRow
  unfolding is_old daily_row and_row
  old_rows cutoff reports [] = []
  old_rows cutoff reports (s ∷ ss) =
      let rest = old_rows cutoff reports ss in
      if is_old cutoff reports s then and_row (daily_row reports s) rest else rest

  -- The tables, and how many samples and reports are removed.
  unfoldable pub aggregate_usage : ℕ → Db → List DailyRow → Db × List DailyRow × ℕ × ℕ
  unfolding old_rows add_rows any
  aggregate_usage cutoff db daily =
      let samples = keep (λ (s : SampleRow). not (is_old cutoff db.reports s)) db.samples in
      let reports =
        keep
          (λ (r : ReportRow).
            not (
              ltb r.window_end cutoff
              && not (any (λ (s : SampleRow). s.report_id == r.id) samples)))
          db.reports in
      (
        record db { samples = samples; reports = reports },
        add_rows (add_rows (old_rows cutoff db.reports db.samples) []) daily,
        length db.samples - length samples,
        length db.reports - length reports,
      )
