-- ===== src/Store/Retention/Totals.antt =====
-- What `AggregateUsage` leaves as it was: the totals that are shown.
use fips_exit_gate.Base.{
  ℕ, ◌+◌, ◌≡◌, refl, Bool, true, not, ◌&&◌, Option, none, some, List, [], ◌∷◌, inl, inr, arith, ltb,
  ◌==◌, ==_iff, ==_refl, if◌then◌else◌, keep, All, Bool-cases,
}
use fips_exit_gate.Store.State.{ReportRow, SampleRow, Db}
use fips_exit_gate.Store.Authz.{any}
use fips_exit_gate.Store.Retention.{
  DailyRow, same_day, add_row, add_rows, window_of, is_old, daily_row, and_row, old_rows,
  aggregate_usage,
}

-- The bytes of one account, service and day.
module _ (account service day : ℕ) where
  abbrev counted : DailyRow → ℕ
  counted r = if same_day account service day r then r.bytes else 0

  unfoldable pub sum_rows : List DailyRow → ℕ
  sum_rows [] = 0
  sum_rows (r ∷ rs) = counted r + sum_rows rs

  sum_rows-add_row :
      (r : DailyRow) (qs : List DailyRow) → sum_rows (add_row r qs) ≡ counted r + sum_rows qs
  unfolding sum_rows add_row same_day
  sum_rows-add_row r [] = refl
  sum_rows-add_row r (q ∷ qs) = ground (arith, sum_rows-add_row r qs)

  sum_rows-add_rows :
      (rs qs : List DailyRow) → sum_rows (add_rows rs qs) ≡ sum_rows rs + sum_rows qs
  unfolding sum_rows add_rows
  sum_rows-add_rows [] qs = omega arith
  sum_rows-add_rows (r ∷ rs) qs =
      omega (arith, sum_rows-add_rows rs (add_row r qs), sum_rows-add_row r qs)

  abbrev counted_row : Option DailyRow → ℕ
  counted_row none = 0
  counted_row (some r) = counted r

  sum_rows-and_row :
      (o : Option DailyRow) (rows : List DailyRow)
      → sum_rows (and_row o rows) ≡ counted_row o + sum_rows rows
  unfolding sum_rows and_row
  sum_rows-and_row none rows = omega arith
  sum_rows-and_row (some r) rows = refl

-- The rows that samples count for, as long as they are raw.
unfoldable pub raw_rows : (ℕ → ℕ) → List ReportRow → List SampleRow → List DailyRow
raw_rows day_of reports [] = []
raw_rows day_of reports (s ∷ ss) = and_row (daily_row day_of reports s) (raw_rows day_of reports ss)

abbrev still_raw : ℕ → List ReportRow → List SampleRow → List SampleRow
still_raw cutoff reports ss = keep (λ (s : SampleRow). not (is_old cutoff reports s)) ss

-- What is folded and what stays raw make up what was raw.
sum_rows-old_rows :
    (account service day : ℕ) (day_of : ℕ → ℕ) (cutoff : ℕ) (reports : List ReportRow)
    (ss : List SampleRow)
    → sum_rows account service day (old_rows day_of cutoff reports ss)
        + sum_rows account service day (raw_rows day_of reports (still_raw cutoff reports ss))
      ≡ sum_rows account service day (raw_rows day_of reports ss)
unfolding old_rows raw_rows sum_rows
sum_rows-old_rows account service day day_of cutoff reports [] = refl
sum_rows-old_rows account service day day_of cutoff reports (s ∷ ss) =
    let rest = sum_rows-old_rows account service day day_of cutoff reports ss in
    let row = daily_row day_of reports s in
    let add = sum_rows-and_row account service day row in
    elim (Bool-cases (is_old cutoff reports s)) [
      | inl old ↦ rw old (
          omega (
            arith,
            rest,
            add (old_rows day_of cutoff reports ss),
            add (raw_rows day_of reports ss),
          ))
      | inr new ↦ rw new (
          omega (
            arith,
            rest,
            add (raw_rows day_of reports (still_raw cutoff reports ss)),
            add (raw_rows day_of reports ss),
          ))
    ]

-- A report is found again if every report of its number is kept.
window_of-keep :
    (p : ReportRow → Bool) (report : ℕ) (rs : List ReportRow)
    → ((r : ReportRow) → r.id ≡ report → p r ≡ true)
    → window_of report (keep p rs) ≡ window_of report rs
unfolding window_of
window_of-keep p report [] h = refl
window_of-keep p report (r ∷ rs) h = elim (Bool-cases (r.id == report)) [
  | inl same ↦ rw (h r ((==_iff r.id report).0 same), same) refl
  | inr other ↦ elim (Bool-cases (p r)) [
    | inl stays ↦ rw (stays, other) (window_of-keep p report rs h)
    | inr gone ↦ rw (gone, other) (window_of-keep p report rs h)
  ]
]

raw_rows-reports :
    (day_of : ℕ → ℕ) (rs qs : List ReportRow) (ss : List SampleRow)
    → All (λ (s : SampleRow). window_of s.report_id rs ≡ window_of s.report_id qs) ss
    → raw_rows day_of rs ss ≡ raw_rows day_of qs ss
unfolding raw_rows daily_row
raw_rows-reports day_of rs qs [] h = refl
raw_rows-reports day_of rs qs (s ∷ ss) (e, h) = rw (e, raw_rows-reports day_of rs qs ss h) refl

abbrev has_sample : ℕ → List SampleRow → Bool
has_sample report ss = any (λ (s : SampleRow). s.report_id == report) ss

-- The samples that are left keep their reports.
windows_kept :
    (p : ReportRow → Bool) (rs : List ReportRow) (all part : List SampleRow)
    → ((r : ReportRow) → has_sample r.id all ≡ true → p r ≡ true)
    → ((i : ℕ) → has_sample i part ≡ true → has_sample i all ≡ true)
    → All (λ (s : SampleRow). window_of s.report_id (keep p rs) ≡ window_of s.report_id rs) part
unfolding any
windows_kept p rs all [] h sub = tt
windows_kept p rs all (s ∷ ss) h sub = (
  window_of-keep p s.report_id rs
      (λ r e. h r (rw e (sub s.report_id (ground (arith, ==_refl s.report_id))))),
  windows_kept p rs all ss h (λ i m. sub i (ground (arith, m))),
)

-- The bytes of an account and a service on a day, in daily totals and raw samples together.
abbrev pub total : (ℕ → ℕ) → ℕ → ℕ → ℕ → Db → List DailyRow → ℕ
total day_of account service day db daily =
    sum_rows account service day daily
    + sum_rows account service day (raw_rows day_of db.reports db.samples)

-- `AggregateUsage` changes no total of an account and a service on any day: what it deletes of the
-- raw samples it has added to the daily totals, once, whatever was in them.
pub aggregate_usage-total :
    (day_of : ℕ → ℕ) (cutoff account service day : ℕ) (db : Db) (daily : List DailyRow)
    → let (db', daily', _, _) = aggregate_usage day_of cutoff db daily in
      total day_of account service day db' daily' ≡ total day_of account service day db daily
unfolding aggregate_usage
aggregate_usage-total day_of cutoff account service day db daily =
    let samples = still_raw cutoff db.reports db.samples in
    let old = old_rows day_of cutoff db.reports db.samples in
    let p = λ (r : ReportRow). not (ltb r.window_end cutoff && not (has_sample r.id samples)) in
    let same =
      raw_rows-reports day_of (keep p db.reports) db.reports samples
        (windows_kept p db.reports samples samples (λ r m. ground (arith, m)) (λ i m. m)) in
    let split = sum_rows-old_rows account service day day_of cutoff db.reports db.samples in
    let folded = sum_rows-add_rows account service day (add_rows old []) daily in
    let grouped = sum_rows-add_rows account service day old [] in
    rw same (unfold sum_rows in omega (arith, split, folded, grouped))
