-- ===== src/Reports/Trend.antt =====
-- The daily series of app/services/report_service.py. A date is the number of its day; its ISO text,
-- which the code has for a key, sorts in the same way. The date that `func.date` gives a time depends on
-- the time zone of the database's session, and is a parameter, `day_of`.
use api_testoria.Base.{
  ℕ, zero, suc, ◌+◌, ◌-◌, Bool, ◌&&◌, Option, none, some, List, [], ◌∷◌, ◌==◌, if◌then◌else◌, ltb,
  leb, length, select, count, sort_by,
}
use api_testoria.Db.{Db, TestResult, passed, failed, blocked, no_run}
use api_testoria.Runs.{unique}
use api_testoria.Progress.{with_status, pass_rate}
use api_testoria.Reports.{join_runs, results_of, is_done_result, not_before, not_after}

-- `TrendPoint`, and `MetricsDataPoint` with the same fields
pub record TrendPoint : Type 0 where
  pub date : ℕ
  pub passed_count : ℕ
  pub failed_count : ℕ
  pub blocked_count : ℕ
  pub no_run_count : ℕ
  pub total : ℕ
  pub rate : Option (ℕ × ℕ)  -- pass_rate

-- A `datetime` of a request: its time, and the date that `.date()` gives in its own offset.
pub record Moment : Type 0 where
  pub at : ℕ
  pub date : ℕ

abbrev pub time_of : Option Moment → Option ℕ
time_of none = none
time_of (some m) = some m.at

abbrev pub tested_on : (ℕ → ℕ) → ℕ → TestResult → Bool
tested_on day_of day r = day_of r.tested_at == day

abbrev pub days_of : (ℕ → ℕ) → List TestResult → List ℕ
days_of day_of [] = []
days_of day_of (r ∷ rest) = day_of r.tested_at ∷ days_of day_of rest

-- a row of the query: the counts of one day
abbrev pub point_of : (ℕ → ℕ) → List TestResult → ℕ → TrendPoint
point_of day_of rows day =
    let own = select (tested_on day_of day) rows in
    record {
      date = day;
      passed_count = count (with_status passed) own;
      failed_count = count (with_status failed) own;
      blocked_count = count (with_status blocked) own;
      no_run_count = count (with_status no_run) own;
      total = length own;
      rate = pass_rate (count (with_status passed) own) (length own);
    }

abbrev pub points_of : (ℕ → ℕ) → List TestResult → List ℕ → List TrendPoint
points_of day_of rows [] = []
points_of day_of rows (day ∷ rest) = point_of day_of rows day ∷ points_of day_of rows rest

-- `GROUP BY date(tested_at) ORDER BY date(tested_at)`
unfoldable pub day_rows : (ℕ → ℕ) → List TestResult → List TrendPoint
day_rows day_of rows = points_of day_of rows (sort_by leb (unique (days_of day_of rows)))

abbrev pub zero_point : ℕ → TrendPoint
zero_point day = record {
  date = day;
  passed_count = 0;
  failed_count = 0;
  blocked_count = 0;
  no_run_count = 0;
  total = 0;
  rate = none;
}

-- `by_day[key] if key in by_day else TrendPoint(…)`
abbrev pub point_at : ℕ → List TrendPoint → TrendPoint
point_at day [] = zero_point day
point_at day (p ∷ rest) = if p.date == day then p else point_at day rest

-- the loop `while day <= end`, for as many days as are left
unfoldable pub fill_days : ℕ → ℕ → List TrendPoint → List TrendPoint
fill_days zero day by_day = []
fill_days (suc n) day by_day = point_at day by_day ∷ fill_days n (day + 1) by_day

abbrev between : ℕ → ℕ → List TrendPoint → List TrendPoint
between start end by_day = if ltb end start then [] else fill_days (end + 1 - start) start by_day

-- `_zero_fill_trend`; the rows of the query come in the order of their dates already
unfoldable pub zero_fill_trend : List TrendPoint → Option Moment → Option Moment → List TrendPoint
zero_fill_trend by_day (some date_from) (some date_to) = between date_from.date date_to.date by_day
zero_fill_trend by_day _ _ = by_day

-- the results that the query of the trend counts
unfoldable pub trend_results : (ℕ → Bool) → Option Moment → Option Moment → Db → List TestResult
trend_results q date_from date_to db = results_of (
    select
      (λ j.
        is_done_result q j
        && (not_before (time_of date_from) j.0.tested_at
            && not_after (time_of date_to) j.0.tested_at))
      (join_runs db.results.rows db.runs.rows))

unfoldable pub trend : (ℕ → ℕ) → (ℕ → Bool) → Option Moment → Option Moment → Db → List TrendPoint
trend day_of q date_from date_to db =
    zero_fill_trend (day_rows day_of (trend_results q date_from date_to db)) date_from date_to
