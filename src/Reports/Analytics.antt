-- ===== src/Reports/Analytics.antt =====
-- `get_dashboard`, `get_report_analytics` and `get_cross_project_report_analytics` of
-- app/services/report_service.py.
use api_testoria.Base.{
  ℕ, Bool, true, not, ◌&&◌, ◌||◌, Option, none, some, List, [], ◌∷◌, ◌==◌, if◌then◌else◌, is_none,
  get_or, leb, select, elem, sort_by, take, Text, pure, gets, ◌>>=◌, ◌>>◌,
}
use api_testoria.Db.{Db, Query, Project, TestRun, RunStatus, passed}
use api_testoria.Runs.{get_project}
use api_testoria.Progress.{
  StatusCounts, get_count, sum_counts, pass_rate, TestRunProgress, batch_run_progress,
}
use api_testoria.Statistics.{
  mean, rates_in, is_completed, add_count, get_total, count_by, get_rates, fill_rates,
  project_ids_of,
}
use api_testoria.Reports.{
  Bucket, bucket_of, bucket_rate, aggregate_run_status_counts, run_ids_of, Totals, totals,
  distribution, TestCaseDistribution, case_distribution, runs_in_window, join_runs, is_done_result,
}
use api_testoria.Reports.Trend.{TrendPoint, Moment, time_of, zero_fill_trend, trend}

-- schemas/report.py; the counts of the run are those of the bucket
pub record RunSummary : Type 0 where
  pub id : ℕ
  pub name : Text
  pub status : RunStatus
  pub counts : Bucket  -- passed, failed, blocked, no_run, total
  pub created_at : ℕ

pub record DashboardResponse : Type 0 where
  pub total_counts : Totals  -- total_test_cases, total_test_runs, total_test_suites, active_runs
  pub rate : ℕ × ℕ  -- pass_rate
  pub recent_runs : List RunSummary
  pub result_distribution : StatusCounts

abbrev summaries : List (ℕ × Bucket) → List TestRun → List RunSummary
summaries counts [] = []
summaries counts (run ∷ rest) =
    record {
      id = run.id;
      name = run.name;
      status = run.status;
      counts = bucket_of run.id counts;
      created_at = run.created_at;
    }
    ∷ summaries counts rest

-- the five newest runs
abbrev recent : (ℕ → Bool) → Db → List TestRun
recent q db = take 5 (
    sort_by (λ a b. leb b.created_at a.created_at)
      (select (λ r. q r.project_id && is_none r.deleted_at) db.runs.rows))

-- `get_dashboard`
unfoldable pub get_dashboard : ℕ → Query DashboardResponse
get_dashboard project_id = do
  get_project project_id
  let own = λ (id : ℕ). id == project_id
  counts ← gets (λ db. totals own db)
  results ← gets (λ db. distribution own db)
  runs ← gets (λ db. recent own db)
  buckets ← gets (λ db. aggregate_run_status_counts (run_ids_of runs) db)
  pure record {
    total_counts = counts;
    rate = get_or (pass_rate (get_count passed results) (sum_counts results)) (0, 1);
    recent_runs = summaries buckets runs;
    result_distribution = results;
  }

pub record RunAnalyticsItem : Type 0 where
  pub run : TestRun  -- id, project_id, name, status, milestone_id, assigned_to and the two dates
  pub project_name : Option Text
  pub counts : Bucket  -- passed, failed, blocked, no_run, total
  pub rate : Option (ℕ × ℕ)  -- pass_rate

abbrev pub analytics_items :
    (TestRun → Option Text) → List (ℕ × Bucket) → List TestRun → List RunAnalyticsItem
analytics_items name_of counts [] = []
analytics_items name_of counts (run ∷ rest) =
    record {
      run = run;
      project_name = name_of run;
      counts = bucket_of run.id counts;
      rate = bucket_rate (bucket_of run.id counts);
    }
    ∷ analytics_items name_of counts rest

pub record ReportAnalyticsSummary : Type 0 where
  pub total_counts : Totals
  pub overall_rate : ℕ × ℕ  -- overall_pass_rate
  pub total_results : ℕ
  pub result_distribution : StatusCounts

pub record Analytics : Type 0 where
  pub summary : ReportAnalyticsSummary
  pub runs : List RunAnalyticsItem
  pub case_counts : TestCaseDistribution  -- test_case_distribution
  pub series : List TrendPoint  -- trend

-- The query parameters of both reports, with the date that the database gives a time.
pub record Window : Type 0 where
  pub day_of : ℕ → ℕ  -- func.date
  pub date_from : Option Moment
  pub date_to : Option Moment
  pub run_status : Option Text
  pub include_trend : Bool

-- the completed runs whose rates are averaged
unfoldable pub completed_runs : (ℕ → Bool) → Db → List TestRun
completed_runs q db = select (λ r. q r.project_id && is_completed r) db.runs.rows

-- `sum(run_rates) / len(run_rates) if run_rates else 0.0`
abbrev pub overall : List (ℕ × TestRunProgress) → ℕ × ℕ
overall progress = get_or (mean (rates_in progress)) (0, 1)

-- what the report on one project computes, from the progress of its completed runs
unfoldable pub project_analytics : ℕ → Window → List (ℕ × TestRunProgress) → Db → Analytics
project_analytics project_id w progress db =
    let own = λ (id : ℕ). id == project_id in
    let runs = runs_in_window own w.run_status (time_of w.date_from) (time_of w.date_to) db in
    let counts = aggregate_run_status_counts (run_ids_of runs) db in
    record {
      summary = record {
        total_counts = totals own db;
        overall_rate = overall progress;
        total_results = sum_counts (distribution own db);
        result_distribution = distribution own db;
      };
      runs = analytics_items (λ run. none) counts runs;
      case_counts = case_distribution own db;
      series = if w.include_trend then trend w.day_of own w.date_from w.date_to db else [];
    }

-- `get_report_analytics`
unfoldable pub get_report_analytics : ℕ → Window → Query Analytics
get_report_analytics project_id w = do
  get_project project_id
  done ← gets (λ db. completed_runs (λ id. id == project_id) db)
  progress ← batch_run_progress done
  gets (λ db. project_analytics project_id w progress db)

-- `if project_ids is not None: …`
abbrev is_chosen : Option (List ℕ) → Project → Bool
is_chosen none p = true
is_chosen (some ids) p = elem p.id ids

-- `_resolve_project_scope`; of an empty list no id is a member
unfoldable pub resolve_project_scope : Option (List ℕ) → Bool → Db → List Project
resolve_project_scope project_ids include_archived db =
    sort_by (λ a b. leb a.id b.id)
      (select
        (λ p.
          is_none p.deleted_at
          && ((include_archived || not p.is_archived) && is_chosen project_ids p))
        db.projects.rows)

-- `PerProjectAnalyticsRow` of schemas/report.py
pub record PerProjectAnalyticsRow : Type 0 where
  pub project_id : ℕ
  pub project_name : Text
  pub is_archived : Bool
  pub total_test_runs : ℕ
  pub completed_count : ℕ  -- completed_runs
  pub overall_rate : Option (ℕ × ℕ)  -- overall_pass_rate
  pub total_results : ℕ

-- `{pid: 0 for pid in …}` and `{pid: [] for pid in …}`
abbrev pub zero_counts : List ℕ → List (ℕ × ℕ)
zero_counts [] = []
zero_counts (id ∷ ids) = (id, 0) ∷ zero_counts ids

abbrev pub no_rates : List ℕ → List (ℕ × List (ℕ × ℕ))
no_rates [] = []
no_rates (id ∷ ids) = (id, []) ∷ no_rates ids

-- `d[id] = n`
abbrev pub set_count : ℕ → ℕ → List (ℕ × ℕ) → List (ℕ × ℕ)
set_count id n [] = (id, n) ∷ []
set_count id n ((k, m) ∷ rest) = if k == id then (k, n) ∷ rest else (k, m) ∷ set_count id n rest

-- the loops over the rows of the grouped queries
unfoldable pub set_counts : List (ℕ × ℕ) → List (ℕ × ℕ) → List (ℕ × ℕ)
set_counts [] counts = counts
set_counts ((id, n) ∷ rest) counts = set_counts rest (set_count id n counts)

-- the loop over `completed_runs`
unfoldable pub count_completed : List TestRun → List (ℕ × ℕ) → List (ℕ × ℕ)
count_completed [] counts = counts
count_completed (r ∷ rest) counts = count_completed rest (add_count r.project_id 1 counts)

abbrev pub per_project_rows :
    (runs done results : List (ℕ × ℕ))
    → List (ℕ × List (ℕ × ℕ))
    → List Project
    → List PerProjectAnalyticsRow
per_project_rows runs done results rates [] = []
per_project_rows runs done results rates (p ∷ rest) =
    record {
      project_id = p.id;
      project_name = p.name;
      is_archived = p.is_archived;
      total_test_runs = get_total p.id runs;
      completed_count = get_total p.id done;
      overall_rate = mean (get_rates p.id rates);
      total_results = get_total p.id results;
    }
    ∷ per_project_rows runs done results rates rest

-- `per_project`
unfoldable pub per_project :
    List Project
    → List ℕ
    → List TestRun
    → List (ℕ × TestRunProgress)
    → Db
    → List PerProjectAnalyticsRow
per_project projects ids done progress db =
    per_project_rows
      (set_counts
        (count_by (λ r. r.project_id)
          (select (λ r. elem r.project_id ids && is_none r.deleted_at) db.runs.rows))
        (zero_counts ids))
      (count_completed done (zero_counts ids))
      (set_counts
        (count_by (λ j. j.1.project_id)
          (select (is_done_result (λ id. elem id ids)) (join_runs db.results.rows db.runs.rows)))
        (zero_counts ids))
      (fill_rates progress done (no_rates ids)) projects

-- `project_name_by_id.get(run.project_id)`
abbrev pub name_in : List Project → TestRun → Option Text
name_in [] run = none
name_in (p ∷ rest) run = if p.id == run.project_id then some p.name else name_in rest run

-- what the report on no project answers
abbrev pub no_analytics : Window → Analytics
no_analytics w = record {
  summary = record {
    total_counts = record { suites = 0; cases = 0; runs = 0; active_runs = 0 };
    overall_rate = (0, 1);
    total_results = 0;
    result_distribution = [];
  };
  runs = [];
  case_counts = record { by_priority = []; by_type = []; automated_count = 0; manual_count = 0 };
  series = if w.include_trend then zero_fill_trend [] w.date_from w.date_to else [];
}

-- what the report on several projects computes besides the row of each
unfoldable pub cross_project_analytics :
    List Project → List ℕ → Window → List (ℕ × TestRunProgress) → Db → Analytics
cross_project_analytics projects ids w progress db =
    let among = λ (id : ℕ). elem id ids in
    let runs = runs_in_window among w.run_status (time_of w.date_from) (time_of w.date_to) db in
    let counts = aggregate_run_status_counts (run_ids_of runs) db in
    record {
      summary = record {
        total_counts = totals among db;
        overall_rate = overall progress;
        total_results = sum_counts (distribution among db);
        result_distribution = distribution among db;
      };
      runs = analytics_items (name_in projects) counts runs;
      case_counts = case_distribution among db;
      series = if w.include_trend then trend w.day_of among w.date_from w.date_to db else [];
    }

abbrev pub cross_analytics : List Project → Window → Query (Analytics × List PerProjectAnalyticsRow)
cross_analytics [] w = pure (no_analytics w, [])
cross_analytics (p ∷ rest) w = do
  let projects = p ∷ rest
  let ids = project_ids_of projects
  done ← gets (λ db. completed_runs (λ id. elem id ids) db)
  progress ← batch_run_progress done
  rows ← gets (λ db. per_project projects ids done progress db)
  report ← gets (λ db. cross_project_analytics projects ids w progress db)
  pure (report, rows)

-- `get_cross_project_report_analytics`
unfoldable pub get_cross_project_report_analytics :
    Option (List ℕ) → Bool → Window → Query (Analytics × List PerProjectAnalyticsRow)
get_cross_project_report_analytics project_ids include_archived w = do
  projects ← gets (λ db. resolve_project_scope project_ids include_archived db)
  cross_analytics projects w
