-- ===== src/Reports.antt =====
-- app/services/report_service.py: the queries and the dictionaries that its reports share. The
-- reports of one project and of several write the same queries, with `project_id == …` in one and
-- `project_id.in_(…)` in the other: here that test is an argument. Ratios are kept as pairs of
-- numbers, unrounded; a missing ratio that the code writes as 0.0 is the ratio 0 / 1.
pub mod Trend
pub mod Analytics
pub mod RunReport
pub mod Custom
pub mod Groups
pub mod Buckets
pub mod Days
pub mod Filling
pub mod Dictionaries
pub mod PerProject
pub mod Joined
pub mod Counted
pub mod Agreement
pub mod Pages
use api_testoria.Base.{
  ℕ, zero, suc, ◌+◌, ◌-◌, Bool, true, false, not, ◌&&◌, ◌||◌, Option, none, some, List, [], ◌∷◌,
  ◌++◌, ◌==◌, if◌then◌else◌, is_none, get_or, leb, length, select, count, elem, sort_by, Text,
  text_eq, codes, pure, gets, ◌>>=◌, ◌>>◌,
}
use api_testoria.Db.{
  Db, Query, TestSuite, TestCase, TestRun, TestResult, RunStatus, planned, active, completed,
  aborted, ResultStatus, passed, failed, blocked, no_run, skipped, Priority, low, medium, high,
  critical, CaseType, manual, automated,
}
use api_testoria.Progress.{
  result_status_eq, with_status, StatusCounts, group_by_status, get_count, sum_counts, pass_rate,
}
use api_testoria.Statistics.{join_suites, is_active_status, is_completed}
use api_testoria.Cases.Listing.{priority_eq, case_type_eq}

-- `counts[run_id]` of `_aggregate_run_status_counts`
pub record Bucket : Type 0 where
  pub passed_count : ℕ
  pub failed_count : ℕ
  pub blocked_count : ℕ
  pub no_run_count : ℕ
  pub total : ℕ

abbrev pub empty_bucket : Bucket
empty_bucket = record {
  passed_count = 0;
  failed_count = 0;
  blocked_count = 0;
  no_run_count = 0;
  total = 0;
}

abbrev pub Groups : Type 0
Groups = List (ℕ × (ResultStatus × ℕ))

abbrev pub add_result : ℕ → ResultStatus → Groups → Groups
add_result id status [] = (id, (status, 1)) ∷ []
add_result id status ((k, (s, n)) ∷ rest) =
    if k == id && result_status_eq s status
    then (k, (s, suc n)) ∷ rest
    else (k, (s, n)) ∷ add_result id status rest

-- `SELECT test_run_id, status, count(id) … GROUP BY test_run_id, status`
unfoldable pub group_results : List TestResult → Groups
group_results [] = []
group_results (r ∷ rest) = add_result r.run_id r.status (group_results rest)

-- `if status in _RUN_STATUS_KEYS: bucket[status] = count`, and `bucket["total"] += count`
abbrev pub put_count : ResultStatus → ℕ → Bucket → Bucket
put_count passed n b = record b { passed_count = n; total = b.total + n }
put_count failed n b = record b { failed_count = n; total = b.total + n }
put_count blocked n b = record b { blocked_count = n; total = b.total + n }
put_count no_run n b = record b { no_run_count = n; total = b.total + n }
put_count skipped n b = record b { total = b.total + n }

abbrev pub put_in : ℕ → ResultStatus → ℕ → List (ℕ × Bucket) → List (ℕ × Bucket)
put_in id status n [] = []
put_in id status n ((k, b) ∷ rest) =
    if k == id then (k, put_count status n b) ∷ rest else (k, b) ∷ put_in id status n rest

-- the loop over `rows`
unfoldable pub put_all : Groups → List (ℕ × Bucket) → List (ℕ × Bucket)
put_all [] counts = counts
put_all ((id, (status, n)) ∷ rest) counts = put_all rest (put_in id status n counts)

-- `{run_id: dict.fromkeys(…, 0) for run_id in run_ids}`
abbrev pub empty_buckets : List ℕ → List (ℕ × Bucket)
empty_buckets [] = []
empty_buckets (id ∷ ids) = (id, empty_bucket) ∷ empty_buckets ids

-- `_aggregate_run_status_counts`; without run ids no row is in the query
unfoldable pub aggregate_run_status_counts : List ℕ → Db → List (ℕ × Bucket)
aggregate_run_status_counts run_ids db =
    put_all
      (group_results (select (λ r. elem r.run_id run_ids && is_none r.deleted_at) db.results.rows))
      (empty_buckets run_ids)

-- `counts[id]`
abbrev pub bucket_of : ℕ → List (ℕ × Bucket) → Bucket
bucket_of id [] = empty_bucket
bucket_of id ((k, b) ∷ rest) = if k == id then b else bucket_of id rest

abbrev pub run_ids_of : List TestRun → List ℕ
run_ids_of [] = []
run_ids_of (r ∷ rest) = r.id ∷ run_ids_of rest

-- The totals that three of the reports count: suites, cases, runs, and runs that are planned or
-- active.
pub record Totals : Type 0 where
  pub suites : ℕ
  pub cases : ℕ
  pub runs : ℕ
  pub active_runs : ℕ

-- a row of the join of cases with suites, both live, the suite in a project of the report
abbrev pub is_counted_case : (ℕ → Bool) → TestCase × TestSuite → Bool
is_counted_case q j = q j.1.project_id && (is_none j.1.deleted_at && is_none j.0.deleted_at)

unfoldable pub totals : (ℕ → Bool) → Db → Totals
totals q db = record {
  suites = count (λ s. q s.project_id && is_none s.deleted_at) db.suites.rows;
  cases = count (is_counted_case q) (join_suites db.cases.rows db.suites.rows);
  runs = count (λ r. q r.project_id && is_none r.deleted_at) db.runs.rows;
  active_runs =
      count (λ r. q r.project_id && (is_active_status r.status && is_none r.deleted_at))
        db.runs.rows;
}

-- the rows of a join of results with runs
abbrev pub with_runs : TestResult → List TestRun → List (TestResult × TestRun)
with_runs r [] = []
with_runs r (run ∷ rest) =
    if r.run_id == run.id then (r, run) ∷ with_runs r rest else with_runs r rest

abbrev pub join_runs : List TestResult → List TestRun → List (TestResult × TestRun)
join_runs [] runs = []
join_runs (r ∷ rest) runs = with_runs r runs ++ join_runs rest runs

abbrev pub results_of : List (TestResult × TestRun) → List TestResult
results_of [] = []
results_of (j ∷ rest) = j.0 ∷ results_of rest

-- a live result of a live completed run of the projects
abbrev pub is_done_result : (ℕ → Bool) → TestResult × TestRun → Bool
is_done_result q j = q j.1.project_id && (is_completed j.1 && is_none j.0.deleted_at)

unfoldable pub done_results : (ℕ → Bool) → Db → List TestResult
done_results q db = results_of (select (is_done_result q) (join_runs db.results.rows db.runs.rows))

-- `result_distribution`
abbrev pub distribution : (ℕ → Bool) → Db → StatusCounts
distribution q db = group_by_status (done_results q db)

-- `_pass_rate`, before rounding
abbrev pub bucket_rate : Bucket → Option (ℕ × ℕ)
bucket_rate b = pass_rate b.passed_count b.total

-- the groups of `GROUP BY` on a column with a few values: one for each value that occurs
abbrev pub grouped : {K A : Type 0} → (A → K → Bool) → List K → List A → List (K × ℕ)
grouped is [] rows = []
grouped is (k ∷ ks) rows =
    let n = count (λ a. is a k) rows in
    let rest = grouped is ks rows in if n == 0 then rest else (k, n) ∷ rest

-- `TestCaseDistribution` of schemas/report.py
pub record TestCaseDistribution : Type 0 where
  pub by_priority : List (Priority × ℕ)
  pub by_type : List (CaseType × ℕ)
  pub automated_count : ℕ  -- by_automation["automated"]
  pub manual_count : ℕ  -- by_automation["manual"]

-- `manual_count = total_cases - automated_count` is never negative: the automated cases are among all
unfoldable pub case_distribution : (ℕ → Bool) → Db → TestCaseDistribution
case_distribution q db =
    let rows = select (is_counted_case q) (join_suites db.cases.rows db.suites.rows) in
    let automated_cases = count (λ j. case_type_eq j.0.type automated) rows in
    record {
      by_priority =
          grouped (λ j p. priority_eq j.0.priority p) (low ∷ medium ∷ high ∷ critical ∷ []) rows;
      by_type = grouped (λ j t. case_type_eq j.0.type t) (manual ∷ automated ∷ []) rows;
      automated_count = automated_cases;
      manual_count = (totals q db).cases - automated_cases;
    }

abbrev pub status_text : RunStatus → Text
status_text planned = codes "planned"
status_text active = codes "active"
status_text completed = codes "completed"
status_text aborted = codes "aborted"

abbrev pub status_fits : Option Text → RunStatus → Bool
status_fits none status = true
status_fits (some text) status = text_eq (status_text status) text

-- `if date_from is not None: … >= date_from`, and so with `date_to`
abbrev pub not_before : Option ℕ → ℕ → Bool
not_before none t = true
not_before (some from) t = leb from t

abbrev pub not_after : Option ℕ → ℕ → Bool
not_after none t = true
not_after (some to) t = leb t to

-- `coalesce(completed_at, created_at)`
abbrev pub effective_date : TestRun → ℕ
effective_date r = get_or r.completed_at r.created_at

-- `run_query`: the runs of the window, the newest first
unfoldable pub runs_in_window : (ℕ → Bool) → Option Text → Option ℕ → Option ℕ → Db → List TestRun
runs_in_window q run_status date_from date_to db =
    sort_by (λ a b. leb b.created_at a.created_at)
      (select
        (λ r.
          q r.project_id
          && (is_none r.deleted_at
              && (status_fits run_status r.status
                  && (not_before date_from (effective_date r)
                      && not_after date_to (effective_date r)))))
        db.runs.rows)
