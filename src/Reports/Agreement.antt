-- ===== src/Reports/Agreement.antt =====
-- `get_run_report` of app/services/report_service.py against `get_progress` of
-- app/services/test_run_service.py.
use api_testoria.Base.{
  ℕ, ◌+◌, ◌≤◌, ◌≡◌, refl, sym, ap, ◌∙◌, inl, inr, true, false, not, ◌&&◌, ◌||◌, Option, none, some,
  List, [], ◌∷◌, arith, ◌==◌, if◌then◌else◌, leb, length, select, count, elem, sort_by, ok,
  count-sort_by, length-sort_by, count-select, count_mono,
}
use api_testoria.Db.{
  Db, TestCase, TestSuite, TestRun, TestResult, ResultStatus, passed, failed, blocked, no_run,
  skipped, auto,
}
use api_testoria.Runs.{get_run}
use api_testoria.Scope.{is_auto_case, case_ids, run_scope_case_ids}
use api_testoria.Progress.{
  with_status, group_by_status, scoped_results, get_progress, TestRunProgress, summarise,
}
use api_testoria.Progress.Counts.{
  get_count-group_by_status, sum_counts-group_by_status, count_all, status_cases,
}
use api_testoria.Reports.Joined.{
  HasUniqueSuites, HasUniqueCases, one_of_any, count-join_suites, elem-case_ids, length-case_ids,
  length-select,
}
use api_testoria.Statistics.{join_suites}
use api_testoria.Reports.RunReport.{
  RunReportCaseResult, RunReportResponse, is_reported, report_cases, response_of, result_has,
  has_status, has_no_run, get_run_report,
}
use api_testoria.Reports.Counted.{
  times, count-report_cases, on_rows-scoped, HasUniqueResults, length-report_cases,
}

-- What is not told apart by the loop has no result, or one that is not run or skipped.
one_row :
    (result : Option TestResult)
    → let is : ResultStatus → ℕ = λ status. if result_has status result then 1 else 0 in
      let told =
        result_has passed result || (result_has failed result || result_has blocked result) in
      (is passed + is failed + is blocked + (if not told then 1 else 0) ≡ 1)
      × (is no_run + is skipped ≤ (if not told then 1 else 0))
one_row none = (refl, omega arith)
one_row (some r) = elim (status_cases r.status) [
  | inl e ↦ (ground arith, ground arith)
  | inr (inl e) ↦ (ground arith, ground arith)
  | inr (inr (inl e)) ↦ (ground arith, ground arith)
  | inr (inr (inr (inl e))) ↦ (ground arith, ground arith)
  | inr (inr (inr (inr e))) ↦ (ground arith, ground arith)
]

-- The four numbers of a report count every row once; the last one takes in the skipped results.
count_rows :
    (rows : List RunReportCaseResult)
    → (count (has_status passed) rows
          + count (has_status failed) rows
          + count (has_status blocked) rows
          + count has_no_run rows
        ≡ length rows)
      × (count (has_status no_run) rows + count (has_status skipped) rows ≤ count has_no_run rows)
count_rows [] = (refl, omega arith)
count_rows (row ∷ rows) =
    let one = one_row row.result in
    let rest = count_rows rows in (ground (arith, one.0, rest.0), ground (arith, one.1, rest.1))

times-scope :
    (db : Db) (run : TestRun) (k : ℕ)
    → HasUniqueCases db.cases.rows
    → HasUniqueSuites db.suites.rows
    → times k (
        sort_by
          (λ a b. leb a.0.id b.0.id)
          (select (is_reported run) (join_suites db.cases.rows db.suites.rows)))
      ≡ (if elem k (case_ids (select (is_auto_case db run) db.cases.rows)) then 1 else 0)
times-scope db run k cases suites =
    let js = join_suites db.cases.rows db.suites.rows in
    let few : count (λ c. c.id == k && is_auto_case db run c) db.cases.rows ≤ 1 = omega (
      arith,
      cases k,
      count_mono (λ c. c.id == k && is_auto_case db run c) (λ c. c.id == k) db.cases.rows
          (λ c e. ground (arith, e)),
    ) in
    count-sort_by (λ j. j.0.id == k) _ (select (is_reported run) js)
    ∙ count-select (λ j. j.0.id == k) (is_reported run) js
    ∙ count-join_suites (λ c. c.id == k) run db.cases.rows db suites
    ∙ one_of_any (λ c. c.id == k && is_auto_case db run c) db.cases.rows few
    ∙ ap (λ b. if b then 1 else 0) (sym (elem-case_ids (is_auto_case db run) k db.cases.rows))

-- the rows of the report
abbrev rows_of : Db → ℕ → TestRun → List RunReportCaseResult
rows_of db id run = report_cases id db.results.rows (
    sort_by (λ a b. leb a.0.id b.0.id)
      (select (is_reported run) (join_suites db.cases.rows db.suites.rows)))

-- the results of the progress
abbrev results_in : Db → ℕ → TestRun → List TestResult
results_in db id run =
    scoped_results id (case_ids (select (is_auto_case db run) db.cases.rows)) db.results.rows

module _ (db : Db) (id : ℕ) (run : TestRun) (cases : HasUniqueCases db.cases.rows)
    (suites : HasUniqueSuites db.suites.rows) where
  count-rows_of :
      (status : ResultStatus)
      → count (has_status status) (rows_of db id run)
        ≡ count (with_status status) (results_in db id run)
  count-rows_of status =
      let js =
        sort_by (λ a b. leb a.0.id b.0.id)
          (select (is_reported run) (join_suites db.cases.rows db.suites.rows)) in
      count-report_cases status id js db.results.rows
      ∙ on_rows-scoped status id (case_ids (select (is_auto_case db run) db.cases.rows)) js
          db.results.rows (λ k. times-scope db run k cases suites)

  length-rows_of :
      HasUniqueResults db.results.rows
      → length (rows_of db id run) ≡ length (case_ids (select (is_auto_case db run) db.cases.rows))
  length-rows_of results =
      let js = join_suites db.cases.rows db.suites.rows in
      let before = λ (a : TestCase × TestSuite) (b : TestCase × TestSuite). leb a.0.id b.0.id in
      length-report_cases id (sort_by before (select (is_reported run) js)) db.results.rows results
      ∙ length-sort_by before (select (is_reported run) js)
      ∙ length-select (is_reported run) js
      ∙ count-join_suites (λ c. true) run db.cases.rows db suites
      ∙ sym (length-case_ids (is_auto_case db run) db.cases.rows)

-- With unique ids and at most one result of a case in a run, the report of an automatic run and its
-- progress tell the same numbers of passed, failed and blocked cases and the same total; the report
-- counts as not run what the progress does and the skipped cases too.
pub get_run_report-progress :
    (id : ℕ) (run : TestRun) (db : Db)
    → get_run id false db ≡ ok (run, db)
    → run.cases_mode ≡ auto
    → HasUniqueCases db.cases.rows
    → HasUniqueSuites db.suites.rows
    → HasUniqueResults db.results.rows
    → (report : RunReportResponse) × (progress : TestRunProgress) × (get_run_report id db
        ≡ ok (report, db))
      × (get_progress id db ≡ ok (progress, db))
      × (report.passed_count ≡ progress.passed_count)
      × (report.failed_count ≡ progress.failed_count)
      × (report.blocked_count ≡ progress.blocked_count)
      × (report.total ≡ progress.total)
      × (report.no_run_count
          ≡ progress.no_run_count + count (with_status skipped) (results_in db id run))
unfolding get_run_report get_progress run_scope_case_ids summarise
get_run_report-progress id run db found mode cases suites results =
    let rows = results_in db id run in
    let told = count_rows (rows_of db id run) in
    let size = length-rows_of db id run cases suites results in
    let p = count-rows_of db id run cases suites in
    let g = λ (s : ResultStatus). get_count-group_by_status s rows in
    (
      response_of run (rows_of db id run),
      summarise (group_by_status rows)
          (length (case_ids (select (is_auto_case db run) db.cases.rows))),
      rw found refl,
      rw (found, mode) refl,
      p passed ∙ sym (g passed),
      p failed ∙ sym (g failed),
      p blocked ∙ sym (g blocked),
      size,
      omega (
        arith,
        told.0,
        told.1,
        size,
        p passed,
        p failed,
        p blocked,
        p no_run,
        p skipped,
        g no_run,
        sum_counts-group_by_status rows,
        count_all rows,
      ),
    )
