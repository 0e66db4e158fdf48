-- ===== src/Reports/RunReport.antt =====
-- `get_run_report` of app/services/report_service.py, without the attachments of the results, which
-- the database of the model does not have.
use api_testoria.Base.{
  ℕ, Bool, false, not, ◌&&◌, ◌||◌, Option, none, some, List, [], ◌∷◌, ◌++◌, ◌==◌, is_none, leb,
  length, select, count, sort_by, Text, pure, gets, ◌>>=◌,
}
use api_testoria.Db.{
  Query, TestCase, TestSuite, TestRun, TestResult, Priority, ResultStatus, passed, failed, blocked,
}
use api_testoria.Runs.{get_run}
use api_testoria.Scope.{in_suite}
use api_testoria.Progress.{result_status_eq, pass_rate}
use api_testoria.Statistics.{join_suites}

-- `RunReportCaseResult` of schemas/report.py; the four fields of a result are none without a result
pub record RunReportCaseResult : Type 0 where
  pub case_id : ℕ
  pub case_title : Text
  pub suite_name : Text
  pub priority : Priority
  pub result : Option TestResult  -- status, comment, tested_by, tested_at, execution_time

pub record RunReportResponse : Type 0 where
  pub run : TestRun  -- run_id, run_name, run_status, project_id, created_at, completed_at
  pub passed_count : ℕ
  pub failed_count : ℕ
  pub blocked_count : ℕ
  pub no_run_count : ℕ
  pub total : ℕ
  pub rate : Option (ℕ × ℕ)  -- pass_rate
  pub cases : List RunReportCaseResult

abbrev pub is_reported : TestRun → TestCase × TestSuite → Bool
is_reported run j =
    j.1.project_id == run.project_id
    && (is_none j.1.deleted_at && (is_none j.0.deleted_at && in_suite run.suite_id j.0.suite_id))

abbrev pub result_on : ℕ → TestCase → TestResult → Bool
result_on run_id c r = r.case_id == c.id && (r.run_id == run_id && is_none r.deleted_at)

abbrev pub report_row : TestCase × TestSuite → Option TestResult → RunReportCaseResult
report_row j result = record {
  case_id = j.0.id;
  case_title = j.0.title;
  suite_name = j.1.name;
  priority = j.0.priority;
  result = result;
}

abbrev pub with_each : TestCase × TestSuite → List TestResult → List RunReportCaseResult
with_each j [] = []
with_each j (r ∷ rest) = report_row j (some r) ∷ with_each j rest

-- the rows of the outer join for one case
abbrev pub outer_join : TestCase × TestSuite → List TestResult → List RunReportCaseResult
outer_join j [] = report_row j none ∷ []
outer_join j (r ∷ rest) = with_each j (r ∷ rest)

abbrev pub report_cases :
    ℕ → List TestResult → List (TestCase × TestSuite) → List RunReportCaseResult
report_cases run_id results [] = []
report_cases run_id results (j ∷ rest) =
    outer_join j (select (result_on run_id j.0) results) ++ report_cases run_id results rest

abbrev pub result_has : ResultStatus → Option TestResult → Bool
result_has status none = false
result_has status (some r) = result_status_eq r.status status

-- the tests of the loop, `if status == …`
abbrev pub has_status : ResultStatus → RunReportCaseResult → Bool
has_status status row = result_has status row.result

-- the last branch of the loop
abbrev pub has_no_run : RunReportCaseResult → Bool
has_no_run row = not (has_status passed row || (has_status failed row || has_status blocked row))

-- the loop over the rows and the response
abbrev pub response_of : TestRun → List RunReportCaseResult → RunReportResponse
response_of run rows = record {
  run = run;
  passed_count = count (has_status passed) rows;
  failed_count = count (has_status failed) rows;
  blocked_count = count (has_status blocked) rows;
  no_run_count = count has_no_run rows;
  total = length rows;
  rate = pass_rate (count (has_status passed) rows) (length rows);
  cases = rows;
}

-- `get_run_report`
unfoldable pub get_run_report : ℕ → Query RunReportResponse
get_run_report run_id = do
  run ← get_run run_id false
  rows ← gets (λ db. report_cases run_id db.results.rows (
      sort_by (λ a b. leb a.0.id b.0.id)
        (select (is_reported run) (join_suites db.cases.rows db.suites.rows))))
  pure (response_of run rows)
