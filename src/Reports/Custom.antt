-- ===== src/Reports/Custom.antt =====
-- `get_project_metrics` and `run_custom_report` of app/services/report_service.py.
use api_testoria.Base.{
  ℕ, ◌+◌, ◌-◌, ◌*◌, ◌/◌, Bool, true, ◌&&◌, Option, none, some, List, [], ◌∷◌, ◌++◌, ◌==◌,
  if◌then◌else◌, is_none, leb, length, select, any, sort_by, take, Text, text_eq, codes, pure, gets,
  ◌>>=◌, ◌>>◌,
}
use api_testoria.Db.{
  Db, Query, TestCase, TestSuite, TestRun, TestResult, ResultStatus, passed, failed, blocked,
  no_run, skipped,
}
use api_testoria.Runs.{get_project}
use api_testoria.Projects.{drop}
use api_testoria.Reports.{join_runs, results_of, not_before, not_after}
use api_testoria.Reports.Trend.{TrendPoint, day_rows}

-- the results of the last `days` days; `tested_at >= now - days` without a negative number
unfoldable pub metrics_results : ℕ → ℕ → Db → List TestResult
metrics_results project_id days db = results_of (
    select
      (λ j.
        j.1.project_id == project_id
        && (leb db.now (j.0.tested_at + days * 86400)
            && (is_none j.1.deleted_at && is_none j.0.deleted_at)))
      (join_runs db.results.rows db.runs.rows))

-- `get_project_metrics`; `day_of` is `func.date`
unfoldable pub get_project_metrics : (ℕ → ℕ) → ℕ → ℕ → Query (List TrendPoint)
get_project_metrics day_of project_id days = do
  get_project project_id
  gets (λ db. day_rows day_of (metrics_results project_id days db))

-- `CustomReportRequest` of schemas/report.py
pub record CustomReportRequest : Type 0 where
  pub project_id : ℕ
  pub suite_id : Option ℕ
  pub run_id : Option ℕ
  pub status : Option (List Text)
  pub date_from : Option ℕ
  pub date_to : Option ℕ
  pub page : ℕ
  pub page_size : ℕ

-- `CustomReportRow`
pub record CustomReportRow : Type 0 where
  pub result_id : ℕ
  pub run_id : ℕ
  pub run_name : Text
  pub case_id : ℕ
  pub case_title : Text
  pub status : ResultStatus
  pub comment : Option Text
  pub tested_by : Option ℕ
  pub tested_at : ℕ

pub record CustomReportResponse : Type 0 where
  pub items : List CustomReportRow
  pub total : ℕ
  pub page : ℕ
  pub page_size : ℕ
  pub pages : ℕ

abbrev custom_row : TestResult × TestRun → TestCase → CustomReportRow
custom_row j c = record {
  result_id = j.0.id;
  run_id = j.1.id;
  run_name = j.1.name;
  case_id = c.id;
  case_title = c.title;
  status = j.0.status;
  comment = j.0.comment;
  tested_by = j.0.tested_by;
  tested_at = j.0.tested_at;
}

abbrev result_text : ResultStatus → Text
result_text passed = codes "passed"
result_text failed = codes "failed"
result_text blocked = codes "blocked"
result_text no_run = codes "no_run"
result_text skipped = codes "skipped"

-- `if filters.status: …`
abbrev in_statuses : Option (List Text) → ResultStatus → Bool
in_statuses none status = true
in_statuses (some []) status = true
in_statuses (some (text ∷ texts)) status = any (text_eq (result_text status)) (text ∷ texts)

abbrev is_given_id : Option ℕ → ℕ → Bool
is_given_id none id = true
is_given_id (some given) id = id == given

-- the join with the suite, if one is asked for
abbrev in_given_suite : Option ℕ → List TestSuite → TestCase → Bool
in_given_suite none suites c = true
in_given_suite (some id) suites c = any (λ s. s.id == c.suite_id && s.id == id) suites

abbrev is_wanted : CustomReportRequest → Db → TestResult × TestRun → TestCase → Bool
is_wanted f db j c =
    j.1.project_id == f.project_id
    && (is_none j.1.deleted_at
        && (is_none j.0.deleted_at
            && (is_none c.deleted_at
                && (in_given_suite f.suite_id db.suites.rows c
                    && (is_given_id f.run_id j.1.id
                        && (in_statuses f.status j.0.status
                            && (not_before f.date_from j.0.tested_at
                                && not_after f.date_to j.0.tested_at)))))))

-- the join of one result with its case
abbrev rows_with :
    CustomReportRequest → Db → TestResult × TestRun → List TestCase → List CustomReportRow
rows_with f db j [] = []
rows_with f db j (c ∷ rest) =
    if j.0.case_id == c.id && is_wanted f db j c
    then custom_row j c ∷ rows_with f db j rest
    else rows_with f db j rest

abbrev rows_over : CustomReportRequest → Db → List (TestResult × TestRun) → List CustomReportRow
rows_over f db [] = []
rows_over f db (j ∷ rest) = rows_with f db j db.cases.rows ++ rows_over f db rest

-- the rows of the query
unfoldable pub custom_rows : CustomReportRequest → Db → List CustomReportRow
custom_rows f db = rows_over f db (join_runs db.results.rows db.runs.rows)

-- `math.ceil(total / page_size) if page_size else 1`
unfoldable pub page_count : ℕ → ℕ → ℕ
page_count total page_size = if page_size == 0 then 1 else (total + page_size - 1) / page_size

-- `query.order_by(…).offset(…).limit(…)`; rows of one time keep the order of the table, where
-- PostgreSQL may order them anew for each query
abbrev pub page_of : ℕ → ℕ → List CustomReportRow → List CustomReportRow
page_of page page_size rows =
    take page_size
      (drop ((page - 1) * page_size) (sort_by (λ a b. leb b.tested_at a.tested_at) rows))

-- `run_custom_report`
unfoldable pub run_custom_report : CustomReportRequest → Query CustomReportResponse
run_custom_report f = do
  get_project f.project_id
  rows ← gets (λ db. custom_rows f db)
  pure record {
    items = page_of f.page f.page_size rows;
    total = length rows;
    page = f.page;
    page_size = f.page_size;
    pages = page_count (length rows) f.page_size;
  }
