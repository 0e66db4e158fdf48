-- ===== src/Examples/Reports.antt =====
-- Examples of the reports.
use api_testoria.Base.{
  ℕ, ◌/◌, ◌≡◌, refl, true, none, some, List, [], ◌∷◌, arith, ok, codes, ◌==◌, sort_by, leb,
}
use api_testoria.Db.{Db, TestRun, TestResult, skipped, auto, explicit, completed}
use api_testoria.Runs.{get_run, get_project}
use api_testoria.Projects.{find_project}
use api_testoria.Progress.{get_progress, TestRunProgress}
use api_testoria.Reports.{aggregate_run_status_counts, bucket_of}
use api_testoria.Reports.Analytics.{
  Window, Analytics, PerProjectAnalyticsRow, resolve_project_scope,
  get_cross_project_report_analytics,
}
use api_testoria.Reports.Trend.{Moment, trend, trend_results}
use api_testoria.Reports.Days.{sum_totals}
use api_testoria.Reports.Filling.{dates_of, days_from, trend-window}
use api_testoria.Reports.Custom.{
  CustomReportRequest, CustomReportResponse, custom_rows, run_custom_report,
}
use api_testoria.Reports.Pages.{read_pages, run_custom_report-pages}
use api_testoria.Reports.RunReport.{RunReportResponse, get_run_report}
use api_testoria.Reports.Joined.{HasUniqueSuites, HasUniqueCases}
use api_testoria.Reports.Counted.{HasUniqueResults}
use api_testoria.Reports.Agreement.{get_run_report-progress}
use api_testoria.Reports.Buckets.{aggregate_run_status_counts_lem}
use api_testoria.Reports.PerProject.{each_row, get_cross_project_report_analytics-each}
use api_testoria.Examples.{shop, a_project, a_result, run_of, table}

-- a completed run with two results, one of them skipped and two days older
abbrev done_run : TestRun
done_run = record (run_of 1 auto) { status = completed; completed_at = some 900 }

abbrev first : TestResult
first = record a_result { id = 1; run_id = 1; case_id = 1; tested_at = 180000 }

abbrev second : TestResult
second = record a_result { id = 2; run_id = 1; case_id = 2; status = skipped; tested_at = 500 }

abbrev told : Db
told = record shop {
  runs = table (done_run ∷ run_of 2 explicit ∷ []) 3;
  results = table (first ∷ second ∷ []) 3;
}

aggregate_run_status_counts_lem_example :
    (bucket_of 1 (aggregate_run_status_counts (1 ∷ 2 ∷ []) told)).passed_count ≡ 1
aggregate_run_status_counts_lem_example =
    (aggregate_run_status_counts_lem 1 (1 ∷ 2 ∷ []) told refl).0

-- The database's session is in UTC, and the start of the window, in an offset to the east, has the next
-- date already, so that the older result is left out.
abbrev utc_day : ℕ → ℕ
utc_day t = t / 86400

abbrev start : Moment
start = record { at = 0; date = 1 }

abbrev end : Moment
end = record { at = 200000; date = 2 }

trend-window_example :
    (dates_of (trend utc_day (λ id. id == 1) (some start) (some end) told) ≡ days_from 2 1)
    × (sum_totals (trend utc_day (λ id. id == 1) (some start) (some end) told) ≡ 1)
unfolding trend_results
trend-window_example = trend-window utc_day (λ id. id == 1) start end told

unique_cases : HasUniqueCases told.cases.rows
unique_cases k = ground arith

unique_suites : HasUniqueSuites told.suites.rows
unique_suites k = ground arith

unique_results : HasUniqueResults told.results.rows
unique_results run_id case_id = ground arith

get_run_report-progress_example :
    (report : RunReportResponse) × (progress : TestRunProgress) × (get_run_report 1 told
      ≡ ok (report, told))
    × (get_progress 1 told ≡ ok (progress, told))
    × (report.passed_count ≡ progress.passed_count)
unfolding get_run
get_run_report-progress_example =
    let (report, progress, e, e', same, failed', blocked', total', no_run') =
      get_run_report-progress 1 done_run told refl refl unique_cases unique_suites unique_results in
    (report, progress, e, e', same)

abbrev window : Window
window = record {
  day_of = utc_day;
  date_from = none;
  date_to = some (record { at = 1000; date = 0 });
  run_status = some (codes "completed");
  include_trend = true;
}

get_cross_project_report_analytics-each_example :
    (report : Analytics) × (rows : List PerProjectAnalyticsRow)
    × (get_cross_project_report_analytics none true window told ≡ ok ((report, rows), told))
    × (each_row window (resolve_project_scope none true told) told ≡ ok (rows, told))
unfolding find_project get_project resolve_project_scope
get_cross_project_report_analytics-each_example =
    get_cross_project_report_analytics-each none true window told (refl, (refl, tt))
      ((refl, refl), tt)

abbrev request : CustomReportRequest
request = record {
  project_id = 1;
  suite_id = none;
  run_id = some 1;
  status = none;
  date_from = some 100;
  date_to = none;
  page = 1;
  page_size = 1;
}

run_custom_report-pages_example :
    (response : CustomReportResponse) × (run_custom_report request told ≡ ok (response, told))
    × (read_pages response.pages request told
        ≡ ok (sort_by (λ a b. leb b.tested_at a.tested_at) (custom_rows request told), told))
unfolding get_project
run_custom_report-pages_example = run_custom_report-pages request a_project told refl (omega arith)
