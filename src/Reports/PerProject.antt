-- ===== src/Reports/PerProject.antt =====
-- The rows for each project of `get_cross_project_report_analytics`, app/services/report_service.py,
-- against the reports on the project alone.
use api_testoria.Base.{
  ℕ, suc, ◌≡◌, refl, sym, ap, ◌∙◌, inl, inr, Bool, true, false, ◌&&◌, Option, List, [], ◌∷◌, arith,
  ◌==◌, is_none, length, select, count, count-select, elem, ok, pure, gets, ◌>>=◌, Bool-cases, All,
  All-intro,
}
use api_testoria.Db.{Db, Query, Project, TestRun, TestResult}
use api_testoria.Runs.{get_project}
use api_testoria.Progress.{batch_run_progress, progress_of}
use api_testoria.Progress.Counts.{sum_counts-group_by_status}
use api_testoria.Projects.{find_project}
use api_testoria.Statistics.{
  rates_in, is_completed, get_stats, get_total, count_by, get_rates, fill_rates, project_ids_of,
}
use api_testoria.Statistics.Grouping.{count-agree}
use api_testoria.Statistics.Bulk.{HasRunKeys, get_stats_lem, rates-agree, members_of}
use api_testoria.Reports.{join_runs, results_of, is_done_result, done_results}
use api_testoria.Reports.Dictionaries.{
  grouped-own, get_rates-no_rates, get_total-zero_counts, get_total-count_completed,
}
use api_testoria.Reports.Analytics.{
  Window, Analytics, PerProjectAnalyticsRow, completed_runs, zero_counts, no_rates, set_counts,
  count_completed, per_project_rows, per_project, get_report_analytics, project_analytics,
  no_analytics, cross_project_analytics, cross_analytics, resolve_project_scope,
  get_cross_project_report_analytics,
}

-- The reference: the rows from the reports on each project alone.
abbrev pub each_row : Window → List Project → Query (List PerProjectAnalyticsRow)
each_row w [] = pure []
each_row w (p ∷ rest) = do
  stats ← get_stats p.id
  report ← get_report_analytics p.id w
  done ← gets (λ db. completed_runs (λ id. id == p.id) db)
  others ← each_row w rest
  pure (
      record {
        project_id = p.id;
        project_name = p.name;
        is_archived = p.is_archived;
        total_test_runs = stats.total_test_runs;
        completed_count = length done;
        overall_rate = stats.mean_rate;
        total_results = report.summary.total_results;
      }
      ∷ others)

length-results_of : (js : List (TestResult × TestRun)) → length (results_of js) ≡ length js
length-results_of [] = refl
length-results_of (j ∷ js) = ap suc (length-results_of js)

length-select : {A : Type 0} (p : A → Bool) (xs : List A) → length (select p xs) ≡ count p xs
length-select p [] = refl
length-select p (x ∷ xs) = ground (arith, length-select p xs)

done_count :
    (id : ℕ) (db : Db)
    → length (done_results (λ k. k == id) db)
      ≡ count (is_done_result (λ k. k == id)) (join_runs db.results.rows db.runs.rows)
unfolding done_results
done_count id db = length-results_of _ ∙ length-select _ (join_runs db.results.rows db.runs.rows)

total_results-one :
    (w : Window) (p : Project) (db : Db)
    → get_project p.id db ≡ ok (p, db)
    → (report : Analytics) × (get_report_analytics p.id w db ≡ ok (report, db))
      × (report.summary.total_results
          ≡ count (is_done_result (λ k. k == p.id)) (join_runs db.results.rows db.runs.rows))
unfolding get_report_analytics project_analytics batch_run_progress
total_results-one w p db h = (
  project_analytics p.id w (progress_of db (completed_runs (λ k. k == p.id) db)) db,
  rw h refl,
  sum_counts-group_by_status (done_results (λ k. k == p.id) db) ∙ done_count p.id db,
)

completed-own :
    (id : ℕ) (ids : List ℕ) (db : Db)
    → elem id ids ≡ true
    → get_total id (count_completed (completed_runs (λ k. elem k ids) db) (zero_counts ids))
      ≡ length (completed_runs (λ k. k == id) db)
unfolding completed_runs
completed-own id ids db e =
    let done = select (λ (r : TestRun). elem r.project_id ids && is_completed r) db.runs.rows in
    omega (
      arith,
      get_total-count_completed id done (zero_counts ids),
      get_total-zero_counts id ids,
      count-select (λ r. r.project_id == id) (λ r. elem r.project_id ids && is_completed r)
          db.runs.rows,
      length-select (λ (r : TestRun). r.project_id == id && is_completed r) db.runs.rows,
      count-agree _ _ db.runs.rows (All-intro _ agree db.runs.rows),
    )
  where
    agree :
        (r : TestRun)
        → (r.project_id == id && (elem r.project_id ids && is_completed r))
          ≡ (r.project_id == id && is_completed r)
    agree r = elim (Bool-cases (r.project_id == id)) [
      | inl s ↦ let same : r.project_id ≡ id = ground arith in rw (same, e) refl
      | inr s ↦ rw s refl
    ]

rates-own :
    (id : ℕ) (ids : List ℕ) (db : Db)
    → elem id ids ≡ true
    → HasRunKeys db
    → get_rates id (
        fill_rates
          (progress_of db (completed_runs (λ k. elem k ids) db))
          (completed_runs (λ k. elem k ids) db)
          (no_rates ids))
      ≡ rates_in (progress_of db (select (λ r. r.project_id == id && is_completed r) db.runs.rows))
unfolding completed_runs
rates-own id ids db e keys = rates-agree db id ids (no_rates ids) (get_rates-no_rates id ids) e keys

-- The service finds each project.
abbrev pub IsKnown : Db → Project → Type 0
IsKnown db p = (find_project p.id false db ≡ ok (p, db)) × (get_project p.id db ≡ ok (p, db))

rows_each :
    (w : Window) (ids : List ℕ) (projects : List Project) (db : Db)
    → HasRunKeys db
    → All (λ p. elem p.id ids ≡ true) projects
    → All (IsKnown db) projects
    → ok (
      per_project_rows
          (set_counts
            (count_by
              (λ r. r.project_id)
              (select (λ r. elem r.project_id ids && is_none r.deleted_at) db.runs.rows))
            (zero_counts ids))
          (count_completed (completed_runs (λ k. elem k ids) db) (zero_counts ids))
          (set_counts
            (count_by
              (λ j. j.1.project_id)
              (select (is_done_result (λ k. elem k ids)) (join_runs db.results.rows db.runs.rows)))
            (zero_counts ids))
          (fill_rates
            (progress_of db (completed_runs (λ k. elem k ids) db))
            (completed_runs (λ k. elem k ids) db)
            (no_rates ids))
          projects,
      db,
    )
      ≡ each_row w projects db
rows_each w ids [] db keys e h = refl
rows_each w ids (p ∷ rest) db keys e h =
    let others = rows_each w ids rest db keys e.1 h.1 in
    let (report, shown, total) = total_results-one w p db h.0.1 in
    let runs =
      grouped-own (λ (r : TestRun). r.project_id) (λ r. is_none r.deleted_at) p.id ids db.runs.rows
        e.0 in
    let results =
      grouped-own (λ (j : TestResult × TestRun). j.1.project_id)
        (λ j. is_completed j.1 && is_none j.0.deleted_at) p.id ids
        (join_runs db.results.rows db.runs.rows) e.0 in
    rw
      (
        runs,
        completed-own p.id ids db e.0,
        results,
        rates-own p.id ids db e.0 keys,
        get_stats_lem db p h.0.0,
        shown,
        total,
      )
      (rw (sym others) refl)

cross-each :
    (w : Window) (projects : List Project) (db : Db)
    → HasRunKeys db
    → All (IsKnown db) projects
    → (report : Analytics) × (rows : List PerProjectAnalyticsRow) × (cross_analytics projects w db
        ≡ ok ((report, rows), db))
      × (each_row w projects db ≡ ok (rows, db))
unfolding batch_run_progress per_project
cross-each w [] db keys h = (no_analytics w, [], refl, refl)
cross-each w (p ∷ rest) db keys h =
    let ids = project_ids_of (p ∷ rest) in
    let done = completed_runs (λ k. elem k ids) db in
    (
      cross_project_analytics (p ∷ rest) ids w (progress_of db done) db,
      per_project (p ∷ rest) ids done (progress_of db done) db,
      refl,
      sym (rows_each w ids (p ∷ rest) db keys (members_of (p ∷ rest)) h),
    )

-- Where the id of a run finds the run and the service finds each project of the request, every
-- project's row in the report on several projects has what the reports on the project alone say:
-- its runs and its mean rate as in `get_stats`, its results as in `get_report_analytics`, and how
-- many runs it has completed.
pub get_cross_project_report_analytics-each :
    (project_ids : Option (List ℕ)) (include_archived : Bool) (w : Window) (db : Db)
    → HasRunKeys db
    → All (IsKnown db) (resolve_project_scope project_ids include_archived db)
    → (report : Analytics) × (rows : List PerProjectAnalyticsRow)
      × (get_cross_project_report_analytics project_ids include_archived w db
          ≡ ok ((report, rows), db))
      × (each_row w (resolve_project_scope project_ids include_archived db) db ≡ ok (rows, db))
unfolding get_cross_project_report_analytics
get_cross_project_report_analytics-each project_ids include_archived w db keys known =
    cross-each w (resolve_project_scope project_ids include_archived db) db keys known
