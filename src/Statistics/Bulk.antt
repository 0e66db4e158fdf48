-- ===== src/Statistics/Bulk.antt =====
-- `get_bulk_stats` of app/services/project_service.py against `get_stats`.
use api_testoria.Base.{
  ℕ, ◌≡◌, refl, sym, ap, ◌∙◌, Bool, true, false, ◌&&◌, some, List, [], ◌∷◌, ◌++◌, ◌==◌, arith,
  is_none, select, count, elem, find?, All, inl, inr, Bool-cases, count-select, All-mono, All-intro,
  ok, pure, gets, ◌>>=◌, Text,
}
use api_testoria.Db.{Db, Query, Project, TestSuite, TestCase, TestRun, RunStatus}
use api_testoria.Progress.{run_progress, progress_of, batch_run_progress}
use api_testoria.Progress.Batch.{select-agree}
use api_testoria.Projects.{find_project}
use api_testoria.Statistics.{
  ProjectStatsItem, join_suites, mean, rates_in, is_completed, get_stats, get_total, count_by,
  group_runs, is_active_status, total_by, rate_of, get_rates, fill_rates, project_ids_of,
  project_rows, items_of, unless_empty, get_bulk_stats,
}
use api_testoria.Statistics.Grouping.{
  get_total-count_by, count-agree, total_by-count, get_rates-fill_rates, rate_of-progress_of,
  find?-select, select-select, join_suites-live,
}

-- No suite, case or run is deleted.
abbrev pub NoneDeleted : Db → Type 0
NoneDeleted db =
    All (λ s. is_none s.deleted_at ≡ true) db.suites.rows
    × (All (λ c. is_none c.deleted_at ≡ true) db.cases.rows
        × All (λ r. is_none r.deleted_at ≡ true) db.runs.rows)

-- The id of a run finds it.
abbrev pub HasRunKeys : Db → Type 0
HasRunKeys db = All (λ r. find? (λ x. x.id == r.id) db.runs.rows ≡ some r) db.runs.rows

-- the reference: one `get_stats` for each project, and the runs that are planned or active
abbrev pub each_stats : List Project → Query (List ProjectStatsItem)
each_stats [] = pure []
each_stats (p ∷ rest) = do
  stats ← get_stats p.id
  active ← gets (λ db. count (λ r. r.project_id == p.id && is_active_status r.status) db.runs.rows)
  others ← each_stats rest
  pure (
      record {
        project_id = p.id;
        name = p.name;
        is_archived = p.is_archived;
        stats = stats;
        active_runs = active;
      }
      ∷ others)

-- A grouped count has for a project of the request the live rows of the project.
grouped-count :
    {A : Type 0} (key : A → ℕ) (live : A → Bool) (id : ℕ) (ids : List ℕ) (xs : List A)
    → elem id ids ≡ true
    → All (λ x. live x ≡ true) xs
    → get_total id (count_by key (select (λ x. elem (key x) ids) xs))
      ≡ count (λ x. key x == id && live x) xs
grouped-count key live id ids xs e h =
    get_total-count_by key id (select (λ x. elem (key x) ids) xs)
    ∙ count-select (λ x. key x == id) (λ x. elem (key x) ids) xs
    ∙ count-agree _ _ xs (All-mono _ _ xs agree h)
  where
    agree : (x : _) → live x ≡ true → (key x == id && elem (key x) ids) ≡ (key x == id && live x)
    agree x t = elim (Bool-cases (key x == id)) [
      | inl s ↦ let same : key x ≡ id = ground arith in rw (same, e, t) refl
      | inr s ↦ rw s refl
    ]

runs-count :
    (live : TestRun → Bool) (by : RunStatus → Bool) (id : ℕ) (ids : List ℕ) (runs : List TestRun)
    → elem id ids ≡ true
    → All (λ r. by r.status ≡ live r) runs
    → get_total id (total_by by (group_runs (select (λ r. elem r.project_id ids) runs)) [])
      ≡ count (λ r. r.project_id == id && live r) runs
runs-count live by id ids runs e h =
    total_by-count by id (select (λ r. elem r.project_id ids) runs)
    ∙ count-select (λ r. r.project_id == id && by r.status) (λ r. elem r.project_id ids) runs
    ∙ count-agree _ _ runs (All-mono _ _ runs agree h)
  where
    agree :
        (r : TestRun)
        → by r.status ≡ live r
        → ((r.project_id == id && by r.status) && elem r.project_id ids)
          ≡ (r.project_id == id && live r)
    agree r t = elim (Bool-cases (r.project_id == id)) [
      | inl s ↦ let same : r.project_id ≡ id = ground arith in rw (same, e, t) (ground arith)
      | inr s ↦ rw s refl
    ]

pub All-selected :
    {A : Type 0} (P R : A → Type 0) (q : A → Bool) (xs : List A)
    → ((x : A) → P x → q x ≡ true → R x)
    → All P xs
    → All R (select q xs)
All-selected P R q [] f h = tt
All-selected P R q (x ∷ xs) f h = elim (Bool-cases (q x)) [
  | inl e ↦ rw e (f x h.0 e, All-selected P R q xs f h.1)
  | inr e ↦ rw e (All-selected P R q xs f h.1)
]

-- the completed runs of the request
abbrev pub done_in : List ℕ → Db → List TestRun
done_in ids db = select (λ r. elem r.project_id ids && is_completed r) db.runs.rows

pub rates-agree :
    (db : Db) (id : ℕ) (ids : List ℕ) (start : List (ℕ × List (ℕ × ℕ)))
    → get_rates id start ≡ []
    → elem id ids ≡ true
    → HasRunKeys db
    → get_rates id (fill_rates (progress_of db (done_in ids db)) (done_in ids db) start)
      ≡ rates_in (progress_of db (select (λ r. r.project_id == id && is_completed r) db.runs.rows))
rates-agree db id ids start none_yet e keys =
    get_rates-fill_rates db (progress_of db (done_in ids db)) id (done_in ids db) start
      (All-selected _ _ _ db.runs.rows found keys)
    ∙ ap
        (λ before.
          before ++ rates_in (progress_of db (select (λ r. r.project_id == id) (done_in ids db))))
        none_yet
    ∙ ap (λ runs. rates_in (progress_of db runs))
        (select-select (λ r. r.project_id == id) _ db.runs.rows
          ∙ select-agree _ _ db.runs.rows agree)
  where
    found :
        (r : TestRun)
        → find? (λ x. x.id == r.id) db.runs.rows ≡ some r
        → (elem r.project_id ids && is_completed r) ≡ true
        → rate_of r.id (progress_of db (done_in ids db)) ≡ (run_progress db r).rate
    found r k t = rate_of-progress_of db r.id (done_in ids db) (find?-select _ _ db.runs.rows k t)

    agree :
        (r : TestRun)
        → ((elem r.project_id ids && is_completed r) && r.project_id == id)
          ≡ (r.project_id == id && is_completed r)
    agree r = elim (Bool-cases (r.project_id == id)) [
      | inl s ↦
          let same : r.project_id ≡ id = ground arith in
          let asked : elem r.project_id ids ≡ true = rw same e in ground arith
      | inr s ↦ ground arith
    ]

pub get_stats_lem :
    (db : Db) (p : Project)
    → find_project p.id false db ≡ ok (p, db)
    → get_stats p.id db
      ≡ ok (
        record {
          total_test_cases =
              count
                (λ j. j.1.project_id == p.id && (is_none j.1.deleted_at && is_none j.0.deleted_at))
                (join_suites db.cases.rows db.suites.rows);
          total_test_suites =
              count (λ s. s.project_id == p.id && is_none s.deleted_at) db.suites.rows;
          total_test_runs = count (λ r. r.project_id == p.id && is_none r.deleted_at) db.runs.rows;
          mean_rate = mean (
              rates_in (
                progress_of db
                  (select (λ r. r.project_id == p.id && is_completed r) db.runs.rows)));
        },
        db,
      )
unfolding get_stats batch_run_progress
get_stats_lem db p h = rw h refl

asked_in :
    (db : Db) (ids : List ℕ) (projects : List Project)
    → NoneDeleted db
    → HasRunKeys db
    → All (λ p. elem p.id ids ≡ true) projects
    → All (λ p. find_project p.id false db ≡ ok (p, db)) projects
    → ok (
      items_of
          (count_by (λ s. s.project_id) (select (λ s. elem s.project_id ids) db.suites.rows))
          (count_by
            (λ j. j.1.project_id)
            (select (λ j. elem j.1.project_id ids) (join_suites db.cases.rows db.suites.rows)))
          (total_by (λ s. true) (group_runs (select (λ r. elem r.project_id ids) db.runs.rows)) [])
          (total_by is_active_status
            (group_runs (select (λ r. elem r.project_id ids) db.runs.rows))
            [])
          (fill_rates (progress_of db (done_in ids db)) (done_in ids db) [])
          projects,
      db,
    )
      ≡ each_stats projects db
asked_in db ids [] none_deleted keys e found = refl
asked_in db ids (p ∷ rest) none_deleted keys e found =
    let (suites_live, (cases_live, runs_live)) = none_deleted in
    let joined = join_suites db.cases.rows db.suites.rows in
    let joined_live = join_suites-live db.cases.rows db.suites.rows cases_live suites_live in
    let others = asked_in db ids rest none_deleted keys e.1 found.1 in
    let suites =
      grouped-count (λ (s : TestSuite). s.project_id) (λ s. is_none s.deleted_at) p.id ids
        db.suites.rows e.0 suites_live in
    let cases =
      grouped-count (λ (j : TestCase × TestSuite). j.1.project_id)
        (λ j. is_none j.1.deleted_at && is_none j.0.deleted_at) p.id ids joined e.0 joined_live in
    let runs =
      runs-count (λ r. is_none r.deleted_at) (λ s. true) p.id ids db.runs.rows e.0
        (All-mono _ _ db.runs.rows (λ r t. sym t) runs_live) in
    let actives =
      runs-count (λ r. is_active_status r.status) is_active_status p.id ids db.runs.rows e.0
        (All-intro _ (λ r. refl) db.runs.rows) in
    rw
      (
        suites,
        cases,
        runs,
        actives,
        rates-agree db p.id ids [] refl e.0 keys,
        get_stats_lem db p found.0,
      )
      (rw (sym others) refl)

pub members_of :
    (projects : List Project) → All (λ p. elem p.id (project_ids_of projects) ≡ true) projects
members_of [] = tt
members_of (p ∷ rest) = (ground arith, All-mono _ _ rest (λ q t. ground arith) (members_of rest))

-- Where no suite, case or run is deleted, where the id of a run finds the run, and where the service
-- finds each project of the request, the bulk statistics are what `get_stats` returns for one project
-- after the other, in the order of the names, with the number of planned and active runs.
pub get_bulk_stats-each :
    (before : Text → Text → Bool) (include_archived : Bool) (ids : List ℕ) (db : Db)
    → NoneDeleted db
    → HasRunKeys db
    → All
        (λ p. find_project p.id false db ≡ ok (p, db))
        (project_rows before include_archived ids db.projects.rows)
    → get_bulk_stats before include_archived ids db
      ≡ each_stats (project_rows before include_archived ids db.projects.rows) db
unfolding get_bulk_stats batch_run_progress
get_bulk_stats-each before include_archived ids db none_deleted keys found =
    each_asked (project_rows before include_archived ids db.projects.rows) found
  where
    each_asked :
        (projects : List Project)
        → All (λ p. find_project p.id false db ≡ ok (p, db)) projects
        → unless_empty projects db ≡ each_stats projects db
    each_asked [] h = refl
    each_asked (p ∷ rest) h =
        asked_in db (project_ids_of (p ∷ rest)) (p ∷ rest) none_deleted keys (members_of (p ∷ rest))
          h
