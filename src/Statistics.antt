-- ===== src/Statistics.antt =====
-- Statistics of projects: `get_stats` and `get_bulk_stats` of app/services/project_service.py. Ratios
-- are kept as pairs of numbers, unrounded.
pub mod Grouping
pub mod Bulk
use api_testoria.Base.{
  ℕ, suc, ◌+◌, ◌*◌, Bool, true, false, not, ◌&&◌, ◌||◌, Option, none, some, List, [], ◌∷◌, ◌++◌,
  ◌==◌, if◌then◌else◌, is_none, length, select, count, elem, sort_by, Text, pure, gets, ◌>>=◌, ◌>>◌,
}
use api_testoria.Db.{
  Db, Query, Project, TestSuite, TestCase, TestRun, RunStatus, planned, active, completed, aborted,
}
use api_testoria.Runs.{run_status_eq}
use api_testoria.Progress.{TestRunProgress, batch_run_progress}
use api_testoria.Projects.{find_project}

-- schemas/project.py
pub record ProjectStats : Type 0 where
  pub total_test_cases : ℕ
  pub total_test_suites : ℕ
  pub total_test_runs : ℕ
  pub mean_rate : Option (ℕ × ℕ)  -- pass_rate

pub record ProjectStatsItem : Type 0 where
  pub project_id : ℕ
  pub name : Text
  pub is_archived : Bool
  pub stats : ProjectStats  -- the four fields of the same names
  pub active_runs : ℕ

-- the rows of a join of cases with suites
abbrev pub with_suites : TestCase → List TestSuite → List (TestCase × TestSuite)
with_suites c [] = []
with_suites c (s ∷ rest) =
    if c.suite_id == s.id then (c, s) ∷ with_suites c rest else with_suites c rest

abbrev pub join_suites : List TestCase → List TestSuite → List (TestCase × TestSuite)
join_suites [] suites = []
join_suites (c ∷ rest) suites = with_suites c suites ++ join_suites rest suites

abbrev sum_ratios : List (ℕ × ℕ) → ℕ × ℕ
sum_ratios [] = (0, 1)
sum_ratios ((n, d) ∷ rest) = let (m, e) = sum_ratios rest in (n * e + m * d, d * e)

-- `sum(rates) / len(rates) if rates else None`
unfoldable pub mean : List (ℕ × ℕ) → Option (ℕ × ℕ)
mean [] = none
mean (r ∷ rest) = let (n, d) = sum_ratios (r ∷ rest) in some (n, d * length (r ∷ rest))

abbrev pub with_rate : Option (ℕ × ℕ) → List (ℕ × ℕ) → List (ℕ × ℕ)
with_rate none rest = rest
with_rate (some r) rest = r ∷ rest

-- the rates of `progress_by_run.values()` that are not None
abbrev pub rates_in : List (ℕ × TestRunProgress) → List (ℕ × ℕ)
rates_in [] = []
rates_in ((id, p) ∷ rest) = with_rate p.rate (rates_in rest)

abbrev pub is_completed : TestRun → Bool
is_completed r = run_status_eq r.status completed && is_none r.deleted_at

-- `get_stats`
unfoldable pub get_stats : ℕ → Query ProjectStats
get_stats id = do
  find_project id false
  suites ← gets (λ db. count (λ s. s.project_id == id && is_none s.deleted_at) db.suites.rows)
  cases ← gets (λ db.
      count (λ j. j.1.project_id == id && (is_none j.1.deleted_at && is_none j.0.deleted_at))
        (join_suites db.cases.rows db.suites.rows))
  runs ← gets (λ db. count (λ r. r.project_id == id && is_none r.deleted_at) db.runs.rows)
  done ← gets (λ db. select (λ r. r.project_id == id && is_completed r) db.runs.rows)
  progress ← batch_run_progress done
  pure record {
    total_test_cases = cases;
    total_test_suites = suites;
    total_test_runs = runs;
    mean_rate = mean (rates_in progress);
  }

-- `dict[int, int]`; `d[id] = d.get(id, 0) + n`
abbrev pub add_count : ℕ → ℕ → List (ℕ × ℕ) → List (ℕ × ℕ)
add_count id n [] = (id, n) ∷ []
add_count id n ((k, m) ∷ rest) = if k == id then (k, m + n) ∷ rest else (k, m) ∷ add_count id n rest

-- `d.get(id, 0)`
abbrev pub get_total : ℕ → List (ℕ × ℕ) → ℕ
get_total id [] = 0
get_total id ((k, n) ∷ rest) = if k == id then n else get_total id rest

-- `SELECT key, count(id) … GROUP BY key`
unfoldable pub count_by : {A : Type 0} → (A → ℕ) → List A → List (ℕ × ℕ)
count_by key [] = []
count_by key (x ∷ xs) = add_count (key x) 1 (count_by key xs)

abbrev pub add_run : ℕ → RunStatus → List (ℕ × (RunStatus × ℕ)) → List (ℕ × (RunStatus × ℕ))
add_run id status [] = (id, (status, 1)) ∷ []
add_run id status ((k, (s, n)) ∷ rest) =
    if k == id && run_status_eq s status
    then (k, (s, suc n)) ∷ rest
    else (k, (s, n)) ∷ add_run id status rest

-- `SELECT project_id, status, count(id) … GROUP BY project_id, status`
unfoldable pub group_runs : List TestRun → List (ℕ × (RunStatus × ℕ))
group_runs [] = []
group_runs (r ∷ rest) = add_run r.project_id r.status (group_runs rest)

-- `_ACTIVE_RUN_STATUSES`
abbrev pub is_active_status : RunStatus → Bool
is_active_status planned = true
is_active_status active = true
is_active_status completed = false
is_active_status aborted = false

-- the loop over `run_rows`, for one of its two dictionaries
unfoldable pub total_by :
    (RunStatus → Bool) → List (ℕ × (RunStatus × ℕ)) → List (ℕ × ℕ) → List (ℕ × ℕ)
total_by keep [] acc = acc
total_by keep ((k, (s, n)) ∷ rest) acc =
    total_by keep rest (if keep s then add_count k n acc else acc)

-- `progress_by_run[id].pass_rate`; each completed run has its entry
abbrev pub rate_of : ℕ → List (ℕ × TestRunProgress) → Option (ℕ × ℕ)
rate_of id [] = none
rate_of id ((k, p) ∷ rest) = if k == id then p.rate else rate_of id rest

-- `rates_by_project.setdefault(id, []).append(rate)`
abbrev pub add_rate : ℕ → ℕ × ℕ → List (ℕ × List (ℕ × ℕ)) → List (ℕ × List (ℕ × ℕ))
add_rate id r [] = (id, r ∷ []) ∷ []
add_rate id r ((k, rs) ∷ rest) =
    if k == id then (k, rs ++ r ∷ []) ∷ rest else (k, rs) ∷ add_rate id r rest

abbrev pub put_rate : ℕ → Option (ℕ × ℕ) → List (ℕ × List (ℕ × ℕ)) → List (ℕ × List (ℕ × ℕ))
put_rate id none acc = acc
put_rate id (some r) acc = add_rate id r acc

-- `rates_by_project.get(id, [])`
abbrev pub get_rates : ℕ → List (ℕ × List (ℕ × ℕ)) → List (ℕ × ℕ)
get_rates id [] = []
get_rates id ((k, rs) ∷ rest) = if k == id then rs else get_rates id rest

-- the loop over `completed_runs`
unfoldable pub fill_rates :
    List (ℕ × TestRunProgress) → List TestRun → List (ℕ × List (ℕ × ℕ)) → List (ℕ × List (ℕ × ℕ))
fill_rates progress [] acc = acc
fill_rates progress (r ∷ rest) acc =
    fill_rates progress rest (put_rate r.project_id (rate_of r.id progress) acc)

abbrev pub project_ids_of : List Project → List ℕ
project_ids_of [] = []
project_ids_of (p ∷ rest) = p.id ∷ project_ids_of rest

abbrev is_asked : List ℕ → Project → Bool
is_asked [] p = true
is_asked (id ∷ ids) p = elem p.id (id ∷ ids)

-- `project_rows`, without a filter on ids where none are given; `before` is the order of names by the
-- database's collation
abbrev pub project_rows : (Text → Text → Bool) → Bool → List ℕ → List Project → List Project
project_rows before include_archived ids rows =
    sort_by (λ p q. before p.name q.name)
      (select (λ p. (include_archived || not p.is_archived) && is_asked ids p) rows)

-- the last loop of `get_bulk_stats`
abbrev pub items_of :
    (suites cases runs actives : List (ℕ × ℕ))
    → List (ℕ × List (ℕ × ℕ))
    → List Project
    → List ProjectStatsItem
items_of suites cases runs actives rates [] = []
items_of suites cases runs actives rates (p ∷ rest) =
    record {
      project_id = p.id;
      name = p.name;
      is_archived = p.is_archived;
      stats = record {
        total_test_cases = get_total p.id cases;
        total_test_suites = get_total p.id suites;
        total_test_runs = get_total p.id runs;
        mean_rate = mean (get_rates p.id rates);
      };
      active_runs = get_total p.id actives;
    }
    ∷ items_of suites cases runs actives rates rest

abbrev pub grouped_stats : List ℕ → List Project → Query (List ProjectStatsItem)
grouped_stats ids projects = do
  suites ←
      gets (λ db. count_by (λ s. s.project_id) (select (λ s. elem s.project_id ids) db.suites.rows))
  cases ← gets (λ db.
      count_by (λ j. j.1.project_id)
        (select (λ j. elem j.1.project_id ids) (join_suites db.cases.rows db.suites.rows)))
  groups ← gets (λ db. group_runs (select (λ r. elem r.project_id ids) db.runs.rows))
  done ← gets (λ db. select (λ r. elem r.project_id ids && is_completed r) db.runs.rows)
  progress ← batch_run_progress done
  pure (
      items_of suites cases (total_by (λ s. true) groups []) (total_by is_active_status groups [])
        (fill_rates progress done []) projects)

abbrev pub unless_empty : List Project → Query (List ProjectStatsItem)
unless_empty [] = pure []
unless_empty (p ∷ rest) = grouped_stats (project_ids_of (p ∷ rest)) (p ∷ rest)

-- `get_bulk_stats`: the items, whose number is `total`
unfoldable pub get_bulk_stats : (Text → Text → Bool) → Bool → List ℕ → Query (List ProjectStatsItem)
get_bulk_stats before include_archived ids = do
  projects ← gets (λ db. project_rows before include_archived ids db.projects.rows)
  unless_empty projects
