-- ===== src/Progress.antt =====
-- Progress of test runs: `get_progress` and `batch_run_progress` of app/services/test_run_service.py
-- and `pass_rate` of app/utils/stats.py. A ratio is kept as the pair of its numbers, unrounded.
pub mod Counts
pub mod Statuses
pub mod Batch
use api_testoria.Base.{
  ℕ, ◌+◌, ◌-◌, max, Bool, true, false, ◌&&◌, ◌||◌, Option, none, some, List, [], ◌∷◌, leb, ◌==◌,
  if◌then◌else◌, is_none, length, select, any, count, elem, pure, gets, ◌>>=◌,
}
use api_testoria.Db.{
  Db, Query, TestRun, TestResult, RunCase, ResultStatus, passed, failed, blocked, no_run, skipped,
  CasesMode, auto, explicit,
}
use api_testoria.Runs.{get_run}
use api_testoria.Scope.{run_scope_case_ids, case_ids, is_auto_case}

abbrev pub result_status_eq : ResultStatus → ResultStatus → Bool
result_status_eq passed passed = true
result_status_eq failed failed = true
result_status_eq blocked blocked = true
result_status_eq no_run no_run = true
result_status_eq skipped skipped = true
result_status_eq _ _ = false

-- `dict[str, int]` from statuses to counts
abbrev pub StatusCounts : Type 0
StatusCounts = List (ResultStatus × ℕ)

abbrev pub with_status : ResultStatus → TestResult → Bool
with_status status r = result_status_eq r.status status

abbrev add_group : ResultStatus → List TestResult → StatusCounts → StatusCounts
add_group status rows rest =
    let n = count (with_status status) rows in if n == 0 then rest else (status, n) ∷ rest

-- `SELECT status, count(id) … GROUP BY status`: a group for each status that occurs
unfoldable pub group_by_status : List TestResult → StatusCounts
group_by_status rows = add_group passed rows (
    add_group failed rows
      (add_group blocked rows (add_group no_run rows (add_group skipped rows []))))

-- `counts.get(status, 0)`
abbrev pub get_count : ResultStatus → StatusCounts → ℕ
get_count status [] = 0
get_count status ((s, n) ∷ rest) = if result_status_eq s status then n else get_count status rest

-- `sum(counts.values())`
abbrev pub sum_counts : StatusCounts → ℕ
sum_counts [] = 0
sum_counts ((s, n) ∷ rest) = n + sum_counts rest

-- `stats.pass_rate`; a total is never negative
unfoldable pub pass_rate : ℕ → ℕ → Option (ℕ × ℕ)
pass_rate passed' total = if leb total 0 then none else some (passed', total)

-- `TestRunProgress` of schemas/test_run.py
pub record TestRunProgress : Type 0 where
  pub passed_count : ℕ  -- passed
  pub failed_count : ℕ  -- failed
  pub blocked_count : ℕ  -- blocked
  pub no_run_count : ℕ  -- no_run
  pub total : ℕ
  pub rate : Option (ℕ × ℕ)  -- pass_rate

-- The arithmetic at the end of both functions, on the counts by status and the size of the scope;
-- `total - tested` stops at 0, which is the source's `max(0, total - tested)`.
unfoldable pub summarise : StatusCounts → ℕ → TestRunProgress
summarise counts total = record {
  passed_count = get_count passed counts;
  failed_count = get_count failed counts;
  blocked_count = get_count blocked counts;
  no_run_count = get_count no_run counts + (total - sum_counts counts);
  total = total;
  rate = pass_rate (get_count passed counts) (max total (sum_counts counts));
}

-- the live results of the run on cases in its scope
abbrev pub scoped_results : ℕ → List ℕ → List TestResult → List TestResult
scoped_results run_id scope rows =
    select (λ r. r.run_id == run_id && (elem r.case_id scope && is_none r.deleted_at)) rows

-- `get_progress`
unfoldable pub get_progress : ℕ → Query TestRunProgress
get_progress run_id = do
  run ← get_run run_id false
  scope ← gets (λ db. run_scope_case_ids db run)
  rows ← gets (λ db. scoped_results run_id scope db.results.rows)
  pure (summarise (group_by_status rows) (length scope))

-- In `batch_run_progress`: the size of the scope of one run. Explicit runs count their rows in
-- test_run_test_cases, grouped by run; any other run counts the cases of the query for automatic runs.
abbrev pub batch_total : CasesMode → Db → TestRun → ℕ
batch_total explicit db run = count (λ m. m.run_id == run.id) db.run_cases
batch_total auto db run = length (select (is_auto_case db run) db.cases.rows)

-- the rows that the two status queries of `batch_run_progress` group for one run: for an explicit run
-- the results joined with test_run_test_cases on run and case
abbrev pub batch_results : CasesMode → Db → TestRun → List TestResult
batch_results explicit db run =
    select
      (λ r.
        any (λ m. m.run_id == r.run_id && m.case_id == r.case_id) db.run_cases
        && (r.run_id == run.id && is_none r.deleted_at))
      db.results.rows
batch_results auto db run =
    scoped_results run.id (case_ids (select (is_auto_case db run) db.cases.rows)) db.results.rows

abbrev pub run_progress : Db → TestRun → TestRunProgress
run_progress db run =
    summarise (group_by_status (batch_results run.cases_mode db run))
      (batch_total run.cases_mode db run)

abbrev pub progress_of : Db → List TestRun → List (ℕ × TestRunProgress)
progress_of db [] = []
progress_of db (run ∷ rest) = (run.id, run_progress db run) ∷ progress_of db rest

-- `batch_run_progress`: the dictionary from run ids to progress
unfoldable pub batch_run_progress : List TestRun → Query (List (ℕ × TestRunProgress))
batch_run_progress runs = gets (λ db. progress_of db runs)
