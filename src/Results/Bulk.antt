-- ===== src/Results/Bulk.antt =====
-- `submit_many` of app/services/test_result_service.py.
use api_testoria.Base.{
  ℕ, ◌+◌, Bool, false, not, ◌&&◌, ◌||◌, Option, none, some, List, [], ◌∷◌, ◌++◌, ◌==◌,
  if◌then◌else◌, is_none, select, find?, any, elem, not_found, pure, gets, or_raise, ◌>>=◌, ◌>>◌,
  raise_if, when,
}
use api_testoria.Db.{Db, Query, TestCase, TestRun, TestResult, ResultStatus}
use api_testoria.Effects.{publish_result_bulk}
use api_testoria.Runs.{get_run, transition_to_active}
use api_testoria.Progress.{result_status_eq, StatusCounts}
use api_testoria.Results.{TestResultCreate, validate_step_results, write_with_history}

-- the dictionary `existing`: case ids with the ids of their results, the newest entry first
abbrev pub Existing : Type 0
Existing = List (ℕ × ℕ)

abbrev pub item_ids : List TestResultCreate → List ℕ
item_ids [] = []
item_ids (item ∷ items) = item.case_id ∷ item_ids items

-- `{r.test_case_id: r for r in …}`: a later row replaces an earlier one
abbrev pub entries : List TestResult → Existing
entries [] = []
entries (r ∷ rs) = entries rs ++ (r.case_id, r.id) ∷ []

abbrev pub result_id_of : ℕ → Existing → Option ℕ
result_id_of case_id [] = none
result_id_of case_id ((c, id) ∷ rest) = if c == case_id then some id else result_id_of case_id rest

-- the object that an entry refers to, as the last flush left it
abbrev pub row_of : Option ℕ → Db → Option TestResult
row_of none db = none
row_of (some id) db = find? (λ r. r.id == id) db.results.rows

-- `existing.get(item.test_case_id)`
abbrev pub existing_row : Existing → ℕ → Db → Option TestResult
existing_row existing case_id db = row_of (result_id_of case_id existing) db

-- `existing[item.test_case_id] = tr`, in the branch of a new result
abbrev pub with_entry : ℕ → ℕ → Option TestResult → Existing → Existing
with_entry case_id id none existing = (case_id, id) ∷ existing
with_entry case_id id (some tr) existing = existing

-- `status_counts[status] = status_counts.get(status, 0) + 1`
abbrev pub count_status : ResultStatus → StatusCounts → StatusCounts
count_status status [] = (status, 1) ∷ []
count_status status ((s, n) ∷ rest) =
    if result_status_eq s status then (s, n + 1) ∷ rest else (s, n) ∷ count_status status rest

-- `submitted`, `status_counts` and `any_meaningful_change`
pub record Tally : Type 0 where
  pub submitted : ℕ
  pub status_counts : StatusCounts
  pub changed : Bool

abbrev pub tallied : TestResult × Bool → Tally → Tally
tallied written t = record {
  submitted = t.submitted + 1;
  status_counts = count_status written.0.status t.status_counts;
  changed = t.changed || written.1;
}

-- The loop over the items. `cases[item.test_case_id]` has an entry for every item, since the check
-- for missing cases comes first.
unfoldable pub submit_items :
    ℕ → ℕ → List TestCase → List TestResultCreate → Existing → Tally → Query Tally
submit_items run_id user_id cases [] existing t = pure t
submit_items run_id user_id cases (item ∷ items) existing t = do
  case ← or_raise (find? (λ c. c.id == item.case_id) cases) not_found
  validate_step_results case item.step_results
  old ← gets (existing_row existing item.case_id)
  written ← write_with_history run_id item user_id old
  submit_items run_id user_id cases items (with_entry item.case_id written.0.id old existing)
      (tallied written t)

abbrev pub live_cases : List ℕ → Db → List TestCase
live_cases ids db = select (λ c. elem c.id ids && is_none c.deleted_at) db.cases.rows

abbrev pub is_missing : List TestCase → TestResultCreate → Bool
is_missing cases item = not (any (λ c. c.id == item.case_id) cases)

abbrev pub live_results : ℕ → List ℕ → Db → List TestResult
live_results run_id ids db =
    select (λ r. r.run_id == run_id && (elem r.case_id ids && is_none r.deleted_at)) db.results.rows

-- the end of `submit_many`: the run started once, and one event sent
unfoldable pub finish_many : ℕ → ℕ → TestRun → Tally → Query (ℕ × StatusCounts)
finish_many run_id user_id run t = do
  when t.changed (transition_to_active run_id (some user_id) >> pure tt)
  publish_result_bulk run_id run.project_id t.submitted t.status_counts
  pure (t.submitted, t.status_counts)

abbrev pub empty_tally : Tally
empty_tally = record { submitted = 0; status_counts = []; changed = false }

-- `submit_many`
unfoldable pub submit_many : ℕ → List TestResultCreate → ℕ → Query (ℕ × StatusCounts)
submit_many run_id [] user_id = do get_run run_id false; pure (0, [])
submit_many run_id (item ∷ items) user_id = do
  run ← get_run run_id false
  let ids = item_ids (item ∷ items)
  cases ← gets (live_cases ids)
  raise_if (any (is_missing cases) (item ∷ items)) not_found
  existing ← gets (λ db. entries (live_results run_id ids db))
  t ← submit_items run_id user_id cases (item ∷ items) existing empty_tally
  finish_many run_id user_id run t
