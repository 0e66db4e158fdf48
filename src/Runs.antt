-- ===== src/Runs.antt =====
-- app/services/test_run_service.py: the life of a test run and the set of its cases.
pub mod Lifecycle
pub mod Closing
pub mod Deletion
pub mod Members
use api_testoria.Base.{
  ℕ, Bool, true, false, not, ◌&&◌, ◌||◌, Option, none, some, List, [], ◌∷◌, ◌++◌, map, ltb, leb,
  ◌==◌, if◌then◌else◌, is_some, is_none, get_or, length, select, find?, any, count, elem, Text,
  not_found, conflict, bad_request, pure, raise, gets, or_raise, ◌>>=◌, ◌>>◌, raise_if, when,
  modify,
}
use api_testoria.Db.{
  Db, Query, Table, Project, TestSuite, TestCase, TestRun, RunCase, TestResult, RunStatus, planned,
  active, completed, aborted, CasesMode, auto, explicit, insert, update, create_action,
  update_action, delete_action, restore_action, run_entity,
}
use api_testoria.Effects.{log_action, publish_run_status}

abbrev pub run_status_eq : RunStatus → RunStatus → Bool
run_status_eq planned planned = true
run_status_eq active active = true
run_status_eq completed completed = true
run_status_eq aborted aborted = true
run_status_eq _ _ = false

abbrev pub is_live_project : ℕ → Project → Bool
is_live_project id p = p.id == id && is_none p.deleted_at

abbrev pub is_live_run : ℕ → TestRun → Bool
is_live_run id r = r.id == id && is_none r.deleted_at

-- `_get_project`
unfoldable pub get_project : ℕ → Query Project
get_project id = do
  found ← gets (λ db. find? (is_live_project id) db.projects.rows)
  or_raise found not_found

-- `get_run`
unfoldable pub get_run : ℕ → Bool → Query TestRun
get_run id allow_deleted = do
  found ← gets (λ db.
      find? (λ r. r.id == id && (if allow_deleted then true else is_none r.deleted_at))
        db.runs.rows)
  or_raise found not_found

-- the JOIN of cases with the suites of a project
abbrev pub in_project : Db → ℕ → TestCase → Bool
in_project db project_id c =
    any (λ s. s.id == c.suite_id && s.project_id == project_id) db.suites.rows

-- `invalid = unique_ids - valid_ids`
abbrev pub invalid_ids : Db → ℕ → List ℕ → List ℕ
invalid_ids db project_id ids =
    select (λ id. not (any (λ c. c.id == id && in_project db project_id c) db.cases.rows)) ids

abbrev max_cases : ℕ
max_cases = 1000

-- `_validate_case_ids_for_project`
unfoldable pub validate_case_ids : ℕ → List ℕ → Query (Unit {0})
validate_case_ids project_id case_ids = do
  raise_if (ltb max_cases (length case_ids)) bad_request
  invalid ← gets (λ db. invalid_ids db project_id case_ids)
  raise_if (ltb 0 (length invalid)) bad_request

-- `list(dict.fromkeys(ids))`: the first occurrence of each
abbrev pub unique : List ℕ → List ℕ
unique [] = []
unique (id ∷ ids) = id ∷ select (λ other. not (other == id)) (unique ids)

abbrev pub members : ℕ → List ℕ → List RunCase
members run_id [] = []
members run_id (id ∷ ids) = record { run_id = run_id; case_id = id } ∷ members run_id ids

-- `insert(test_run_test_cases)` of the given cases
abbrev pub add_members : ℕ → List ℕ → Query (Unit {0})
add_members run_id ids = modify (λ db. record db { run_cases = db.run_cases ++ members run_id ids })

-- schemas/test_run.py
pub record TestRunCreate : Type 0 where
  pub name : Text
  pub suite_id : Option ℕ
  pub milestone_id : Option ℕ
  pub assigned_to : Option ℕ
  pub include_test_cases : Option (List ℕ)

abbrev check_suite : ℕ → Option ℕ → Query (Unit {0})
check_suite project_id none = pure tt
check_suite project_id (some id) = do
  known ← gets (λ db.
      any (λ s. s.id == id && (s.project_id == project_id && is_none s.deleted_at)) db.suites.rows)
  raise_if (not known) bad_request

abbrev check_cases : ℕ → Option (List ℕ) → Query (Unit {0})
check_cases project_id none = pure tt
check_cases project_id (some []) = pure tt
check_cases project_id (some (id ∷ ids)) = validate_case_ids project_id (id ∷ ids)

abbrev add_given : ℕ → Option (List ℕ) → Query (Unit {0})
add_given run_id none = pure tt
add_given run_id (some ids) = add_members run_id (unique ids)

-- the row that `create_run` adds
abbrev pub new_run : ℕ → TestRunCreate → ℕ → ℕ → TestRun
new_run project_id data' now id = record {
  id = id;
  project_id = project_id;
  suite_id = data'.suite_id;
  milestone_id = data'.milestone_id;
  assigned_to = data'.assigned_to;
  name = data'.name;
  status = planned;
  cases_mode = if is_some data'.include_test_cases then explicit else auto;
  completed_at = none;
  created_at = now;
  deleted_at = none;
}

-- `create_run`
unfoldable pub create_run : ℕ → TestRunCreate → Option ℕ → Query TestRun
create_run project_id data' user_id = do
  get_project project_id
  check_suite project_id data'.suite_id
  check_cases project_id data'.include_test_cases
  now ← gets (λ db. db.now)
  id ← gets (λ db. db.runs.next_id)
  modify (λ db. record db { runs = insert (new_run project_id data' now) db.runs })
  add_given id data'.include_test_cases
  log_action user_id create_action run_entity id
  pure (new_run project_id data' now id)

-- schemas/test_run.py: the outer option tells whether the field was set
pub record TestRunUpdate : Type 0 where
  pub name : Option Text
  pub suite_id : Option (Option ℕ)
  pub milestone_id : Option (Option ℕ)
  pub assigned_to : Option (Option ℕ)
  pub status : Option RunStatus

abbrev pub updated_run : TestRunUpdate → TestRun → TestRun
updated_run data' run = record run {
  name = get_or data'.name run.name;
  suite_id = get_or data'.suite_id run.suite_id;
  milestone_id = get_or data'.milestone_id run.milestone_id;
  assigned_to = get_or data'.assigned_to run.assigned_to;
  status = get_or data'.status run.status;
}

-- what the flush of a changed run writes
abbrev pub save_run : ℕ → (TestRun → TestRun) → Query (Unit {0})
save_run id f = modify (λ db. record db { runs = update (λ r. r.id == id) f db.runs })

-- `update_run`
unfoldable pub update_run : ℕ → TestRunUpdate → Query TestRun
update_run run_id data' = do
  run ← get_run run_id false
  let run' = updated_run data' run
  save_run run.id (updated_run data')
  when (not (run_status_eq run'.status run.status))
      (publish_run_status run'.id run'.project_id run'.status)
  pure run'

abbrev pub completed_run : ℕ → TestRun → TestRun
completed_run now run = record run { status = completed; completed_at = some now }

-- `close_run`
unfoldable pub close_run : ℕ → Option ℕ → Query TestRun
close_run run_id user_id = do
  run ← get_run run_id false
  now ← gets (λ db. db.now)
  let run' = completed_run now run
  if run_status_eq run.status completed then pure run else do
    save_run run.id (completed_run now)
    publish_run_status run.id run.project_id completed
    log_action user_id update_action run_entity run.id
    pure run'

-- the WHERE clause of the guarded UPDATE
abbrev pub is_startable : ℕ → TestRun → Bool
is_startable id r = r.id == id && (run_status_eq r.status planned && is_none r.deleted_at)

-- `transition_to_active`; `result.rowcount` is the number of rows that the UPDATE matched
unfoldable pub transition_to_active : ℕ → Option ℕ → Query Bool
transition_to_active run_id user_id = do
  rowcount ← gets (λ db. count (is_startable run_id) db.runs.rows)
  modify (λ db. record db {
    runs = update (is_startable run_id) (λ r. record r { status = active }) db.runs;
  })
  if rowcount == 0 then pure false else do
    run ← get_run run_id false
    publish_run_status run.id run.project_id run.status
    log_action user_id update_action run_entity run.id
    pure true

-- `delete_run`
unfoldable pub delete_run : ℕ → Option ℕ → Query (Unit {0})
delete_run run_id user_id = do
  run ← get_run run_id false
  now ← gets (λ db. db.now)
  save_run run.id (λ r. record r { deleted_at = some now })
  modify (λ db. record db {
    results =
        update (λ r. r.run_id == run_id && is_none r.deleted_at)
          (λ r. record r { deleted_at = some now }) db.results;
  })
  log_action user_id delete_action run_entity run_id

-- `project is None or project.deleted_at is not None`
abbrev pub is_gone : Option Project → Bool
is_gone none = true
is_gone (some p) = is_some p.deleted_at

-- `restore_run`
unfoldable pub restore_run : ℕ → Option ℕ → Query TestRun
restore_run run_id user_id = do
  run ← get_run run_id true
  raise_if (is_none run.deleted_at) bad_request
  project ← gets (λ db. find? (λ p. p.id == run.project_id) db.projects.rows)
  raise_if (is_gone project) bad_request
  save_run run.id (λ r. record r { deleted_at = none })
  log_action user_id restore_action run_entity run.id
  pure (record run { deleted_at = none })

-- `set_run_cases`
unfoldable pub set_run_cases : ℕ → List ℕ → Query (Unit {0})
set_run_cases run_id case_ids = do
  run ← get_run run_id false
  raise_if (run_status_eq run.status completed) conflict
  when (ltb 0 (length (unique case_ids))) (validate_case_ids run.project_id (unique case_ids))
  modify (λ db. record db { run_cases = select (λ m. not (m.run_id == run_id)) db.run_cases })
  add_members run_id (unique case_ids)
  save_run run.id (λ r. record r { cases_mode = explicit })
