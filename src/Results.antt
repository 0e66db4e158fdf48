-- ===== src/Results.antt =====
-- app/services/test_result_service.py: submitting, changing and listing the results of a run.
pub mod Bulk
pub mod Changes
pub mod Invariant
pub mod Writing
pub mod Tested
pub mod Submission
pub mod Restored
pub mod Agreement
pub mod Equivalence
pub mod Counting
use api_testoria.Base.{
  ℕ, ◌+◌, Bool, true, false, not, ◌&&◌, ◌||◌, Option, none, some, List, [], ◌∷◌, ◌++◌, leb, ltb,
  ◌==◌, if◌then◌else◌, is_some, is_none, get_or, length, select, find?, any, elem, sort_by, Text,
  text_eq, not_found, bad_request, integrity_error, pure, raise, gets, or_raise, ◌>>=◌, ◌>>◌,
  raise_if, when, modify,
}
use api_testoria.Db.{
  Db, Query, TestCase, TestRun, TestResult, ResultHistory, StepResult, ResultStatus, passed, failed,
  blocked, no_run, skipped, insert, update,
}
use api_testoria.Effects.{publish_result_update, publish_result_bulk}
use api_testoria.Runs.{get_run, transition_to_active}
use api_testoria.Scope.{run_scope_case_ids}
use api_testoria.Progress.{result_status_eq, StatusCounts}

-- `TestResultCreate` of schemas/test_result.py
pub record TestResultCreate : Type 0 where
  pub case_id : ℕ  -- test_case_id
  pub status : ResultStatus
  pub comment : Option Text
  pub message : Option Text
  pub stack_trace : Option Text
  pub execution_time : Option ℕ
  pub defects : List Text
  pub step_results : Option (List StepResult)

-- `_get_case`
unfoldable pub get_case : ℕ → Query TestCase
get_case id = do
  found ← gets (λ db. find? (λ c. c.id == id && is_none c.deleted_at) db.cases.rows)
  or_raise found not_found

-- `_normalise_status`
unfoldable pub normalise_status : ResultStatus → ResultStatus
normalise_status skipped = no_run
normalise_status status = status

-- `_normalise_step_results`
abbrev pub normalise_step_results : List StepResult → List StepResult
normalise_step_results [] = []
normalise_step_results (sr ∷ rest) =
    record sr { status = normalise_status sr.status } ∷ normalise_step_results rest

abbrev pub normalise_steps : Option (List StepResult) → Option (List StepResult)
normalise_steps none = none
normalise_steps (some steps) = some (normalise_step_results steps)

-- the loop of `_validate_step_results`, with the indices seen so far
unfoldable pub steps_fit : ℕ → List ℕ → List StepResult → Bool
steps_fit num_steps seen [] = true
steps_fit num_steps seen (sr ∷ rest) =
    not (leb num_steps sr.index)
    && (not (elem sr.index seen) && steps_fit num_steps (sr.index ∷ seen) rest)

-- `if … is not None: _validate_step_results(case, …)`; both errors of it are a BadRequestError
unfoldable pub validate_step_results : TestCase → Option (List StepResult) → Query (Unit {0})
validate_step_results case none = pure tt
validate_step_results case (some steps) =
    raise_if (not (steps_fit (length case.steps) [] steps)) bad_request

abbrev pub is_live_result_of : ℕ → ℕ → TestResult → Bool
is_live_result_of run_id case_id r =
    r.run_id == run_id && (r.case_id == case_id && is_none r.deleted_at)

-- `get_result`
unfoldable pub get_result : ℕ → Query TestResult
get_result id = do
  found ← gets (λ db. find? (λ r. r.id == id && is_none r.deleted_at) db.results.rows)
  or_raise found not_found

abbrev in_listing : Bool → List ℕ → TestResult → Bool
in_listing include_orphans scope r = include_orphans || elem r.case_id scope

-- `list_results`
unfoldable pub list_results : ℕ → Bool → Query (List TestResult)
list_results run_id include_orphans = do
  run ← get_run run_id false
  gets (λ db.
      sort_by (λ r s. leb r.case_id s.case_id)
        (select
          (λ r.
            r.run_id == run_id
            && (is_none r.deleted_at && in_listing include_orphans (run_scope_case_ids db run) r))
          db.results.rows))

abbrev history_row : ℕ → ResultStatus → Option Text → ℕ → ℕ → ℕ → ResultHistory
history_row result_id status comment user_id now id = record {
  id = id;
  result_id = result_id;
  status = status;
  comment = comment;
  changed_by = some user_id;
  changed_at = now;
}

-- `_record_history`
abbrev pub record_history : ℕ → ResultStatus → Option Text → ℕ → Query (Unit {0})
record_history result_id status comment user_id = modify (λ db. record db {
  history = insert (history_row result_id status comment user_id db.now) db.history;
})

-- `comment or None`: an empty text is no comment
abbrev pub comment_or_none : Option Text → Text
comment_or_none none = []
comment_or_none (some text) = text

-- `_should_record_history`; `old` is the row before the change, none where it is created
unfoldable pub should_record_history : Option TestResult → TestResult → Bool
should_record_history none new = true
should_record_history (some old) new =
    not (result_status_eq old.status new.status)
    || not (text_eq (comment_or_none old.comment) (comment_or_none new.comment))

-- the attributes set on a result that exists: all of the payload but `test_case_id`
abbrev pub filled : TestResultCreate → ℕ → ℕ → TestResult → TestResult
filled item user_id now tr = record tr {
  status = normalise_status item.status;
  comment = item.comment;
  message = item.message;
  stack_trace = item.stack_trace;
  execution_time = item.execution_time;
  defects = some item.defects;
  step_results = normalise_steps item.step_results;
  tested_by = some user_id;
  tested_at = now;
}

abbrev pub new_result : ℕ → TestResultCreate → ℕ → ℕ → ℕ → TestResult
new_result run_id item user_id now id = record {
  id = id;
  run_id = run_id;
  case_id = item.case_id;
  tested_by = some user_id;
  status = normalise_status item.status;
  comment = item.comment;
  message = item.message;
  stack_trace = item.stack_trace;
  execution_time = item.execution_time;
  defects = some item.defects;
  step_results = normalise_steps item.step_results;
  tested_at = now;
  deleted_at = none;
}

-- uq_result_run_case, which counts deleted rows too
abbrev pub is_taken : ℕ → ℕ → Db → Bool
is_taken run_id case_id db = any (λ r. r.run_id == run_id && r.case_id == case_id) db.results.rows

-- the `if tr is not None … else …` of both submissions, up to the flush
unfoldable pub write_result : ℕ → TestResultCreate → ℕ → Option TestResult → Query TestResult
write_result run_id item user_id (some tr) = do
  now ← gets (λ db. db.now)
  modify (λ db. record db {
    results = update (λ r. r.id == tr.id) (filled item user_id now) db.results;
  })
  pure (filled item user_id now tr)
write_result run_id item user_id none = do
  now ← gets (λ db. db.now)
  id ← gets (λ db. db.results.next_id)
  taken ← gets (is_taken run_id item.case_id)
  raise_if taken integrity_error
  modify (λ db. record db { results = insert (new_result run_id item user_id now) db.results })
  pure (new_result run_id item user_id now id)

-- the history of a write; also tells whether there was a meaningful change
abbrev pub add_history : ℕ → Bool → TestResult → Query (TestResult × Bool)
add_history user_id changed tr = do
  when changed (record_history tr.id tr.status tr.comment user_id)
  pure (tr, changed)

-- the write of one result with its history
unfoldable pub write_with_history :
    ℕ → TestResultCreate → ℕ → Option TestResult → Query (TestResult × Bool)
write_with_history run_id item user_id existing = do
  tr ← write_result run_id item user_id existing
  add_history user_id (should_record_history existing tr) tr

-- the end of `submit`: the result loaded again, the run started, and the event sent
unfoldable pub finish_submit : ℕ → ℕ → TestResult × Bool → Query TestResult
finish_submit run_id user_id written = do
  tr ← get_result written.0.id
  when written.1 (transition_to_active run_id (some user_id) >> pure tt)
  run ← get_run run_id false
  publish_result_update run_id run.project_id tr.id tr.case_id tr.status tr.tested_by
  pure tr

-- `submit`
unfoldable pub submit : ℕ → TestResultCreate → ℕ → Query TestResult
submit run_id data' user_id = do
  get_run run_id false
  case ← get_case data'.case_id
  validate_step_results case data'.step_results
  existing ← gets (λ db. find? (is_live_result_of run_id data'.case_id) db.results.rows)
  written ← write_with_history run_id data' user_id existing
  finish_submit run_id user_id written
