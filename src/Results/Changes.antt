-- ===== src/Results/Changes.antt =====
-- `update_result` and `get_history` of app/services/test_result_service.py.
use api_testoria.Base.{
  ℕ, Bool, true, false, Option, none, some, List, leb, ◌==◌, get_or, select, sort_by, Text,
  integrity_error, pure, gets, ◌>>=◌, ◌>>◌, raise_if, when, modify,
}
use api_testoria.Db.{Query, TestResult, ResultHistory, StepResult, ResultStatus, update}
use api_testoria.Runs.{transition_to_active}
use api_testoria.Results.{
  get_case, get_result, normalise_status, normalise_steps, validate_step_results, record_history,
  should_record_history,
}

-- `TestResultUpdate` of schemas/test_result.py: the outer option tells whether the field was set
pub record TestResultUpdate : Type 0 where
  pub status : Option (Option ResultStatus)
  pub comment : Option (Option Text)
  pub message : Option (Option Text)
  pub stack_trace : Option (Option Text)
  pub execution_time : Option (Option ℕ)
  pub defects : Option (Option (List Text))
  pub step_results : Option (Option (List StepResult))

-- `if data.step_results is not None: …`
abbrev check_steps : TestResult → Option (Option (List StepResult)) → Query (Unit {0})
check_steps tr (some (some steps)) = do
  case ← get_case tr.case_id
  validate_step_results case (some steps)
check_steps tr _ = pure tt

-- a status set to null, which the column refuses
abbrev is_null_status : Option (Option ResultStatus) → Bool
is_null_status (some none) = true
is_null_status _ = false

abbrev pub new_status : Option (Option ResultStatus) → ResultStatus → ResultStatus
new_status (some (some status)) old = normalise_status status
new_status _ old = old

abbrev new_steps :
    Option (Option (List StepResult)) → Option (List StepResult) → Option (List StepResult)
new_steps none old = old
new_steps (some steps) old = normalise_steps steps

-- the attributes set on the result
abbrev pub updated_result : TestResultUpdate → ℕ → ℕ → TestResult → TestResult
updated_result data' user_id now tr = record tr {
  status = new_status data'.status tr.status;
  comment = get_or data'.comment tr.comment;
  message = get_or data'.message tr.message;
  stack_trace = get_or data'.stack_trace tr.stack_trace;
  execution_time = get_or data'.execution_time tr.execution_time;
  defects = get_or data'.defects tr.defects;
  step_results = new_steps data'.step_results tr.step_results;
  tested_by = some user_id;
  tested_at = now;
}

-- `update_result`
unfoldable pub update_result : ℕ → TestResultUpdate → ℕ → Query TestResult
update_result result_id data' user_id = do
  old ← get_result result_id
  check_steps old data'.step_results
  now ← gets (λ db. db.now)
  raise_if (is_null_status data'.status) integrity_error
  modify (λ db. record db {
    results = update (λ r. r.id == old.id) (updated_result data' user_id now) db.results;
  })
  let new = updated_result data' user_id now old
  when (should_record_history (some old) new) (record_history new.id new.status new.comment user_id)
  tr ← get_result new.id
  when (should_record_history (some old) new)
      (transition_to_active tr.run_id (some user_id) >> pure tt)
  pure tr

-- `get_history`
unfoldable pub get_history : ℕ → Query (List ResultHistory)
get_history result_id = do
  get_result result_id
  gets (λ db.
      sort_by (λ a b. leb a.changed_at b.changed_at)
        (select (λ h. h.result_id == result_id) db.history.rows))
