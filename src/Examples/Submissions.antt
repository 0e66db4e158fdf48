-- ===== src/Examples/Submissions.antt =====
-- Examples of submitted results.
use api_testoria.Base.{
  ℕ, ◌≡◌, refl, none, some, [], ◌∷◌, arith, raised, integrity_error, codes, Result,
}
use api_testoria.Db.{Db, TestResult, skipped, blocked, explicit}
use api_testoria.Effects.{
  log_action, publish_run_status, publish_result_update, publish_result_bulk,
}
use api_testoria.Runs.{get_run, transition_to_active, delete_run, restore_run}
use api_testoria.Progress.{StatusCounts}
use api_testoria.Results.{
  TestResultCreate, get_case, get_result, normalise_status, validate_step_results,
  should_record_history, write_result, write_with_history, finish_submit, submit,
}
use api_testoria.Results.Invariant.{IsValid}
use api_testoria.Results.Writing.{live_result}
use api_testoria.Results.Submission.{submit_lem}
use api_testoria.Results.Bulk.{submit_items, finish_many, submit_many}
use api_testoria.Results.Equivalence.{submit_in_turn, submit_many-in_turn}
use api_testoria.Results.Restored.{submit-after_restore}
use api_testoria.Examples.{shop, run_of, case_of, a_result, after, value}

abbrev item : TestResultCreate
item = record {
  case_id = 1;
  status = skipped;
  comment = some (codes "later");
  message = none;
  stack_trace = none;
  execution_time = none;
  defects = [];
  step_results = none;
}

abbrev other_item : TestResultCreate
other_item = record item { case_id = 2; status = blocked }

valid : IsValid shop.results
valid = ((omega arith, tt), λ k. ground arith, λ r c. ground arith)

abbrev submitted : Db
unfolding submit validate_step_results get_run get_case get_result normalise_status write_result
    write_with_history should_record_history finish_submit transition_to_active log_action
    publish_run_status publish_result_update
submitted = after (submit 2 item 7 shop)

abbrev new_result : TestResult
unfolding submit validate_step_results get_run get_case get_result normalise_status write_result
    write_with_history should_record_history finish_submit transition_to_active log_action
    publish_run_status publish_result_update
new_result = value a_result (submit 2 item 7 shop)

submit_lem_example : live_result 2 1 submitted ≡ some new_result
unfolding submit validate_step_results get_run get_case get_result normalise_status write_result
    write_with_history should_record_history finish_submit transition_to_active log_action
    publish_run_status publish_result_update
submit_lem_example = (submit_lem 2 7 item new_result shop submitted valid refl).0

submit_many-in_turn_example :
    submit_many 2 (item ∷ other_item ∷ []) 7 shop ≡ submit_in_turn 2 (item ∷ other_item ∷ []) 7 shop
submit_many-in_turn_example = submit_many-in_turn 2 7 item (other_item ∷ []) shop valid refl

abbrev both : Result ((ℕ × StatusCounts) × Db)
unfolding submit_many submit_items finish_many validate_step_results get_run normalise_status
    write_result write_with_history should_record_history transition_to_active log_action
    publish_run_status publish_result_bulk
both = submit_many 2 (item ∷ other_item ∷ []) 7 shop

abbrev deleted : Db
unfolding delete_run get_run log_action
deleted = after (delete_run 2 (some 1) shop)

abbrev restored : Db
unfolding delete_run restore_run get_run log_action
restored = after (restore_run 2 (some 1) deleted)

submit-after_restore_example : submit 2 item 7 restored ≡ raised integrity_error
unfolding delete_run restore_run get_run log_action get_case validate_step_results
submit-after_restore_example =
    submit-after_restore 2 7 (some 1) (some 1) item (run_of 2 explicit) (run_of 2 explicit)
      (case_of 1) shop deleted restored refl refl refl refl refl refl
