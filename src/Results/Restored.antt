-- ===== src/Results/Restored.antt =====
-- Submitting to a run that was deleted and restored: `submit` of app/services/test_result_service.py
-- against the unique constraint of app/models/test_result.py.
use api_testoria.Base.{
  ℕ, ◌≡◌, refl, true, false, ◌&&◌, Option, none, arith, ok, raised, integrity_error, find?, count,
  update_where, ◌==◌, count-update_where_done, count_mono, any-update_where_kept,
  find?-of_count_zero,
}
use api_testoria.Db.{Db, TestRun, TestCase}
use api_testoria.Runs.{get_run, delete_run, restore_run}
use api_testoria.Runs.Deletion.{is_live_result, stamped, delete_run-writes, restore_run-keeps}
use api_testoria.Results.{
  TestResultCreate, get_case, validate_step_results, submit, write_with_history, write_result,
  is_taken, is_live_result_of,
}

-- A first write of a pair that a deleted row holds fails on the constraint.
submit-taken :
    (run_id user_id : ℕ) (item : TestResultCreate) (run : TestRun) (case : TestCase) (db : Db)
    → get_run run_id false db ≡ ok (run, db)
    → get_case item.case_id db ≡ ok (case, db)
    → validate_step_results case item.step_results db ≡ ok (tt, db)
    → find? (is_live_result_of run_id item.case_id) db.results.rows ≡ none
    → is_taken run_id item.case_id db ≡ true
    → submit run_id item user_id db ≡ raised integrity_error
unfolding submit write_with_history write_result
submit-taken run_id user_id item run case db hr hc hs hl ht = ground arith

-- In a run that was deleted and restored, no case that had a result can get one again: the deleted
-- row is invisible to the submission, but holds the unique key. If the case is live and the step
-- results of the submission fit it, the insertion fails and the call ends in an IntegrityError.
pub submit-after_restore :
    (run_id user_id : ℕ) (user user' : Option ℕ) (item : TestResultCreate) (run run' : TestRun)
    (case : TestCase) (db mid db' : Db)
    → is_taken run_id item.case_id db ≡ true
    → delete_run run_id user db ≡ ok (tt, mid)
    → restore_run run_id user' mid ≡ ok (run, db')
    → get_run run_id false db' ≡ ok (run', db')
    → get_case item.case_id db' ≡ ok (case, db')
    → validate_step_results case item.step_results db' ≡ ok (tt, db')
    → submit run_id item user_id db' ≡ raised integrity_error
submit-after_restore run_id user_id user user' item run run' case db mid db' taken hd hr hg hc hs =
    let (runs, results, projects) = delete_run-writes run_id user db mid hd in
    let kept = restore_run-keeps run_id user' run mid db' hr in
    let rows = update_where (is_live_result run_id) (stamped db.now) db.results.rows in
    let dead =
      count-update_where_done (is_live_result run_id) (stamped db.now) db.results.rows
        (λ r e. ground arith) in
    let none_of_case : count (is_live_result_of run_id item.case_id) rows ≡ 0 = omega (
      arith,
      dead,
      count_mono (is_live_result_of run_id item.case_id) (is_live_result run_id) rows
          (λ r e. ground arith),
    ) in
    let missed = find?-of_count_zero _ rows none_of_case in
    let held =
      any-update_where_kept (λ r. r.run_id == run_id && r.case_id == item.case_id)
        (is_live_result run_id) (stamped db.now) db.results.rows (λ r e. refl) in
    submit-taken run_id user_id item run' case db' hg hc hs (rw kept (rw results missed))
      (rw kept (rw results (rw held taken)))
