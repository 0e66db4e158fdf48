-- ===== src/Runs/Lifecycle.antt =====
-- The status of a run: `transition_to_active` and `close_run` of app/services/test_run_service.py.
use api_testoria.Base.{
  ℕ, ◌≡◌, refl, inl, inr, Bool, true, false, Option, some, List, [], ◌∷◌, ◌++◌, arith, ok, find?,
  update_where, ◌==◌, update_where_idle, count-update_where_done, find?-update_where-some,
  count_pos_of_find?, find?-some, Option-cases,
}
use api_testoria.Db.{
  Db, update, TestRun, RunStatus, planned, active, completed, Event, Channel, testrun_channel,
  project_channel, test_run_status, update_action, run_entity,
}
use api_testoria.Effects.{log_action, publish_run_status}
use api_testoria.Runs.{
  is_live_run, is_startable, get_run, transition_to_active, close_run, completed_run,
}

abbrev pub as_active : TestRun → TestRun
as_active r = record r { status = active }

-- the messages sent, after the two that announce a status
abbrev pub announced : TestRun → RunStatus → List (Channel × Event) → List (Channel × Event)
announced run status events =
    (events ++ (testrun_channel run.id, test_run_status run.id status) ∷ [])
    ++ (project_channel run.project_id, test_run_status run.id status) ∷ []

-- A planned run that is found starts: the call answers true, the run is active afterwards, and its
-- new status is announced once on each of its two channels.
pub transition_to_active-starts :
    (run_id : ℕ) (user_id : Option ℕ) (db : Db) (run : TestRun)
    → find? (is_live_run run_id) db.runs.rows ≡ some run
    → run.status ≡ planned
    → (db' : Db) × (transition_to_active run_id user_id db ≡ ok (true, db'))
      × (find? (is_live_run run_id) db'.runs.rows ≡ some (record run { status = active }))
      × (db'.events ≡ announced run active db.events)
unfolding transition_to_active get_run log_action publish_run_status
transition_to_active-starts run_id user_id db run found idle =
    let fits : is_startable run_id run ≡ true =
      ground (arith, find?-some (is_live_run run_id) db.runs.rows found) in
    let moved =
      find?-update_where-some (is_live_run run_id) (is_startable run_id) as_active db.runs.rows
        (λ r e. refl) found in
    let some_row =
      count_pos_of_find? (is_startable run_id) (is_live_run run_id) db.runs.rows found fits in
    (
      record db {
        runs = update (is_startable run_id) as_active db.runs;
        events = announced run active db.events;
        audit_logs =
            db.audit_logs
            ++ record {
              user_id = user_id;
              action = update_action;
              entity_type = run_entity;
              entity_id = run.id;
            }
              ∷ [];
      },
      ground arith,
      ground arith,
      refl,
    )

-- Of two transitions of one run in a row the second answers false and changes nothing, so that no
-- second event and no second audit entry appear.
pub transition_to_active_once :
    (run_id : ℕ) (user_id user_id' : Option ℕ) (started : Bool) (db db' : Db)
    → transition_to_active run_id user_id db ≡ ok (started, db')
    → transition_to_active run_id user_id' db' ≡ ok (false, db')
unfolding transition_to_active get_run log_action publish_run_status
transition_to_active_once run_id user_id user_id' started db db' h =
    let none_left =
      count-update_where_done (is_startable run_id) as_active db.runs.rows (λ r e. ground arith) in
    let moved = update_where (is_startable run_id) as_active db.runs.rows in
    let written : db'.runs ≡ update (is_startable run_id) as_active db.runs =
      elim (Option-cases (find? (is_live_run run_id) moved)) [
        | inl e ↦ ground arith
        | inr (r, e) ↦ ground arith
      ] in
    let still = update_where_idle (is_startable run_id) as_active moved none_left in
    ground (arith, none_left, still)

-- Closing a run that is found leaves it completed; closing it again answers the same run and
-- changes nothing, the time of completion included.
pub close_run_once :
    (run_id : ℕ) (user_id user_id' : Option ℕ) (run : TestRun) (db db' : Db)
    → close_run run_id user_id db ≡ ok (run, db')
    → (run.status ≡ completed) × (close_run run_id user_id' db' ≡ ok (run, db'))
unfolding close_run get_run log_action publish_run_status
close_run_once run_id user_id user_id' run db db' h =
    elim (Option-cases (find? (is_live_run run_id) db.runs.rows)) [
      | inl e ↦ absurd (ground arith)
      | inr (r, e) ↦
          let moved =
            find?-update_where-some (is_live_run run_id) (λ k. k.id == r.id) (completed_run db.now)
              db.runs.rows (λ k t. refl) e in
          ground (arith, moved)
    ]

-- What a transition writes beside the rows of runs and the traces of it: nothing.
pub transition_to_active-keeps :
    (run_id : ℕ) (user_id : Option ℕ) (started : Bool) (db db' : Db)
    → transition_to_active run_id user_id db ≡ ok (started, db')
    → (db'.results ≡ db.results) × (db'.history ≡ db.history) × (db'.cases ≡ db.cases)
unfolding transition_to_active get_run log_action publish_run_status
transition_to_active-keeps run_id user_id started db db' h =
    elim (Option-cases
      (find? (is_live_run run_id) (update_where (is_startable run_id) as_active db.runs.rows))) [
        | inl e ↦ ground arith
        | inr (r, e) ↦ ground arith
      ]
