-- ===== src/Runs/Closing.antt =====
-- Runs that are closed: `close_run` and `transition_to_active` of app/services/test_run_service.py, in
-- any order and on any runs.
use api_testoria.Base.{
  ℕ, ◌≡◌, refl, sym, subst, ◌∙◌, inl, inr, Bool, false, Option, some, arith, ok, find?, ◌==◌,
  find?-update_where-some, find?-some, Option-cases, Bool-cases, update_where,
}
use api_testoria.Db.{Db, update, TestRun, completed}
use api_testoria.Effects.{log_action, publish_run_status}
use api_testoria.Runs.{
  is_live_run, is_startable, run_status_eq, get_run, transition_to_active, close_run, completed_run,
}
use api_testoria.Runs.Lifecycle.{as_active}

-- One call that starts or closes a run.
pub data Step : Db → Db → Type 0 where
  start :
      (run_id : ℕ) (user_id : Option ℕ) {started : Bool} {db db' : Db}
      → transition_to_active run_id user_id db ≡ ok (started, db')
      → Step db db'
  close :
      (run_id : ℕ) (user_id : Option ℕ) {run : TestRun} {db db' : Db}
      → close_run run_id user_id db ≡ ok (run, db')
      → Step db db'

-- Some of them, one after the other.
pub data Steps : Db → Db → Type 0 where
  stop : {db : Db} → Steps db db
  next : {db mid db' : Db} → Step db mid → Steps mid db' → Steps db db'

started_apart :
    (id run_id : ℕ) (user_id : Option ℕ) (started : Bool) (run : TestRun) (db db' : Db)
    → find? (is_live_run id) db.runs.rows ≡ some run
    → run.status ≡ completed
    → transition_to_active run_id user_id db ≡ ok (started, db')
    → find? (is_live_run id) db'.runs.rows ≡ some run
unfolding transition_to_active get_run log_action publish_run_status
started_apart id run_id user_id started run db db' found done h =
    let moved =
      find?-update_where-some (is_live_run id) (is_startable run_id) as_active db.runs.rows
        (λ r e. refl) found in
    let kept : find? (is_live_run id) (update_where (is_startable run_id) as_active db.runs.rows)
        ≡ some run =
      moved ∙ ground arith in
    let written : db'.runs ≡ update (is_startable run_id) as_active db.runs =
      elim (Option-cases
        (find? (is_live_run run_id) (update_where (is_startable run_id) as_active db.runs.rows))) [
          | inl e ↦ ground arith
          | inr (r, e) ↦ ground arith
        ] in
    rw written kept

-- A closed run is not the open one that another id finds.
closed_apart :
    (id run_id : ℕ) (run r : TestRun) (db : Db)
    → find? (is_live_run id) db.runs.rows ≡ some run
    → find? (is_live_run run_id) db.runs.rows ≡ some r
    → run.status ≡ completed
    → run_status_eq r.status completed ≡ false
    → (run.id == r.id) ≡ false
closed_apart id run_id run r db found e done undone = elim (Bool-cases (run.id == r.id)) [
  | inr other ↦ other
  | inl same ↦
      let a = find?-some (is_live_run id) db.runs.rows found in
      let b = find?-some (is_live_run run_id) db.runs.rows e in
      let ids : id ≡ run_id = ground (arith, a, b) in
      let one : some run ≡ some r =
        sym found ∙ subst (λ k. find? (is_live_run k) db.runs.rows ≡ some r) (sym ids) e in
      absurd (ground arith)
]

closing_apart :
    (id run_id : ℕ) (user_id : Option ℕ) (other run : TestRun) (db db' : Db)
    → find? (is_live_run id) db.runs.rows ≡ some run
    → run.status ≡ completed
    → close_run run_id user_id db ≡ ok (other, db')
    → find? (is_live_run id) db'.runs.rows ≡ some run
unfolding close_run get_run log_action publish_run_status
closing_apart id run_id user_id other run db db' found done h =
    elim (Option-cases (find? (is_live_run run_id) db.runs.rows)) [
      | inl e ↦ absurd (ground arith)
      | inr (r, e) ↦ elim (Bool-cases (run_status_eq r.status completed)) [
        | inl over ↦ let same : db' ≡ db = ground arith in rw same found
        | inr undone ↦
            let moved =
              find?-update_where-some (is_live_run id) (λ k. k.id == r.id) (completed_run db.now)
                db.runs.rows (λ k t. refl) found in
            let apart = closed_apart id run_id run r db found e done undone in
            let written : db'.runs ≡ update (λ k. k.id == r.id) (completed_run db.now) db.runs =
              ground arith in
            rw written (moved ∙ rw apart refl)
      ]
    ]

closed_once :
    (id : ℕ) (run : TestRun) (db db' : Db)
    → find? (is_live_run id) db.runs.rows ≡ some run
    → run.status ≡ completed
    → Step db db'
    → find? (is_live_run id) db'.runs.rows ≡ some run
closed_once id run db db' found done (start run_id user_id {started = started} h) =
    started_apart id run_id user_id started run db db' found done h
closed_once id run db db' found done (close run_id user_id {run = other} h) =
    closing_apart id run_id user_id other run db db' found done h

-- A run that is closed stays as it is, with the time at which it was closed, whatever runs are started
-- and closed after that, itself included.
pub closed_stays :
    (id : ℕ) (run : TestRun) (db db' : Db)
    → find? (is_live_run id) db.runs.rows ≡ some run
    → run.status ≡ completed
    → Steps db db'
    → find? (is_live_run id) db'.runs.rows ≡ some run
closed_stays id run db db' found done stop = found
closed_stays id run db db' found done (next {mid = mid} step rest) =
    closed_stays id run mid db' (closed_once id run db mid found done step) done rest
