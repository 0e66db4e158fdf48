-- ===== src/Runs/Deletion.antt =====
-- `delete_run` and `restore_run` of app/services/test_run_service.py.
use api_testoria.Base.{
  ℕ, ◌≤◌, ◌≡◌, ◌≢◌, refl, inl, inr, Bool, true, false, not, ◌&&◌, Option, none, some, [], ◌∷◌, ◌++◌,
  arith, ok, raised, not_found, bad_request, ◌⊎◌, count, find?, select, update_where, ◌==◌,
  find?-some, find?-update_where-some, Bool-cases, Option-cases, eq_option, find?-narrower,
  find?-wider, count-update_where_done, select-update_where, find?-update_where_gone, is_none,
}
use api_testoria.Db.{Db, TestRun, TestResult, Project, update, restore_action, run_entity}
use api_testoria.Effects.{log_action}
use api_testoria.Runs.{get_run, is_live_run, is_gone, delete_run, restore_run}

-- The live results of a run.
abbrev pub is_live_result : ℕ → TestResult → Bool
is_live_result run_id r = r.run_id == run_id && is_none r.deleted_at

abbrev pub stamped : ℕ → TestResult → TestResult
stamped now r = record r { deleted_at = some now }

pub delete_run-writes :
    (run_id : ℕ) (user_id : Option ℕ) (db db' : Db)
    → delete_run run_id user_id db ≡ ok (tt, db')
    → (db'.runs ≡ update (λ r. r.id == run_id) (λ r. record r { deleted_at = some db.now }) db.runs)
      × (db'.results ≡ update (is_live_result run_id) (stamped db.now) db.results)
      × (db'.projects ≡ db.projects)
unfolding delete_run get_run log_action
delete_run-writes run_id user_id db db' h =
    elim (Option-cases (find? (is_live_run run_id) db.runs.rows)) [
      | inl e ↦ absurd (ground arith)
      | inr (r, e) ↦
          let same : r.id ≡ run_id =
            ground (arith, find?-some (is_live_run run_id) db.runs.rows e) in
          ground arith
    ]

-- A deleted run is found no more and has no live result; what was deleted at any other time stays
-- as it was, and so do the results of other runs.
pub delete_run_lem :
    (run_id t : ℕ) (user_id : Option ℕ) (db db' : Db)
    → t ≢ db.now
    → delete_run run_id user_id db ≡ ok (tt, db')
    → (get_run run_id false db' ≡ raised not_found)
      × (count (is_live_result run_id) db'.results.rows ≡ 0)
      × (select (λ r. eq_option r.deleted_at (some t)) db'.results.rows
          ≡ select (λ r. eq_option r.deleted_at (some t)) db.results.rows)
      × (select (λ r. not (r.run_id == run_id)) db'.results.rows
          ≡ select (λ r. not (r.run_id == run_id)) db.results.rows)
unfolding get_run
delete_run_lem run_id t user_id db db' ne h =
    let (runs, results, projects) = delete_run-writes run_id user_id db db' h in
    let gone =
      find?-update_where_gone (is_live_run run_id) (λ r. r.id == run_id)
        (λ r. record r { deleted_at = some db.now }) db.runs.rows (λ r e. ground arith)
        (λ r e. ground arith) in
    let live = is_live_result run_id in
    (
      rw runs (ground (arith, gone)),
      rw results
          (count-update_where_done live (stamped db.now) db.results.rows (λ r e. ground arith)),
      rw results (
          select-update_where _ live (stamped db.now) db.results.rows
            (λ r e. (ground arith, ground arith))),
      rw results (
          select-update_where _ live (stamped db.now) db.results.rows
            (λ r e. (ground arith, ground arith))),
    )

-- Restoring a run after its deletion succeeds exactly where its project is live: it brings the run
-- back and leaves its results deleted. Where the project is deleted it is refused as a bad request.
pub restore_run-after_delete :
    (run_id : ℕ) (user_id user_id' : Option ℕ) (run : TestRun) (p : Project) (db mid : Db)
    → count (λ r. r.id == run_id) db.runs.rows ≤ 1
    → find? (is_live_run run_id) db.runs.rows ≡ some run
    → find? (λ k. k.id == run.project_id) db.projects.rows ≡ some p
    → delete_run run_id user_id db ≡ ok (tt, mid)
    → ((p.deleted_at ≡ none)
        × (db' : Db) × (restore_run run_id user_id' mid ≡ ok (run, db'))
        × (get_run run_id false db' ≡ ok (run, db'))
        × (count (is_live_result run_id) db'.results.rows ≡ 0))
      ⊎ ((is_none p.deleted_at ≡ false) × (restore_run run_id user_id' mid ≡ raised bad_request))
unfolding restore_run get_run log_action
restore_run-after_delete run_id user_id user_id' run p db mid unique found project h =
    let (runs, results, projects) = delete_run-writes run_id user_id db mid h in
    let fits = find?-some (is_live_run run_id) db.runs.rows found in
    let any_run = λ (r : TestRun). r.id == run_id && true in
    let drop = λ (r : TestRun). record r { deleted_at = some db.now } in
    let lift_up = λ (r : TestRun). record r { deleted_at = none } in
    let dropped = update_where (λ r. r.id == run_id) drop db.runs.rows in
    let known : find? any_run db.runs.rows ≡ some run =
      find?-narrower any_run (λ r. r.id == run_id) db.runs.rows (λ r e. ground arith)
        (find?-wider (is_live_run run_id) (λ r. r.id == run_id) db.runs.rows unique
          (λ r e. ground arith) found)
        (ground arith) in
    let gone : find? any_run dropped ≡ some (drop run) =
      let found_again =
        find?-update_where-some any_run (λ r. r.id == run_id) drop db.runs.rows (λ r e. refl)
          known in
      ground arith in
    let same : run.id ≡ run_id = ground arith in
    let alive : run.deleted_at ≡ none = ground arith in
    let back : find? any_run (update_where (λ r. r.id == run.id) lift_up dropped) ≡ some run =
      let found_again =
        find?-update_where-some any_run (λ r. r.id == run.id) lift_up dropped (λ r e. refl) gone in
      ground arith in
    let live_again =
      find?-narrower (is_live_run run_id) any_run
        (update_where (λ r. r.id == run.id) lift_up dropped) (λ r e. ground arith) back
        (ground arith) in
    elim (Bool-cases (is_none p.deleted_at)) [
      | inr e ↦ inr (e, ground (arith, projects))
      | inl e ↦ inl (
        ground arith,
        record mid {
          runs = update (λ r. r.id == run.id) lift_up mid.runs;
          audit_logs =
              mid.audit_logs
              ++ record {
                user_id = user_id';
                action = restore_action;
                entity_type = run_entity;
                entity_id = run.id;
              }
                ∷ [];
        },
        ground (arith, projects),
        ground (arith, live_again),
        rw results (
            count-update_where_done (is_live_result run_id) (stamped db.now) db.results.rows
              (λ r e. ground arith)),
      )
    ]

pub restore_run-keeps :
    (run_id : ℕ) (user_id : Option ℕ) (run : TestRun) (db db' : Db)
    → restore_run run_id user_id db ≡ ok (run, db')
    → db'.results ≡ db.results
unfolding restore_run get_run log_action
restore_run-keeps run_id user_id run db db' h =
    elim (Option-cases (find? (λ r. r.id == run_id && true) db.runs.rows)) [
      | inl e ↦ absurd (ground arith)
      | inr (r, e) ↦ elim (Bool-cases (is_none r.deleted_at)) [
        | inl t ↦ absurd (ground arith)
        | inr t ↦ elim (Bool-cases (is_gone (find? (λ p. p.id == r.project_id) db.projects.rows))) [
          | inl g ↦ absurd (ground arith)
          | inr g ↦ ground arith
        ]
      ]
    ]
