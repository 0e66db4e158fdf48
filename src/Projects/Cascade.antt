-- ===== src/Projects/Cascade.antt =====
-- The cascade of `delete_project` of app/services/project_service.py.
use api_testoria.Base.{
  ℕ, ◌≡◌, ◌⊎◌, inl, inr, Bool, true, false, ◌&&◌, Option, some, List, [], ◌∷◌, arith, ok, select,
  find?, count, elem, ◌==◌, is_none, count-update_where_done, All, eq_option,
  count-update_where_covered, ◌≢◌, select-update_where, Bool-cases, Option-cases,
}
use api_testoria.Db.{Db, TestSuite, TestCase, TestRun, TestResult, update}
use api_testoria.Effects.{log_action}
use api_testoria.Projects.{
  find_project, delete_project, is_live_suite, is_live_run_of, live_suite_ids, live_run_ids,
  suite_keys, run_keys,
}

-- the rows that the four updates match
abbrev suite_hit : ℕ → Db → TestSuite → Bool
suite_hit project_id db s = elem s.id (live_suite_ids project_id db) && is_none s.deleted_at

abbrev case_hit : ℕ → Db → TestCase → Bool
case_hit project_id db c = elem c.suite_id (live_suite_ids project_id db) && is_none c.deleted_at

abbrev run_hit : ℕ → Db → TestRun → Bool
run_hit project_id db r = elem r.id (live_run_ids project_id db) && is_none r.deleted_at

abbrev result_hit : ℕ → Db → TestResult → Bool
result_hit project_id db r = elem r.run_id (live_run_ids project_id db) && is_none r.deleted_at

delete_project-writes :
    (project_id : ℕ) (user_id : Option ℕ) (db db' : Db)
    → delete_project project_id user_id db ≡ ok (tt, db')
    → (db'.suites
        ≡ update (suite_hit project_id db) (λ s. record s { deleted_at = some db.now }) db.suites)
      × (db'.cases
          ≡ update (case_hit project_id db) (λ c. record c { deleted_at = some db.now }) db.cases)
      × (db'.runs
          ≡ update (run_hit project_id db) (λ r. record r { deleted_at = some db.now }) db.runs)
      × (db'.results
          ≡ update
              (result_hit project_id db)
              (λ r. record r { deleted_at = some db.now })
              db.results)
unfolding delete_project find_project log_action
delete_project-writes project_id user_id db db' h =
    elim (Option-cases (find? (λ p. p.id == project_id && is_none p.deleted_at) db.projects.rows)) [
      | inl e ↦ absurd (ground arith)
      | inr (p, e) ↦ (ground arith, ground arith, ground arith, ground arith)
    ]

-- The keys that the cascade reads are those of every live suite and run of the project.
suites_covered :
    (project_id : ℕ) (seen rows : List TestSuite)
    → ((k : ℕ)
        → elem k (suite_keys (select (is_live_suite project_id) rows)) ≡ true
        → elem k (suite_keys (select (is_live_suite project_id) seen)) ≡ true)
    → All
        (λ s.
          (is_live_suite project_id s ≡ false)
          ⊎ ((elem s.id (suite_keys (select (is_live_suite project_id) seen))
                && is_none s.deleted_at)
              ≡ true))
        rows
suites_covered project_id seen [] h = tt
suites_covered project_id seen (s ∷ rows) h = elim (Bool-cases (is_live_suite project_id s)) [
  | inl e ↦ (
    inr (ground (arith, h s.id)),
    suites_covered project_id seen rows (λ k t. ground (arith, h k)),
  )
  | inr e ↦ (inl e, suites_covered project_id seen rows (λ k t. ground (arith, h k)))
]

runs_covered :
    (project_id : ℕ) (seen rows : List TestRun)
    → ((k : ℕ)
        → elem k (run_keys (select (is_live_run_of project_id) rows)) ≡ true
        → elem k (run_keys (select (is_live_run_of project_id) seen)) ≡ true)
    → All
        (λ r.
          (is_live_run_of project_id r ≡ false)
          ⊎ ((elem r.id (run_keys (select (is_live_run_of project_id) seen))
                && is_none r.deleted_at)
              ≡ true))
        rows
runs_covered project_id seen [] h = tt
runs_covered project_id seen (r ∷ rows) h = elim (Bool-cases (is_live_run_of project_id r)) [
  | inl e ↦
      (inr (ground (arith, h r.id)), runs_covered project_id seen rows (λ k t. ground (arith, h k)))
  | inr e ↦ (inl e, runs_covered project_id seen rows (λ k t. ground (arith, h k)))
]

-- After the deletion of a project it has no live suite and no live run, there is no live case in a
-- suite that was live in it and no live result in a run that was live in it. The suites, cases, runs
-- and results deleted at another time than now are those that were so before, with their own time.
pub delete_project-cascade :
    (project_id t : ℕ) (user_id : Option ℕ) (db db' : Db)
    → t ≢ db.now
    → delete_project project_id user_id db ≡ ok (tt, db')
    → (count (is_live_suite project_id) db'.suites.rows ≡ 0)
      × (count (is_live_run_of project_id) db'.runs.rows ≡ 0)
      × (count (case_hit project_id db) db'.cases.rows ≡ 0)
      × (count (result_hit project_id db) db'.results.rows ≡ 0)
      × (select (λ s. eq_option s.deleted_at (some t)) db'.suites.rows
          ≡ select (λ s. eq_option s.deleted_at (some t)) db.suites.rows)
      × (select (λ c. eq_option c.deleted_at (some t)) db'.cases.rows
          ≡ select (λ c. eq_option c.deleted_at (some t)) db.cases.rows)
      × (select (λ r. eq_option r.deleted_at (some t)) db'.runs.rows
          ≡ select (λ r. eq_option r.deleted_at (some t)) db.runs.rows)
      × (select (λ r. eq_option r.deleted_at (some t)) db'.results.rows
          ≡ select (λ r. eq_option r.deleted_at (some t)) db.results.rows)
delete_project-cascade project_id t user_id db db' ne h =
    let (suites, cases, runs, results) = delete_project-writes project_id user_id db db' h in
    (
      rw suites (
          count-update_where_covered _ _ _ db.suites.rows
            (suites_covered project_id db.suites.rows db.suites.rows (λ k e. e))
            (λ s e. ground arith)),
      rw runs (
          count-update_where_covered _ _ _ db.runs.rows
            (runs_covered project_id db.runs.rows db.runs.rows (λ k e. e)) (λ s e. ground arith)),
      rw cases
          (count-update_where_done (case_hit project_id db) _ db.cases.rows (λ c e. ground arith)),
      rw results (
          count-update_where_done (result_hit project_id db) _ db.results.rows
            (λ r e. ground arith)),
      rw suites (
          select-update_where (λ s. eq_option s.deleted_at (some t)) (suite_hit project_id db)
            (λ s. record s { deleted_at = some db.now }) db.suites.rows
            (λ s e. (ground arith, ground arith))),
      rw cases (
          select-update_where (λ c. eq_option c.deleted_at (some t)) (case_hit project_id db)
            (λ c. record c { deleted_at = some db.now }) db.cases.rows
            (λ c e. (ground arith, ground arith))),
      rw runs (
          select-update_where (λ r. eq_option r.deleted_at (some t)) (run_hit project_id db)
            (λ r. record r { deleted_at = some db.now }) db.runs.rows
            (λ r e. (ground arith, ground arith))),
      rw results (
          select-update_where (λ r. eq_option r.deleted_at (some t)) (result_hit project_id db)
            (λ r. record r { deleted_at = some db.now }) db.results.rows
            (λ r e. (ground arith, ground arith))),
    )
