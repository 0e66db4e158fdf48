-- ===== src/Results/Writing.antt =====
-- The writes of `submit` of app/services/test_result_service.py.
use api_testoria.Base.{
  ℕ, ◌≤◌, ◌≡◌, refl, inl, inr, Bool, true, false, ◌&&◌, Option, none, some, List, [], ◌∷◌, ◌++◌,
  arith, ok, find?, count, ◌==◌, if◌then◌else◌, is_none, count_mono, find?-some, find?-by_key,
  find?-update_where-some, find?-append_none, ◌>>◌, ◌>>=◌, sym, pure, Bool-cases, Option-cases,
  subst, length, ◌∙◌, >>=-eq-ok, when,
}
use api_testoria.Db.{Db, TestCase, TestRun, StepResult, TestResult, ResultHistory}
use api_testoria.Effects.{publish_result_update}
use api_testoria.Runs.{is_live_run, get_run, transition_to_active}
use api_testoria.Runs.Lifecycle.{transition_to_active-keeps}
use api_testoria.Results.{
  TestResultCreate, get_case, get_result, normalise_status, validate_step_results, submit,
  finish_submit, add_history, steps_fit, write_result, write_with_history, should_record_history,
  filled, new_result, is_taken, is_live_result_of, history_row,
}
use api_testoria.Results.Invariant.{IsValid, write_result-IsValid}

-- the result that the queries of `submit` find for a run and a case
abbrev pub live_result : ℕ → ℕ → Db → Option TestResult
live_result run_id case_id db = find? (is_live_result_of run_id case_id) db.results.rows

-- the history after a write of `res` over `old`
abbrev pub history_after : Option TestResult → TestResult → ℕ → Db → List ResultHistory
history_after old res user_id db =
    if should_record_history old res
    then db.history.rows
      ++ history_row res.id res.status res.comment user_id db.now db.history.next_id ∷ []
    else db.history.rows

pub write_result-live_result :
    (run_id user_id : ℕ) (item : TestResultCreate) (old : Option TestResult) (res : TestResult)
    (db db' : Db)
    → live_result run_id item.case_id db ≡ old
    → write_result run_id item user_id old db ≡ ok (res, db')
    → (live_result run_id item.case_id db' ≡ some res)
      × (res.status ≡ normalise_status item.status)
      × (res.comment ≡ item.comment)
      × (db'.history ≡ db.history)
      × (db'.now ≡ db.now)
      × (db'.cases ≡ db.cases)
unfolding write_result
write_result-live_result run_id user_id item none res db db' e h =
    elim (Bool-cases (is_taken run_id item.case_id db)) [
      | inl t ↦ absurd (ground arith)
      | inr t ↦
          let row = new_result run_id item user_id db.now db.results.next_id in
          let added =
            find?-append_none (is_live_result_of run_id item.case_id) db.results.rows (row ∷ [])
              e in
          ground (arith, added)
    ]
write_result-live_result run_id user_id item (some old) res db db' e h =
    let moved =
      find?-update_where-some (is_live_result_of run_id item.case_id) (λ r. r.id == old.id)
        (filled item user_id db.now) db.results.rows (λ r t. refl) e in
    ground (arith, moved)

-- the second half of a write
pub record_history_step :
    (changed' : Bool) (tr : TestResult) (user_id : ℕ) (res : TestResult) (changed : Bool)
    (db db' : Db)
    → add_history user_id changed' tr db ≡ ok ((res, changed), db')
    → (tr ≡ res)
      × (changed' ≡ changed)
      × (db'.results ≡ db.results)
      × (db'.cases ≡ db.cases)
      × (db'.history.rows ≡ (
          if changed'
          then db.history.rows
            ++ history_row tr.id tr.status tr.comment user_id db.now db.history.next_id ∷ []
          else db.history.rows))
record_history_step true tr user_id res changed db db' h = ground arith
record_history_step false tr user_id res changed db db' h = ground arith

pub write_with_history-lem :
    (run_id user_id : ℕ) (item : TestResultCreate) (old : Option TestResult) (res : TestResult)
    (changed : Bool) (db db' : Db)
    → live_result run_id item.case_id db ≡ old
    → IsValid db.results
    → write_with_history run_id item user_id old db ≡ ok ((res, changed), db')
    → (live_result run_id item.case_id db' ≡ some res)
      × (res.status ≡ normalise_status item.status)
      × (res.comment ≡ item.comment)
      × (changed ≡ should_record_history old res)
      × (db'.history.rows ≡ history_after old res user_id db)
      × IsValid db'.results
unfolding write_with_history
write_with_history-lem run_id user_id item old res changed db db' e v h =
    let (tr, mid, first, second) = >>=-eq-ok (write_result run_id item user_id old) _ db h in
    let valid = write_result-IsValid run_id user_id item old tr db mid v first in
    let (found, status, comment, history, now, cases) =
      write_result-live_result run_id user_id item old tr db mid e first in
    let (same, flag, results, kept, rows) =
      record_history_step (should_record_history old tr) tr user_id res changed mid db' second in
    rw (sym same) (ground arith, status, comment, ground arith, ground arith, rw results valid)

get_result-reads :
    (id : ℕ) (tr : TestResult) (db db' : Db)
    → get_result id db ≡ ok (tr, db')
    → (db' ≡ db) × (find? (λ r. r.id == id && is_none r.deleted_at) db.results.rows ≡ some tr)
unfolding get_result
get_result-reads id tr db db' h =
    elim (Option-cases (find? (λ r. r.id == id && is_none r.deleted_at) db.results.rows)) [
      | inl e ↦ absurd (ground arith)
      | inr (r, e) ↦ (ground arith, ground arith)
    ]

pub get_run-reads :
    (id : ℕ) (run : TestRun) (db db' : Db) → get_run id false db ≡ ok (run, db') → db' ≡ db
unfolding get_run
get_run-reads id run db db' h = elim (Option-cases (find? (is_live_run id) db.runs.rows)) [
  | inl e ↦ absurd (ground arith)
  | inr (r, e) ↦ ground arith
]

pub get_case-reads :
    (id : ℕ) (case : TestCase) (db db' : Db) → get_case id db ≡ ok (case, db') → db' ≡ db
unfolding get_case
get_case-reads id case db db' h =
    elim (Option-cases (find? (λ c. c.id == id && is_none c.deleted_at) db.cases.rows)) [
      | inl e ↦ absurd (ground arith)
      | inr (r, e) ↦ ground arith
    ]

pub validate_step_results-reads :
    (case : TestCase) (steps : Option (List StepResult)) (u : Unit {0}) (db db' : Db)
    → validate_step_results case steps db ≡ ok (u, db')
    → db' ≡ db
unfolding validate_step_results
validate_step_results-reads case none u db db' h = ground arith
validate_step_results-reads case (some steps) u db db' h =
    elim (Bool-cases (steps_fit (length case.steps) [] steps)) [
      | inl e ↦ ground arith
      | inr e ↦ absurd (ground arith)
    ]

transition_step :
    (changed : Bool) (run_id user_id : ℕ) (u : Unit {0}) (db db' : Db)
    → when changed (transition_to_active run_id (some user_id) >> pure tt) db ≡ ok (u, db')
    → (db'.results ≡ db.results) × (db'.history ≡ db.history) × (db'.cases ≡ db.cases)
transition_step false run_id user_id u db db' h = ground arith
transition_step true run_id user_id u db db' h =
    let (started, mid, first, rest) =
      >>=-eq-ok (transition_to_active run_id (some user_id)) (λ _. pure tt) db h in
    let same : mid ≡ db' = ground arith in
    rw (sym same) (transition_to_active-keeps run_id (some user_id) started db mid first)

pub finish_submit-lem :
    (run_id user_id : ℕ) (written : TestResult × Bool) (tr : TestResult) (db db' : Db)
    → finish_submit run_id user_id written db ≡ ok (tr, db')
    → (find? (λ r. r.id == written.0.id && is_none r.deleted_at) db.results.rows ≡ some tr)
      × (db'.results ≡ db.results)
      × (db'.history ≡ db.history)
      × (db'.cases ≡ db.cases)
unfolding finish_submit publish_result_update
finish_submit-lem run_id user_id written tr db db' h =
    let (res, db1, h1, k1) = >>=-eq-ok (get_result written.0.id) _ db h in
    let (u, db2, h2, k2) =
      >>=-eq-ok (when written.1 (transition_to_active run_id (some user_id) >> pure tt)) _ db1 k1 in
    let (run, db3, h3, k3) = >>=-eq-ok (get_run run_id false) _ db2 k2 in
    let (same1, found) = get_result-reads written.0.id res db db1 h1 in
    let (results, history, cases) = transition_step written.1 run_id user_id u db1 db2 h2 in
    let same3 = get_run-reads run_id run db2 db3 h3 in
    (ground arith, ground arith, ground arith, ground arith)

pub submit-writes :
    (run_id user_id : ℕ) (item : TestResultCreate) (tr : TestResult) (db db' : Db)
    → submit run_id item user_id db ≡ ok (tr, db')
    → (written : TestResult × Bool) × (mid : Db) × (write_with_history run_id item user_id
          (live_result run_id item.case_id db)
          db
        ≡ ok (written, mid))
      × (finish_submit run_id user_id written mid ≡ ok (tr, db'))
unfolding submit
submit-writes run_id user_id item tr db db' h =
    let (run, db1, h1, k1) = >>=-eq-ok (get_run run_id false) _ db h in
    let (case, db2, h2, k2) = >>=-eq-ok (get_case item.case_id) _ db1 k1 in
    let (u, db3, h3, k3) = >>=-eq-ok (validate_step_results case item.step_results) _ db2 k2 in
    let same : db3 ≡ db =
      validate_step_results-reads case item.step_results u db2 db3 h3
      ∙ get_case-reads item.case_id case db1 db2 h2
      ∙ get_run-reads run_id run db db1 h1 in
    >>=-eq-ok (write_with_history run_id item user_id (live_result run_id item.case_id db))
      (finish_submit run_id user_id) db
      (subst
        (λ d.
          (write_with_history run_id item user_id (live_result run_id item.case_id d)
              >>= finish_submit run_id user_id)
            d
          ≡ ok (tr, db'))
        same k3)

-- the same in the words of the code
pub submit-leaves :
    (run_id user_id : ℕ) (item : TestResultCreate) (tr : TestResult) (db db' : Db)
    → IsValid db.results
    → submit run_id item user_id db ≡ ok (tr, db')
    → (live_result run_id item.case_id db' ≡ some tr)
      × (get_result tr.id db' ≡ ok (tr, db'))
      × (tr.status ≡ normalise_status item.status)
      × (tr.comment ≡ item.comment)
      × (db'.history.rows ≡ history_after (live_result run_id item.case_id db) tr user_id db)
      × IsValid db'.results
unfolding get_result
submit-leaves run_id user_id item tr db db' v h =
    let (written, mid, first, last) = submit-writes run_id user_id item tr db db' h in
    let (found, status, comment, flag, history, valid) =
      write_with_history-lem run_id user_id item (live_result run_id item.case_id db) written.0
        written.1 db mid refl v first in
    let (again, results, kept, cases) = finish_submit-lem run_id user_id written tr mid db' last in
    let by_key = λ (r : TestResult). r.id == written.0.id && is_none r.deleted_at in
    let unique : count by_key mid.results.rows ≤ 1 = omega (
      arith,
      valid.1 written.0.id,
      count_mono by_key (λ r. r.id == written.0.id) mid.results.rows (λ r t. ground arith),
    ) in
    let fits = find?-some (is_live_result_of run_id item.case_id) mid.results.rows found in
    let by_id : find? by_key mid.results.rows ≡ some written.0 =
      find?-by_key by_key (is_live_result_of run_id item.case_id) mid.results.rows unique found
        (ground arith) in
    let same : tr ≡ written.0 = ground arith in
    (
      rw results (rw same found),
      ground arith,
      ground arith,
      ground arith,
      rw kept (rw same history),
      rw results valid,
    )

-- A submission writes no case.
pub submit-cases :
    (run_id user_id : ℕ) (item : TestResultCreate) (tr : TestResult) (db db' : Db)
    → submit run_id item user_id db ≡ ok (tr, db')
    → db'.cases ≡ db.cases
unfolding write_with_history
submit-cases run_id user_id item tr db db' h =
    let (written, mid, first, last) = submit-writes run_id user_id item tr db db' h in
    let (again, results, kept, cases) = finish_submit-lem run_id user_id written tr mid db' last in
    let old = live_result run_id item.case_id db in
    let (res, mid', first', second') =
      >>=-eq-ok (write_result run_id item user_id old) _ db first in
    let (found, status, comment, history, now, cases') =
      write_result-live_result run_id user_id item old res db mid' refl first' in
    let (same, flag, results', kept', rows) =
      record_history_step (should_record_history old res) res user_id written.0 written.1 mid' mid
        second' in
    cases ∙ kept' ∙ cases'
