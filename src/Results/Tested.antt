-- ===== src/Results/Tested.antt =====
-- Who tested what, after `submit` of app/services/test_result_service.py.
use api_testoria.Base.{
  ℕ, ◌≡◌, refl, inl, inr, Bool, true, ◌&&◌, Option, none, some, List, [], ◌∷◌, arith, ok, find?,
  find?-some, any, update_where, ◌==◌, eq_option, any-append, Bool-cases, >>=-eq-ok, ◌∙◌,
}
use api_testoria.Db.{Db, TestResult}
use api_testoria.Results.{
  TestResultCreate, submit, write_result, write_with_history, should_record_history, filled,
  new_result, is_taken, is_live_result_of,
}
use api_testoria.Results.Writing.{
  live_result, write_result-live_result, record_history_step, finish_submit-lem, submit-writes,
}

-- a live result of a case in a run that a user tested
abbrev pub is_tested : ℕ → ℕ → ℕ → TestResult → Bool
is_tested run_id user_id case_id r =
    is_live_result_of run_id case_id r && eq_option r.tested_by (some user_id)

any-find? :
    (p q : TestResult → Bool) (x : TestResult) (rows : List TestResult)
    → find? p rows ≡ some x
    → ((p x && q x) ≡ true)
    → any (λ r. p r && q r) rows ≡ true
any-find? p q x [] h e = absurd (ground arith)
any-find? p q x (r ∷ rows) h e = elim (Bool-cases (p r)) [
  | inl t ↦ let same : r ≡ x = ground arith in rw same (ground arith)
  | inr t ↦ ground (arith, any-find? p q x rows (ground arith) e)
]

-- An update that takes no row out of a selection.
any-update_where_grown :
    (q p : TestResult → Bool) (f : TestResult → TestResult) (rows : List TestResult)
    → ((r : TestResult) → q r ≡ true → q (f r) ≡ true)
    → any q rows ≡ true
    → any q (update_where p f rows) ≡ true
any-update_where_grown q p f [] h e = e
any-update_where_grown q p f (r ∷ rows) h e = elim (Bool-cases (q r)) [
  | inl t ↦ ground (arith, h r)
  | inr t ↦ ground (arith, any-update_where_grown q p f rows h)
]

write_result-kept :
    (run_id user_id case_id : ℕ) (item : TestResultCreate) (old : Option TestResult)
    (res : TestResult) (db db' : Db)
    → write_result run_id item user_id old db ≡ ok (res, db')
    → any (is_tested run_id user_id case_id) db.results.rows ≡ true
    → any (is_tested run_id user_id case_id) db'.results.rows ≡ true
unfolding write_result
write_result-kept run_id user_id case_id item none res db db' h e =
    elim (Bool-cases (is_taken run_id item.case_id db)) [
      | inl t ↦ absurd (ground arith)
      | inr t ↦
          let row = new_result run_id item user_id db.now db.results.next_id in
          ground (arith, any-append (is_tested run_id user_id case_id) db.results.rows (row ∷ []))
    ]
write_result-kept run_id user_id case_id item (some old) res db db' h e =
    let kept =
      any-update_where_grown (is_tested run_id user_id case_id) (λ r. r.id == old.id)
        (filled item user_id db.now) db.results.rows (λ r t. ground arith) e in
    ground (arith, kept)

write_result-tested :
    (run_id user_id : ℕ) (item : TestResultCreate) (old : Option TestResult) (res : TestResult)
    (db db' : Db)
    → write_result run_id item user_id old db ≡ ok (res, db')
    → res.tested_by ≡ some user_id
unfolding write_result
write_result-tested run_id user_id item none res db db' h =
    elim (Bool-cases (is_taken run_id item.case_id db)) [
      | inl t ↦ absurd (ground arith)
      | inr t ↦ ground arith
    ]
write_result-tested run_id user_id item (some old) res db db' h = ground arith

-- After a submission the user has tested the case, and what was tested by the user still is.
pub submit-tested :
    (run_id user_id : ℕ) (item : TestResultCreate) (tr : TestResult) (db db' : Db)
    → submit run_id item user_id db ≡ ok (tr, db')
    → (any (is_tested run_id user_id item.case_id) db'.results.rows ≡ true)
      × ((case_id : ℕ)
          → any (is_tested run_id user_id case_id) db.results.rows ≡ true
          → any (is_tested run_id user_id case_id) db'.results.rows ≡ true)
unfolding write_with_history
submit-tested run_id user_id item tr db db' h =
    let (written, mid, first, last) = submit-writes run_id user_id item tr db db' h in
    let (again, results, kept, cases) = finish_submit-lem run_id user_id written tr mid db' last in
    let old = live_result run_id item.case_id db in
    let (res, mid', first', second') =
      >>=-eq-ok (write_result run_id item user_id old) _ db first in
    let (found, status, comment, history, now, cases') =
      write_result-live_result run_id user_id item old res db mid' refl first' in
    let (same, flag, results', kept', rows) =
      record_history_step (should_record_history old res) res user_id written.0 written.1 mid' mid
        second' in
    let there : db'.results ≡ mid'.results = results ∙ results' in
    let fits = find?-some (is_live_result_of run_id item.case_id) mid'.results.rows found in
    let own = write_result-tested run_id user_id item old res db mid' first' in
    (
      rw there (
          any-find? (is_live_result_of run_id item.case_id)
            (λ r. eq_option r.tested_by (some user_id)) res mid'.results.rows found (ground arith)),
      λ case_id e.
          rw there (write_result-kept run_id user_id case_id item old res db mid' first' e),
    )
