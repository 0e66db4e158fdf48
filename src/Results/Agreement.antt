-- ===== src/Results/Agreement.antt =====
-- `submit_many` of app/services/test_result_service.py against the writes that `submit` makes, one
-- item after the other.
use api_testoria.Base.{
  ℕ, ◌≡◌, refl, sym, ap, ◌∙◌, inl, inr, Bool, true, false, Option, none, some, List, [], ◌∷◌, arith,
  ok, find?, elem, ◌==◌, find?-by_key, find?-update_where-some, find?-update_where-none,
  find?-append_none, find?-append_some, Bool-cases, Option-cases, >>=-eq-ok,
}
use api_testoria.Db.{Db, Table, TestResult}
use api_testoria.Results.{
  TestResultCreate, write_result, write_with_history, should_record_history, filled, new_result,
  is_taken, is_live_result_of,
}
use api_testoria.Results.Invariant.{IsValid}
use api_testoria.Results.Writing.{record_history_step, write_result-live_result, live_result}
use api_testoria.Results.Bulk.{Existing, result_id_of, existing_row, with_entry}

abbrev pub key_of : Option TestResult → Option ℕ
key_of none = none
key_of (some r) = some r.id

-- On the cases of the request, the dictionary says what the table says.
abbrev pub Agrees : ℕ → List ℕ → Existing → Table TestResult → Type 0
Agrees run_id ids existing t =
    (c : ℕ)
    → elem c ids ≡ true
    → result_id_of c existing ≡ key_of (find? (is_live_result_of run_id c) t.rows)

pub existing_row-live_result :
    (run_id c : ℕ) (ids : List ℕ) (existing : Existing) (db : Db)
    → IsValid db.results
    → Agrees run_id ids existing db.results
    → elem c ids ≡ true
    → existing_row existing c db ≡ live_result run_id c db
existing_row-live_result run_id c ids existing db v a e =
    elim (Option-cases (live_result run_id c db)) [
      | inl n ↦ ground (arith, a c e)
      | inr (r, s) ↦
          let same : result_id_of c existing ≡ some r.id = ground (arith, a c e) in
          rw same (
            find?-by_key (λ k. k.id == r.id) (is_live_result_of run_id c) db.results.rows (v.1 r.id)
              s (ground arith)
            ∙ sym s)
    ]

-- A write leaves what is found for the other cases.
write_result-others :
    (run_id c user_id : ℕ) (item : TestResultCreate) (old : Option TestResult) (res : TestResult)
    (db db' : Db)
    → (c == item.case_id) ≡ false
    → write_result run_id item user_id old db ≡ ok (res, db')
    → key_of (live_result run_id c db') ≡ key_of (live_result run_id c db)
unfolding write_result
write_result-others run_id c user_id item none res db db' ne h =
    elim (Bool-cases (is_taken run_id item.case_id db)) [
      | inl t ↦ absurd (ground arith)
      | inr t ↦
          let row = new_result run_id item user_id db.now db.results.next_id in
          elim (Option-cases (live_result run_id c db)) [
            | inl e ↦
                ground (
                  arith,
                  find?-append_none (is_live_result_of run_id c) db.results.rows (row ∷ []) e,
                )
            | inr (r, e) ↦
                ground (
                  arith,
                  find?-append_some (is_live_result_of run_id c) db.results.rows (row ∷ []) e,
                )
          ]
    ]
write_result-others run_id c user_id item (some old) res db db' ne h =
    let found = is_live_result_of run_id c in
    let hit = λ (r : TestResult). r.id == old.id in
    let f = filled item user_id db.now in
    elim (Option-cases (live_result run_id c db)) [
      | inl e ↦ ground (arith, find?-update_where-none found hit f db.results.rows (λ r t. refl) e)
      | inr (r, e) ↦
          ground (arith, find?-update_where-some found hit f db.results.rows (λ r t. refl) e)
    ]

write_result-id :
    (run_id user_id : ℕ) (item : TestResultCreate) (old : TestResult) (res : TestResult)
    (db db' : Db)
    → write_result run_id item user_id (some old) db ≡ ok (res, db')
    → res.id ≡ old.id
unfolding write_result
write_result-id run_id user_id item old res db db' h = ground arith

result_id_of-with_entry :
    (c case_id id : ℕ) (old : Option TestResult) (existing : Existing)
    → (c == case_id) ≡ false
    → result_id_of c (with_entry case_id id old existing) ≡ result_id_of c existing
result_id_of-with_entry c case_id id none existing ne = ground arith
result_id_of-with_entry c case_id id (some r) existing ne = refl

-- The entry of the case that was written names its row.
result_id_of-written :
    (run_id user_id : ℕ) (item : TestResultCreate) (old : Option TestResult) (existing : Existing)
    (res : TestResult) (db db' : Db)
    → result_id_of item.case_id existing ≡ key_of old
    → write_result run_id item user_id old db ≡ ok (res, db')
    → result_id_of item.case_id (with_entry item.case_id res.id old existing) ≡ some res.id
result_id_of-written run_id user_id item none existing res db db' e h = ground arith
result_id_of-written run_id user_id item (some old) existing res db db' e h =
    ground (arith, write_result-id run_id user_id item old res db db' h)

pub write_with_history-Agrees :
    (run_id user_id : ℕ) (item : TestResultCreate) (ids : List ℕ) (existing : Existing)
    (res : TestResult) (changed : Bool) (db db' : Db)
    → Agrees run_id ids existing db.results
    → elem item.case_id ids ≡ true
    → write_with_history run_id item user_id (live_result run_id item.case_id db) db
      ≡ ok ((res, changed), db')
    → Agrees run_id ids
        (with_entry item.case_id res.id (live_result run_id item.case_id db) existing)
        db'.results
      × (db'.cases ≡ db.cases)
unfolding write_with_history
write_with_history-Agrees run_id user_id item ids existing res changed db db' a known h =
    let old = live_result run_id item.case_id db in
    let (tr, mid, first, second) = >>=-eq-ok (write_result run_id item user_id old) _ db h in
    let (same, flag, results, kept, rows) =
      record_history_step (should_record_history old tr) tr user_id res changed mid db' second in
    let (found, status, comment, history, now, cases) =
      write_result-live_result run_id user_id item old tr db mid refl first in
    (
      rw results (
          rw (sym same) (λ c e. elim (Bool-cases (c == item.case_id)) [
            | inl t ↦
                let here : c ≡ item.case_id = ground arith in
                rw here (
                  result_id_of-written run_id user_id item old existing tr db mid
                    (a item.case_id known) first
                  ∙ sym (ap key_of found))
            | inr t ↦
                result_id_of-with_entry c item.case_id tr.id old existing t
                ∙ a c e
                ∙ sym (write_result-others run_id c user_id item old tr db mid t first)
          ])),
      kept ∙ cases,
    )
