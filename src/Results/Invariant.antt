-- ===== src/Results/Invariant.antt =====
-- The well-formedness of the table of results, app/models/test_result.py.
use api_testoria.Base.{
  ℕ, ◌+◌, ◌≤◌, ◌<◌, ◌≡◌, refl, inl, inr, false, ◌&&◌, Option, none, some, List, [], ◌∷◌, arith, ok,
  count, ◌==◌, All, All-append, All-update_where, count-append, count-update_where, count_of_any,
  Bool-cases,
}
use api_testoria.Db.{Db, Table, TestResult, update, insert}
use api_testoria.Results.{TestResultCreate, write_result, filled, new_result, is_taken}

-- The keys of a table are below the next one and unique, and no two rows, deleted ones included, are
-- of one run and case.
abbrev pub IsValid : Table TestResult → Type 0
IsValid t =
    All (λ r. r.id < t.next_id) t.rows
    × ((k : ℕ) → count (λ r. r.id == k) t.rows ≤ 1)
    × ((run_id case_id : ℕ) → count (λ r. r.run_id == run_id && r.case_id == case_id) t.rows ≤ 1)

count_of_fresh :
    (n : ℕ) (rows : List TestResult) → All (λ r. r.id < n) rows → count (λ r. r.id == n) rows ≡ 0
count_of_fresh n [] h = refl
count_of_fresh n (r ∷ rows) h = ground (arith, h.0, count_of_fresh n rows h.1)

raise_bound :
    (n : ℕ) (rows : List TestResult) → All (λ r. r.id < n) rows → All (λ r. r.id < n + 1) rows
raise_bound n [] h = tt
raise_bound n (r ∷ rows) h = (omega (arith, h.0), raise_bound n rows h.1)

-- A write, of a new result or over an old one, keeps the table well formed.
pub write_result-IsValid :
    (run_id user_id : ℕ) (item : TestResultCreate) (old : Option TestResult) (res : TestResult)
    (db db' : Db)
    → IsValid db.results
    → write_result run_id item user_id old db ≡ ok (res, db')
    → IsValid db'.results
unfolding write_result
write_result-IsValid run_id user_id item none res db db' v h =
    let free : is_taken run_id item.case_id db ≡ false =
      elim (Bool-cases (is_taken run_id item.case_id db)) [
        | inl e ↦ absurd (ground arith)
        | inr e ↦ e
      ] in
    let written : db'.results ≡ insert (new_result run_id item user_id db.now) db.results =
      ground arith in
    let fresh = count_of_fresh db.results.next_id db.results.rows v.0 in
    let row = new_result run_id item user_id db.now db.results.next_id in
    let none_yet = count_of_any _ db.results.rows free in
    rw written (
      All-append _ db.results.rows (row ∷ []) (raise_bound db.results.next_id db.results.rows v.0)
          (omega arith, tt),
      λ k. ground (arith, fresh, v.1 k, count-append (λ r. r.id == k) db.results.rows (row ∷ [])),
      λ a c. ground (
        arith,
        none_yet,
        v.2 a c,
        count-append (λ r. r.run_id == a && r.case_id == c) db.results.rows (row ∷ []),
      ),
    )
write_result-IsValid run_id user_id item (some old) res db db' v h =
    let f = filled item user_id db.now in
    let written : db'.results ≡ update (λ r. r.id == old.id) f db.results = ground arith in
    rw written (
      All-update_where _ _ f db.results.rows (λ r e b. b) v.0,
      λ k.
          rw
            (count-update_where (λ r. r.id == k) (λ r. r.id == old.id) f db.results.rows
              (λ r e. refl))
            (v.1 k),
      λ a c.
          rw
            (count-update_where (λ r. r.run_id == a && r.case_id == c) (λ r. r.id == old.id) f
              db.results.rows (λ r e. refl))
            (v.2 a c),
    )
