-- ===== src/Results/Equivalence.antt =====
-- `submit_many` of app/services/test_result_service.py as a sequence of the writes of `submit`.
use api_testoria.Base.{
  ℕ, ◌≤◌, ◌≡◌, refl, sym, ap, subst, ◌∙◌, inl, inr, Bool, true, false, ◌&&◌, List, [], ◌∷◌, ◌++◌,
  arith, find?, any, count, elem, ◌==◌, if◌then◌else◌, is_none, is_some, select, not_found, All,
  Bool-cases, find?-of_count_zero, count_mono, >>=-agree, raise_if-passes, bind_result, ◌>>◌, ◌>>=◌,
  pure, gets,
}
use api_testoria.Db.{Db, Query, TestCase, TestRun, TestResult}
use api_testoria.Runs.{get_run}
use api_testoria.Progress.{StatusCounts}
use api_testoria.Results.{
  TestResultCreate, get_case, validate_step_results, write_with_history, is_live_result_of,
}
use api_testoria.Results.Invariant.{IsValid}
use api_testoria.Results.Writing.{
  get_case-reads, get_run-reads, live_result, write_with_history-lem, validate_step_results-reads,
}
use api_testoria.Results.Agreement.{
  key_of, Agrees, existing_row-live_result, write_with_history-Agrees,
}
use api_testoria.Results.Bulk.{
  Existing, entries, item_ids, result_id_of, Tally, tallied, submit_items, live_cases, live_results,
  is_missing, submit_many, finish_many, empty_tally,
}

-- the reference: what `submit` does for one item, up to the history, for each item in turn
abbrev pub submit_each : ℕ → ℕ → List TestResultCreate → Tally → Query Tally
submit_each run_id user_id [] t = pure t
submit_each run_id user_id (item ∷ items) t = do
  case ← get_case item.case_id
  validate_step_results case item.step_results
  old ← gets (live_result run_id item.case_id)
  written ← write_with_history run_id item user_id old
  submit_each run_id user_id items (tallied written t)

find?-live_cases :
    (ids : List ℕ) (k : ℕ) (cs : List TestCase)
    → elem k ids ≡ true
    → find? (λ c. c.id == k) (select (λ c. elem c.id ids && is_none c.deleted_at) cs)
      ≡ find? (λ c. c.id == k && is_none c.deleted_at) cs
find?-live_cases ids k [] e = refl
find?-live_cases ids k (c ∷ cs) e = elim (Bool-cases (c.id == k)) [
  | inl t ↦
      let same : c.id ≡ k = ground arith in
      let known : elem c.id ids ≡ true = rw same e in
      ground (arith, known, find?-live_cases ids k cs)
  | inr t ↦ ground (arith, find?-live_cases ids k cs)
]

submit_items-each :
    (run_id user_id : ℕ) (ids : List ℕ) (cases : List TestCase) (items : List TestResultCreate)
    (existing : Existing) (t : Tally) (db : Db)
    → cases ≡ live_cases ids db
    → All (λ item. elem item.case_id ids ≡ true) items
    → IsValid db.results
    → Agrees run_id ids existing db.results
    → submit_items run_id user_id cases items existing t db ≡ submit_each run_id user_id items t db
unfolding submit_items get_case
submit_items-each run_id user_id ids cases [] existing t db c k v a = refl
submit_items-each run_id user_id ids cases (item ∷ items) existing t db c k v a =
    let same_case : find? (λ c. c.id == item.case_id) cases
        ≡ find? (λ c. c.id == item.case_id && is_none c.deleted_at) db.cases.rows =
      rw c (find?-live_cases ids item.case_id db.cases.rows k.0) in
    let same_row = existing_row-live_result run_id item.case_id ids existing db v a k.0 in
    rw same_case (
      >>=-agree (get_case item.case_id) _ _ db (λ case d1 h1.
        rw (get_case-reads item.case_id case db d1 h1) (
          >>=-agree (validate_step_results case item.step_results) _ _ db (λ u d2 h2.
            rw (validate_step_results-reads case item.step_results u db d2 h2) (
              rw same_row (
                >>=-agree
                  (write_with_history run_id item user_id (live_result run_id item.case_id db)) _ _
                  db
                  (λ written db' h3.
                    let (agrees, kept) =
                      write_with_history-Agrees run_id user_id item ids existing written.0 written.1
                        db db' a k.0 h3 in
                    let (found, status, comment, flag, history, valid) =
                      write_with_history-lem run_id user_id item
                        (live_result run_id item.case_id db) written.0 written.1 db db' refl v h3 in
                    submit_items-each run_id user_id ids cases items _ (tallied written t) db'
                      (c ∙ rw kept refl) k.1 valid agrees)))))))

result_id_of-append :
    (c : ℕ) (xs ys : Existing)
    → result_id_of c (xs ++ ys)
      ≡ (if is_some (result_id_of c xs) then result_id_of c xs else result_id_of c ys)
result_id_of-append c [] ys = refl
result_id_of-append c ((k, id) ∷ xs) ys = ground (arith, result_id_of-append c xs ys)

abbrev asked : ℕ → List ℕ → TestResult → Bool
asked run_id ids r = r.run_id == run_id && (elem r.case_id ids && is_none r.deleted_at)

-- The dictionary that `submit_many` starts with.
entries-Agrees :
    (run_id c : ℕ) (ids : List ℕ) (rows : List TestResult)
    → count (λ r. r.run_id == run_id && r.case_id == c) rows ≤ 1
    → elem c ids ≡ true
    → result_id_of c (entries (select (asked run_id ids) rows))
      ≡ key_of (find? (is_live_result_of run_id c) rows)
entries-Agrees run_id c ids [] one e = refl
entries-Agrees run_id c ids (r ∷ rows) one e = elim (Bool-cases (r.case_id == c)) [
  | inl t ↦
      let same : r.case_id ≡ c = ground arith in
      let known : elem r.case_id ids ≡ true = rw same e in
      let left : count (λ k. k.run_id == run_id && k.case_id == c) rows
          ≤ (if r.run_id == run_id then 0 else 1) =
        ground arith in
      let gone = λ (h : (r.run_id == run_id) ≡ true).
        find?-of_count_zero (is_live_result_of run_id c) rows (
          ground (
            arith,
            count_mono (is_live_result_of run_id c) (λ k. k.run_id == run_id && k.case_id == c) rows
                (λ k f. ground arith),
          )) in
      ground (
        arith,
        known,
        entries-Agrees run_id c ids rows,
        gone,
        result_id_of-append c (entries (select (asked run_id ids) rows)) ((r.case_id, r.id) ∷ []),
      )
  | inr t ↦ ground (
    arith,
    entries-Agrees run_id c ids rows,
    result_id_of-append c (entries (select (asked run_id ids) rows)) ((r.case_id, r.id) ∷ []),
  )
]

item_ids-All :
    (ids : List ℕ) (items : List TestResultCreate)
    → ((c : ℕ) → elem c (item_ids items) ≡ true → elem c ids ≡ true)
    → All (λ item. elem item.case_id ids ≡ true) items
item_ids-All ids [] h = tt
item_ids-All ids (item ∷ items) h =
    (h item.case_id (ground arith), item_ids-All ids items (λ c e. h c (ground arith)))

-- the reference for `submit_many`
abbrev pub submit_in_turn : ℕ → List TestResultCreate → ℕ → Query (ℕ × StatusCounts)
submit_in_turn run_id items user_id = do
  run ← get_run run_id false
  t ← submit_each run_id user_id items empty_tally
  finish_many run_id user_id run t

in_turn_after :
    (run_id user_id : ℕ) (items : List TestResultCreate) (ids : List ℕ) (run : TestRun) (db : Db)
    → All (λ item. elem item.case_id ids ≡ true) items
    → IsValid db.results
    → (submit_items run_id user_id
            (live_cases ids db)
            items
            (entries (live_results run_id ids db))
            empty_tally
          >>= finish_many run_id user_id run)
        db
      ≡ (submit_each run_id user_id items empty_tally >>= finish_many run_id user_id run) db
in_turn_after run_id user_id items ids run db k v =
    ap (λ r. bind_result r (finish_many run_id user_id run))
      (submit_items-each run_id user_id ids (live_cases ids db) items
        (entries (live_results run_id ids db)) empty_tally db refl k v
        (λ c e. entries-Agrees run_id c ids db.results.rows (v.2 run_id c) e))

-- Over a well-formed table of results, and if the live cases have every case of the request, the
-- bulk submission, whose dictionary is filled by one query at the start, does what the items do one
-- after the other with the queries and writes of `submit`; it raises the same errors, and starts the
-- run once if any of the items changed something.
pub submit_many-in_turn :
    (run_id user_id : ℕ) (item : TestResultCreate) (items : List TestResultCreate) (db : Db)
    → IsValid db.results
    → any (is_missing (live_cases (item_ids (item ∷ items)) db)) (item ∷ items) ≡ false
    → submit_many run_id (item ∷ items) user_id db ≡ submit_in_turn run_id (item ∷ items) user_id db
unfolding submit_many
submit_many-in_turn run_id user_id item items db v m =
    let ids = item_ids (item ∷ items) in
    >>=-agree (get_run run_id false) _ _ db (λ run d h.
      let same = sym (get_run-reads run_id run db d h) in
      raise_if-passes (any (is_missing (live_cases ids d)) (item ∷ items)) not_found _ d
        (subst (λ x. any (is_missing (live_cases ids x)) (item ∷ items) ≡ false) same m)
      ∙ in_turn_after run_id user_id (item ∷ items) ids run d
          (item_ids-All ids (item ∷ items) (λ c e. e)) (subst (λ x. IsValid x.results) same v))
