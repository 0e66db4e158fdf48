-- ===== src/Progress/Batch.antt =====
-- `batch_run_progress` of app/services/test_run_service.py against `get_progress`.
use api_testoria.Base.{
  ℕ, Bool, false, ◌&&◌, ◌==◌, ◌≡◌, refl, List, [], ◌∷◌, arith, length, count, any, elem, select,
  is_none, ok, ap, pure, ◌>>=◌, All, sym, inl, inr, Bool-cases,
}
use api_testoria.Db.{Db, Query, TestCase, TestRun, TestResult, RunCase, CasesMode, auto, explicit}
use api_testoria.Runs.{get_run}
use api_testoria.Scope.{scope_of, run_scope_case_ids, member_ids, case_ids, is_auto_case}
use api_testoria.Progress.{
  scoped_results, batch_results, batch_total, run_progress, batch_run_progress, get_progress,
  summarise, group_by_status, TestRunProgress,
}

length-member_ids :
    (p : RunCase → Bool) (ms : List RunCase) → length (member_ids (select p ms)) ≡ count p ms
length-member_ids p [] = refl
length-member_ids p (m ∷ ms) = ground (arith, length-member_ids p ms)

elem-member_ids :
    (p : RunCase → Bool) (case_id : ℕ) (ms : List RunCase)
    → elem case_id (member_ids (select p ms)) ≡ any (λ m. p m && m.case_id == case_id) ms
elem-member_ids p case_id [] = refl
elem-member_ids p case_id (m ∷ ms) = ground (arith, elem-member_ids p case_id ms)

length-case_ids : (cs : List TestCase) → length (case_ids cs) ≡ length cs
length-case_ids [] = refl
length-case_ids (c ∷ cs) = ground (arith, length-case_ids cs)

pub select-agree :
    {A : Type 0} (p q : A → Bool) (xs : List A) → ((x : A) → p x ≡ q x) → select p xs ≡ select q xs
select-agree p q [] h = refl
select-agree p q (x ∷ xs) h = ground (arith, h x, select-agree p q xs h)

-- the reference: one `get_progress` for each run
abbrev pub each_progress : List TestRun → Query (List (ℕ × TestRunProgress))
each_progress [] = pure []
each_progress (run ∷ rest) = do
  progress ← get_progress run.id
  others ← each_progress rest
  pure ((run.id, progress) ∷ others)

-- Joined with test_run_test_cases, a result of the run is one on a member of the run.
joined :
    (db : Db) (run : TestRun) (r : TestResult)
    → (r.run_id == run.id
        && (elem r.case_id (member_ids (select (λ m. m.run_id == run.id) db.run_cases))
            && is_none r.deleted_at))
      ≡ (any (λ m. m.run_id == r.run_id && m.case_id == r.case_id) db.run_cases
          && (r.run_id == run.id && is_none r.deleted_at))
joined db run r = elim (Bool-cases (r.run_id == run.id)) [
  | inl e ↦
      let same : r.run_id ≡ run.id = ground arith in
      rw same (ground (arith, elem-member_ids (λ m. m.run_id == run.id) r.case_id db.run_cases))
  | inr e ↦ ground arith
]

summarise-scope :
    (mode : CasesMode) (db : Db) (run : TestRun)
    → summarise
        (group_by_status (scoped_results run.id (scope_of mode db run) db.results.rows))
        (length (scope_of mode db run))
      ≡ summarise (group_by_status (batch_results mode db run)) (batch_total mode db run)
summarise-scope auto db run = rw (length-case_ids (select (is_auto_case db run) db.cases.rows)) refl
summarise-scope explicit db run =
    rw (length-member_ids (λ m. m.run_id == run.id) db.run_cases)
      (rw (select-agree _ _ db.results.rows (joined db run)) refl)

get_progress-run_progress :
    (db : Db) (run : TestRun)
    → get_run run.id false db ≡ ok (run, db)
    → get_progress run.id db ≡ ok (run_progress db run, db)
unfolding get_progress run_scope_case_ids
get_progress-run_progress db run h =
    rw h (ap (λ p. ok (p, db)) (summarise-scope run.cases_mode db run))

-- For runs that a query for each of them finds, the batch returns for each run what `get_progress`
-- returns for it, in the order of the runs.
pub batch_run_progress-each :
    (db : Db) (runs : List TestRun)
    → All (λ run. get_run run.id false db ≡ ok (run, db)) runs
    → batch_run_progress runs db ≡ each_progress runs db
unfolding batch_run_progress
batch_run_progress-each db [] h = refl
batch_run_progress-each db (run ∷ rest) h =
    let others = batch_run_progress-each db rest h.1 in
    rw (get_progress-run_progress db run h.0) (rw (sym others) refl)
