-- ===== src/Reports/Joined.antt =====
-- The join of cases with suites in `get_run_report` of app/services/report_service.py, against the
-- scope of an automatic run in app/services/test_result_service.py.
use api_testoria.Base.{
  ℕ, ◌≤◌, ◌≡◌, refl, inl, inr, Bool, true, ◌&&◌, List, [], ◌∷◌, arith, ◌==◌, if◌then◌else◌, is_none,
  length, select, any, count, elem, count-append, count_mono, count_of_any, Bool-cases,
}
use api_testoria.Db.{Db, TestCase, TestSuite, TestRun}
use api_testoria.Scope.{is_auto_case, case_ids, in_suite}
use api_testoria.Statistics.{with_suites, join_suites}
use api_testoria.Reports.RunReport.{is_reported}

-- No two suites have one id.
abbrev pub HasUniqueSuites : List TestSuite → Type 0
HasUniqueSuites suites = (k : ℕ) → count (λ s. s.id == k) suites ≤ 1

-- No two cases have one id.
abbrev pub HasUniqueCases : List TestCase → Type 0
HasUniqueCases cases = (k : ℕ) → count (λ c. c.id == k) cases ≤ 1

pub one_of_any :
    {A : Type 0} (p : A → Bool) (xs : List A)
    → count p xs ≤ 1
    → count p xs ≡ (if any p xs then 1 else 0)
one_of_any p [] h = refl
one_of_any p (x ∷ xs) h = elim (Bool-cases (any p xs)) [
  | inl e ↦ ground (arith, one_of_any p xs)
  | inr e ↦ ground (arith, count_of_any p xs e)
]

-- the suite that makes a case an automatic one of a run
abbrev is_suite_of : TestRun → TestCase → TestSuite → Bool
is_suite_of run c s = s.id == c.suite_id && (s.project_id == run.project_id && is_none s.deleted_at)

count-with_suites :
    (p : TestCase → Bool) (run : TestRun) (c : TestCase) (suites : List TestSuite)
    → count (λ j. p j.0 && is_reported run j) (with_suites c suites) ≡ (
        if p c && (is_none c.deleted_at && in_suite run.suite_id c.suite_id)
        then count (is_suite_of run c) suites
        else 0)
count-with_suites p run c [] = ground arith
count-with_suites p run c (s ∷ suites) = ground (arith, count-with_suites p run c suites)

count-of_case :
    (p : TestCase → Bool) (run : TestRun) (c : TestCase) (db : Db)
    → HasUniqueSuites db.suites.rows
    → count (λ j. p j.0 && is_reported run j) (with_suites c db.suites.rows)
      ≡ (if p c && is_auto_case db run c then 1 else 0)
unfolding is_auto_case
count-of_case p run c db uniq =
    let few : count (is_suite_of run c) db.suites.rows ≤ 1 = omega (
      arith,
      uniq c.suite_id,
      count_mono (is_suite_of run c) (λ s. s.id == c.suite_id) db.suites.rows
          (λ s e. ground (arith, e)),
    ) in
    ground (
      arith,
      count-with_suites p run c db.suites.rows,
      one_of_any (is_suite_of run c) db.suites.rows few,
    )

-- The rows of the report's join stand for the cases in the scope, each once.
pub count-join_suites :
    (p : TestCase → Bool) (run : TestRun) (cases : List TestCase) (db : Db)
    → HasUniqueSuites db.suites.rows
    → count (λ j. p j.0 && is_reported run j) (join_suites cases db.suites.rows)
      ≡ count (λ c. p c && is_auto_case db run c) cases
count-join_suites p run [] db uniq = refl
count-join_suites p run (c ∷ cases) db uniq = ground (
  arith,
  count-append (λ j. p j.0 && is_reported run j) (with_suites c db.suites.rows)
      (join_suites cases db.suites.rows),
  count-of_case p run c db uniq,
  count-join_suites p run cases db uniq,
)

pub elem-case_ids :
    (q : TestCase → Bool) (k : ℕ) (cases : List TestCase)
    → elem k (case_ids (select q cases)) ≡ any (λ c. c.id == k && q c) cases
elem-case_ids q k [] = refl
elem-case_ids q k (c ∷ cases) = ground (arith, elem-case_ids q k cases)

pub length-case_ids :
    (q : TestCase → Bool) (cases : List TestCase)
    → length (case_ids (select q cases)) ≡ count q cases
length-case_ids q [] = refl
length-case_ids q (c ∷ cases) = ground (arith, length-case_ids q cases)

pub length-select :
    {A : Type 0} (q : A → Bool) (xs : List A) → length (select q xs) ≡ count (λ x. true && q x) xs
length-select q [] = refl
length-select q (x ∷ xs) = ground (arith, length-select q xs)
