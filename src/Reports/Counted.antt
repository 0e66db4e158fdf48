-- ===== src/Reports/Counted.antt =====
-- The rows of `get_run_report` of app/services/report_service.py, counted by the results of the run.
use api_testoria.Base.{
  ℕ, ◌+◌, ◌≤◌, ◌≡◌, refl, true, ◌&&◌, List, [], ◌∷◌, arith, ◌==◌, if◌then◌else◌, is_none, length,
  select, count, elem, count-append, length-append, count-select, count_mono,
}
use api_testoria.Db.{TestCase, TestSuite, TestResult, ResultStatus}
use api_testoria.Progress.{with_status, scoped_results}
use api_testoria.Reports.Joined.{length-select}
use api_testoria.Reports.RunReport.{result_on, with_each, outer_join, report_cases, has_status}

abbrev pub Joined : Type 0
Joined = List (TestCase × TestSuite)

-- How often a case stands among the rows of the join.
abbrev pub times : ℕ → Joined → ℕ
times case_id js = count (λ j. j.0.id == case_id) js

has_status-with_each :
    (status : ResultStatus) (j : TestCase × TestSuite) (rows : List TestResult)
    → count (has_status status) (with_each j rows) ≡ count (with_status status) rows
has_status-with_each status j [] = refl
has_status-with_each status j (r ∷ rows) = ground (arith, has_status-with_each status j rows)

has_status-outer_join :
    (status : ResultStatus) (j : TestCase × TestSuite) (rows : List TestResult)
    → count (has_status status) (outer_join j rows) ≡ count (with_status status) rows
has_status-outer_join status j [] = refl
has_status-outer_join status j (r ∷ rows) = has_status-with_each status j (r ∷ rows)

-- The results of a status that the rows of the join have, each as often as its case is there.
pub on_rows : ResultStatus → ℕ → Joined → List TestResult → ℕ
on_rows status run_id [] results = 0
on_rows status run_id (j ∷ js) results =
    count (λ r. with_status status r && result_on run_id j.0 r) results
    + on_rows status run_id js results

pub count-report_cases :
    (status : ResultStatus) (run_id : ℕ) (js : Joined) (results : List TestResult)
    → count (has_status status) (report_cases run_id results js) ≡ on_rows status run_id js results
unfolding on_rows
count-report_cases status run_id [] results = refl
count-report_cases status run_id (j ∷ js) results =
    let own = select (result_on run_id j.0) results in
    omega (
      arith,
      count-append (has_status status) (outer_join j own) (report_cases run_id results js),
      has_status-outer_join status j own,
      count-select (with_status status) (result_on run_id j.0) results,
      count-report_cases status run_id js results,
    )

on_rows-empty : (status : ResultStatus) (run_id : ℕ) (js : Joined) → on_rows status run_id js [] ≡ 0
unfolding on_rows
on_rows-empty status run_id [] = refl
on_rows-empty status run_id (j ∷ js) = ground (arith, on_rows-empty status run_id js)

on_rows-cons :
    (status : ResultStatus) (run_id : ℕ) (js : Joined) (r : TestResult) (results : List TestResult)
    → on_rows status run_id js (r ∷ results)
      ≡ (if with_status status r && (r.run_id == run_id && is_none r.deleted_at)
          then times r.case_id js
          else 0)
        + on_rows status run_id js results
unfolding on_rows
on_rows-cons status run_id [] r results = ground arith
on_rows-cons status run_id (j ∷ js) r results =
    ground (arith, on_rows-cons status run_id js r results)

-- With every case of the scope in the join once and no other, a result counts once if it is in the
-- scope.
pub on_rows-scoped :
    (status : ResultStatus) (run_id : ℕ) (scope : List ℕ) (js : Joined) (results : List TestResult)
    → ((k : ℕ) → times k js ≡ (if elem k scope then 1 else 0))
    → on_rows status run_id js results
      ≡ count (with_status status) (scoped_results run_id scope results)
on_rows-scoped status run_id scope js [] h = on_rows-empty status run_id js
on_rows-scoped status run_id scope js (r ∷ results) h = ground (
  arith,
  on_rows-cons status run_id js r results,
  on_rows-scoped status run_id scope js results h,
  h r.case_id,
)

length-outer_join :
    (j : TestCase × TestSuite) (rows : List TestResult)
    → length rows ≤ 1
    → length (outer_join j rows) ≡ 1
length-outer_join j [] h = refl
length-outer_join j (r ∷ []) h = refl
length-outer_join j (r ∷ s ∷ rows) h = absurd (omega (arith, h))

-- A case has at most one result in a run.
abbrev pub HasUniqueResults : List TestResult → Type 0
HasUniqueResults results =
    (run_id case_id : ℕ) → count (λ r. r.run_id == run_id && r.case_id == case_id) results ≤ 1

pub length-report_cases :
    (run_id : ℕ) (js : Joined) (results : List TestResult)
    → HasUniqueResults results
    → length (report_cases run_id results js) ≡ length js
length-report_cases run_id [] results uniq = refl
length-report_cases run_id (j ∷ js) results uniq =
    let own = select (result_on run_id j.0) results in
    let one : length own ≤ 1 = omega (
      arith,
      length-select (result_on run_id j.0) results,
      count_mono (λ r. true && result_on run_id j.0 r)
          (λ r. r.run_id == run_id && r.case_id == j.0.id) results (λ r e. ground (arith, e)),
      uniq run_id j.0.id,
    ) in
    omega (
      arith,
      length-append (outer_join j own) (report_cases run_id results js),
      length-outer_join j own one,
      length-report_cases run_id js results uniq,
    )
