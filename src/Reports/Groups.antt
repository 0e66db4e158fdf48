-- ===== src/Reports/Groups.antt =====
-- The grouped query of `_aggregate_run_status_counts`, app/services/report_service.py.
use api_testoria.Base.{
  ℕ, suc, ◌+◌, ◌≤◌, ◌≡◌, refl, inl, inr, Bool, true, false, ◌&&◌, List, [], ◌∷◌, arith, ◌==◌,
  if◌then◌else◌, count, Bool-cases,
}
use api_testoria.Db.{TestResult, ResultStatus}
use api_testoria.Progress.Statuses.{status_eq_sym, status_eq_refl}
use api_testoria.Progress.{result_status_eq, with_status}
use api_testoria.Reports.{Groups, add_result, group_results}

abbrev pub is_group : ℕ → ResultStatus → ℕ × (ResultStatus × ℕ) → Bool
is_group id status g = g.0 == id && result_status_eq g.1.0 status

-- The count of the first group of a run and a status.
unfoldable pub group_count : ℕ → ResultStatus → Groups → ℕ
group_count id status [] = 0
group_count id status ((k, (s, n)) ∷ rest) =
    if k == id && result_status_eq s status then n else group_count id status rest

unfoldable pub sum_of : ℕ → Groups → ℕ
sum_of id [] = 0
sum_of id ((k, (s, n)) ∷ rest) = (if k == id then n else 0) + sum_of id rest

group_count-add_result :
    (id k : ℕ) (st s : ResultStatus) (g : Groups)
    → group_count id st (add_result k s g)
      ≡ group_count id st g + (if k == id && result_status_eq s st then 1 else 0)
unfolding group_count
group_count-add_result id k st s [] = ground arith
group_count-add_result id k st s ((j, (t, n)) ∷ g) =
    ground (arith, status_eq_sym t s, group_count-add_result id k st s g)

sum_of-add_result :
    (id k : ℕ) (s : ResultStatus) (g : Groups)
    → sum_of id (add_result k s g) ≡ sum_of id g + (if k == id then 1 else 0)
unfolding sum_of
sum_of-add_result id k s [] = ground arith
sum_of-add_result id k s ((j, (t, n)) ∷ g) = ground (arith, sum_of-add_result id k s g)

-- Two statuses that are equal to a third.
status_eq_join :
    (t s st : ResultStatus)
    → result_status_eq t st ≡ true
    → result_status_eq s st ≡ true
    → result_status_eq t s ≡ true
status_eq_join t s st h k =
    let left : t ≡ st = status_eq_sym t st h in
    let right : s ≡ st = status_eq_sym s st k in rw (left, right) (status_eq_refl st)

-- Two groups of which one fits a run and a status, and that are apart.
apart_group :
    (id j k : ℕ) (st s t : ResultStatus)
    → (j == k && result_status_eq t s) ≡ false
    → (j == id && result_status_eq t st) ≡ true
    → (k == id && result_status_eq s st) ≡ false
apart_group id j k st s t n h = ground (arith, status_eq_join t s st)

-- A group that grows, and a group that is passed by, in the count of those that fit.
grown :
    (m : Bool) (c : ℕ)
    → (if m then suc c else c)
      ≡ (if m && (if m then suc c else c) == 0 then 1 else if m then suc c else c)
grown true c = ground arith
grown false c = refl

passed_by :
    (m h : Bool) (c : ℕ)
    → (h ≡ true → m ≡ false)
    → (if h then suc (if m && c == 0 then 1 else c) else if m && c == 0 then 1 else c)
      ≡ (if m && (if h then suc c else c) == 0 then 1 else if h then suc c else c)
passed_by true true c f = let no_way : true ≡ false = f refl in cc
passed_by true false c f = refl
passed_by false true c f = refl
passed_by false false c f = refl

count-add_result :
    (id k : ℕ) (st s : ResultStatus) (g : Groups)
    → count (is_group id st) (add_result k s g) ≡ (
        if (k == id && result_status_eq s st) && count (is_group id st) g == 0
        then 1
        else count (is_group id st) g)
count-add_result id k st s [] = ground arith
count-add_result id k st s ((j, (t, n)) ∷ g) = elim (Bool-cases (j == k && result_status_eq t s)) [
  | inl e ↦
      let own_id : j ≡ k = ground arith in
      let own : t ≡ s = status_eq_sym t s (ground arith) in
      rw e (rw (own_id, own) (grown (k == id && result_status_eq s st) (count (is_group id st) g)))
  | inr e ↦
      rw (e, count-add_result id k st s g)
        (passed_by (k == id && result_status_eq s st) (j == id && result_status_eq t st)
          (count (is_group id st) g) (apart_group id j k st s t e))
]

-- A group for each run and status at most.
pub one_group :
    (id : ℕ) (st : ResultStatus) (rows : List TestResult)
    → count (is_group id st) (group_results rows) ≤ 1
unfolding group_results
one_group id st [] = omega arith
one_group id st (r ∷ rows) =
    ground
      (arith, one_group id st rows, count-add_result id r.run_id st r.status (group_results rows))

pub group_count-group_results :
    (id : ℕ) (st : ResultStatus) (rows : List TestResult)
    → group_count id st (group_results rows) ≡ count (λ r. r.run_id == id && with_status st r) rows
unfolding group_results group_count
group_count-group_results id st [] = refl
group_count-group_results id st (r ∷ rows) = ground (
  arith,
  group_count-add_result id r.run_id st r.status (group_results rows),
  group_count-group_results id st rows,
)

pub sum_of-group_results :
    (id : ℕ) (rows : List TestResult)
    → sum_of id (group_results rows) ≡ count (λ r. r.run_id == id) rows
unfolding group_results sum_of
sum_of-group_results id [] = refl
sum_of-group_results id (r ∷ rows) = ground (
  arith,
  sum_of-add_result id r.run_id r.status (group_results rows),
  sum_of-group_results id rows,
)
