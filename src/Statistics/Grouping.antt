-- ===== src/Statistics/Grouping.antt =====
-- The grouped queries and dictionaries of `get_bulk_stats`, against counts for one project.
use api_testoria.Base.{
  ℕ, ◌+◌, ◌≡◌, refl, sym, ap, ◌∙◌, Bool, true, ◌&&◌, Option, none, some, List, [], ◌∷◌, ◌++◌, ◌==◌,
  if◌then◌else◌, is_none, arith, select, count, find?, All, inl, inr, Bool-cases, All-append,
}
use api_testoria.Db.{
  Db, TestCase, TestSuite, TestRun, RunStatus, planned, active, completed, aborted,
}
use api_testoria.Runs.{run_status_eq}
use api_testoria.Progress.{TestRunProgress, run_progress, progress_of}
use api_testoria.Statistics.{
  with_suites, join_suites, with_rate, rates_in, add_count, get_total, count_by, add_run,
  group_runs, total_by, rate_of, add_rate, put_rate, get_rates, fill_rates,
}

pub get_total-add_count :
    (id k n : ℕ) (d : List (ℕ × ℕ))
    → get_total id (add_count k n d) ≡ get_total id d + (if k == id then n else 0)
get_total-add_count id k n [] = ground arith
get_total-add_count id k n ((j, m) ∷ d) = ground (arith, get_total-add_count id k n d)

pub get_total-count_by :
    {A : Type 0} (key : A → ℕ) (id : ℕ) (xs : List A)
    → get_total id (count_by key xs) ≡ count (λ x. key x == id) xs
unfolding count_by
get_total-count_by key id [] = refl
get_total-count_by key id (x ∷ xs) =
    ground (arith, get_total-add_count id (key x) 1 (count_by key xs), get_total-count_by key id xs)

pub count-agree :
    {A : Type 0} (p q : A → Bool) (xs : List A) → All (λ x. p x ≡ q x) xs → count p xs ≡ count q xs
count-agree p q [] h = refl
count-agree p q (x ∷ xs) h = ground (arith, h.0, count-agree p q xs h.1)

-- How many of the grouped runs a project has, among those whose status is kept.
pub sum_groups : (RunStatus → Bool) → ℕ → List (ℕ × (RunStatus × ℕ)) → ℕ
sum_groups keep id [] = 0
sum_groups keep id ((k, (s, n)) ∷ rest) =
    sum_groups keep id rest + (if k == id && keep s then n else 0)

get_total-total_by :
    (keep : RunStatus → Bool) (id : ℕ) (groups : List (ℕ × (RunStatus × ℕ))) (acc : List (ℕ × ℕ))
    → get_total id (total_by keep groups acc) ≡ get_total id acc + sum_groups keep id groups
unfolding total_by sum_groups
get_total-total_by keep id [] acc = omega arith
get_total-total_by keep id ((k, (s, n)) ∷ rest) acc = elim (Bool-cases (keep s)) [
  | inl e ↦
      ground
        (arith, get_total-total_by keep id rest (add_count k n acc), get_total-add_count id k n acc)
  | inr e ↦ ground (arith, get_total-total_by keep id rest acc)
]

same_kept : (keep : RunStatus → Bool) (s t : RunStatus) → run_status_eq s t ≡ true → keep s ≡ keep t
same_kept keep planned planned h = refl
same_kept keep active active h = refl
same_kept keep completed completed h = refl
same_kept keep aborted aborted h = refl
same_kept keep planned active h = cc
same_kept keep planned completed h = cc
same_kept keep planned aborted h = cc
same_kept keep active planned h = cc
same_kept keep active completed h = cc
same_kept keep active aborted h = cc
same_kept keep completed planned h = cc
same_kept keep completed active h = cc
same_kept keep completed aborted h = cc
same_kept keep aborted planned h = cc
same_kept keep aborted active h = cc
same_kept keep aborted completed h = cc

sum_groups-add_run :
    (keep : RunStatus → Bool) (id k : ℕ) (s : RunStatus) (groups : List (ℕ × (RunStatus × ℕ)))
    → sum_groups keep id (add_run k s groups)
      ≡ sum_groups keep id groups + (if k == id && keep s then 1 else 0)
unfolding sum_groups
sum_groups-add_run keep id k s [] = ground arith
sum_groups-add_run keep id k s ((j, (t, n)) ∷ rest) =
    ground (arith, same_kept keep t s, sum_groups-add_run keep id k s rest)

sum_groups-group_runs :
    (keep : RunStatus → Bool) (id : ℕ) (runs : List TestRun)
    → sum_groups keep id (group_runs runs) ≡ count (λ r. r.project_id == id && keep r.status) runs
unfolding group_runs sum_groups
sum_groups-group_runs keep id [] = refl
sum_groups-group_runs keep id (r ∷ rest) = ground (
  arith,
  sum_groups-add_run keep id r.project_id r.status (group_runs rest),
  sum_groups-group_runs keep id rest,
)

-- The dictionary of the grouped runs counts the runs of a project whose status is kept.
pub total_by-count :
    (keep : RunStatus → Bool) (id : ℕ) (runs : List TestRun)
    → get_total id (total_by keep (group_runs runs) [])
      ≡ count (λ r. r.project_id == id && keep r.status) runs
total_by-count keep id runs =
    ground
      (arith, get_total-total_by keep id (group_runs runs) [], sum_groups-group_runs keep id runs)

append_nil : {A : Type 0} (xs : List A) → xs ++ [] ≡ xs
append_nil [] = refl
append_nil (x ∷ xs) = ap (λ ys. x ∷ ys) (append_nil xs)

append_assoc : {A : Type 0} (xs ys zs : List A) → (xs ++ ys) ++ zs ≡ xs ++ (ys ++ zs)
append_assoc [] ys zs = refl
append_assoc (x ∷ xs) ys zs = ap (λ l. x ∷ l) (append_assoc xs ys zs)

get_rates-add_rate :
    (id k : ℕ) (r : ℕ × ℕ) (d : List (ℕ × List (ℕ × ℕ)))
    → get_rates id (add_rate k r d) ≡ (if k == id then get_rates id d ++ r ∷ [] else get_rates id d)
get_rates-add_rate id k r [] = refl
get_rates-add_rate id k r ((j, rs) ∷ d) = ground (arith, get_rates-add_rate id k r d)

get_rates-put_rate :
    (id k : ℕ) (rate : Option (ℕ × ℕ)) (d : List (ℕ × List (ℕ × ℕ)))
    → get_rates id (put_rate k rate d)
      ≡ (if k == id then get_rates id d ++ with_rate rate [] else get_rates id d)
get_rates-put_rate id k none d = ground (arith, append_nil (get_rates id d))
get_rates-put_rate id k (some r) d = get_rates-add_rate id k r d

with_rate-append :
    (rate : Option (ℕ × ℕ)) (rs : List (ℕ × ℕ)) → with_rate rate [] ++ rs ≡ with_rate rate rs
with_rate-append none rs = refl
with_rate-append (some r) rs = refl

-- With the progress of each run at hand, the dictionary of rates has for a project the rates of its
-- runs, after those that it had.
pub get_rates-fill_rates :
    (db : Db) (progress : List (ℕ × TestRunProgress)) (id : ℕ) (runs : List TestRun)
    (acc : List (ℕ × List (ℕ × ℕ)))
    → All (λ r. rate_of r.id progress ≡ (run_progress db r).rate) runs
    → get_rates id (fill_rates progress runs acc)
      ≡ get_rates id acc ++ rates_in (progress_of db (select (λ r. r.project_id == id) runs))
unfolding fill_rates
get_rates-fill_rates db progress id [] acc h = sym (append_nil (get_rates id acc))
get_rates-fill_rates db progress id (r ∷ rest) acc h =
    let rate = rate_of r.id progress in
    let next = put_rate r.project_id rate acc in
    let own = rates_in (progress_of db (select (λ x. x.project_id == id) rest)) in
    let after = get_rates-fill_rates db progress id rest next h.1 in
    let put = get_rates-put_rate id r.project_id rate acc in
    elim (Bool-cases (r.project_id == id)) [
      | inl e ↦
          let joined = append_assoc (get_rates id acc) (with_rate rate []) own in
          let one = with_rate-append rate own in
          rw (after, e) (rw (put, e) (joined ∙ rw (one, h.0) refl))
      | inr e ↦ rw (after, e) (rw (put, e) refl)
    ]

-- A run that its key finds among the runs of the batch has its progress there.
pub rate_of-progress_of :
    (db : Db) (id : ℕ) (runs : List TestRun) {r : TestRun}
    → find? (λ x. x.id == id) runs ≡ some r
    → rate_of id (progress_of db runs) ≡ (run_progress db r).rate
rate_of-progress_of db id [] h = cc
rate_of-progress_of db id (x ∷ xs) {r = r} h =
    let rest = rate_of-progress_of db id xs {r = r} in
    elim (Bool-cases (x.id == id)) [
      | inl e ↦ let same : x ≡ r = ground arith in rw e (ap (λ y. (run_progress db y).rate) same)
      | inr e ↦ rw e (rest (ground arith))
    ]

pub find?-select :
    {A : Type 0} (p q : A → Bool) (xs : List A) {x : A}
    → find? p xs ≡ some x
    → q x ≡ true
    → find? p (select q xs) ≡ some x
find?-select p q [] h k = cc
find?-select p q (y ∷ ys) {x = x} h k = ground (arith, find?-select p q ys {x = x})

pub select-select :
    {A : Type 0} (p q : A → Bool) (xs : List A)
    → select p (select q xs) ≡ select (λ x. q x && p x) xs
select-select p q [] = refl
select-select p q (x ∷ xs) = ground (arith, select-select p q xs)

-- The rows of a join of live cases with live suites are live.
with_suites-live :
    (c : TestCase) (suites : List TestSuite)
    → is_none c.deleted_at ≡ true
    → All (λ s. is_none s.deleted_at ≡ true) suites
    → All (λ j. (is_none j.1.deleted_at && is_none j.0.deleted_at) ≡ true) (with_suites c suites)
with_suites-live c [] h k = tt
with_suites-live c (s ∷ rest) h k = elim (Bool-cases (c.suite_id == s.id)) [
  | inl e ↦ rw e (ground (arith, k.0), with_suites-live c rest h k.1)
  | inr e ↦ rw e (with_suites-live c rest h k.1)
]

pub join_suites-live :
    (cases : List TestCase) (suites : List TestSuite)
    → All (λ c. is_none c.deleted_at ≡ true) cases
    → All (λ s. is_none s.deleted_at ≡ true) suites
    → All
        (λ j. (is_none j.1.deleted_at && is_none j.0.deleted_at) ≡ true)
        (join_suites cases suites)
join_suites-live [] suites h k = tt
join_suites-live (c ∷ rest) suites h k =
    All-append _ (with_suites c suites) (join_suites rest suites) (with_suites-live c suites h.0 k)
      (join_suites-live rest suites h.1 k)
