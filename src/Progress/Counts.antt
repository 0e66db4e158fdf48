-- ===== src/Progress/Counts.antt =====
-- The numbers of a progress: the end of `get_progress` of app/services/test_run_service.py.
use api_testoria.Base.{
  ℕ, ◌+◌, ◌≤◌, ◌<◌, max, ◌≡◌, refl, ◌⊎◌, inl, inr, some, List, [], ◌∷◌, arith, length, count,
}
use api_testoria.Db.{TestResult, ResultStatus, passed, failed, blocked, no_run, skipped}
use api_testoria.Progress.{
  with_status, group_by_status, get_count, sum_counts, pass_rate, summarise,
}

pub status_cases :
    (s : ResultStatus)
    → (s ≡ passed) ⊎ ((s ≡ ResultStatus.failed) ⊎ ((s ≡ blocked) ⊎ ((s ≡ no_run) ⊎ (s ≡ skipped))))
status_cases passed = inl refl
status_cases failed = inr (inl refl)
status_cases blocked = inr (inr (inl refl))
status_cases no_run = inr (inr (inr (inl refl)))
status_cases skipped = inr (inr (inr (inr refl)))

-- Every result has one of the five statuses.
pub count_all :
    (rows : List TestResult)
    → count (with_status passed) rows
        + count (with_status failed) rows
        + count (with_status blocked) rows
        + count (with_status no_run) rows
        + count (with_status skipped) rows
      ≡ length rows
count_all [] = refl
count_all (r ∷ rows) = elim (status_cases r.status) [
  | inl e ↦ ground (arith, count_all rows)
  | inr (inl e) ↦ ground (arith, count_all rows)
  | inr (inr (inl e)) ↦ ground (arith, count_all rows)
  | inr (inr (inr (inl e))) ↦ ground (arith, count_all rows)
  | inr (inr (inr (inr e))) ↦ ground (arith, count_all rows)
]

pub sum_counts-group_by_status :
    (rows : List TestResult) → sum_counts (group_by_status rows) ≡ length rows
unfolding group_by_status
sum_counts-group_by_status rows = ground (arith, count_all rows)

pub get_count-group_by_status :
    (s : ResultStatus) (rows : List TestResult)
    → get_count s (group_by_status rows) ≡ count (with_status s) rows
unfolding group_by_status
get_count-group_by_status passed rows = ground arith
get_count-group_by_status failed rows = ground arith
get_count-group_by_status blocked rows = ground arith
get_count-group_by_status no_run rows = ground arith
get_count-group_by_status skipped rows = ground arith

-- With every tested case counted once, the statuses of a progress and the skipped results add up to
-- the size of the scope, or to the number of results if that is larger.
pub summarise-conservation :
    (rows : List TestResult) (total : ℕ)
    → let p = summarise (group_by_status rows) total in
      p.passed_count
        + p.failed_count
        + p.blocked_count
        + p.no_run_count
        + count (with_status skipped) rows
      ≡ max total (length rows)
unfolding summarise
summarise-conservation rows total = ground (
  arith,
  count_all rows,
  sum_counts-group_by_status rows,
  get_count-group_by_status passed rows,
  get_count-group_by_status failed rows,
  get_count-group_by_status blocked rows,
  get_count-group_by_status no_run rows,
)

-- A pass rate is a ratio of at most one, and there is one exactly when something is to be counted.
pub summarise-rate :
    (rows : List TestResult) (total : ℕ)
    → (0 < max total (length rows))
    → let p = summarise (group_by_status rows) total in
      (n : ℕ) × (d : ℕ) × (p.rate ≡ some (n, d)) × (n ≤ d) × (0 < d)
unfolding summarise pass_rate
summarise-rate rows total h = (
  get_count passed (group_by_status rows),
  max total (sum_counts (group_by_status rows)),
  ground (arith, sum_counts-group_by_status rows),
  ground (
    arith,
    count_all rows,
    sum_counts-group_by_status rows,
    get_count-group_by_status passed rows,
  ),
  ground (arith, sum_counts-group_by_status rows),
)
