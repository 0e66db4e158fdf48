-- ===== src/Reports/Days.antt =====
-- Results counted day by day, for the daily series of app/services/report_service.py.
use api_testoria.Base.{
  ℕ, ◌+◌, ◌≤◌, ◌≡◌, refl, ◌∙◌, inl, inr, true, false, List, [], ◌∷◌, arith, leb, ◌==◌,
  if◌then◌else◌, length, select, count, sort_by, All, count-sort_by, Bool-cases, elem, All-mono,
}
use api_testoria.Db.{TestResult}
use api_testoria.Runs.{unique}
use api_testoria.Runs.Members.{count-unique, elem-unique}
use api_testoria.Reports.Trend.{TrendPoint, tested_on, days_of, points_of, day_rows, point_at}

unfoldable pub sum_totals : List TrendPoint → ℕ
sum_totals [] = 0
sum_totals (p ∷ rest) = p.total + sum_totals rest

count_of_elem : (d : ℕ) (days : List ℕ) → elem d days ≡ true → 1 ≤ count (λ x. x == d) days
count_of_elem d [] h = cc
count_of_elem d (x ∷ days) h = ground (arith, count_of_elem d days)

elem_of_count : (d : ℕ) (days : List ℕ) → count (λ x. x == d) days ≡ 0 → elem d days ≡ false
elem_of_count d [] h = refl
elem_of_count d (x ∷ days) h = ground (arith, elem_of_count d days)

pub point_at-date : (day : ℕ) (points : List TrendPoint) → (point_at day points).date ≡ day
point_at-date day [] = refl
point_at-date day (p ∷ points) = ground (arith, point_at-date day points)

module _ (day_of : ℕ → ℕ) where
  -- How many results fall on the days of a list.
  unfoldable pub sum_days : List ℕ → List TestResult → ℕ
  sum_days [] rows = 0
  sum_days (d ∷ days) rows = length (select (tested_on day_of d) rows) + sum_days days rows

  pub sum_days-empty : (days : List ℕ) → sum_days days [] ≡ 0
  unfolding sum_days
  sum_days-empty [] = refl
  sum_days-empty (d ∷ days) = ground (arith, sum_days-empty days)

  pub sum_days-cons :
      (days : List ℕ) (r : TestResult) (rows : List TestResult)
      → sum_days days (r ∷ rows) ≡ count (λ d. d == day_of r.tested_at) days + sum_days days rows
  unfolding sum_days
  sum_days-cons [] r rows = omega arith
  sum_days-cons (d ∷ days) r rows = ground (arith, sum_days-cons days r rows)

  -- Over days that have the day of each result once, every result is counted once.
  pub sum_days-length :
      (days : List ℕ) (rows : List TestResult)
      → All (λ r. count (λ d. d == day_of r.tested_at) days ≡ 1) rows
      → sum_days days rows ≡ length rows
  sum_days-length days [] h = sum_days-empty days
  sum_days-length days (r ∷ rows) h =
      omega (arith, sum_days-cons days r rows, sum_days-length days rows h.1, h.0)

  pub sum_totals-points_of :
      (rows : List TestResult) (days : List ℕ)
      → sum_totals (points_of day_of rows days) ≡ sum_days days rows
  unfolding sum_totals sum_days
  sum_totals-points_of rows [] = refl
  sum_totals-points_of rows (d ∷ days) = omega (arith, sum_totals-points_of rows days)

  -- The days of the results, each once.
  once :
      (rows own : List TestResult)
      → All (λ r. elem (day_of r.tested_at) (days_of day_of rows) ≡ true) own
      → All
          (λ r.
            count (λ d. d == day_of r.tested_at) (sort_by leb (unique (days_of day_of rows))) ≡ 1)
          own
  once rows [] h = tt
  once rows (r ∷ own) h =
      let day = day_of r.tested_at in
      let days = unique (days_of day_of rows) in
      (
        omega (
          arith,
          count-sort_by (λ d. d == day) leb days,
          count-unique day (days_of day_of rows),
          count_of_elem day days (elem-unique day (days_of day_of rows) ∙ h.0),
        ),
        once rows own h.1,
      )

  own_days :
      (rows : List TestResult)
      → All (λ r. elem (day_of r.tested_at) (days_of day_of rows) ≡ true) rows
  own_days [] = tt
  own_days (r ∷ rows) = (ground arith, All-mono _ _ rows (λ x t. ground arith) (own_days rows))

  -- The rows of the query count every result once.
  pub day_rows-total : (rows : List TestResult) → sum_totals (day_rows day_of rows) ≡ length rows
  unfolding day_rows
  day_rows-total rows =
      let days = sort_by leb (unique (days_of day_of rows)) in
      sum_totals-points_of rows days ∙ sum_days-length days rows (once rows rows (own_days rows))

  none_on :
      (day : ℕ) (rows : List TestResult)
      → elem day (days_of day_of rows) ≡ false
      → length (select (tested_on day_of day) rows) ≡ 0
  none_on day [] h = refl
  none_on day (r ∷ rows) h = ground (arith, none_on day rows)

  point_at-points_of :
      (day : ℕ) (rows : List TestResult) (days : List ℕ)
      → (point_at day (points_of day_of rows days)).total ≡ (
          if count (λ x. x == day) days == 0
          then 0
          else length (select (tested_on day_of day) rows))
  point_at-points_of day rows [] = refl
  point_at-points_of day rows (d ∷ days) = elim (Bool-cases (d == day)) [
    | inl e ↦ let same : d ≡ day = ground arith in rw e (rw same (ground arith))
    | inr e ↦ rw e (point_at-points_of day rows days)
  ]

  -- The point of a day, looked up, has the results of the day.
  pub point_at-day_rows :
      (day : ℕ) (rows : List TestResult)
      → (point_at day (day_rows day_of rows)).total ≡ length (select (tested_on day_of day) rows)
  unfolding day_rows
  point_at-day_rows day rows =
      let days = unique (days_of day_of rows) in
      let sorted = count-sort_by (λ x. x == day) leb days in
      let known = elem-unique day (days_of day_of rows) in
      ground (
        arith,
        point_at-points_of day rows (sort_by leb days),
        sorted,
        known,
        elem_of_count day days,
        none_on day rows,
      )
