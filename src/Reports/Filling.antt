-- ===== src/Reports/Filling.antt =====
-- `_zero_fill_trend` of app/services/report_service.py.
use api_testoria.Base.{
  ℕ, zero, suc, ◌+◌, ◌-◌, ◌≡◌, refl, sym, ap, ◌∙◌, inl, inr, Bool, ◌&&◌, Option, none, some, List,
  [], ◌∷◌, arith, ltb, leb, ◌==◌, if◌then◌else◌, length, count, Bool-cases,
}
use api_testoria.Db.{Db, TestResult}
use api_testoria.Reports.Trend.{
  TrendPoint, Moment, day_rows, fill_days, zero_fill_trend, trend_results, trend,
}
use api_testoria.Reports.Days.{
  sum_days, sum_days-empty, sum_days-cons, sum_totals, day_rows-total, point_at-day_rows,
  point_at-date,
}

-- The days from one on.
pub days_from : ℕ → ℕ → List ℕ
days_from zero day = []
days_from (suc n) day = day ∷ days_from n (day + 1)

pub dates_of : List TrendPoint → List ℕ
dates_of [] = []
dates_of (p ∷ rest) = p.date ∷ dates_of rest

dates_of-fill_days :
    (n day : ℕ) (by_day : List TrendPoint) → dates_of (fill_days n day by_day) ≡ days_from n day
unfolding fill_days dates_of days_from
dates_of-fill_days zero day by_day = refl
dates_of-fill_days (suc n) day by_day =
    rw (point_at-date day by_day) (ap (λ l. day ∷ l) (dates_of-fill_days n (day + 1) by_day))

sum_totals-fill_days :
    (day_of : ℕ → ℕ) (n day : ℕ) (rows : List TestResult)
    → sum_totals (fill_days n day (day_rows day_of rows)) ≡ sum_days day_of (days_from n day) rows
unfolding fill_days days_from sum_totals sum_days
sum_totals-fill_days day_of zero day rows = refl
sum_totals-fill_days day_of (suc n) day rows =
    omega (arith, point_at-day_rows day_of day rows, sum_totals-fill_days day_of n (day + 1) rows)

sum_days-none :
    (day_of : ℕ → ℕ) (n day : ℕ) (rows : List TestResult)
    → n ≡ 0
    → sum_days day_of (days_from n day) rows ≡ 0
unfolding days_from sum_days
sum_days-none day_of zero day rows e = refl
sum_days-none day_of (suc n) day rows e = absurd (omega (arith, e))

-- The database's date of a result is one of the days.
abbrev pub falls_between : (ℕ → ℕ) → ℕ → ℕ → TestResult → Bool
falls_between day_of first last r = leb first (day_of r.tested_at) && leb (day_of r.tested_at) last

count-days_from :
    (n day d : ℕ)
    → count (λ x. x == d) (days_from n day) ≡ (if leb day d && ltb d (day + n) then 1 else 0)
unfolding days_from
count-days_from zero day d = ground arith
count-days_from (suc n) day d = ground (arith, count-days_from n (day + 1) d)

-- How many of the results fall on the days of a window.
window_total :
    (day_of : ℕ → ℕ) (first last : ℕ) (rows : List TestResult)
    → sum_days day_of (days_from (last + 1 - first) first) rows
      ≡ count (falls_between day_of first last) rows
window_total day_of first last [] = sum_days-empty day_of (days_from (last + 1 - first) first)
window_total day_of first last (r ∷ rows) = ground (
  arith,
  sum_days-cons day_of (days_from (last + 1 - first) first) r rows,
  count-days_from (last + 1 - first) first (day_of r.tested_at),
  window_total day_of first last rows,
)

-- With both ends of a window the series has each day from the date of the one to that of the other
-- once, in order, and none if they are the wrong way round. Its totals add up to those results of the
-- window that the database dates between the two: all of them where the dates of the request and of
-- the session agree, but a result that is dated before the first day or after the last is left out.
pub trend-window :
    (day_of : ℕ → ℕ) (q : ℕ → Bool) (date_from date_to : Moment) (db : Db)
    → (dates_of (trend day_of q (some date_from) (some date_to) db)
        ≡ days_from (date_to.date + 1 - date_from.date) date_from.date)
      × (sum_totals (trend day_of q (some date_from) (some date_to) db)
          ≡ count
              (falls_between day_of date_from.date date_to.date)
              (trend_results q (some date_from) (some date_to) db))
unfolding trend zero_fill_trend days_from dates_of sum_totals
trend-window day_of q from to db =
    let rows = trend_results q (some from) (some to) db in
    let n = to.date + 1 - from.date in
    let whole = window_total day_of from.date to.date rows in
    elim (Bool-cases (ltb to.date from.date)) [
      | inl e ↦
          let none_left : n ≡ 0 = ground arith in
          (
            rw e (rw none_left refl),
            rw e (sym (sum_days-none day_of n from.date rows none_left) ∙ whole),
          )
      | inr e ↦ (
        rw e (dates_of-fill_days n from.date (day_rows day_of rows)),
        rw e (sum_totals-fill_days day_of n from.date rows ∙ whole),
      )
    ]

-- Without an end of the window the totals of the series add up to the results.
pub trend-open :
    (day_of : ℕ → ℕ) (q : ℕ → Bool) (date_from : Option Moment) (db : Db)
    → sum_totals (trend day_of q date_from none db) ≡ length (trend_results q date_from none db)
unfolding trend zero_fill_trend
trend-open day_of q none db = day_rows-total day_of (trend_results q none none db)
trend-open day_of q (some from) db = day_rows-total day_of (trend_results q (some from) none db)
