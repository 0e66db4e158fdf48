-- ===== src/Reports/Dictionaries.antt =====
-- The dictionaries that `get_cross_project_report_analytics` of app/services/report_service.py fills
-- for each project.
use api_testoria.Base.{
  ℕ, ◌+◌, ◌≤◌, ◌≡◌, refl, ◌∙◌, inl, inr, Bool, true, ◌&&◌, List, [], ◌∷◌, arith, ◌==◌,
  if◌then◌else◌, select, count, count-select, elem, Bool-cases, All-intro,
}
use api_testoria.Db.{TestRun}
use api_testoria.Statistics.{get_total, add_count, count_by, get_rates}
use api_testoria.Statistics.Grouping.{get_total-count_by, get_total-add_count, count-agree}
use api_testoria.Reports.Analytics.{zero_counts, no_rates, set_count, set_counts, count_completed}

-- A dictionary has a key once at most.
abbrev is_key : ℕ → ℕ × ℕ → Bool
is_key id e = e.0 == id

count-add_count :
    (id k n : ℕ) (d : List (ℕ × ℕ))
    → count (is_key id) (add_count k n d)
      ≡ (if k == id && count (is_key id) d == 0 then 1 else count (is_key id) d)
count-add_count id k n [] = ground arith
count-add_count id k n ((j, m) ∷ d) = ground (arith, count-add_count id k n d)

one_key :
    {A : Type 0} (key : A → ℕ) (id : ℕ) (xs : List A) → count (is_key id) (count_by key xs) ≤ 1
unfolding count_by
one_key key id [] = omega arith
one_key key id (x ∷ xs) =
    ground (arith, one_key key id xs, count-add_count id (key x) 1 (count_by key xs))

get_total-set_count :
    (id k n : ℕ) (d : List (ℕ × ℕ))
    → get_total id (set_count k n d) ≡ (if k == id then n else get_total id d)
get_total-set_count id k n [] = refl
get_total-set_count id k n ((j, m) ∷ d) = ground (arith, get_total-set_count id k n d)

set_counts-none :
    (id : ℕ) (rows d : List (ℕ × ℕ))
    → count (is_key id) rows ≡ 0
    → get_total id (set_counts rows d) ≡ get_total id d
unfolding set_counts
set_counts-none id [] d h = refl
set_counts-none id ((k, n) ∷ rows) d h =
    ground (arith, set_counts-none id rows (set_count k n d), get_total-set_count id k n d)

get_total-set_counts :
    (id : ℕ) (rows d : List (ℕ × ℕ))
    → count (is_key id) rows ≤ 1
    → get_total id d ≡ 0
    → get_total id (set_counts rows d) ≡ get_total id rows
unfolding set_counts
get_total-set_counts id [] d h z = z
get_total-set_counts id ((k, n) ∷ rows) d h z = ground (
  arith,
  set_counts-none id rows (set_count k n d),
  get_total-set_counts id rows (set_count k n d),
  get_total-set_count id k n d,
)

pub get_total-zero_counts : (id : ℕ) (ids : List ℕ) → get_total id (zero_counts ids) ≡ 0
get_total-zero_counts id [] = refl
get_total-zero_counts id (k ∷ ids) = ground (arith, get_total-zero_counts id ids)

pub get_rates-no_rates : (id : ℕ) (ids : List ℕ) → get_rates id (no_rates ids) ≡ []
get_rates-no_rates id [] = refl
get_rates-no_rates id (k ∷ ids) = ground (arith, get_rates-no_rates id ids)

pub get_total-count_completed :
    (id : ℕ) (runs : List TestRun) (d : List (ℕ × ℕ))
    → get_total id (count_completed runs d) ≡ get_total id d + count (λ r. r.project_id == id) runs
unfolding count_completed
get_total-count_completed id [] d = omega arith
get_total-count_completed id (r ∷ runs) d = ground (
  arith,
  get_total-count_completed id runs (add_count r.project_id 1 d),
  get_total-add_count id r.project_id 1 d,
)

-- A grouped count of the rows that some query has in the projects of the request.
pub grouped-own :
    {A : Type 0} (key : A → ℕ) (p : A → Bool) (id : ℕ) (ids : List ℕ) (xs : List A)
    → elem id ids ≡ true
    → get_total id
        (set_counts (count_by key (select (λ x. elem (key x) ids && p x) xs)) (zero_counts ids))
      ≡ count (λ x. key x == id && p x) xs
grouped-own key p id ids xs e =
    let rows = select (λ x. elem (key x) ids && p x) xs in
    get_total-set_counts id (count_by key rows) (zero_counts ids) (one_key key id rows)
      (get_total-zero_counts id ids)
    ∙ get_total-count_by key id rows
    ∙ count-select (λ x. key x == id) (λ x. elem (key x) ids && p x) xs
    ∙ count-agree _ _ xs (All-intro _ agree xs)
  where
    agree : (x : _) → (key x == id && (elem (key x) ids && p x)) ≡ (key x == id && p x)
    agree x = elim (Bool-cases (key x == id)) [
      | inl s ↦ let same : key x ≡ id = ground arith in rw (same, e) refl
      | inr s ↦ rw s refl
    ]
