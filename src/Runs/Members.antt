-- ===== src/Runs/Members.antt =====
-- Which cases belong to a run: `set_run_cases` of app/services/test_run_service.py.
use api_testoria.Base.{
  ℕ, ◌≤◌, ◌≡◌, ◌≢◌, refl, inl, inr, Bool, true, false, not, ◌&&◌, List, [], ◌∷◌, ◌++◌, arith, ok,
  elem, count, find?, any, select, ◌==◌, any-append, any-select_keeps, any-select_drops,
  count-append, count-select-le, count_of_any, Bool-cases, Option-cases,
}
use api_testoria.Db.{Db, RunCase}
use api_testoria.Runs.{get_run, is_live_run, unique, members, validate_case_ids, set_run_cases}

-- The run holds the case, in test_run_test_cases.
abbrev pub holds : ℕ → ℕ → RunCase → Bool
holds run_id case_id m = m.run_id == run_id && m.case_id == case_id

elem-select_ne :
    (c id : ℕ) (ids : List ℕ)
    → elem c (select (λ other. not (other == id)) ids) ≡ (elem c ids && not (c == id))
elem-select_ne c id [] = refl
elem-select_ne c id (x ∷ xs) = ground (arith, elem-select_ne c id xs)

pub elem-unique : (c : ℕ) (ids : List ℕ) → elem c (unique ids) ≡ elem c ids
elem-unique c [] = refl
elem-unique c (id ∷ ids) = ground (arith, elem-select_ne c id (unique ids), elem-unique c ids)

any-members : (run_id c : ℕ) (ids : List ℕ) → any (holds run_id c) (members run_id ids) ≡ elem c ids
any-members run_id c [] = refl
any-members run_id c (id ∷ ids) = ground (arith, any-members run_id c ids)

any-members_other :
    (run_id other c : ℕ) (ids : List ℕ)
    → other ≢ run_id
    → any (holds other c) (members run_id ids) ≡ false
any-members_other run_id other c [] h = refl
any-members_other run_id other c (id ∷ ids) h =
    ground (arith, any-members_other run_id other c ids h)

abbrev replaced : ℕ → List ℕ → List RunCase → List RunCase
replaced run_id ids rows =
    select (λ m. not (m.run_id == run_id)) rows ++ members run_id (unique ids)

set_run_cases-rows :
    (run_id : ℕ) (ids : List ℕ) (db db' : Db)
    → set_run_cases run_id ids db ≡ ok (tt, db')
    → db'.run_cases ≡ replaced run_id ids db.run_cases
unfolding set_run_cases get_run validate_case_ids
set_run_cases-rows run_id ids db db' h =
    elim (Option-cases (find? (is_live_run run_id) db.runs.rows)) [
      | inl e ↦ absurd (ground arith)
      | inr (r, e) ↦ ground arith
    ]

-- `set_run_cases` makes the cases of the run exactly the given ones, and leaves those of every
-- other run as they were.
pub set_run_cases-members :
    (run_id other c : ℕ) (ids : List ℕ) (db db' : Db)
    → other ≢ run_id
    → set_run_cases run_id ids db ≡ ok (tt, db')
    → (any (holds run_id c) db'.run_cases ≡ elem c ids)
      × (any (holds other c) db'.run_cases ≡ any (holds other c) db.run_cases)
set_run_cases-members run_id other c ids db db' ne h =
    rw (set_run_cases-rows run_id ids db db' h, any-append)
      (ground (
        arith,
        any-append (holds other c) (select (λ m. not (m.run_id == run_id)) db.run_cases)
            (members run_id (unique ids)),
        any-members run_id c (unique ids),
        elem-unique c ids,
        any-members_other run_id other c (unique ids) ne,
        any-select_drops (holds run_id c) (λ m. not (m.run_id == run_id)) db.run_cases
            (λ m e. ground arith),
        any-select_keeps (holds other c) (λ m. not (m.run_id == run_id)) db.run_cases
            (λ m e. ground arith),
      ))

-- The primary key of test_run_test_cases.
abbrev pub HasUniqueMembers : Db → Type 0
HasUniqueMembers db = (run_id case_id : ℕ) → count (holds run_id case_id) db.run_cases ≤ 1

count-members_le :
    (r c run_id : ℕ) (ids : List ℕ)
    → count (holds r c) (members run_id ids) ≤ count (λ x. x == c) ids
count-members_le r c run_id [] = omega arith
count-members_le r c run_id (id ∷ ids) = ground (arith, count-members_le r c run_id ids)

count-select_same :
    (c id : ℕ) (xs : List ℕ)
    → (id == c) ≡ true
    → count (λ x. x == c) (select (λ other. not (other == id)) xs) ≡ 0
count-select_same c id [] h = refl
count-select_same c id (x ∷ xs) h = ground (arith, count-select_same c id xs h)

pub count-unique : (c : ℕ) (ids : List ℕ) → count (λ x. x == c) (unique ids) ≤ 1
count-unique c [] = omega arith
count-unique c (id ∷ ids) = ground (
  arith,
  count-select_same c id (unique ids),
  count-unique c ids,
  count-select-le (λ x. x == c) (λ other. not (other == id)) (unique ids),
)

-- The rows that `set_run_cases` writes never violate the primary key, whatever ids are given and
-- however often.
pub set_run_cases_unique :
    (run_id : ℕ) (ids : List ℕ) (db db' : Db)
    → HasUniqueMembers db
    → set_run_cases run_id ids db ≡ ok (tt, db')
    → HasUniqueMembers db'
set_run_cases_unique run_id ids db db' before h r c =
    let others = λ (m : RunCase). not (m.run_id == run_id) in
    let kept = select others db.run_cases in
    let added = members run_id (unique ids) in
    let once : count (holds r c) added ≤ 1 =
      omega (arith, count-members_le r c run_id (unique ids), count-unique c ids) in
    rw (set_run_cases-rows run_id ids db db' h, count-append)
      (elim (Bool-cases (r == run_id)) [
        | inl e ↦ omega (
          arith,
          once,
          count_of_any (holds r c) kept
              (any-select_drops (holds r c) others db.run_cases (λ m t. ground arith)),
        )
        | inr e ↦ omega (
          arith,
          before r c,
          count-select-le (holds r c) others db.run_cases,
          count_of_any (holds r c) added
              (any-members_other run_id r c (unique ids) (λ t. ground arith)),
        )
      ])
