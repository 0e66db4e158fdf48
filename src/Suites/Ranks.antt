-- ===== src/Suites/Ranks.antt =====
-- Depths of suites, app/models/test_suite.py: any depths give depths below the number of rows.
use api_testoria.Base.{
  ℕ, ◌<◌, ◌≡◌, inl, inr, true, Option, none, some, List, [], ◌∷◌, arith, ltb, ◌==◌, length, count,
  elem, All, All-both, count_mono, count-le-length, Bool-cases,
}
use api_testoria.Db.{TestSuite}
use api_testoria.Suites.{suite_ids}
use api_testoria.Suites.Descent.{IsBelow, IsRanked}

-- The foreign key of the parent: it is the id of a row, which may be deleted.
abbrev pub IsRow : List ℕ → Option ℕ → Type 0
IsRow ids none = Unit
IsRow ids (some p) = elem p ids ≡ true

abbrev pub HasParent : List TestSuite → TestSuite → Type 0
HasParent rows s = IsRow (suite_ids rows) s.parent_suite_id

-- how many rows are less deep than an id
abbrev pub rank : (ℕ → ℕ) → List TestSuite → ℕ → ℕ
rank depth rows x = count (λ r. ltb (depth r.id) (depth x)) rows

rank_lt :
    (depth : ℕ → ℕ) (p x : ℕ) (rows : List TestSuite)
    → elem p (suite_ids rows) ≡ true
    → depth p < depth x
    → rank depth rows p < rank depth rows x
rank_lt depth p x [] e lt = cc
rank_lt depth p x (r ∷ rows) e lt =
    let wider =
      count_mono (λ r. ltb (depth r.id) (depth p)) (λ r. ltb (depth r.id) (depth x)) rows
        (λ r t. ground (arith, t, lt)) in
    elim (Bool-cases (r.id == p)) [
      | inl same ↦ let here : r.id ≡ p = ground arith in rw here (ground (arith, wider))
      | inr other ↦ ground (arith, rank_lt depth p x rows)
    ]

rank_bound :
    (depth : ℕ → ℕ) (x : ℕ) (rows : List TestSuite)
    → elem x (suite_ids rows) ≡ true
    → rank depth rows x < length rows
rank_bound depth x [] e = cc
rank_bound depth x (r ∷ rows) e = elim (Bool-cases (r.id == x)) [
  | inl same ↦
      let here : r.id ≡ x = ground arith in
      rw here (ground (arith, count-le-length (λ r. ltb (depth r.id) (depth x)) rows))
  | inr other ↦ ground (arith, rank_bound depth x rows)
]

pub own_ids :
    (seen rows : List TestSuite)
    → ((k : ℕ) → elem k (suite_ids rows) ≡ true → elem k (suite_ids seen) ≡ true)
    → All (λ s. elem s.id (suite_ids seen) ≡ true) rows
own_ids seen [] h = tt
own_ids seen (s ∷ rows) h = (h s.id (ground arith), own_ids seen rows (λ k e. ground (arith, h k)))

rank-IsBelow :
    (depth : ℕ → ℕ) (x : ℕ) (rows : List TestSuite) (parent : Option ℕ)
    → IsRow (suite_ids rows) parent
    → IsBelow depth (depth x) parent
    → IsBelow (rank depth rows) (rank depth rows x) parent
rank-IsBelow depth x rows none row below = tt
rank-IsBelow depth x rows (some p) row below = rank_lt depth p x rows row below

-- Depths with any bound give depths below the number of rows.
pub rank-IsRanked :
    (depth : ℕ → ℕ) (bound : ℕ) (rows : List TestSuite)
    → All (HasParent rows) rows
    → All (IsRanked depth bound) rows
    → All (IsRanked (rank depth rows) (length rows)) rows
rank-IsRanked depth bound rows parents ranked =
    let known : All (λ s. HasParent rows s × (elem s.id (suite_ids rows) ≡ true)) rows =
      All-both _ rows parents (own_ids rows rows (λ k e. e)) (λ s p o. (p, o)) in
    All-both _ rows known ranked (λ s k r. each s k.0 k.1 r)
  where
    each :
        (s : TestSuite)
        → HasParent rows s
        → elem s.id (suite_ids rows) ≡ true
        → IsRanked depth bound s
        → IsRanked (rank depth rows) (length rows) s
    each s parent own (inl gone) = inl gone
    each s parent own (inr (deep, below)) = inr (
      rank_bound depth s.id rows own,
      rank-IsBelow depth s.id rows s.parent_suite_id parent below,
    )
