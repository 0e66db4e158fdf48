-- ===== src/Suites/Forest.antt =====
-- The operations of app/services/test_suite_service.py that keep the suites a forest.
use api_testoria.Base.{
  ℕ, ◌+◌, ◌<◌, ◌≡◌, refl, inl, inr, Bool, true, false, Option, none, some, List, [], ◌∷◌, arith,
  if◌then◌else◌, is_some, length, elem, update_where, All, Bool-cases,
}
use api_testoria.Db.{Table, TestSuite, update}
use api_testoria.Suites.{suite_ids, updated_suite, TestSuiteUpdate}
use api_testoria.Suites.Descent.{IsBelow, IsRanked, IsClosed}
use api_testoria.Suites.Ranks.{HasParent, rank, rank-IsRanked}

-- The keys are below the next one, the parents are rows, and the live suites have depths, each below
-- the number of rows, that are more than those of their parents.
abbrev pub IsForest : Table TestSuite → Type 0
IsForest t =
    All (λ s. s.id < t.next_id) t.rows
    × All (HasParent t.rows) t.rows
    × ((depth : ℕ → ℕ) × All (IsRanked depth (length t.rows)) t.rows)

suite_ids-update :
    (q : TestSuite → Bool) (f : TestSuite → TestSuite) (rows : List TestSuite)
    → ((s : TestSuite) → (f s).id ≡ s.id)
    → suite_ids (update_where q f rows) ≡ suite_ids rows
suite_ids-update q f [] same = refl
suite_ids-update q f (s ∷ rows) same = ground (arith, same s, suite_ids-update q f rows same)

All-update :
    {P : TestSuite → Type 0} (R : TestSuite → Type 0) (q : TestSuite → Bool)
    (f : TestSuite → TestSuite) (rows : List TestSuite)
    → All P rows
    → ((s : TestSuite) → P s → R (if q s then f s else s))
    → All R (update_where q f rows)
All-update R q f [] h step = tt
All-update R q f (s ∷ rows) h step = (step s h.0, All-update R q f rows h.1 step)

kept_key :
    (q : TestSuite → Bool) (f : TestSuite → TestSuite) (n : ℕ) (s : TestSuite)
    → (f s).id ≡ s.id
    → s.id < n
    → (if q s then f s else s).id < n
kept_key q f n s same h = elim (Bool-cases (q s)) [
  | inl e ↦ rw e (ground (arith, same, h))
  | inr e ↦ rw e h
]

-- An update that keeps the ids, leaves the parents rows, and has depths with any bound.
pub update-IsForest :
    (q : TestSuite → Bool) (f : TestSuite → TestSuite) (t : Table TestSuite) (depth' : ℕ → ℕ)
    (bound : ℕ)
    → ((s : TestSuite) → (f s).id ≡ s.id)
    → All (λ s. s.id < t.next_id) t.rows
    → All (λ s. HasParent t.rows (if q s then f s else s)) t.rows
    → All (λ s. IsRanked depth' bound (if q s then f s else s)) t.rows
    → IsForest (update q f t)
update-IsForest q f t depth' bound same keys parents ranked =
    let rows' = update_where q f t.rows in
    let ids : suite_ids rows' ≡ suite_ids t.rows = suite_ids-update q f t.rows same in
    let known : All (HasParent rows') rows' =
      All-update (HasParent rows') q f t.rows parents (λ s h. rw ids h) in
    (
      All-update (λ s. s.id < t.next_id) q f t.rows keys
          (λ s h. kept_key q f t.next_id s (same s) h),
      known,
      (
        rank depth' rows',
        rank-IsRanked depth' bound rows' known
            (All-update (IsRanked depth' bound) q f t.rows ranked (λ s h. h)),
      ),
    )

-- The depths after a move of the suites `moved` below `p`.
abbrev pub deeper : (ℕ → ℕ) → List ℕ → ℕ → ℕ → ℕ
deeper depth moved p x = if elem x moved then depth x + (depth p + 1) else depth x

deeper-IsBelow :
    (depth : ℕ → ℕ) (moved : List ℕ) (p x : ℕ) (parent : Option ℕ)
    → IsBelow depth (depth x) parent
    → ((r : ℕ) → parent ≡ some r → elem r moved ≡ true → elem x moved ≡ true)
    → IsBelow (deeper depth moved p) (deeper depth moved p x) parent
deeper-IsBelow depth moved p x none below h = tt
deeper-IsBelow depth moved p x (some r) below h = elim (Bool-cases (elem r moved)) [
  | inl e ↦ let inside = h r refl e in ground (arith, below)
  | inr e ↦ ground (arith, below)
]

-- A suite that keeps its parent.
pub stays :
    (depth : ℕ → ℕ) (bound : ℕ) (moved : List ℕ) (p : ℕ) (s : TestSuite)
    → IsRanked depth bound s
    → IsClosed moved s
    → IsRanked (deeper depth moved p) (bound + (depth p + 1)) s
stays depth bound moved p s (inl gone) closed = inl gone
stays depth bound moved p s (inr (deep, below)) closed = elim (Bool-cases (is_some s.deleted_at)) [
  | inl gone ↦ inl gone
  | inr live ↦ inr (
    ground (arith, deep),
    deeper-IsBelow depth moved p s.id s.parent_suite_id below
        (λ r e inside. ground (arith, closed)),
  )
]

-- The suite that gets the parent `p`.
pub moves :
    (depth : ℕ → ℕ) (bound : ℕ) (moved : List ℕ) (p : ℕ) (data' : TestSuiteUpdate) (s : TestSuite)
    → data'.parent_suite_id ≡ some (some p)
    → elem s.id moved ≡ true
    → elem p moved ≡ false
    → IsRanked depth bound s
    → IsRanked (deeper depth moved p) (bound + (depth p + 1)) (updated_suite data' s)
moves depth bound moved p data' s given inside outside (inl gone) = inl gone
moves depth bound moved p data' s given inside outside (inr (deep, below)) =
    inr (ground (arith, deep), rw given (ground arith))
