-- ===== src/Suites/Descent.antt =====
-- The recursive query `_descendant_suite_ids` of app/services/test_suite_service.py.
use api_testoria.Base.{
  ℕ, zero, suc, ◌+◌, ◌≤◌, ◌<◌, ◌≡◌, refl, ◌⊎◌, inl, inr, Bool, true, false, ◌&&◌, ◌||◌, Option,
  none, some, List, [], ◌∷◌, ◌++◌, arith, length, select, elem, ◌==◌, is_none, is_some, All,
  All-both, All-intro, Bool-cases, Option-cases, find?, find?-some, sym, ◌∙◌, ap,
}
use api_testoria.Db.{TestSuite}
use api_testoria.Suites.{
  suite_ids, parent_in, is_child, children, levels, root_ids, descendant_suite_ids,
}

-- A live suite is deeper than its parent, and all depths are below `bound`: the suites make a forest.
abbrev pub IsBelow : (ℕ → ℕ) → ℕ → Option ℕ → Type 0
IsBelow depth n none = Unit
IsBelow depth n (some p) = depth p < n

abbrev pub IsRanked : (ℕ → ℕ) → ℕ → TestSuite → Type 0
IsRanked depth bound s =
    (is_some s.deleted_at ≡ true)
    ⊎ ((depth s.id < bound) × IsBelow depth (depth s.id) s.parent_suite_id)

pub elem-append : (x : ℕ) (xs ys : List ℕ) → elem x (xs ++ ys) ≡ (elem x xs || elem x ys)
elem-append x [] ys = refl
elem-append x (y ∷ xs) ys = ground (arith, elem-append x xs ys)

parent_in-append :
    (o : Option ℕ) (xs ys : List ℕ) → parent_in (xs ++ ys) o ≡ (parent_in xs o || parent_in ys o)
parent_in-append none xs ys = refl
parent_in-append (some p) xs ys = elem-append p xs ys

pub ids_covered :
    (q : TestSuite → Bool) (seen rows : List TestSuite)
    → ((k : ℕ)
        → elem k (suite_ids (select q rows)) ≡ true
        → elem k (suite_ids (select q seen)) ≡ true)
    → All (λ s. (q s ≡ false) ⊎ (elem s.id (suite_ids (select q seen)) ≡ true)) rows
ids_covered q seen [] h = tt
ids_covered q seen (s ∷ rows) h = elim (Bool-cases (q s)) [
  | inl e ↦ (inr (ground (arith, h s.id)), ids_covered q seen rows (λ k t. ground (arith, h k)))
  | inr e ↦ (inl e, ids_covered q seen rows (λ k t. ground (arith, h k)))
]

-- The next level is one deeper.
child-deeper :
    (depth : ℕ → ℕ) (bound k : ℕ) (ids : List ℕ) (s : TestSuite)
    → IsRanked depth bound s
    → ((p : ℕ) → elem p ids ≡ true → k ≤ depth p)
    → is_child ids s ≡ true
    → suc k ≤ depth s.id
child-deeper depth bound k ids s r deep c = elim (Option-cases s.parent_suite_id) [
  | inl e ↦ absurd (ground arith)
  | inr (p, e) ↦ ground (arith, deep p)
]

children-deeper :
    (depth : ℕ → ℕ) (bound k : ℕ) (ids : List ℕ) (rows : List TestSuite)
    → All (IsRanked depth bound) rows
    → ((p : ℕ) → elem p ids ≡ true → k ≤ depth p)
    → (c : ℕ) → elem c (children ids rows) ≡ true
    → suc k ≤ depth c
children-deeper depth bound k ids [] r deep c e = cc
children-deeper depth bound k ids (s ∷ rows) r deep c e = elim (Bool-cases (is_child ids s)) [
  | inl t ↦ ground (
    arith,
    child-deeper depth bound k ids s r.0 deep t,
    children-deeper depth bound k ids rows r.1 deep c,
  )
  | inr t ↦ ground (arith, children-deeper depth bound k ids rows r.1 deep c)
]

-- With a level left, the next level is among the levels.
levels-first :
    (n x : ℕ) (rows : List TestSuite) (ids : List ℕ)
    → 1 ≤ n
    → elem x ids ≡ true
    → elem x (levels n rows ids) ≡ true
levels-first zero x rows ids h e = absurd (omega arith)
levels-first (suc n) x rows ids h e =
    ground (arith, elem-append x ids (levels n rows (children ids rows)))

-- A child of a suite of the levels is in them.
abbrev pub IsClosed : List ℕ → TestSuite → Type 0
IsClosed ids s = (is_child ids s ≡ false) ⊎ (elem s.id ids ≡ true)

close_level :
    (depth : ℕ → ℕ) (bound n k : ℕ) (rows : List TestSuite) (ids : List ℕ)
    → n + suc k ≡ bound
    → ((p : ℕ) → elem p ids ≡ true → k ≤ depth p)
    → (s : TestSuite) → IsRanked depth bound s
    → IsClosed (levels n rows (children ids rows)) s
    → (is_child ids s ≡ false) ⊎ (elem s.id (children ids rows) ≡ true)
    → IsClosed (levels (suc n) rows ids) s
close_level depth bound n k rows ids room deep s ranked below here =
    let next = levels n rows (children ids rows) in
    let either = parent_in-append s.parent_suite_id ids next in
    let member = elem-append s.id ids next in
    elim (Bool-cases (is_child ids s)) [
      | inl t ↦
          let deeper = child-deeper depth bound k ids s ranked deep t in
          let inside : elem s.id next ≡ true =
            levels-first n s.id rows (children ids rows) (ground arith) (ground arith) in
          inr (ground (arith, member, inside))
      | inr t ↦ ground (arith, either, member)
    ]

levels-IsClosed :
    (depth : ℕ → ℕ) (bound n k : ℕ) (rows : List TestSuite) (ids : List ℕ)
    → n + k ≡ bound
    → All (IsRanked depth bound) rows
    → ((p : ℕ) → elem p ids ≡ true → k ≤ depth p)
    → All (IsClosed (levels n rows ids)) rows
levels-IsClosed depth bound zero k rows ids room ranked deep =
    All-intro _ (λ s. inl (no_child s)) rows
  where
    no_child : (s : TestSuite) → is_child [] s ≡ false
    no_child s = elim (Option-cases s.parent_suite_id) [
      | inl e ↦ ground arith
      | inr (p, e) ↦ ground arith
    ]
levels-IsClosed depth bound (suc n) k rows ids room ranked deep =
    let rest =
      levels-IsClosed depth bound n (suc k) rows (children ids rows) (omega arith) ranked
        (children-deeper depth bound k ids rows ranked deep) in
    let covered = ids_covered (is_child ids) rows rows (λ c e. e) in
    let both : All (λ s. IsRanked depth bound s × IsClosed (levels n rows (children ids rows)) s)
        rows =
      All-both _ rows ranked rest (λ s r b. (r, b)) in
    All-both _ rows both covered
      (λ s rb h. close_level depth bound n k rows ids (omega arith) deep s rb.0 rb.1 h)

-- With the suites of the table in a forest whose depths stay below the number of its rows, which is
-- the fuel, the query leaves no live child of a suite that it returns out.
pub descendant_suite_ids-IsClosed :
    (depth : ℕ → ℕ) (root_id : ℕ) (rows : List TestSuite)
    → All (IsRanked depth (length rows)) rows
    → All (IsClosed (descendant_suite_ids root_id rows)) rows
unfolding descendant_suite_ids
descendant_suite_ids-IsClosed depth root_id rows ranked =
    levels-IsClosed depth (length rows) (length rows) 0 rows (root_ids root_id rows) (omega arith)
      ranked (λ p e. omega arith)

found-included :
    (q : TestSuite → Bool) (rows : List TestSuite) {s : TestSuite}
    → find? q rows ≡ some s
    → (elem s.id (suite_ids (select q rows)) ≡ true) × (1 ≤ length rows)
found-included q [] h = cc
found-included q (r ∷ rows) {s = s} h = ground (arith, found-included q rows {s = s})

-- A live root is among the suites that the query returns.
pub descendant_suite_ids-root :
    (root_id : ℕ) (rows : List TestSuite) {s : TestSuite}
    → find? (λ s. s.id == root_id && is_none s.deleted_at) rows ≡ some s
    → elem root_id (descendant_suite_ids root_id rows) ≡ true
unfolding descendant_suite_ids
descendant_suite_ids-root root_id rows {s = s} h =
    let root = λ (s : TestSuite). s.id == root_id && is_none s.deleted_at in
    let same : s.id ≡ root_id = ground (arith, find?-some root rows h) in
    let (inside, some_row) = found-included root rows h in
    levels-first (length rows) root_id rows (root_ids root_id rows) some_row
      (ap (λ x. elem x (root_ids root_id rows)) (sym same) ∙ inside)
