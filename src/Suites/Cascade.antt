-- ===== src/Suites/Cascade.antt =====
-- The deletion of a suite, app/services/test_suite_service.py.
use api_testoria.Base.{
  ℕ, ◌≡◌, inl, inr, true, not, ◌&&◌, some, arith, ok, length, count, select, find?, elem, ◌==◌,
  is_none, All, All-mono, count-update_where_covered, count-update_where_done, select-update_where,
  Option-cases, Bool-cases, Bool, List, [], ◌∷◌, zero, suc, any, eq_option, subst, All-append,
}
use api_testoria.Db.{Db, TestSuite, TestCase, update}
use api_testoria.Suites.{
  get_suite, is_child, children, levels, root_ids, descendant_suite_ids, is_live_in,
  is_live_case_in, delete_suite,
}
use api_testoria.Suites.Descent.{
  IsRanked, IsClosed, descendant_suite_ids-IsClosed, descendant_suite_ids-root,
}

pub delete_suite-writes :
    (suite_id : ℕ) (db db' : Db)
    → delete_suite suite_id db ≡ ok (tt, db')
    → let ids = descendant_suite_ids suite_id db.suites.rows in
      (elem suite_id ids ≡ true)
      × (db'.suites
          ≡ update (is_live_in ids) (λ s. record s { deleted_at = some db.now }) db.suites)
      × (db'.cases
          ≡ update (is_live_case_in ids) (λ c. record c { deleted_at = some db.now }) db.cases)
unfolding delete_suite get_suite
delete_suite-writes suite_id db db' h =
    elim (Option-cases (find? (λ s. s.id == suite_id && is_none s.deleted_at) db.suites.rows)) [
      | inl e ↦ absurd (ground arith)
      | inr (s, e) ↦
          (descendant_suite_ids-root suite_id db.suites.rows e, ground arith, ground arith)
    ]

-- a live suite `k` with the parent `p`
abbrev pub is_under : ℕ → ℕ → TestSuite → Bool
is_under p k s = s.id == k && (is_none s.deleted_at && eq_option s.parent_suite_id (some p))

-- The suites below a suite: itself, and each live one whose parent is among them.
pub data Below : ℕ → List TestSuite → ℕ → Type 0 where
  itself : {root : ℕ} {rows : List TestSuite} → Below root rows root
  under :
      {root p k : ℕ} {rows : List TestSuite}
      → any (is_under p k) rows ≡ true
      → Below root rows p
      → Below root rows k

root_ids-Below :
    (root : ℕ) (seen rows : List TestSuite) → All (Below root seen) (root_ids root rows)
root_ids-Below root seen [] = tt
root_ids-Below root seen (s ∷ rows) = elim (Bool-cases (s.id == root && is_none s.deleted_at)) [
  | inr e ↦ rw e (root_ids-Below root seen rows)
  | inl e ↦
      let same : root ≡ s.id = ground arith in
      rw e (subst (Below root seen) same itself, root_ids-Below root seen rows)
]

All-elem : (P : ℕ → Type 0) (k : ℕ) (ids : List ℕ) → All P ids → elem k ids ≡ true → P k
All-elem P k [] h e = absurd (ground arith)
All-elem P k (j ∷ ids) h e = elim (Bool-cases (j == k)) [
  | inl t ↦ let same : j ≡ k = ground arith in subst P same h.0
  | inr t ↦ All-elem P k ids h.1 (ground arith)
]

children-Below :
    (root : ℕ) (seen : List TestSuite) (ids : List ℕ) (rows : List TestSuite)
    → All (Below root seen) ids
    → ((p k : ℕ) → any (is_under p k) rows ≡ true → any (is_under p k) seen ≡ true)
    → All (Below root seen) (children ids rows)
children-Below root seen ids [] h f = tt
children-Below root seen ids (s ∷ rows) h f =
    let rest = children-Below root seen ids rows h (λ p k e. f p k (ground arith)) in
    elim (Bool-cases (is_child ids s)) [
      | inr e ↦ rw e rest
      | inl e ↦ elim (Option-cases s.parent_suite_id) [
        | inl n ↦ absurd (ground arith)
        | inr (p, t) ↦
            let known : elem p ids ≡ true = ground arith in
            rw e (under (f p s.id (ground arith)) (All-elem (Below root seen) p ids h known), rest)
      ]
    ]

levels-Below :
    (root n : ℕ) (rows : List TestSuite) (ids : List ℕ)
    → All (Below root rows) ids
    → All (Below root rows) (levels n rows ids)
levels-Below root zero rows ids h = tt
levels-Below root (suc n) rows ids h =
    All-append (Below root rows) ids (levels n rows (children ids rows)) h (
      levels-Below root n rows (children ids rows)
        (children-Below root rows ids rows h (λ p k e. e)))

-- If the suites make a forest, then after the deletion of a suite no live suite has a parent among
-- the suite and its descendants, none of these is live, and no live case is in one of them; all
-- other suites and cases are as they were. The descendants are suites below the deleted one.
pub delete_suite-cascade :
    (depth : ℕ → ℕ) (suite_id : ℕ) (db db' : Db)
    → All (IsRanked depth (length db.suites.rows)) db.suites.rows
    → delete_suite suite_id db ≡ ok (tt, db')
    → let ids = descendant_suite_ids suite_id db.suites.rows in
      (elem suite_id ids ≡ true)
      × (count (is_child ids) db'.suites.rows ≡ 0)
      × (count (is_live_in ids) db'.suites.rows ≡ 0)
      × (count (is_live_case_in ids) db'.cases.rows ≡ 0)
      × (select (λ s. not (elem s.id ids)) db'.suites.rows
          ≡ select (λ s. not (elem s.id ids)) db.suites.rows)
      × (select (λ c. not (elem c.suite_id ids)) db'.cases.rows
          ≡ select (λ c. not (elem c.suite_id ids)) db.cases.rows)
      × All (Below suite_id db.suites.rows) ids
unfolding descendant_suite_ids
delete_suite-cascade depth suite_id db db' forest h =
    let ids = descendant_suite_ids suite_id db.suites.rows in
    let (rooted, suites, cases) = delete_suite-writes suite_id db db' h in
    let drop = λ (s : TestSuite). record s { deleted_at = some db.now } in
    let drop_case = λ (c : TestCase). record c { deleted_at = some db.now } in
    let closed = descendant_suite_ids-IsClosed depth suite_id db.suites.rows forest in
    (
      rooted,
      rw suites (
          count-update_where_covered (is_child ids) (is_live_in ids) drop db.suites.rows
            (All-mono _ (IsClosed ids) db.suites.rows (λ s c. ground arith) closed)
            (λ s e. ground arith)),
      rw suites
          (count-update_where_done (is_live_in ids) drop db.suites.rows (λ s e. ground arith)),
      rw cases (
          count-update_where_done (is_live_case_in ids) drop_case db.cases.rows
            (λ c e. ground arith)),
      rw suites (
          select-update_where (λ s. not (elem s.id ids)) (is_live_in ids) drop db.suites.rows
            (λ s e. (ground arith, ground arith))),
      rw cases (
          select-update_where (λ c. not (elem c.suite_id ids)) (is_live_case_in ids) drop_case
            db.cases.rows (λ c e. (ground arith, ground arith))),
      levels-Below suite_id (length db.suites.rows) db.suites.rows
          (root_ids suite_id db.suites.rows)
          (root_ids-Below suite_id db.suites.rows db.suites.rows),
    )
