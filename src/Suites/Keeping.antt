-- ===== src/Suites/Keeping.antt =====
-- `create_suite`, `update_suite` and `delete_suite` of app/services/test_suite_service.py keep the
-- suites a forest.
use api_testoria.Base.{
  ℕ, ◌+◌, ◌<◌, ◌≡◌, refl, sym, subst, ◌⊎◌, inl, inr, Bool, true, false, ◌&&◌, Option, none, some,
  List, [], ◌∷◌, arith, ok, ◌==◌, if◌then◌else◌, is_none, is_some, length, find?, find?-some, elem,
  All-both, All-mono, Bool-cases, Option-cases, >>=-eq-ok,
}
use api_testoria.Db.{Db, Table, TestSuite, update}
use api_testoria.Suites.{
  suite_ids, get_suite, check_move, updated_suite, TestSuiteUpdate, update_suite,
  descendant_suite_ids,
}
use api_testoria.Suites.Descent.{IsRanked, descendant_suite_ids-IsClosed, descendant_suite_ids-root}
use api_testoria.Suites.Ranks.{HasParent}
use api_testoria.Suites.Forest.{IsForest, update-IsForest, deeper, stays, moves}

row_of_find? :
    (q : TestSuite → Bool) (rows : List TestSuite) {s : TestSuite}
    → find? q rows ≡ some s
    → elem s.id (suite_ids rows) ≡ true
row_of_find? q [] h = cc
row_of_find? q (r ∷ rows) {s = s} h = ground (arith, row_of_find? q rows {s = s})

-- a live suite of the id
abbrev pub live : ℕ → TestSuite → Bool
live id s = s.id == id && is_none s.deleted_at

-- The checks that a parent has passed.
abbrev IsMovable : TestSuite → Option (Option ℕ) → List TestSuite → Type 0
IsMovable suite none rows = Unit
IsMovable suite (some none) rows = Unit
IsMovable suite (some (some p)) rows =
    (elem p (suite_ids rows) ≡ true) × (elem p (descendant_suite_ids suite.id rows) ≡ false)

pub row_of_live :
    (p : ℕ) (rows : List TestSuite) {s : TestSuite}
    → find? (live p) rows ≡ some s
    → elem p (suite_ids rows) ≡ true
row_of_live p rows {s = s} e =
    let same : s.id ≡ p = ground (arith, find?-some (live p) rows e) in
    subst (λ k. elem k (suite_ids rows) ≡ true) same (row_of_find? (live p) rows e)

check_move-IsMovable :
    (suite : TestSuite) (o : Option (Option ℕ)) (db db' : Db)
    → check_move suite o db ≡ ok (tt, db')
    → (db' ≡ db) × IsMovable suite o db.suites.rows
unfolding get_suite
check_move-IsMovable suite none db db' h = (ground arith, tt)
check_move-IsMovable suite (some none) db db' h = (ground arith, tt)
check_move-IsMovable suite (some (some p)) db db' h =
    elim (Option-cases (find? (live p) db.suites.rows)) [
      | inl e ↦ absurd (ground arith)
      | inr (parent, e) ↦ (ground arith, (row_of_live p db.suites.rows e, ground arith))
    ]

pub either :
    (P : TestSuite → Type 0) (q : TestSuite → Bool) (f : TestSuite → TestSuite) (s : TestSuite)
    → (q s ≡ true → P (f s))
    → P s
    → P (if q s then f s else s)
either P q f s hit miss = elim (Bool-cases (q s)) [ inl e ↦ rw e (hit e) | inr e ↦ rw e miss ]

as_root :
    (depth : ℕ → ℕ) (bound : ℕ) (s : TestSuite)
    → IsRanked depth bound s
    → (is_some s.deleted_at ≡ true) ⊎ ((depth s.id < bound) × Unit {0})
as_root depth bound s (inl gone) = inl gone
as_root depth bound s (inr (deep, below)) = inr (deep, tt)

-- What the rows of a forest need after an update of one suite, by the new parent that it is given.
pub get_suite-live :
    (suite_id : ℕ) (suite : TestSuite) (db db' : Db)
    → get_suite suite_id false db ≡ ok (suite, db')
    → (find? (live suite.id) db.suites.rows ≡ some suite) × (db' ≡ db)
unfolding get_suite
get_suite-live suite_id suite db db' h =
    elim (Option-cases (find? (live suite_id) db.suites.rows)) [
      | inl e ↦ absurd (ground arith)
      | inr (s, e) ↦
          let same : s ≡ suite = ground arith in
          let key : s.id ≡ suite_id = ground (arith, find?-some (live suite_id) db.suites.rows e) in
          (
            subst (λ k. find? (live k.id) db.suites.rows ≡ some k) same
                (subst (λ k. find? (live k) db.suites.rows ≡ some s) (sym key) e),
            ground arith,
          )
    ]

module _ (t : Table TestSuite) (data' : TestSuiteUpdate) (suite : TestSuite)
    (forest : IsForest t) where
  abbrev own : TestSuite → Bool
  own k = k.id == suite.id

  hung :
      (o : Option (Option ℕ))
      → data'.parent_suite_id ≡ o
      → elem suite.id (descendant_suite_ids suite.id t.rows) ≡ true
      → IsMovable suite o t.rows
      → IsForest (update own (updated_suite data') t)
  hung none given root movable =
      let (keys, parents, (depth, ranked)) = forest in
      update-IsForest own (updated_suite data') t depth (length t.rows) (λ s. refl) keys
        (All-mono _ _ t.rows
          (λ s h. either (HasParent t.rows) own (updated_suite data') s (λ e. rw given h) h)
          parents)
        (All-mono _ _ t.rows
          (λ s h.
            either (IsRanked depth (length t.rows)) own (updated_suite data') s (λ e. rw given h) h)
          ranked)
  hung (some none) given root movable =
      let (keys, parents, (depth, ranked)) = forest in
      update-IsForest own (updated_suite data') t depth (length t.rows) (λ s. refl) keys
        (All-mono _ _ t.rows
          (λ s h. either (HasParent t.rows) own (updated_suite data') s (λ e. rw given tt) h)
          parents)
        (All-mono _ _ t.rows
          (λ s h.
            either (IsRanked depth (length t.rows)) own (updated_suite data') s
              (λ e. rw given (as_root depth (length t.rows) s h)) h)
          ranked)
  hung (some (some p)) given root (row, outside) =
      let (keys, parents, (depth, ranked)) = forest in
      let below = descendant_suite_ids suite.id t.rows in
      let bound = length t.rows + (depth p + 1) in
      let f = updated_suite data' in
      update-IsForest own f t (deeper depth below p) bound (λ s. refl) keys
        (All-mono _ _ t.rows (λ s h. either (HasParent t.rows) own f s (λ e. rw given row) h)
          parents)
        (All-both _ t.rows ranked (descendant_suite_ids-IsClosed depth suite.id t.rows ranked)
          (λ s r c.
            either (IsRanked (deeper depth below p) bound) own f s
              (λ e.
                let same : s.id ≡ suite.id = ground (arith, e) in
                moves depth (length t.rows) below p data' s given (rw same root) outside r)
              (stays depth (length t.rows) below p s r c)))

-- An update that returns keeps the suites a forest.
pub update_suite-IsForest :
    (suite_id : ℕ) (data' : TestSuiteUpdate) (s : TestSuite) (db db' : Db)
    → IsForest db.suites
    → update_suite suite_id data' db ≡ ok (s, db')
    → IsForest db'.suites
unfolding update_suite
update_suite-IsForest suite_id data' s db db' forest h =
    let (suite, d1, h1, k1) = >>=-eq-ok (get_suite suite_id false) _ db h in
    let (u, d2, h2, k2) = >>=-eq-ok (check_move suite data'.parent_suite_id) _ d1 k1 in
    let (found, same) = get_suite-live suite_id suite db d1 h1 in
    let (same', movable) = check_move-IsMovable suite data'.parent_suite_id d1 d2 h2 in
    let root = descendant_suite_ids-root suite.id db.suites.rows found in
    let written : db'.suites ≡ update (λ k. k.id == suite.id) (updated_suite data') db.suites =
      rw (sym same, sym same') (ground (arith, k2)) in
    rw written (
      hung db.suites data' suite forest data'.parent_suite_id refl root
        (subst (λ d. IsMovable suite data'.parent_suite_id d.suites.rows) same movable))
