-- ===== src/Suites/Reachable.antt =====
-- What creations, updates and deletions of app/services/test_suite_service.py can make of the suites.
use api_testoria.Base.{
  ℕ, ◌+◌, ◌<◌, ◌≡◌, refl, sym, ap, subst, inl, inr, true, Option, none, some, List, [], ◌∷◌, ◌++◌,
  arith, ok, ◌==◌, if◌then◌else◌, length, find?, elem, All, All-both, All-append, All-mono,
  Option-cases, >>=-eq-ok,
}
use api_testoria.Db.{Db, Table, Project, TestSuite, insert}
use api_testoria.Runs.{is_live_project, get_project}
use api_testoria.Suites.{
  suite_ids, get_suite, check_parent, new_suite, TestSuiteUpdate, TestSuiteCreate, update_suite,
  create_suite, delete_suite, descendant_suite_ids, is_live_in,
}
use api_testoria.Suites.Descent.{IsBelow, IsRanked, elem-append}
use api_testoria.Suites.Ranks.{IsRow, HasParent, rank, rank-IsRanked}
use api_testoria.Suites.Forest.{IsForest, update-IsForest}
use api_testoria.Suites.Keeping.{live, row_of_live, either, update_suite-IsForest}
use api_testoria.Suites.Cascade.{delete_suite-writes}

key_lt :
    (n k : ℕ) (rows : List TestSuite)
    → All (λ s. s.id < n) rows
    → elem k (suite_ids rows) ≡ true
    → k < n
key_lt n k [] h e = cc
key_lt n k (s ∷ rows) h e = ground (arith, h.0, key_lt n k rows h.1)

suite_ids-append : (xs ys : List TestSuite) → suite_ids (xs ++ ys) ≡ suite_ids xs ++ suite_ids ys
suite_ids-append [] ys = refl
suite_ids-append (s ∷ xs) ys = ap (λ ids. s.id ∷ ids) (suite_ids-append xs ys)

append-IsRow :
    (rows more : List TestSuite) (parent : Option ℕ)
    → IsRow (suite_ids rows) parent
    → IsRow (suite_ids (rows ++ more)) parent
append-IsRow rows more none h = tt
append-IsRow rows more (some p) h =
    rw suite_ids-append (ground (arith, h, elem-append p (suite_ids rows) (suite_ids more)))

-- The depth of a new suite below its parent.
abbrev under : (ℕ → ℕ) → Option ℕ → ℕ
under depth none = 0
under depth (some p) = depth p + 1

abbrev with_new : (ℕ → ℕ) → ℕ → ℕ → ℕ → ℕ
with_new depth n d x = if x == n then d else depth x

with_new-IsBelow :
    (depth : ℕ → ℕ) (n d x : ℕ) (rows : List TestSuite) (parent : Option ℕ)
    → All (λ s. s.id < n) rows
    → IsRow (suite_ids rows) parent
    → IsBelow depth x parent
    → IsBelow (with_new depth n d) x parent
with_new-IsBelow depth n d x rows none keys row below = tt
with_new-IsBelow depth n d x rows (some r) keys row below =
    ground (arith, below, key_lt n r rows keys row)

kept_rank :
    (depth : ℕ → ℕ) (bound n d : ℕ) (rows : List TestSuite) (s : TestSuite)
    → All (λ k. k.id < n) rows
    → s.id < n
    → HasParent rows s
    → IsRanked depth bound s
    → IsRanked (with_new depth n d) (bound + (d + 1)) s
kept_rank depth bound n d rows s keys key parent (inl gone) = inl gone
kept_rank depth bound n d rows s keys key parent (inr (deep, below)) =
    let same : with_new depth n d s.id ≡ depth s.id = ground (arith, key) in
    inr (
      omega (arith, same, deep),
      rw same (with_new-IsBelow depth n d (depth s.id) rows s.parent_suite_id keys parent below),
    )

under-IsBelow :
    (depth : ℕ → ℕ) (n : ℕ) (rows : List TestSuite) (parent : Option ℕ)
    → All (λ s. s.id < n) rows
    → IsRow (suite_ids rows) parent
    → IsBelow (with_new depth n (under depth parent)) (under depth parent) parent
under-IsBelow depth n rows none keys row = tt
under-IsBelow depth n rows (some p) keys row = ground (arith, key_lt n p rows keys row)

pub insert-IsForest :
    (project_id now : ℕ) (data' : TestSuiteCreate) (t : Table TestSuite)
    → IsForest t
    → IsRow (suite_ids t.rows) data'.parent_suite_id
    → IsForest (insert (new_suite project_id data' now) t)
insert-IsForest project_id now data' t forest row =
    let (keys, parents, (depth, ranked)) = forest in
    let n = t.next_id in
    let new = new_suite project_id data' now n in
    let rows' = t.rows ++ new ∷ [] in
    let d = under depth data'.parent_suite_id in
    let bound = length t.rows + (d + 1) in
    let known : All (HasParent rows') rows' =
      All-append (HasParent rows') t.rows (new ∷ [])
        (All-mono _ _ t.rows (λ s h. append-IsRow t.rows (new ∷ []) s.parent_suite_id h) parents)
        (append-IsRow t.rows (new ∷ []) data'.parent_suite_id row, tt) in
    let top : with_new depth n d n ≡ d = ground arith in
    let both : All (λ s. (s.id < n) × HasParent t.rows s) t.rows =
      All-both _ t.rows keys parents (λ s k p. (k, p)) in
    let placed : All (IsRanked (with_new depth n d) bound) rows' =
      All-append (IsRanked (with_new depth n d) bound) t.rows (new ∷ [])
        (All-both _ t.rows both ranked
          (λ s kp r. kept_rank depth (length t.rows) n d t.rows s keys kp.0 kp.1 r))
        (
          inr (
            omega (arith, top),
            rw top (under-IsBelow depth n t.rows data'.parent_suite_id keys row),
          ),
          tt,
        ) in
    (
      All-append (λ s. s.id < n + 1) t.rows (new ∷ [])
          (All-mono _ _ t.rows (λ s h. omega (arith, h)) keys) (omega arith, tt),
      known,
      (
        rank (with_new depth n d) rows',
        rank-IsRanked (with_new depth n d) bound rows' known placed,
      ),
    )

check_parent-IsRow :
    (project_id : ℕ) (parent : Option ℕ) (db db' : Db)
    → check_parent project_id parent db ≡ ok (tt, db')
    → (db' ≡ db) × IsRow (suite_ids db.suites.rows) parent
unfolding get_suite
check_parent-IsRow project_id none db db' h = (ground arith, tt)
check_parent-IsRow project_id (some p) db db' h =
    elim (Option-cases (find? (live p) db.suites.rows)) [
      | inl e ↦ absurd (ground arith)
      | inr (parent, e) ↦ (ground arith, row_of_live p db.suites.rows e)
    ]

get_project-same :
    (project_id : ℕ) (p : Project) (db db' : Db)
    → get_project project_id db ≡ ok (p, db')
    → db' ≡ db
unfolding get_project
get_project-same project_id p db db' h =
    elim (Option-cases (find? (is_live_project project_id) db.projects.rows)) [
      | inl e ↦ absurd (ground arith)
      | inr (k, e) ↦ ground arith
    ]

create_suite-IsForest :
    (project_id : ℕ) (data' : TestSuiteCreate) (s : TestSuite) (db db' : Db)
    → IsForest db.suites
    → create_suite project_id data' db ≡ ok (s, db')
    → IsForest db'.suites
unfolding create_suite
create_suite-IsForest project_id data' s db db' forest h =
    let (p, d1, h1, k1) = >>=-eq-ok (get_project project_id) _ db h in
    let (u, d2, h2, k2) = >>=-eq-ok (check_parent project_id data'.parent_suite_id) _ d1 k1 in
    let (same, row) = check_parent-IsRow project_id data'.parent_suite_id d1 d2 h2 in
    let still = get_project-same project_id p db d1 h1 in
    let written : db'.suites ≡ insert (new_suite project_id data' d2.now) db.suites =
      rw (sym still, sym same) (ground (arith, k2)) in
    rw written (
      insert-IsForest project_id d2.now data' db.suites forest
        (subst (λ d. IsRow (suite_ids d.suites.rows) data'.parent_suite_id) still row))

delete_suite-IsForest :
    (suite_id : ℕ) (db db' : Db)
    → IsForest db.suites
    → delete_suite suite_id db ≡ ok (tt, db')
    → IsForest db'.suites
delete_suite-IsForest suite_id db db' forest h =
    let (rooted, suites, cases) = delete_suite-writes suite_id db db' h in
    let (keys, parents, (depth, ranked)) = forest in
    let gone = is_live_in (descendant_suite_ids suite_id db.suites.rows) in
    let drop = λ (s : TestSuite). record s { deleted_at = some db.now } in
    rw suites (
      update-IsForest gone drop db.suites depth (length db.suites.rows) (λ s. refl) keys
        (All-mono _ _ db.suites.rows
          (λ s h. either (HasParent db.suites.rows) gone drop s (λ e. h) h) parents)
        (All-mono _ _ db.suites.rows
          (λ s h. either (IsRanked depth (length db.suites.rows)) gone drop s (λ e. inl refl) h)
          ranked))

-- One call that creates, changes or deletes a suite.
pub data Step : Db → Db → Type 0 where
  create :
      (project_id : ℕ) (data' : TestSuiteCreate) {s : TestSuite} {db db' : Db}
      → create_suite project_id data' db ≡ ok (s, db')
      → Step db db'
  change :
      (suite_id : ℕ) (data' : TestSuiteUpdate) {s : TestSuite} {db db' : Db}
      → update_suite suite_id data' db ≡ ok (s, db')
      → Step db db'
  delete : (suite_id : ℕ) {db db' : Db} → delete_suite suite_id db ≡ ok (tt, db') → Step db db'

-- Some of them, one after the other.
pub data Steps : Db → Db → Type 0 where
  stop : {db : Db} → Steps db db
  next : {db mid db' : Db} → Step db mid → Steps mid db' → Steps db db'

Step-IsForest : {db db' : Db} → IsForest db.suites → Step db db' → IsForest db'.suites
Step-IsForest {db = db} {db' = db'} forest (create project_id data' {s = s} h) =
    create_suite-IsForest project_id data' s db db' forest h
Step-IsForest {db = db} {db' = db'} forest (change suite_id data' {s = s} h) =
    update_suite-IsForest suite_id data' s db db' forest h
Step-IsForest {db = db} {db' = db'} forest (delete suite_id h) =
    delete_suite-IsForest suite_id db db' forest h

-- Where the suites make a forest, they make one after any sequence of creations, updates, moves and
-- deletions that return: no suite gets below itself, every parent is a row of the table, and the levels
-- of the recursive query stay below the number of rows.
pub Steps-IsForest : (db db' : Db) → IsForest db.suites → Steps db db' → IsForest db'.suites
Steps-IsForest db db' forest stop = forest
Steps-IsForest db db' forest (next {mid = mid} step rest) =
    Steps-IsForest mid db' (Step-IsForest forest step) rest
