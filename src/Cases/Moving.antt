-- ===== src/Cases/Moving.antt =====
-- Where `update_test_case` of app/services/test_case_service.py lets a case go, against
-- `create_test_case`.
use api_testoria.Base.{
  ℕ, ◌≡◌, ◌≤◌, refl, ◌∙◌, Bool, true, false, not, ◌||◌, Option, none, some, List, [], ◌∷◌, arith,
  ok, raised, bad_request, find?, find?-some, any, count, ◌==◌, is_some, Text,
}
use api_testoria.Db.{Db, Project, TestCase, TestSuite}
use api_testoria.Runs.{get_project}
use api_testoria.Tags.Creation.{HasUniqueNames}
use api_testoria.Cases.Listing.{TestCaseListFilters, in_case_list}
use api_testoria.Cases.{
  is_live_suite_of, get_suite_in_project, TestCaseCreate, TestCaseUpdate, create_test_case,
  update_test_case,
}
use api_testoria.Cases.Deletion.{is_live_case}
use api_testoria.Cases.Updating.{update_at}

-- A payload that only moves the case.
abbrev pub move_to : ℕ → TestCaseUpdate
move_to suite_id = record {
  suite_id = some suite_id;
  title = none;
  description = none;
  preconditions = none;
  steps = none;
  priority = none;
  type = none;
  status = none;
  tags = none;
  automation_id = none;
  display_order = none;
}

none_of :
    (p q : TestSuite → Bool) (rows : List TestSuite)
    → ((x : TestSuite) → q x ≡ true → p x ≡ true)
    → count p rows ≡ 0
    → any q rows ≡ false
none_of p q [] k c = refl
none_of p q (x ∷ rows) k c = ground (arith, k x, none_of p q rows k)

-- Where a key finds a row that a narrower query refuses, the query finds none.
none_but :
    (p q : TestSuite → Bool) (rows : List TestSuite) {s : TestSuite}
    → count p rows ≤ 1
    → find? p rows ≡ some s
    → ((x : TestSuite) → q x ≡ true → p x ≡ true)
    → q s ≡ false
    → any q rows ≡ false
none_but p q [] c h k e = refl
none_but p q (x ∷ rows) {s = s} c h k e =
    ground (arith, k x, none_of p q rows k, none_but p q rows {s = s})

any_of_find? :
    (q : TestSuite → Bool) (rows : List TestSuite) {s : TestSuite}
    → find? q rows ≡ some s
    → any q rows ≡ true
any_of_find? q [] h = cc
any_of_find? q (x ∷ rows) {s = s} h = ground (arith, any_of_find? q rows {s = s})

find?-of_any :
    (q : TestSuite → Bool) (rows : List TestSuite) → any q rows ≡ false → find? q rows ≡ none
find?-of_any q [] h = refl
find?-of_any q (x ∷ rows) h = ground (arith, find?-of_any q rows)

-- Without names of tags the lower case plays no part.
update_test_case-lower :
    (f g : Text → Text) (id suite_id : ℕ) (user_id : Option ℕ) (db : Db)
    → update_test_case f id (move_to suite_id) user_id db
      ≡ update_test_case g id (move_to suite_id) user_id db
unfolding update_test_case
update_test_case-lower f g id suite_id user_id db = refl

-- A suite that is deleted or of another project takes no new case of the project. An update moves a
-- case there all the same: the call returns, the case has the suite, and no listing of the project has
-- the case any more, whatever its filters.
pub update_test_case-moves :
    (to_lower : Text → Text) (ilike : Text → Text → Bool) (filters : TestCaseListFilters)
    (data' : TestCaseCreate) (user_id : Option ℕ) (id project_id : ℕ) (p : Project) (tc : TestCase)
    (s : TestSuite) (db : Db)
    → HasUniqueNames db
    → get_project project_id db ≡ ok (p, db)
    → find? (is_live_case id) db.cases.rows ≡ some tc
    → count (λ x. x.id == s.id) db.suites.rows ≤ 1
    → find? (λ x. x.id == s.id) db.suites.rows ≡ some s
    → (not (s.project_id == project_id) || is_some s.deleted_at) ≡ true
    → data'.suite_id ≡ s.id
    → (create_test_case to_lower project_id data' user_id db ≡ raised bad_request)
      × (db' : Db) × (update_test_case to_lower id (move_to s.id) user_id db
          ≡ ok (record tc { suite_id = s.id }, db'))
      × (in_case_list ilike project_id filters false db' (record tc { suite_id = s.id }) ≡ false)
unfolding create_test_case get_suite_in_project in_case_list
update_test_case-moves to_lower ilike filters data' user_id id project_id p tc s db uniq project
      found one there barred own =
    let refused : any (is_live_suite_of s.id project_id) db.suites.rows ≡ false =
      none_but (λ x. x.id == s.id) (is_live_suite_of s.id project_id) db.suites.rows one there
        (λ x h. ground arith) (ground arith) in
    let missing = find?-of_any (is_live_suite_of s.id project_id) db.suites.rows refused in
    let known : any (λ (x : TestSuite). x.id == s.id) db.suites.rows ≡ true =
      any_of_find? (λ x. x.id == s.id) db.suites.rows there in
    let same : tc.id ≡ id = ground (arith, find?-some (is_live_case id) db.cases.rows found) in
    let (db', e, tags, cases, suites) =
      update_at (λ t. []) id user_id (move_to s.id) tc db same (λ t. refl, λ t. refl) uniq found
        (rw known refl) in
    (
      rw (project, own, missing) refl,
      db',
      update_test_case-lower to_lower (λ t. []) id s.id user_id db ∙ e,
      rw (suites, refused) refl,
    )
