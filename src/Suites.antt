-- ===== src/Suites.antt =====
-- app/services/test_suite_service.py: the tree of suites of a project.
pub mod Descent
pub mod Cascade
pub mod Ranks
pub mod Forest
pub mod Keeping
pub mod Reachable
use api_testoria.Base.{
  nulls_last, eq_option, ℕ, zero, suc, Bool, true, false, not, ◌&&◌, ◌||◌, Option, none, some, List,
  [], ◌∷◌, ◌++◌, leb, ltb, ◌==◌, if◌then◌else◌, is_none, is_some, get_or, length, select, find?,
  elem, sort_by, Text, not_found, bad_request, pure, gets, or_raise, ◌>>=◌, ◌>>◌, raise_if, modify,
}
use api_testoria.Db.{Db, Query, TestSuite, TestCase, insert, update}
use api_testoria.Runs.{get_project, is_gone}

-- `get_suite`
unfoldable pub get_suite : ℕ → Bool → Query TestSuite
get_suite id allow_deleted = do
  found ← gets (λ db.
      find? (λ s. s.id == id && (if allow_deleted then true else is_none s.deleted_at))
        db.suites.rows)
  or_raise found not_found

-- `apply_suite_order`: by display_order, created_at and id
abbrev pub suite_before : TestSuite → TestSuite → Bool
suite_before a b =
    nulls_last a.display_order b.display_order
    || eq_option a.display_order b.display_order
      && (ltb a.created_at b.created_at || a.created_at == b.created_at && leb a.id b.id)

-- `list_suites`
unfoldable pub list_suites : ℕ → Bool → Query (List TestSuite)
list_suites project_id include_deleted = do
  get_project project_id
  gets (λ db. sort_by suite_before (
      select (λ s. s.project_id == project_id && (include_deleted || is_none s.deleted_at))
        db.suites.rows))

-- schemas/test_suite.py
pub record TestSuiteCreate : Type 0 where
  pub name : Text
  pub description : Option Text
  pub parent_suite_id : Option ℕ
  pub display_order : Option ℕ

abbrev pub check_parent : ℕ → Option ℕ → Query (Unit {0})
check_parent project_id none = pure tt
check_parent project_id (some id) = do
  parent ← get_suite id false
  raise_if (not (parent.project_id == project_id)) bad_request

abbrev pub new_suite : ℕ → TestSuiteCreate → ℕ → ℕ → TestSuite
new_suite project_id data' now id = record {
  id = id;
  project_id = project_id;
  parent_suite_id = data'.parent_suite_id;
  name = data'.name;
  description = data'.description;
  display_order = data'.display_order;
  created_at = now;
  deleted_at = none;
}

-- `create_suite`
unfoldable pub create_suite : ℕ → TestSuiteCreate → Query TestSuite
create_suite project_id data' = do
  get_project project_id
  check_parent project_id data'.parent_suite_id
  now ← gets (λ db. db.now)
  id ← gets (λ db. db.suites.next_id)
  modify (λ db. record db { suites = insert (new_suite project_id data' now) db.suites })
  pure (new_suite project_id data' now id)

abbrev pub suite_ids : List TestSuite → List ℕ
suite_ids [] = []
suite_ids (s ∷ rest) = s.id ∷ suite_ids rest

abbrev pub parent_in : List ℕ → Option ℕ → Bool
parent_in ids none = false
parent_in ids (some p) = elem p ids

-- the recursive part of the CTE: a live suite with its parent in the last level
abbrev pub is_child : List ℕ → TestSuite → Bool
is_child ids s = is_none s.deleted_at && parent_in ids s.parent_suite_id

abbrev pub children : List ℕ → List TestSuite → List ℕ
children ids rows = suite_ids (select (is_child ids) rows)

-- The levels of the recursive CTE, from one level on. PostgreSQL goes on until a level is empty; here
-- the fuel counts the levels.
abbrev pub levels : ℕ → List TestSuite → List ℕ → List ℕ
levels zero rows ids = []
levels (suc n) rows ids = ids ++ levels n rows (children ids rows)

-- the base of the CTE
abbrev pub root_ids : ℕ → List TestSuite → List ℕ
root_ids root_id rows = suite_ids (select (λ s. s.id == root_id && is_none s.deleted_at) rows)

-- `_descendant_suite_ids`, with a level for each suite of the table
unfoldable pub descendant_suite_ids : ℕ → List TestSuite → List ℕ
descendant_suite_ids root_id rows = levels (length rows) rows (root_ids root_id rows)

-- schemas/test_suite.py: the outer option of the last two tells whether the field was set
pub record TestSuiteUpdate : Type 0 where
  pub name : Option Text
  pub description : Option Text
  pub parent_suite_id : Option (Option ℕ)
  pub display_order : Option (Option ℕ)

-- `if data.parent_suite_id is not None: …`
abbrev pub check_move : TestSuite → Option (Option ℕ) → Query (Unit {0})
check_move suite (some (some parent_id)) = do
  raise_if (parent_id == suite.id) bad_request
  parent ← get_suite parent_id false
  raise_if (not (parent.project_id == suite.project_id)) bad_request
  descendants ← gets (λ db. descendant_suite_ids suite.id db.suites.rows)
  raise_if (elem parent_id descendants) bad_request
check_move suite _ = pure tt

abbrev or_kept : Option Text → Option Text → Option Text
or_kept none old = old
or_kept (some text) old = some text

abbrev pub updated_suite : TestSuiteUpdate → TestSuite → TestSuite
updated_suite data' s = record s {
  name = get_or data'.name s.name;
  description = or_kept data'.description s.description;
  parent_suite_id = get_or data'.parent_suite_id s.parent_suite_id;
  display_order = get_or data'.display_order s.display_order;
}

-- `update_suite`
unfoldable pub update_suite : ℕ → TestSuiteUpdate → Query TestSuite
update_suite suite_id data' = do
  suite ← get_suite suite_id false
  check_move suite data'.parent_suite_id
  modify
      (λ db. record db { suites = update (λ s. s.id == suite.id) (updated_suite data') db.suites })
  pure (updated_suite data' suite)

abbrev pub is_live_in : List ℕ → TestSuite → Bool
is_live_in ids s = elem s.id ids && is_none s.deleted_at

abbrev pub is_live_case_in : List ℕ → TestCase → Bool
is_live_case_in ids c = elem c.suite_id ids && is_none c.deleted_at

-- `delete_suite`; without descendants the two updates match no row
unfoldable pub delete_suite : ℕ → Query (Unit {0})
delete_suite suite_id = do
  get_suite suite_id false
  now ← gets (λ db. db.now)
  ids ← gets (λ db. descendant_suite_ids suite_id db.suites.rows)
  modify (λ db. record db {
    suites = update (is_live_in ids) (λ s. record s { deleted_at = some now }) db.suites;
    cases = update (is_live_case_in ids) (λ c. record c { deleted_at = some now }) db.cases;
  })

-- `restore_suite`
unfoldable pub restore_suite : ℕ → Query TestSuite
restore_suite suite_id = do
  suite ← get_suite suite_id true
  raise_if (is_none suite.deleted_at) bad_request
  project ← gets (λ db. find? (λ p. p.id == suite.project_id) db.projects.rows)
  raise_if (is_gone project) bad_request
  modify (λ db. record db {
    suites = update (λ s. s.id == suite.id) (λ s. record s { deleted_at = none }) db.suites;
  })
  pure (record suite { deleted_at = none })
