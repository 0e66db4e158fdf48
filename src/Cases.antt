-- ===== src/Cases.antt =====
-- app/services/test_case_service.py: the cases of a project's suites, with their tags.
pub mod Listing
pub mod Deletion
pub mod Updating
pub mod Moving
use api_testoria.Base.{
  nulls_last, eq_option, ℕ, ◌+◌, ◌-◌, ◌*◌, Bool, true, false, not, ◌&&◌, ◌||◌, Option, none, some,
  List, [], ◌∷◌, ◌++◌, ◌==◌, if◌then◌else◌, is_some, is_none, get_or, ltb, leb, length, select,
  find?, any, elem, sort_by, take, Text, text_eq, codes, is_empty, not_found, bad_request, pure,
  gets, or_raise, ◌>>=◌, ◌>>◌, raise_if, modify,
}
use api_testoria.Db.{
  Db, Query, TestSuite, TestCase, TestStep, Tag, CaseTag, Priority, low, medium, high, critical,
  CaseType, manual, automated, CaseStatus, draft, deprecated, insert, update, create_action,
  update_action, delete_action, restore_action, case_entity,
}
use api_testoria.Effects.{log_action, publish_case_update}
use api_testoria.Runs.{get_project}
use api_testoria.Projects.{drop}
use api_testoria.Tags.{get_or_create_many}

abbrev pub is_live_suite_of : ℕ → ℕ → TestSuite → Bool
is_live_suite_of suite_id project_id s =
    s.id == suite_id && (s.project_id == project_id && is_none s.deleted_at)

-- `_get_suite_in_project`
unfoldable pub get_suite_in_project : ℕ → ℕ → Query TestSuite
get_suite_in_project suite_id project_id = do
  found ← gets (λ db. find? (is_live_suite_of suite_id project_id) db.suites.rows)
  or_raise found bad_request

-- `get_test_case`
unfoldable pub get_test_case : ℕ → Bool → Query TestCase
get_test_case id allow_deleted = do
  found ← gets (λ db.
      find? (λ c. c.id == id && (if allow_deleted then true else is_none c.deleted_at))
        db.cases.rows)
  or_raise found not_found

-- `TestCaseCreate` of schemas/test_case.py
pub record TestCaseCreate : Type 0 where
  pub suite_id : ℕ
  pub title : Text
  pub description : Option Text
  pub preconditions : Option Text
  pub steps : List TestStep
  pub priority : Priority
  pub type : CaseType
  pub status : CaseStatus
  pub tags : List Text
  pub automation_id : Option Text
  pub display_order : Option ℕ

abbrev pub new_case : TestCaseCreate → ℕ → ℕ → TestCase
new_case data' now id = record {
  id = id;
  suite_id = data'.suite_id;
  title = data'.title;
  description = data'.description;
  preconditions = data'.preconditions;
  steps = data'.steps;
  priority = data'.priority;
  type = data'.type;
  status = data'.status;
  automation_id = data'.automation_id;
  display_order = data'.display_order;
  created_at = now;
  deleted_at = none;
}

abbrev pub tag_rows : ℕ → List Tag → List CaseTag
tag_rows case_id [] = []
tag_rows case_id (t ∷ rest) = record { case_id = case_id; tag_id = t.id } ∷ tag_rows case_id rest

-- `create_test_case`
unfoldable pub create_test_case : (Text → Text) → ℕ → TestCaseCreate → Option ℕ → Query TestCase
create_test_case to_lower project_id data' user_id = do
  get_project project_id
  get_suite_in_project data'.suite_id project_id
  tags ← get_or_create_many to_lower data'.tags
  now ← gets (λ db. db.now)
  id ← gets (λ db. db.cases.next_id)
  modify (λ db. record db {
    cases = insert (new_case data' now) db.cases;
    case_tags = db.case_tags ++ tag_rows id tags;
  })
  log_action user_id create_action case_entity id
  pure (new_case data' now id)

-- `TestCaseUpdate` of schemas/test_case.py: the outer option of the last tells whether it was set
pub record TestCaseUpdate : Type 0 where
  pub suite_id : Option ℕ
  pub title : Option Text
  pub description : Option Text
  pub preconditions : Option Text
  pub steps : Option (List TestStep)
  pub priority : Option Priority
  pub type : Option CaseType
  pub status : Option CaseStatus
  pub tags : Option (List Text)
  pub automation_id : Option Text
  pub display_order : Option (Option ℕ)

abbrev pub or_kept : Option Text → Option Text → Option Text
or_kept none old = old
or_kept (some text) old = some text

-- the attributes that `update_test_case` sets; an automation id makes the case automated
abbrev pub updated_case : TestCaseUpdate → TestCase → TestCase
updated_case data' c = record c {
  suite_id = get_or data'.suite_id c.suite_id;
  title = get_or data'.title c.title;
  description = or_kept data'.description c.description;
  preconditions = or_kept data'.preconditions c.preconditions;
  steps = get_or data'.steps c.steps;
  priority = get_or data'.priority c.priority;
  type = if is_some data'.automation_id then automated else get_or data'.type c.type;
  status = get_or data'.status c.status;
  automation_id = or_kept data'.automation_id c.automation_id;
  display_order = get_or data'.display_order c.display_order;
}

-- the query for the new suite, which takes any suite
abbrev pub check_new_suite : Option ℕ → Query (Unit {0})
check_new_suite none = pure tt
check_new_suite (some id) = do
  known ← gets (λ db. any (λ s. s.id == id) db.suites.rows)
  raise_if (not known) not_found

-- `tc.tags = …`
abbrev pub set_tags : (Text → Text) → ℕ → Option (List Text) → Query (Unit {0})
set_tags to_lower case_id none = pure tt
set_tags to_lower case_id (some names) = do
  tags ← get_or_create_many to_lower names
  modify (λ db. record db {
    case_tags = select (λ ct. not (ct.case_id == case_id)) db.case_tags ++ tag_rows case_id tags;
  })

-- `if suite is not None: publish_case_update(…)`
abbrev pub publish_in : Option TestSuite → ℕ → Query (Unit {0})
publish_in none case_id = pure tt
publish_in (some s) case_id = publish_case_update s.project_id case_id

abbrev pub save_case : ℕ → (TestCase → TestCase) → Query (Unit {0})
save_case id f = modify (λ db. record db { cases = update (λ c. c.id == id) f db.cases })

-- `update_test_case`
unfoldable pub update_test_case : (Text → Text) → ℕ → TestCaseUpdate → Option ℕ → Query TestCase
update_test_case to_lower test_case_id data' user_id = do
  tc ← get_test_case test_case_id false
  check_new_suite data'.suite_id
  set_tags to_lower tc.id data'.tags
  save_case tc.id (updated_case data')
  let tc' = updated_case data' tc
  suite ← gets (λ db. find? (λ s. s.id == tc'.suite_id) db.suites.rows)
  publish_in suite tc'.id
  log_action user_id update_action case_entity tc'.id
  pure tc'

-- `delete_test_case`
unfoldable pub delete_test_case : ℕ → Option ℕ → Query (Unit {0})
delete_test_case test_case_id user_id = do
  tc ← get_test_case test_case_id false
  now ← gets (λ db. db.now)
  save_case tc.id (λ c. record c { deleted_at = some now })
  log_action user_id delete_action case_entity test_case_id

-- `suite is None or suite.deleted_at is not None`
abbrev pub is_suite_gone : Option TestSuite → Bool
is_suite_gone none = true
is_suite_gone (some s) = is_some s.deleted_at

-- `restore_test_case`
unfoldable pub restore_test_case : ℕ → Option ℕ → Query TestCase
restore_test_case test_case_id user_id = do
  tc ← get_test_case test_case_id true
  raise_if (is_none tc.deleted_at) bad_request
  suite ← gets (λ db. find? (λ s. s.id == tc.suite_id) db.suites.rows)
  raise_if (is_suite_gone suite) bad_request
  save_case tc.id (λ c. record c { deleted_at = none })
  log_action user_id restore_action case_entity tc.id
  pure (record tc { deleted_at = none })
