-- ===== src/Examples/Cases.antt =====
-- Examples of cases, their tags, and milestones.
use api_testoria.Base.{
  ◌≡◌, refl, false, none, some, List, [], ◌∷◌, arith, ok, raised, not_found, bad_request, codes,
  text_eq, Bool, Text, lower,
}
use api_testoria.Db.{Db, TestCase, TestSuite, Milestone, medium, manual, draft}
use api_testoria.Runs.{get_project}
use api_testoria.Tags.Names.{lower-IsLower}
use api_testoria.Tags.Creation.{HasUniqueNames}
use api_testoria.Milestones.{get_milestone, delete_milestone, restore_milestone}
use api_testoria.Milestones.Deletion.{restore_milestone-after_delete}
use api_testoria.Cases.Listing.{TestCaseListFilters}
use api_testoria.Cases.{
  TestCaseCreate, TestCaseUpdate, get_test_case, create_test_case, update_test_case,
}
use api_testoria.Cases.Updating.{IsUpdated, update_test_case_lem}
use api_testoria.Cases.Moving.{move_to, update_test_case-moves}
use api_testoria.Examples.{shop, a_project, a_suite, case_of, table}

unique_tags : HasUniqueNames shop
unique_tags name = ground arith

abbrev given_names : List Text
given_names = codes "  Smoke" ∷ codes " " ∷ codes "API" ∷ codes "smoke " ∷ []

abbrev a_milestone : Milestone
a_milestone = record {
  id = 1;
  project_id = 1;
  name = codes "v1";
  description = none;
  target_date = some 5000;
  is_completed = false;
  created_at = 3;
  deleted_at = none;
}

abbrev with_milestone : Db
with_milestone = record shop { milestones = table (a_milestone ∷ []) 2 }

restore_milestone-after_delete_example :
    (mid : Db) × (delete_milestone 1 with_milestone ≡ ok (tt, mid))
    × (get_milestone 1 false mid ≡ raised not_found)
    × (restore_milestone 1 mid ≡ ok (a_milestone, with_milestone))
restore_milestone-after_delete_example =
    restore_milestone-after_delete 1 a_milestone a_project with_milestone (omega arith) refl refl
      refl

-- an update of the tags and of the automation id
abbrev retagged : TestCaseUpdate
retagged = record (move_to 1) { tags = some given_names; automation_id = some (codes "t/b.py::y") }

update_test_case_lem_example :
    (tc' : TestCase) × (db' : Db) × (update_test_case lower 1 retagged none shop ≡ ok (tc', db'))
    × IsUpdated retagged (case_of 1) tc'
    × (get_test_case 1 false db' ≡ ok (tc', db'))
unfolding get_test_case
update_test_case_lem_example =
    let (tc', db', e, updated, found, tags, others, suites) =
      update_test_case_lem lower 1 none retagged (case_of 1) shop lower-IsLower unique_tags refl
        refl in
    (tc', db', e, updated, found)

-- a suite that is deleted
abbrev gone_suite : TestSuite
gone_suite = record a_suite { id = 2; deleted_at = some 900 }

abbrev halved : Db
halved = record shop { suites = table (a_suite ∷ gone_suite ∷ []) 3 }

abbrev new_in_gone : TestCaseCreate
new_in_gone = record {
  suite_id = 2;
  title = codes "pays";
  description = none;
  preconditions = none;
  steps = [];
  priority = medium;
  type = manual;
  status = draft;
  tags = [];
  automation_id = none;
  display_order = none;
}

abbrev all_cases : TestCaseListFilters
all_cases = record {
  search = none;
  suite_id = none;
  priority = none;
  type = none;
  status = none;
  tag_ids = none;
  automation_id = none;
  has_automation_id = none;
  page = 1;
  page_size = 20;
}

abbrev same_text : Text → Text → Bool
same_text a b = text_eq a b

update_test_case-moves_example :
    (create_test_case lower 1 new_in_gone none halved ≡ raised bad_request)
    × (db' : Db) × (update_test_case lower 1 (move_to 2) none halved
        ≡ ok (record (case_of 1) { suite_id = 2 }, db'))
unfolding get_project
update_test_case-moves_example =
    let (refused, db', moved, unlisted) =
      update_test_case-moves lower same_text all_cases new_in_gone none 1 1 a_project (case_of 1)
        gone_suite halved unique_tags refl refl (omega arith) refl refl refl in
    (refused, db', moved)
