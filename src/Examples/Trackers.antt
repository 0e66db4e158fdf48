-- ===== src/Examples/Trackers.antt =====
-- Examples of results from CI, and of defects in trackers.
use api_testoria.Base.{
  ◌+◌, ◌≡◌, refl, ◌⊎◌, true, none, some, List, [], ◌∷◌, ◌++◌, arith, ok, raised, not_found, codes,
  count, find?, ◌==◌, length, Text, All,
}
use api_testoria.Db.{Db, TestResult}
use api_testoria.Effects.{log_action, publish_run_status, publish_result_update}
use api_testoria.Runs.{get_run, transition_to_active}
use api_testoria.Results.{
  get_case, get_result, normalise_status, validate_step_results, should_record_history,
  write_result, write_with_history, finish_submit, submit,
}
use api_testoria.Results.Invariant.{IsValid}
use api_testoria.Import.Parsing.{Element, seconds, Value, string, other}
use api_testoria.Ci.{Readers, import_elements, import_junit_xml}
use api_testoria.Ci.Importing.{is_matched, IsSubmitted, import_junit_xml_lem}
use api_testoria.Defects.{
  DefectResponse, Reference, respond, Answer, created, Request, GitHubDefectCreate, github_request,
}
use api_testoria.Defects.Outcomes.{github, make, IsLinked, make-outcomes}
use api_testoria.Examples.{shop, case_of, table, after}

-- the second case with a title of its own
abbrev titled : Db
titled = record shop {
  cases =
      table
        (record (case_of 1) { title = codes "cart.adds" }
          ∷ record (case_of 2) { title = codes "pays" }
          ∷ [])
        3;
}

abbrev element_of : Text → Text → Element
element_of class_name name = record {
  class_attribute = some class_name;
  name_attribute = some name;
  time = some (codes "1.5");
  failure = none;
  error = none;
  skipped_node = none;
}

abbrev readers : Readers
readers = record {
  find_cases = λ content.
      some (element_of (codes "cart") (codes "adds") ∷ element_of [] (codes "lost") ∷ []);
  read_int = λ raw. some (seconds 1);
}

titled-IsValid : IsValid titled.results
titled-IsValid = ((omega arith, tt), λ k. ground arith, λ r c. ground arith)

abbrev imported : Db
unfolding import_junit_xml import_elements submit validate_step_results get_run get_case get_result
    normalise_status write_result write_with_history should_record_history finish_submit
    transition_to_active log_action publish_run_status publish_result_update
imported = after (import_junit_xml readers 1 (codes "<x/>") 7 titled)

import_junit_xml_lem_example :
    (elements : List Element) × (readers.find_cases (codes "<x/>") ≡ some elements)
    × (1 ≡ count (is_matched titled) elements)
    × (1 + 1 ≡ length elements)
    × (imported.cases ≡ titled.cases)
    × IsValid imported.results
    × All (IsSubmitted 1 7 titled.cases.rows imported) elements
unfolding import_junit_xml import_elements submit validate_step_results get_run get_case get_result
    normalise_status write_result write_with_history should_record_history finish_submit
    transition_to_active log_action publish_run_status publish_result_update
import_junit_xml_lem_example =
    import_junit_xml_lem readers 1 7 (codes "<x/>") 1 1 titled imported titled-IsValid refl

abbrev issue : List (Text × Value)
issue =
    (codes "number", other (codes "12") true)
    ∷ (codes "html_url", string (codes "https://g/12"))
    ∷ []

abbrev bug : GitHubDefectCreate
bug = record {
  test_result_id = 1;
  repo_owner = codes "a";
  repo_name = codes "b";
  token = codes "t";
  title = codes "cart is empty";
  body = [];
}

abbrev bug_ref : Reference
bug_ref = record {
  tracker = codes "github";
  key = string (codes "12");
  url = string (codes "https://g/12");
  summary = codes "cart is empty";
}

abbrev bug_answer : DefectResponse
bug_answer = record {
  tracker = codes "github";
  key = codes "12";
  url = codes "https://g/12";
  summary = codes "cart is empty";
}

abbrev as_json : Reference → Text
as_json ref = ref.tracker ++ codes ":" ++ ref.summary

abbrev answering : Request → Answer
answering request = created issue

make-outcomes_example :
    let (posted, answer) = make answering as_json (github bug) shop in
    (posted ≡ github_request bug ∷ [])
    × (((find? (λ r. r.id == 1) shop.results.rows ≡ none) × (answer ≡ raised not_found))
        ⊎ ((tr : TestResult) × (db' : Db) × (find? (λ r. r.id == 1) shop.results.rows ≡ some tr)
            × (answer ≡ ok (bug_answer, db'))
            × IsLinked as_json 1 bug_ref tr shop db'))
unfolding respond
make-outcomes_example =
    make-outcomes answering as_json (github bug) issue bug_ref bug_answer shop refl refl refl
