-- ===== src/Examples/Imports.antt =====
-- Examples of imported reports.
use api_testoria.Base.{
  ◌+◌, ◌≡◌, refl, none, some, [], ◌∷◌, ok, raised, is_space, codes, length, List, count,
}
use api_testoria.Db.{Db, TestRun, ResultStatus}
use api_testoria.Effects.{log_action, publish_run_status, publish_result_bulk}
use api_testoria.Runs.{get_run, transition_to_active}
use api_testoria.Scope.{run_scope_case_ids, is_auto_case}
use api_testoria.Progress.{get_count}
use api_testoria.Results.{
  normalise_status, validate_step_results, should_record_history, write_result, write_with_history,
}
use api_testoria.Results.Counting.{is_counted_as}
use api_testoria.Results.Bulk.{submit_items, finish_many, submit_many}
use api_testoria.Import.Parsing.{malformed, ParsedCase, Readers, clean, parse_junit}
use api_testoria.Import.Index.{dotted, add, lookup, index_cases}
use api_testoria.Import.{
  match_case, match_cases, MatchState, no_matches, given_format, junit, ResultImportReport,
  import_results,
}
use api_testoria.Import.Matching.{match_cases_lem}
use api_testoria.Import.Report.{import_results-report}
use api_testoria.Examples.{shop, case_of, after, value}

abbrev parsed : ParsedCase
parsed = record {
  classname = some (codes "t.a");
  name = codes "x";
  status = codes "passed";
  comment = none;
  message = none;
  stack_trace = none;
  execution_time = none;
}

abbrev ends : MatchState
unfolding match_case lookup add dotted
ends =
    elim (match_cases (index_cases (case_of 1 ∷ []) []) (1 ∷ []) (parsed ∷ parsed ∷ [])
      no_matches) [ ok m ↦ m | raised e ↦ no_matches ]

match_cases_lem_example : length ends.items + length ends.unmatched ≡ 2
unfolding match_case lookup add dotted
match_cases_lem_example =
    (match_cases_lem (index_cases (case_of 1 ∷ []) []) (1 ∷ []) (parsed ∷ parsed ∷ []) ends 1
      refl).0

-- a reader of a document with one element
abbrev readers : Readers
readers = record {
  read_xml = λ content. some (
      record {
        class_attribute = some (codes "t.a");
        name_attribute = some (codes "x");
        time = none;
        failure = none;
        error = none;
        skipped_node = none;
      }
      ∷ []);
  read_json = λ content. malformed;
  read_time = λ raw. ok none;
}

abbrev no_report : ResultImportReport
no_report = record {
  run_id = 0;
  total = 0;
  matched = 0;
  submitted = 0;
  unmatched_count = 0;
  unmatched_cases = [];
  rules = [];
  status_counts = [];
}

abbrev report : ResultImportReport
unfolding import_results parse_junit clean is_space get_run run_scope_case_ids is_auto_case
    match_case lookup add dotted submit_many submit_items finish_many validate_step_results
    normalise_status write_result write_with_history should_record_history transition_to_active
    log_action publish_run_status publish_result_bulk
report = value no_report (import_results readers 2 (codes "<x/>") 7 none (given_format junit) shop)

abbrev imported : Db
unfolding import_results parse_junit clean is_space get_run run_scope_case_ids is_auto_case
    match_case lookup add dotted submit_many submit_items finish_many validate_step_results
    normalise_status write_result write_with_history should_record_history transition_to_active
    log_action publish_run_status publish_result_bulk
imported = after (import_results readers 2 (codes "<x/>") 7 none (given_format junit) shop)

import_results-report_example :
    (run : TestRun) × (entries : List ParsedCase) × (m : MatchState) × (submit_many 2 m.items 7 shop
      ≡ ok ((report.submitted, report.status_counts), imported))
    × (get_count ResultStatus.passed report.status_counts
        ≡ count (λ item. is_counted_as ResultStatus.passed item.status) m.items)
    × (report.matched + report.unmatched_count ≡ report.total)
unfolding import_results parse_junit clean is_space get_run run_scope_case_ids is_auto_case
    match_case lookup add dotted submit_many submit_items finish_many validate_step_results
    normalise_status write_result write_with_history should_record_history transition_to_active
    log_action publish_run_status publish_result_bulk
import_results-report_example =
    let (
      run, entries, m, found, parses, matches, submits, counts, all, total, submitted, sum, few,
    ) =
      import_results-report readers 2 7 (codes "<x/>") none (given_format junit) report shop
        imported refl in
    (run, entries, m, submits, counts ResultStatus.passed, total)

-- the entry matches, and is submitted
one_matched : report.matched ≡ 1
unfolding import_results parse_junit clean is_space get_run run_scope_case_ids is_auto_case
    match_case lookup add dotted submit_many submit_items finish_many validate_step_results
    normalise_status write_result write_with_history should_record_history transition_to_active
    log_action publish_run_status publish_result_bulk
one_matched = refl
