-- ===== src/Import.antt =====
-- app/services/result_import_service.py: reports of test frameworks, matched with cases and submitted.
pub mod Parsing
pub mod Index
pub mod Matching
pub mod Report
use api_testoria.Base.{
  lower, ℕ, ◌+◌, Bool, true, false, not, ◌&&◌, ◌||◌, Option, none, some, List, [], ◌∷◌, ◌++◌, ◌==◌,
  if◌then◌else◌, is_none, is_some, not_found, bad_request, value_error, length, select, elem, take,
  Text, codes, text_eq, is_empty, pure, raise, gets, or_raise, ◌>>=◌, ◌>>◌, leb, reverse, Result,
  ok, raised, ◌⊎◌, inl, inr,
}
use api_testoria.Db.{
  Db, Query, TestCase, TestRun, ResultStatus, passed, failed, blocked, no_run, skipped,
}
use api_testoria.Runs.{get_run}
use api_testoria.Scope.{run_scope_case_ids, case_ids}
use api_testoria.Progress.{StatusCounts}
use api_testoria.Results.{TestResultCreate}
use api_testoria.Results.Bulk.{submit_many}
use api_testoria.Import.Parsing.{
  ParsedCase, Seconds, seconds, negative, Readers, parse_junit, parse_json,
}
use api_testoria.Import.Index.{
  Rule, CaseIndex, lookup, identifier, index_cases, rule_eq, starts_with,
}

-- `s.endswith(end)`
abbrev ends_with : Text → Text → Bool
ends_with end s = starts_with (reverse end) (reverse s)

pub data Format : Type 0 where
  junit json : Format

-- `bytes.lstrip`, which takes the white space of ASCII away
abbrev lstrip_bytes : Text → Text
lstrip_bytes [] = []
lstrip_bytes (c ∷ s) = if leb 9 c && leb c 13 || c == 32 then lstrip_bytes s else c ∷ s

-- the first character that is no space, of the content
abbrev sniff : Text → Format
sniff [] = junit
sniff (c ∷ s) = if c == 91 || c == 123 then json else junit

-- `detect_format`
unfoldable pub detect_format : Option Text → Text → Format
detect_format none content = sniff (lstrip_bytes content)
detect_format (some filename) content =
    if ends_with (codes ".xml") (lower filename)
    then junit
    else if ends_with (codes ".json") (lower filename)
    then json
    else sniff (lstrip_bytes content)

-- `UnmatchedCase.reason`
pub data Reason : Type 0 where
  ambiguous no_match out_of_scope : Reason

-- `UnmatchedCase` and `_unmatched`: the entry with the reason
abbrev pub Unmatched : Type 0
Unmatched = ParsedCase × Reason

-- `matched_by.get(rule, 0) + 1`
abbrev pub count_rule : Rule → List (Rule × ℕ) → List (Rule × ℕ)
count_rule rule [] = (rule, 1) ∷ []
count_rule rule ((r, n) ∷ rest) =
    if rule_eq r rule then (r, n + 1) ∷ rest else (r, n) ∷ count_rule rule rest

-- `ResultStatus` of schemas/test_result.py, as pydantic reads it
abbrev status_of : Text → Option ResultStatus
status_of s =
    if text_eq s (codes "passed")
    then some passed
    else if text_eq s (codes "failed")
    then some ResultStatus.failed
    else if text_eq s (codes "blocked")
    then some blocked
    else if text_eq s (codes "no_run")
    then some no_run
    else if text_eq s (codes "skipped")
    then some skipped
    else none

-- `Field(default=None, ge=0)`
abbrev time_of : Option Seconds → Option (Option ℕ)
time_of none = some none
time_of (some (seconds n)) = some (some n)
time_of (some (negative n)) = none

-- `TestResultCreate(…)`; none stands for pydantic's ValidationError
abbrev pub new_item : ℕ → ParsedCase → Option TestResultCreate
new_item case_id case = elim (status_of case.status) [
  | none ↦ none
  | some status ↦ elim (time_of case.execution_time) [
    | none ↦ none
    | some time ↦ some (record {
      case_id = case_id;
      status = status;
      comment = case.comment;
      message = case.message;
      stack_trace = case.stack_trace;
      execution_time = time;
      defects = [];
      step_results = none;
    })
  ]
]

-- `items`, `unmatched`, `matched_by` and `seen_case_ids`
pub record MatchState : Type 0 where
  pub items : List TestResultCreate
  pub unmatched : List (ParsedCase × Reason)
  pub matched_by : List (Rule × ℕ)
  pub seen : List ℕ

-- what the loop does with an entry: what is wrong with it, or its case and rule
abbrev pub verdict : Option ℕ × Option Rule × Bool → List ℕ → List ℕ → Reason ⊎ (ℕ × Option Rule)
verdict (case_id, rule, true) in_scope seen = inl ambiguous
verdict (none, rule, false) in_scope seen = inl no_match
verdict (some id, rule, false) in_scope seen =
    if not (elem id in_scope)
    then inl out_of_scope
    else if elem id seen
    then inl ambiguous
    else inr (id, rule)

abbrev count_found : Option Rule → List (Rule × ℕ) → List (Rule × ℕ)
count_found none counts = counts
count_found (some rule) counts = count_rule rule counts

abbrev pub reject : ParsedCase → Reason → MatchState → MatchState
reject case reason m = record m { unmatched = m.unmatched ++ (case, reason) ∷ [] }

abbrev pub accept : ℕ → Option Rule → TestResultCreate → MatchState → MatchState
accept id rule item m = record m {
  items = m.items ++ item ∷ [];
  matched_by = count_found rule m.matched_by;
  seen = id ∷ m.seen;
}

-- the body of the loop of `import_results`
unfoldable pub match_case : CaseIndex → List ℕ → ParsedCase → MatchState → Result MatchState
match_case index in_scope case m =
    elim (verdict (lookup (identifier case) case.name index) in_scope m.seen) [
      | inl reason ↦ ok (reject case reason m)
      | inr (id, rule) ↦ elim (new_item id case) [
        | none ↦ raised value_error
        | some item ↦ ok (accept id rule item m)
      ]
    ]

-- the loop of `import_results`
abbrev pub match_cases : CaseIndex → List ℕ → List ParsedCase → MatchState → Result MatchState
match_cases index in_scope [] m = ok m
match_cases index in_scope (case ∷ rest) m = elim (match_case index in_scope case m) [
  | raised e ↦ raised e
  | ok m' ↦ match_cases index in_scope rest m'
]

-- `ResultImportReport`
pub record ResultImportReport : Type 0 where
  pub run_id : ℕ
  pub total : ℕ
  pub matched : ℕ
  pub submitted : ℕ
  pub unmatched_count : ℕ  -- unmatched
  pub unmatched_cases : List (ParsedCase × Reason)
  pub rules : List (Rule × ℕ)  -- matched_by
  pub status_counts : StatusCounts

-- `fmt`
pub data FormatChoice : Type 0 where
  auto_format : FormatChoice
  given_format : Format → FormatChoice
  unknown_format : FormatChoice

abbrev parse_as : Readers → Format → Text → Result (List ParsedCase)
parse_as readers junit content = parse_junit readers content
parse_as readers json content = parse_json readers content

abbrev pub parse : Readers → FormatChoice → Option Text → Text → Result (List ParsedCase)
parse readers auto_format filename content =
    parse_as readers (detect_format filename content) content
parse readers (given_format format) filename content = parse_as readers format content
parse readers unknown_format filename content = raised bad_request

-- the query of `_build_index`
abbrev pub scope_cases : TestRun → Db → List TestCase
scope_cases run db =
    select (λ c. elem c.id (run_scope_case_ids db run) && is_none c.deleted_at) db.cases.rows

abbrev pub lift : {A : Type 0} → Result A → Query A
lift (ok a) db = ok (a, db)
lift (raised e) db = raised e

abbrev max_reported_unmatched : ℕ
max_reported_unmatched = 100

abbrev pub no_matches : MatchState
no_matches = record { items = []; unmatched = []; matched_by = []; seen = [] }

-- `import_results`
unfoldable pub import_results :
    Readers → ℕ → Text → ℕ → Option Text → FormatChoice → Query ResultImportReport
import_results readers run_id content user_id filename fmt = do
  run ← get_run run_id false
  parsed ← lift (parse readers fmt filename content)
  cases ← gets (scope_cases run)
  m ← lift (match_cases (index_cases cases []) (case_ids cases) parsed no_matches)
  done ← submit_many run_id m.items user_id
  pure (record {
    run_id = run_id;
    total = length parsed;
    matched = length m.items;
    submitted = done.0;
    unmatched_count = length m.unmatched;
    unmatched_cases = take max_reported_unmatched m.unmatched;
    rules = m.matched_by;
    status_counts = done.1;
  })
