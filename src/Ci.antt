-- ===== src/Ci.antt =====
-- app/services/ci_service.py: results from JUnit files by the titles of the cases, and the badge of a
-- run. process_webhook only logs and answers.
pub mod Importing
use api_testoria.Base.{
  ℕ, zero, suc, ◌+◌, ◌*◌, Bool, true, false, ◌&&◌, Option, none, some, List, [], ◌∷◌, ◌++◌, ◌==◌,
  if◌then◌else◌, leb, is_none, get_or, select, count, Text, text_eq, is_empty, codes, bad_request,
  value_error, pure, raise, gets, or_raise, ◌>>=◌, ◌>>◌,
}
use api_testoria.Db.{Db, Query, TestCase, ResultStatus, passed, failed, no_run}
use api_testoria.Runs.{get_run}
use api_testoria.Progress.{result_status_eq}
use api_testoria.Results.{TestResultCreate, submit}
use api_testoria.Import.Parsing.{Node, Element, Seconds, seconds, negative}

-- What the program calls: `ET.fromstring` with `root.findall(".//testcase")`, none where it raises
-- ParseError; `int(float(raw))`, none where it raises.
pub record Readers : Type 0 where
  pub find_cases : Text → Option (List Element)
  pub read_int : Text → Option Seconds

-- `f"{classname}.{name}" if classname else name`
abbrev pub title_of : Element → Text
title_of e =
    let class_name = get_or e.class_attribute [] in
    let name = get_or e.name_attribute [] in
    if is_empty class_name then name else class_name ++ codes "." ++ name

abbrev pub has_title : Text → TestCase → Bool
has_title title c = text_eq c.title title && is_none c.deleted_at

-- `scalar_one_or_none`, which raises MultipleResultsFound
abbrev pub one_or_none : {A : Type 0} → List A → Query (Option A)
one_or_none [] = pure none
one_or_none (a ∷ []) = pure (some a)
one_or_none (a ∷ b ∷ rest) = raise value_error

-- `node.get("message") or node.text`
abbrev pub comment_of : Node → Option Text
comment_of node =
    let message = get_or node.node_message [] in
    if is_empty message then node.text else some message

-- the `if failure is not None: … elif … else …`
abbrev pub outcome_of : Option Node → Option Node → Option Node → ResultStatus × Option Text
outcome_of (some node) error skipped_node = (failed, comment_of node)
outcome_of none (some node) skipped_node = (failed, comment_of node)
outcome_of none none (some node) = (no_run, some (codes "Test skipped"))
outcome_of none none none = (passed, none)

-- `execution_time: int | None = Field(ge=0)`; a ValidationError and the ValueError of `float` go through
abbrev pub checked_time : Option Seconds → Query ℕ
checked_time none = raise value_error
checked_time (some (negative n)) = raise value_error
checked_time (some (seconds n)) = pure n

-- the TestResultCreate of the loop
abbrev pub item_of : ℕ → Element → ℕ → TestResultCreate
item_of case_id e time = record {
  case_id = case_id;
  status = (outcome_of e.failure e.error e.skipped_node).0;
  comment = (outcome_of e.failure e.error e.skipped_node).1;
  message = none;
  stack_trace = none;
  execution_time = some time;
  defects = [];
  step_results = none;
}

-- What the loop does with an element and the case that it found: true where it submits.
abbrev pub submit_element : Readers → ℕ → ℕ → Element → Option TestCase → Query Bool
submit_element readers run_id user_id e none = pure false
submit_element readers run_id user_id e (some case) = do
  time ← checked_time (readers.read_int (get_or e.time (codes "0")))
  submit run_id (item_of case.id e time) user_id
  pure true

-- the loop, with the counts so far
unfoldable pub import_elements : Readers → ℕ → ℕ → List Element → ℕ × ℕ → Query (ℕ × ℕ)
import_elements readers run_id user_id [] counts = pure counts
import_elements readers run_id user_id (e ∷ rest) counts = do
  found ← gets (λ db. select (has_title (title_of e)) db.cases.rows)
  case ← one_or_none found
  done ← submit_element readers run_id user_id e case
  import_elements readers run_id user_id rest
      (if done then (counts.0 + 1, counts.1) else (counts.0, counts.1 + 1))

-- `import_junit_xml`: how many results it submitted, and how many elements have no case
unfoldable pub import_junit_xml : Readers → ℕ → Text → ℕ → Query (ℕ × ℕ)
import_junit_xml readers run_id content user_id = do
  get_run run_id false
  elements ← or_raise (readers.find_cases content) bad_request
  import_elements readers run_id user_id elements (0, 0)

-- `percent >= 90`, `percent >= 70`, on the ratio as a fraction; without results it is 0.0
abbrev badge_color : ℕ → ℕ → Text
badge_color part whole =
    if whole == 0
    then codes "#e05d44"
    else if leb (90 * whole) (100 * part)
    then codes "#4c1"
    else if leb (70 * whole) (100 * part)
    then codes "#dfb317"
    else codes "#e05d44"

-- `generate_badge`, what its SVG shows; `label` is the formatting of a ratio as a percentage
unfoldable pub generate_badge : (ℕ → ℕ → Text) → ℕ → Query (Text × Text)
generate_badge label run_id = do
  get_run run_id false
  total ← gets (λ db. count (λ r. r.run_id == run_id && is_none r.deleted_at) db.results.rows)
  part ← gets (λ db.
      count (λ r. r.run_id == run_id && (result_status_eq r.status passed && is_none r.deleted_at))
        db.results.rows)
  pure (label part total, badge_color part total)
