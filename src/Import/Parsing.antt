-- ===== src/Import/Parsing.antt =====
-- `parse_junit` and `parse_json` of app/services/result_import_service.py. What the XML and JSON
-- readers and `float` deliver is a parameter.
use api_testoria.Base.{
  Bool, true, false, Option, none, some, List, [], ◌∷◌, if◌then◌else◌, ℕ, Text, codes, text_eq,
  strip, Result, ok, raised, bad_request, value_error, get_or,
}

-- `round(float(raw))`
pub data Seconds : Type 0 where
  seconds negative : ℕ → Seconds

pub record ParsedCase : Type 0 where
  pub classname : Option Text
  pub name : Text
  pub status : Text
  pub comment : Option Text
  pub message : Option Text
  pub stack_trace : Option Text
  pub execution_time : Option Seconds

-- a `<failure>`, `<error>` or `<skipped>` element
pub record Node : Type 0 where
  pub node_message : Option Text
  pub text : Option Text

-- a `<testcase>` element
pub record Element : Type 0 where
  pub class_attribute : Option Text
  pub name_attribute : Option Text
  pub time : Option Text
  pub failure : Option Node
  pub error : Option Node
  pub skipped_node : Option Node

-- A value of a JSON object: null, a string, or any other value, with what `str` makes of it and
-- whether it counts as true.
pub data Value : Type 0 where
  null : Value
  string : Text → Value
  other : Text → Bool → Value

pub Entry : Type 0
Entry = List (Text × Value)

-- What `json.loads` makes of the content: it raises UnicodeDecodeError or JSONDecodeError, or answers
-- something else than a list, or a list, none for each entry of which that is no object.
pub data Document : Type 0 where
  undecodable malformed no_list : Document
  entries : List (Option (List (Text × Value))) → Document

-- `ET.fromstring` with `root.iter("testcase")`, none where it raises ParseError; `json.loads`;
-- `round(float(raw))`, none where it raises ValueError, and an error of its own where it raises
-- OverflowError, for an infinite number
pub record Readers : Type 0 where
  pub read_xml : Text → Option (List Element)
  pub read_json : Text → Document
  pub read_time : Text → Result (Option Seconds)

-- `stripped or None`
abbrev or_none : Text → Option Text
or_none [] = none
or_none (c ∷ s) = some (c ∷ s)

-- `_clean`
unfoldable pub clean : Option Text → Option Text
clean none = none
clean (some text) = or_none (strip text)

abbrev parse_time : Readers → Option Text → Result (Option Seconds)
parse_time readers none = ok none
parse_time readers (some raw) = readers.read_time raw

abbrev pub map_result : {A B : Type 0} → (A → Result B) → Result A → Result B
map_result f (ok a) = f a
map_result f (raised e) = raised e

-- status, message and stack trace of an element, from its failure, error and skipped children
abbrev outcome : Option Node → Option Node → Option Node → Text × Option Text × Option Text
outcome (some node) error skipped = (codes "failed", clean node.node_message, clean node.text)
outcome none (some node) skipped = (codes "failed", clean node.node_message, clean node.text)
outcome none none (some node) =
    (codes "no_run", some (get_or (clean node.node_message) (codes "Test skipped")), none)
outcome none none none = (codes "passed", none, none)

abbrev parsed_element : Readers → Text → Element → Result ParsedCase
parsed_element readers name e =
    let (status, message, stack_trace) = outcome e.failure e.error e.skipped_node in
    map_result
      (λ time. ok (record {
        classname = clean e.class_attribute;
        name = name;
        status = status;
        comment = message;
        message = message;
        stack_trace = stack_trace;
        execution_time = time;
      }))
      (parse_time readers e.time)

-- the loop of `parse_junit`: an element without a name is passed over
abbrev pub parse_elements : Readers → List Element → Result (List ParsedCase)
parse_elements readers [] = ok []
parse_elements readers (e ∷ es) = elim (clean e.name_attribute) [
  | none ↦ parse_elements readers es
  | some name ↦
      map_result (λ case. map_result (λ cases. ok (case ∷ cases)) (parse_elements readers es))
        (parsed_element readers name e)
]

-- `parse_junit`
unfoldable pub parse_junit : Readers → Text → Result (List ParsedCase)
parse_junit readers content = elim (readers.read_xml content) [
  | none ↦ raised bad_request
  | some elements ↦ parse_elements readers elements
]

-- `entry.get(key)`
abbrev pub get : Text → List (Text × Value) → Option Value
get key [] = none
get key ((k, v) ∷ rest) = if text_eq k key then some v else get key rest

-- `str(value)`
abbrev pub str : Value → Text
str null = codes "None"
str (string s) = s
str (other s b) = s

-- `str(entry.get(key, default))`
abbrev str_or : Option Value → Text → Text
str_or none default = default
str_or (some v) default = str v

-- `_clean(entry.get(key))`; a value without `strip` raises AttributeError
abbrev clean_value : Option Value → Result (Option Text)
clean_value none = ok none
clean_value (some null) = ok none
clean_value (some (string s)) = ok (clean (some s))
clean_value (some (other s b)) = raised value_error

-- `_clean(str(classname)) if classname else None`
abbrev class_name : Option Value → Option Text
class_name none = none
class_name (some null) = none
class_name (some (string s)) = clean (some s)
class_name (some (other s true)) = clean (some s)
class_name (some (other s false)) = none

-- `None if … is None else str(…)`
abbrev time_text : Option Value → Option Text
time_text none = none
time_text (some null) = none
time_text (some (string s)) = some s
time_text (some (other s b)) = some s

abbrev parsed_entry : Readers → Text → List (Text × Value) → Result ParsedCase
parsed_entry readers name entry =
    map_result
      (λ message.
        map_result
          (λ comment.
            map_result
              (λ stack_trace.
                map_result
                  (λ time. ok (record {
                    classname = class_name (get (codes "classname") entry);
                    name = name;
                    status = str_or (get (codes "status") entry) (codes "no_run");
                    comment = elim comment [ none ↦ message | some c ↦ some c ];
                    message = message;
                    stack_trace = stack_trace;
                    execution_time = time;
                  }))
                  (parse_time readers (time_text (get (codes "execution_time") entry))))
              (clean_value (get (codes "stack_trace") entry)))
          (clean_value (get (codes "comment") entry)))
      (clean_value (get (codes "message") entry))

-- the body of the loop of `parse_json`
abbrev parse_entry : Readers → Option (List (Text × Value)) → Result ParsedCase
parse_entry readers none = raised bad_request
parse_entry readers (some entry) = elim (clean (some (str_or (get (codes "name") entry) []))) [
  | none ↦ raised bad_request
  | some name ↦ parsed_entry readers name entry
]

abbrev pub parse_entries : Readers → List (Option (List (Text × Value))) → Result (List ParsedCase)
parse_entries readers [] = ok []
parse_entries readers (e ∷ es) =
    let rest = parse_entries readers es in
    map_result (λ case. map_result (λ cases. ok (case ∷ cases)) rest) (parse_entry readers e)

-- `parse_json`
unfoldable pub parse_json : Readers → Text → Result (List ParsedCase)
parse_json readers content = elim (readers.read_json content) [
  | undecodable ↦ raised value_error
  | malformed ↦ raised bad_request
  | no_list ↦ raised bad_request
  | entries es ↦ parse_entries readers es
]
