-- ===== src/Import/Index.antt =====
-- `dotted` and `_CaseIndex` of app/services/result_import_service.py.
use api_testoria.Base.{
  Bool, true, false, ◌&&◌, Option, none, some, List, [], ◌∷◌, ◌++◌, zero, suc, ◌-◌, ◌==◌, length, ℕ,
  Text, codes, text_eq, select,
}
use api_testoria.Db.{TestCase}
use api_testoria.Runs.{unique}
use api_testoria.Import.Parsing.{ParsedCase}

-- `_MATCH_RULES`
pub data Rule : Type 0 where
  automation_id automation_id_dotted automation_id_name title title_dotted : Rule

abbrev pub match_rules : List Rule
match_rules = automation_id ∷ automation_id_dotted ∷ automation_id_name ∷ title ∷ title_dotted ∷ []

abbrev pub rule_eq : Rule → Rule → Bool
rule_eq automation_id automation_id = true
rule_eq automation_id_dotted automation_id_dotted = true
rule_eq automation_id_name automation_id_name = true
rule_eq title title = true
rule_eq title_dotted title_dotted = true
rule_eq _ _ = false

-- `ParsedCase.identifier`
abbrev pub identifier : ParsedCase → Text
identifier case = elim case.classname [
  | none ↦ case.name
  | some classname ↦ classname ++ codes "." ++ case.name
]

abbrev pub starts_with : Text → Text → Bool
starts_with [] s = true
starts_with (c ∷ old) [] = false
starts_with (c ∷ old) (d ∷ s) = c == d && starts_with old s

-- `.replace(old, ".")`, with the number of characters of an occurrence still to pass over
abbrev replace_from : Text → ℕ → Text → Text
replace_from old skip [] = []
replace_from old (suc n) (c ∷ s) = replace_from old n s
replace_from old zero (c ∷ s) = elim (starts_with old (c ∷ s)) [
  | true ↦ codes "." ++ replace_from old (length old - 1) s
  | false ↦ c ∷ replace_from old 0 s
]

-- `dotted`
unfoldable pub dotted : Text → Text
dotted node_id =
    replace_from (codes "/") 0
      (replace_from (codes "::") 0 (replace_from (codes ".py::") 0 node_id))

-- A member of the set of cases under a rule and a key. The dictionaries of sets are the list of
-- their members.
pub record Claim : Type 0 where
  pub rule : Rule
  pub key : Text
  pub case_id : ℕ

abbrev pub CaseIndex : Type 0
CaseIndex = List Claim

-- `_CaseIndex.add`
unfoldable pub add : Rule → Option Text → ℕ → CaseIndex → CaseIndex
add rule none case_id index = index
add rule (some []) case_id index = index
add rule (some (c ∷ key)) case_id index =
    index ++ record { rule = rule; key = c ∷ key; case_id = case_id } ∷ []

abbrev pub claimed : CaseIndex → List ℕ
claimed [] = []
claimed (k ∷ ks) = k.case_id ∷ claimed ks

-- `self._by_rule[rule].get(probe)`, the empty set if there is none
abbrev pub hits : Rule → Text → CaseIndex → List ℕ
hits rule probe index =
    unique (claimed (select (λ k. rule_eq k.rule rule && text_eq k.key probe) index))

abbrev pub probe_of : Rule → Text → Text → Text
probe_of automation_id_name key name = name
probe_of _ key name = key

-- the loop of `_CaseIndex.lookup`
abbrev pub lookup_in : List Rule → Text → Text → CaseIndex → Option ℕ × Option Rule × Bool
lookup_in [] key name index = (none, none, false)
lookup_in (rule ∷ rules) key name index = elim (hits rule (probe_of rule key name) index) [
  | [] ↦ lookup_in rules key name index
  | id ∷ [] ↦ (some id, some rule, false)
  | id ∷ (other ∷ others) ↦ (none, some rule, true)
]

-- `_CaseIndex.lookup`
unfoldable pub lookup : Text → Text → CaseIndex → Option ℕ × Option Rule × Bool
lookup key name index = lookup_in match_rules key name index

abbrev dotted_key : Option Text → Option Text
dotted_key none = none
dotted_key (some text) = some (dotted text)

-- the body of the loop of `_build_index`; `add` and both tests pass over an empty text
abbrev index_case : TestCase → CaseIndex → CaseIndex
index_case c index = add title_dotted (dotted_key (some c.title)) c.id (
    add automation_id_dotted (dotted_key c.automation_id) c.id (
      add title (some c.title) c.id (
        add automation_id_name c.automation_id c.id
          (add automation_id c.automation_id c.id index))))

abbrev pub index_cases : List TestCase → CaseIndex → CaseIndex
index_cases [] index = index
index_cases (c ∷ cs) index = index_cases cs (index_case c index)
