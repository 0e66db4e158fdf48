-- ===== src/Scope.antt =====
-- Which cases a run covers: `run_scope_case_ids` of app/services/test_result_service.py, and the same
-- query where `get_progress` of app/services/test_run_service.py writes it out.
use api_testoria.Base.{
  ℕ, Bool, true, ◌&&◌, Option, none, some, List, [], ◌∷◌, ◌==◌, is_none, select, any,
}
use api_testoria.Db.{Db, TestCase, TestRun, RunCase, CasesMode, auto, explicit}

-- `if run.suite_id is not None: … .where(TestCase.suite_id == run.suite_id)`
abbrev pub in_suite : Option ℕ → ℕ → Bool
in_suite none suite_id = true
in_suite (some id) suite_id = suite_id == id

-- a live case of a live suite of the run's project, and of the run's suite if it has one
unfoldable pub is_auto_case : Db → TestRun → TestCase → Bool
is_auto_case db run c =
    is_none c.deleted_at
    && (any (λ s. s.id == c.suite_id && (s.project_id == run.project_id && is_none s.deleted_at))
          db.suites.rows
        && in_suite run.suite_id c.suite_id)

abbrev pub case_ids : List TestCase → List ℕ
case_ids [] = []
case_ids (c ∷ cs) = c.id ∷ case_ids cs

abbrev pub member_ids : List RunCase → List ℕ
member_ids [] = []
member_ids (m ∷ ms) = m.case_id ∷ member_ids ms

abbrev pub scope_of : CasesMode → Db → TestRun → List ℕ
scope_of explicit db run = member_ids (select (λ m. m.run_id == run.id) db.run_cases)
scope_of auto db run = case_ids (select (is_auto_case db run) db.cases.rows)

-- `run_scope_case_ids`
unfoldable pub run_scope_case_ids : Db → TestRun → List ℕ
run_scope_case_ids db run = scope_of run.cases_mode db run
