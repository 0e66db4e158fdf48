-- ===== src/Db/Cases.antt =====
-- The rows of test cases and of what hangs on them.
use api_testoria.Base.{ℕ, Bool, Option, List, Text}

-- the Literal types of schemas/test_case.py, which the columns hold as texts
pub data Priority : Type 0 where
  low medium high critical : Priority

pub data CaseType : Type 0 where
  manual automated : CaseType

pub data CaseStatus : Type 0 where
  draft active deprecated : CaseStatus

-- `TestStep` of schemas/test_case.py
pub record TestStep : Type 0 where
  pub step : Text
  pub expected : Text

-- models/test_case.py
pub record TestCase : Type 0 where
  pub id : ℕ
  pub suite_id : ℕ
  pub title : Text
  pub description : Option Text
  pub preconditions : Option Text
  pub steps : List TestStep
  pub priority : Priority
  pub type : CaseType
  pub status : CaseStatus
  pub automation_id : Option Text
  pub display_order : Option ℕ
  pub created_at : ℕ
  pub deleted_at : Option ℕ

-- models/tag.py
pub record Tag : Type 0 where
  pub id : ℕ
  pub name : Text

-- a row of test_case_tags
pub record CaseTag : Type 0 where
  pub case_id : ℕ
  pub tag_id : ℕ

-- models/milestone.py; a date is the number of its day
pub record Milestone : Type 0 where
  pub id : ℕ
  pub project_id : ℕ
  pub name : Text
  pub description : Option Text
  pub target_date : Option ℕ
  pub is_completed : Bool
  pub created_at : ℕ
  pub deleted_at : Option ℕ
