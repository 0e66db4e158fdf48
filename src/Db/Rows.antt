-- ===== src/Db/Rows.antt =====
-- The rows of the tables. Columns that the services neither read nor decide anything by
-- (`updated_at`, run `config`, `ip_address` and the like) are left out.
use api_testoria.Base.{ℕ, Bool, Option, List, Text}

-- models/project.py
pub record Project : Type 0 where
  pub id : ℕ
  pub name : Text
  pub description : Option Text
  pub is_archived : Bool
  pub created_at : ℕ
  pub deleted_at : Option ℕ

-- models/test_suite.py
pub record TestSuite : Type 0 where
  pub id : ℕ
  pub project_id : ℕ
  pub parent_suite_id : Option ℕ
  pub name : Text
  pub description : Option Text
  pub display_order : Option ℕ
  pub created_at : ℕ
  pub deleted_at : Option ℕ

-- `TestRunStatus` of schemas/test_run.py
pub data RunStatus : Type 0 where
  planned active completed aborted : RunStatus

-- `cases_mode`; ck_test_runs_cases_mode allows these two
pub data CasesMode : Type 0 where
  auto explicit : CasesMode

-- models/test_run.py
pub record TestRun : Type 0 where
  pub id : ℕ
  pub project_id : ℕ
  pub suite_id : Option ℕ
  pub milestone_id : Option ℕ
  pub assigned_to : Option ℕ
  pub name : Text
  pub status : RunStatus
  pub cases_mode : CasesMode
  pub completed_at : Option ℕ
  pub created_at : ℕ
  pub deleted_at : Option ℕ

-- a row of test_run_test_cases
pub record RunCase : Type 0 where
  pub run_id : ℕ
  pub case_id : ℕ

-- `ResultStatus` of schemas/test_result.py
pub data ResultStatus : Type 0 where
  passed failed blocked no_run skipped : ResultStatus

-- `StepResult` of schemas/test_result.py
pub record StepResult : Type 0 where
  pub index : ℕ
  pub status : ResultStatus
  pub comment : Option Text

-- models/test_result.py
pub record TestResult : Type 0 where
  pub id : ℕ
  pub run_id : ℕ  -- test_run_id
  pub case_id : ℕ  -- test_case_id
  pub tested_by : Option ℕ
  pub status : ResultStatus
  pub comment : Option Text
  pub message : Option Text
  pub stack_trace : Option Text
  pub execution_time : Option ℕ
  pub defects : Option (List Text)  -- a JSON column, which takes a null
  pub step_results : Option (List StepResult)
  pub tested_at : ℕ
  pub deleted_at : Option ℕ

-- models/result_history.py
pub record ResultHistory : Type 0 where
  pub id : ℕ
  pub result_id : ℕ  -- test_result_id
  pub status : ResultStatus
  pub comment : Option Text
  pub changed_by : Option ℕ
  pub changed_at : ℕ

-- models/user.py. Roles are texts here, as in the column.
pub record User : Type 0 where
  pub id : ℕ
  pub username : Text
  pub email : Text
  pub hashed_password : Text
  pub full_name : Option Text
  pub role : Text
  pub is_active : Bool
  pub created_at : ℕ
  pub deleted_at : Option ℕ

-- models/api_key.py
pub record ApiKey : Type 0 where
  pub id : ℕ
  pub name : Text
  pub key_prefix : Text
  pub key_hash : Text
  pub user_id : ℕ
  pub project_id : Option ℕ
  pub role : Text
  pub expires_at : Option ℕ
  pub last_used_at : Option ℕ
  pub revoked_at : Option ℕ
  pub created_at : ℕ

-- STATUS_PENDING … STATUS_FAILED of models/email_outbox.py
pub data OutboxStatus : Type 0 where
  pending sending sent failed : OutboxStatus

-- models/email_outbox.py; the template stem and its context are opaque texts
pub record EmailOutbox : Type 0 where
  pub id : ℕ
  pub to_email : Text
  pub subject : Text
  pub template : Text
  pub context : List Text
  pub status : OutboxStatus
  pub attempts : ℕ
  pub max_attempts : ℕ
  pub last_error : Option Text
  pub next_attempt_at : ℕ
  pub created_at : ℕ
  pub sent_at : Option ℕ

pub data AuditAction : Type 0 where
  create_action update_action delete_action restore_action welcome_invite_sent : AuditAction
  login_action password_reset_requested password_reset_done : AuditAction

pub data EntityType : Type 0 where
  project_entity run_entity case_entity user_entity : EntityType

-- models/audit_log.py
pub record AuditLog : Type 0 where
  pub user_id : Option ℕ
  pub action : AuditAction
  pub entity_type : EntityType
  pub entity_id : ℕ

-- the channels of services/realtime_service.py
pub data Channel : Type 0 where
  testrun_channel project_channel : ℕ → Channel

-- the payloads of services/realtime_service.py
pub data Event : Type 0 where
  test_result : (result_id case_id : ℕ) → ResultStatus → Option ℕ → Event
  test_result_bulk : (run_id submitted : ℕ) → List (ResultStatus × ℕ) → Event
  test_run_status : (run_id : ℕ) → RunStatus → Event
  test_case_update : (case_id : ℕ) → Event
