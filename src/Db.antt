-- ===== src/Db.antt =====
-- The database: one record for each model of app/models, one table for each, the clock that a
-- request reads, and the events that the request hands to Centrifugo.
mod Tables
mod Keys
pub mod Rows
pub mod Cases
pub use Tables.*
pub use Keys.*
pub use Rows.*
pub use Cases.{
  Priority, low, medium, high, critical, CaseType, manual, automated, CaseStatus, draft, deprecated,
  TestStep, TestCase, Tag, CaseTag, Milestone,
}
use api_testoria.Base.{ℕ, List, Action}

pub record Db : Type 0 where
  pub projects : Table Project
  pub suites : Table TestSuite
  pub cases : Table TestCase
  pub tags : Table Tag
  pub case_tags : List CaseTag  -- test_case_tags
  pub milestones : Table Milestone
  pub runs : Table TestRun
  pub run_cases : List RunCase  -- test_run_test_cases
  pub results : Table TestResult
  pub history : Table ResultHistory
  pub users : Table User
  pub api_keys : Table ApiKey
  pub outbox : Table EmailOutbox
  pub audit_logs : List AuditLog
  pub events : List (Channel × Event)  -- what was handed to Centrifugo
  pub now : ℕ  -- datetime.now(UTC) and func.now(), in seconds

abbrev pub Query : Type 0 → Type 0
Query A = Action Db A
