-- ===== src/Examples.antt =====
-- A small database, on which the examples apply the theorems.
mod Keys
mod Mail
mod Lifecycle
mod Submissions
mod Imports
mod Accounts
mod Trees
mod Resets
mod Cases
mod Reports
mod Trackers
use api_testoria.Base.{
  ℕ, Bool, true, false, Option, none, some, List, [], ◌∷◌, codes, Result, ok, raised,
}
use api_testoria.Db.{
  Db, Table, Project, TestSuite, TestCase, TestRun, RunCase, TestResult, User, ApiKey, EmailOutbox,
  medium, manual, draft, planned, RunStatus, CasesMode, auto, explicit, passed, pending,
  OutboxStatus,
}

abbrev pub a_project : Project
a_project = record {
  id = 1;
  name = codes "shop";
  description = none;
  is_archived = false;
  created_at = 1;
  deleted_at = none;
}

abbrev pub a_suite : TestSuite
a_suite = record {
  id = 1;
  project_id = 1;
  parent_suite_id = none;
  name = codes "cart";
  description = none;
  display_order = none;
  created_at = 1;
  deleted_at = none;
}

abbrev pub case_of : ℕ → TestCase
case_of id = record {
  id = id;
  suite_id = 1;
  title = codes "adds";
  description = none;
  preconditions = none;
  steps = record { step = codes "open"; expected = codes "it opens" } ∷ [];
  priority = medium;
  type = manual;
  status = draft;
  automation_id = some (codes "t/a.py::x");
  display_order = none;
  created_at = 1;
  deleted_at = none;
}

abbrev pub run_of : ℕ → CasesMode → TestRun
run_of id mode = record {
  id = id;
  project_id = 1;
  suite_id = none;
  milestone_id = none;
  assigned_to = none;
  name = codes "nightly";
  status = planned;
  cases_mode = mode;
  completed_at = none;
  created_at = 1;
  deleted_at = none;
}

abbrev pub a_result : TestResult
a_result = record {
  id = 1;
  run_id = 2;
  case_id = 1;
  tested_by = some 1;
  status = passed;
  comment = none;
  message = none;
  stack_trace = none;
  execution_time = none;
  defects = some [];
  step_results = none;
  tested_at = 5;
  deleted_at = none;
}

abbrev pub user_of : ℕ → List ℕ → User
user_of id role = record {
  id = id;
  username = codes "ann";
  email = codes "ann@x";
  hashed_password = codes "h";
  full_name = none;
  role = role;
  is_active = true;
  created_at = 1;
  deleted_at = none;
}

abbrev pub a_mail : OutboxStatus → EmailOutbox
a_mail status = record {
  id = 1;
  to_email = codes "ann@x";
  subject = codes "hi";
  template = codes "welcome_invite";
  context = [];
  status = status;
  attempts = 0;
  max_attempts = 5;
  last_error = none;
  next_attempt_at = 10;
  created_at = 10;
  sent_at = none;
}

abbrev pub table : {A : Type 0} → List A → ℕ → Table A
table rows next_id = record { rows = rows; next_id = next_id }

abbrev pub shop : Db
shop = record {
  projects = table (a_project ∷ []) 2;
  suites = table (a_suite ∷ []) 2;
  cases = table (case_of 1 ∷ case_of 2 ∷ []) 3;
  tags = table (record { id = 1; name = codes "smoke" } ∷ []) 2;
  case_tags = record { case_id = 1; tag_id = 1 } ∷ [];
  milestones = table [] 1;
  runs = table (run_of 1 auto ∷ run_of 2 explicit ∷ []) 3;
  run_cases = record { run_id = 2; case_id = 1 } ∷ [];
  results = table (a_result ∷ []) 2;
  history = table [] 1;
  users = table (user_of 1 (codes "admin") ∷ []) 2;
  api_keys = table [] 1;
  outbox = table (a_mail pending ∷ []) 2;
  audit_logs = [];
  events = [];
  now = 1000;
}

-- the database after a call that returns
abbrev pub after : {A : Type 0} → Result (A × Db) → Db
after (ok (a, db)) = db
after (raised e) = shop

-- the value that a call returns
abbrev pub value : {A : Type 0} → A → Result (A × Db) → A
value other (ok (a, db)) = a
value other (raised e) = other
