-- ===== src/Lib.antt =====
-- api-testoria: the services of the test management API.
--
-- The program is a FastAPI application over PostgreSQL. A route authenticates its caller
-- (app/dependencies.py), calls a service of app/services with a database session, and the session is
-- committed when the call returns and rolled back when it raises (get_db of app/database.py). The
-- services write an audit log, hand events to Centrifugo and put emails into a table, which a worker
-- (app/core/email_worker.py) drains.
--
-- Model. `Db` is one record with a table for each model of app/models, the clock and the events handed
-- over. A service function is an `Action Db A`: from a database to a value and a database, or to an
-- error and no database. A query is a function on lists of rows (`select`, `find?`, `count`), an UPDATE
-- is `update`, an INSERT is `insert`, which takes the next key of the table's sequence. Unique
-- constraints that a service can meet are checks that raise `integrity_error`. Texts are lists of code
-- points. Time is a number of seconds, read once in a call.
--
-- Files and code (paths from the root of the repository):
--   Base, Base/*           lists, options, texts and service calls, for all the others
--   Db, Db/*               app/models, app/database.py
--   Effects                app/services/audit_service.py, app/services/realtime_service.py
--   Auth/Roles             app/core/roles.py, _rank and effective_role of api_key_service.py
--   Auth/Permissions       app/core/permissions.py
--   Auth/Secrets           generate_api_key and split_api_key of app/core/security.py
--   Auth/ApiKeys           app/services/api_key_service.py: mint, resolve, list_keys, revoke
--   Auth/Principals        app/dependencies.py
--   Email/Outbox           app/services/email_outbox_service.py, _drain_once of email_worker.py;
--                          Email/Outbox/Liveness: its passes from the start of _run on
--   Runs                   app/services/test_run_service.py
--   Scope                  run_scope_case_ids of app/services/test_result_service.py
--   Progress               get_progress and batch_run_progress of test_run_service.py
--   Results                app/services/test_result_service.py: submit; Results/Bulk: submit_many;
--                          Results/Changes: update_result, get_history
--   Import                 app/services/result_import_service.py; Import/Parsing: the parsers;
--                          Import/Index: dotted and _CaseIndex
--   Users                  app/services/user_service.py, queue_welcome_invite of email_service.py
--   Passwords              app/services/password_token_service.py, queue_password_reset of
--                          email_service.py, app/api/v1/auth.py
--   Projects               app/services/project_service.py
--   Statistics             get_stats and get_bulk_stats of project_service.py
--   Suites                 app/services/test_suite_service.py
--   Cases                  app/services/test_case_service.py
--   Tags                   app/services/tag_service.py
--   Milestones             app/services/milestone_service.py
--   Reports                app/services/report_service.py: what its reports share; Reports/Trend: the
--                          series of days; Reports/Analytics: get_dashboard, get_report_analytics,
--                          get_cross_project_report_analytics; Reports/RunReport: get_run_report;
--                          Reports/Custom: get_project_metrics, run_custom_report
--   Ci                     app/services/ci_service.py
--   Defects                app/services/defect_service.py
--   Examples               concrete databases and calls
-- The files below these hold the proofs, each under the name of what it is about.
--
-- Parameters. What the program calls but does not hold is an argument of the definitions: `sha256`,
-- the decoding of a JWT, the random texts of a new key or account, the password hash, the rows that
-- another transaction holds locked (`FOR UPDATE SKIP LOCKED`), the sending of one email (`Deliver`) and
-- whether the mail server can be connected to,
-- the readers of XML, JSON and floating point numbers (`Readers`), PostgreSQL's ILIKE, the order of
-- names by the database's collation, the date that `func.date` gives a time in the time zone of the
-- database's session, `str.lower` on the names of tags (with what is used of it as `IsLower`), and the
-- issue trackers. The suffix of a file's name is compared in the lower case of ASCII alone.
--
-- Bounds. Every loop of the modelled code but one runs over a list or a range of days, and is a
-- structural recursion. The recursive query of the suites has a level of fuel for each row of the table,
-- which is enough where the suites make a forest: the depth of a suite is below their number. Numbers
-- are unbounded, as Python's are; the columns' 32 bits are not modelled. Ratios are pairs of numbers, so
-- the rounding of pass rates and of their means to three decimals is left out. A datetime
-- of a report's window comes with the date in its own offset (`Moment`). A token in Redis is kept with the time at which it expires.
--
-- Not modelled: the other routes, the schemas' validation, object storage and the attachments there,
-- SMTP, the websocket, the reports as PDF and Excel files, the command line client, the migrations, and
-- the services for exports and imports of cases. Two transactions are interleaved only
-- where a theorem puts their calls in sequence.
pub mod Base
pub mod Db
pub mod Effects
pub mod Auth
pub mod Email
pub mod Runs
pub mod Scope
pub mod Progress
pub mod Results
pub mod Import
pub mod Users
pub mod Passwords
pub mod Projects
pub mod Tags
pub mod Milestones
pub mod Cases
pub mod Statistics
pub mod Reports
pub mod Ci
pub mod Defects
pub mod Suites
pub mod Examples
