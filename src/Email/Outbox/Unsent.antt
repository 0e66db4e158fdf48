-- ===== src/Email/Outbox/Unsent.antt =====
-- A pass of `_drain_once` of app/core/email_worker.py whose connection to the mail server fails.
use api_testoria.Db.{Db}
