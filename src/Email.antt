-- ===== src/Email.antt =====
-- The durable email queue and its drain loop: app/services/email_outbox_service.py and
-- app/core/email_worker.py.
pub mod Outbox
