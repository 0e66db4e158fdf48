-- ===== src/Email/Outbox.antt =====
-- app/services/email_outbox_service.py, and `_drain_once` of app/core/email_worker.py.
pub mod Backoff
pub mod Claims
pub mod Attempts
pub mod Draining
pub mod Workers
pub mod Work
pub mod Passes
pub mod Liveness
pub mod Unsent
use api_testoria.Base.{
  ℕ, ◌+◌, ◌-◌, ◌*◌, ◌^◌, min, Bool, true, false, ◌&&◌, Option, none, some, List, [], ◌∷◌, map, not,
  leb, ◌==◌, if◌then◌else◌, elem, select, sort_by, take, count, Text, pure, gets, ◌>>=◌, ◌>>◌,
  modify,
}
use api_testoria.Db.{
  Db, Query, EmailOutbox, OutboxStatus, pending, sending, sent, failed, insert, update,
}

abbrev backoff_base_seconds : ℕ
backoff_base_seconds = 60

abbrev backoff_cap_seconds : ℕ
backoff_cap_seconds = 3600

-- `_backoff_seconds`; `attempts - 1` stops at 0, which is the source's `max(attempts - 1, 0)`
unfoldable pub backoff_seconds : ℕ → ℕ
backoff_seconds attempts = min (backoff_base_seconds * 2 ^ (attempts - 1)) backoff_cap_seconds

abbrev pub status_eq : OutboxStatus → OutboxStatus → Bool
status_eq pending pending = true
status_eq sending sending = true
status_eq sent sent = true
status_eq failed failed = true
status_eq _ _ = false

-- `max_attempts or settings.EMAIL_MAX_ATTEMPTS`
abbrev pub or_default : Option ℕ → ℕ → ℕ
or_default none default = default
or_default (some n) default = if n == 0 then default else n

-- the row that `enqueue` adds, with the setting as its first argument
abbrev pub new_email : ℕ → Text → Text → List Text → Text → Option ℕ → ℕ → ℕ → EmailOutbox
new_email email_max_attempts to_email template context subject max_attempts now id = record {
  id = id;
  to_email = to_email;
  subject = subject;
  template = template;
  context = context;
  status = pending;
  attempts = 0;
  max_attempts = or_default max_attempts email_max_attempts;
  last_error = none;
  next_attempt_at = now;
  created_at = now;
  sent_at = none;
}

-- `enqueue`
unfoldable pub enqueue : ℕ → Text → Text → List Text → Text → Option ℕ → Query EmailOutbox
enqueue email_max_attempts to_email template context subject max_attempts = do
  now ← gets (λ db. db.now)
  let row = new_email email_max_attempts to_email template context subject max_attempts now
  id ← gets (λ db. db.outbox.next_id)
  modify (λ db. record db { outbox = insert row db.outbox })
  pure (row id)

abbrev pub is_ready : ℕ → EmailOutbox → Bool
is_ready now row = status_eq row.status pending && leb row.next_attempt_at now

abbrev pub older : EmailOutbox → EmailOutbox → Bool
older a b = leb a.created_at b.created_at

-- the rows that the query of `claim_batch` answers: ready, not locked by another transaction
-- (SKIP LOCKED), oldest first, at most `limit`
unfoldable pub ready_batch : (ℕ → Bool) → ℕ → ℕ → List EmailOutbox → List EmailOutbox
ready_batch locked limit now rows =
    take limit (sort_by older (select (λ row. is_ready now row && not (locked row.id)) rows))

abbrev pub ids : List EmailOutbox → List ℕ
ids [] = []
ids (row ∷ rows) = row.id ∷ ids rows

abbrev pub as_sending : EmailOutbox → EmailOutbox
as_sending row = record row { status = sending }

-- `claim_batch`
unfoldable pub claim_batch : (ℕ → Bool) → ℕ → Query (List EmailOutbox)
claim_batch locked limit = do
  rows ← gets (λ db. ready_batch locked limit db.now db.outbox.rows)
  modify (λ db. record db { outbox = update (λ row. elem row.id (ids rows)) as_sending db.outbox })
  pure (map as_sending rows)

-- `mark_sent`, as a change of the row
unfoldable pub sent_row : ℕ → EmailOutbox → EmailOutbox
sent_row now row = record row { status = sent; sent_at = some now; last_error = none }

-- `mark_failed`, as a change of the row
unfoldable pub failed_row : ℕ → Text → EmailOutbox → EmailOutbox
failed_row now error row =
    let attempts = row.attempts + 1 in
    let counted = record row { attempts = attempts; last_error = some (take 1000 error) } in
    if leb row.max_attempts attempts
    then record counted { status = failed }
    else record counted { status = pending; next_attempt_at = now + backoff_seconds attempts }

-- `mark_sent` and `mark_failed`. The object is the session's copy of the row that it was read from,
-- which nothing else writes while the row is `sending`.
unfoldable pub mark_sent : EmailOutbox → Query (Unit {0})
mark_sent row =
    modify (λ db. record db { outbox = update (λ k. k.id == row.id) (sent_row db.now) db.outbox })

unfoldable pub mark_failed : EmailOutbox → Text → Query (Unit {0})
mark_failed row error =
    modify (λ db. record db {
      outbox = update (λ k. k.id == row.id) (failed_row db.now error) db.outbox;
    })

-- `requeue_orphaned_sending`, with the row count
unfoldable pub requeue_orphaned_sending : Query ℕ
requeue_orphaned_sending = do
  n ← gets (λ db. count (λ k. status_eq k.status sending) db.outbox.rows)
  modify (λ db. record db {
    outbox =
        update (λ k. status_eq k.status sending) (λ k. record k { status = pending }) db.outbox;
  })
  pure n

-- Rendering and sending one row, which stands for the template engine and the SMTP server: `none` if
-- the email went out, or the text of the exception.
abbrev pub Deliver : Type 0
Deliver = EmailOutbox → Option Text

abbrev pub settle : EmailOutbox → Option Text → Query (Unit {0})
settle row none = mark_sent row
settle row (some error) = mark_failed row error

-- the loop of `_drain_once` over the claimed rows
unfoldable pub drain_rows : Deliver → List EmailOutbox → Query (Unit {0})
drain_rows deliver [] = pure tt
drain_rows deliver (row ∷ rows) = do settle row (deliver row); drain_rows deliver rows

-- What follows the commit of the claim: nothing if no row was claimed, else `async with EmailSender()`,
-- which connects and logs in. Where that fails, its exception leaves the claimed rows as they are.
abbrev pub send_all : Deliver → Bool → List EmailOutbox → Query Bool
send_all deliver connects [] = pure true
send_all deliver true (row ∷ rows) = do drain_rows deliver (row ∷ rows); pure true
send_all deliver false (row ∷ rows) = pure false

-- `_drain_once`, with the batch size, and whether the server can be connected to. False stands for the
-- exception, which the loop of `_run` catches after the claim has been committed.
unfoldable pub drain_once : Deliver → Bool → (ℕ → Bool) → ℕ → Query Bool
drain_once deliver connects locked batch_size = do
  rows ← claim_batch locked batch_size
  send_all deliver connects rows
