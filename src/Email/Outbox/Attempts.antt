-- ===== src/Email/Outbox/Attempts.antt =====
-- The invariant of the queue of app/services/email_outbox_service.py: the attempts that a row has used.
use api_testoria.Base.{
  not, ◌&&◌, All-intro, All-at, All-update_where_from, count-select, only_one, ℕ, ◌≤◌, ◌<◌, ◌≡◌,
  refl, ◌⊎◌, inl, inr, Bool, true, false, Option, none, some, List, [], ◌∷◌, ◌++◌, arith, ok, elem,
  count, update_where, select, sort_by, take, ◌==◌, Text, All, All-update_where, All-append,
  All-mono, All-both, count-sort_by, count-take-le, Bool-cases,
}
use api_testoria.Db.{Db, update, EmailOutbox, OutboxStatus, pending, sending, failed}
use api_testoria.Email.Outbox.{
  status_eq, is_ready, older, ready_batch, ids, as_sending, sent_row, failed_row, mark_sent,
  mark_failed, settle, enqueue, new_email, or_default, claim_batch, requeue_orphaned_sending,
}

abbrev Fits : OutboxStatus → ℕ → ℕ → Type 0
Fits failed attempts max_attempts = attempts ≡ max_attempts
Fits _ attempts max_attempts = attempts < max_attempts

-- A row has attempts left until it is `failed`, and is `failed` when all of them are used.
abbrev pub RowIsValid : EmailOutbox → Type 0
RowIsValid k = Fits k.status k.attempts k.max_attempts

abbrev pub IsValid : Db → Type 0
IsValid db = All RowIsValid db.outbox.rows

-- `enqueue` keeps the invariant, if the configured number of attempts is not zero.
pub enqueue-IsValid :
    (email_max_attempts : ℕ) (to_email template : Text) (context : List Text) (subject : Text)
    (max_attempts : Option ℕ) (db db' : Db) (row : EmailOutbox)
    → 0 < email_max_attempts
    → IsValid db
    → enqueue email_max_attempts to_email template context subject max_attempts db ≡ ok (row, db')
    → IsValid db'
unfolding enqueue
enqueue-IsValid m to_email template context subject max_attempts db db' row pos h e =
    let added : db'.outbox.rows
        ≡ db.outbox.rows
          ++ new_email m to_email template context subject max_attempts db.now db.outbox.next_id
            ∷ [] =
      ground arith in
    rw added (All-append RowIsValid db.outbox.rows _ h (some_attempts max_attempts, tt))
  where
    some_attempts : (o : Option ℕ) → 0 < or_default o m
    some_attempts none = pos
    some_attempts (some n) = ground arith

pub requeue-IsValid :
    (n : ℕ) (db db' : Db) → IsValid db → requeue_orphaned_sending db ≡ ok (n, db') → IsValid db'
unfolding requeue_orphaned_sending
requeue-IsValid n db db' h e =
    let requeued : db'.outbox.rows
        ≡ update_where (λ k. status_eq k.status sending) (λ k. record k { status = pending })
            db.outbox.rows =
      ground arith in
    rw requeued (
      All-update_where RowIsValid (λ k. status_eq k.status sending)
        (λ k. record k { status = pending }) db.outbox.rows (λ k s v. ground arith) h)

pub count-ids :
    (id : ℕ) (rows : List EmailOutbox)
    → elem id (ids rows) ≡ true
    → 1 ≤ count (λ k. k.id == id) rows
count-ids id [] h = cc
count-ids id (row ∷ rows) h = ground (arith, count-ids id rows)

-- Keys are distinct.
abbrev pub HasUniqueIds : Db → Type 0
HasUniqueIds db = (id : ℕ) → count (λ k. k.id == id) db.outbox.rows ≤ 1

abbrev pub WasPending : List EmailOutbox → EmailOutbox → Type 0
WasPending batch k = (elem k.id (ids batch) ≡ false) ⊎ (status_eq k.status pending ≡ true)

pub ready_batch-pending :
    (locked : ℕ → Bool) (limit now id : ℕ) (rows : List EmailOutbox)
    → count (λ k. k.id == id) rows ≤ 1
    → All
        (λ k.
          ((k.id == id) ≡ false)
          ⊎ ((elem id (ids (ready_batch locked limit now rows)) ≡ false)
              ⊎ (status_eq k.status pending ≡ true)))
        rows
unfolding ready_batch
ready_batch-pending locked limit now id rows unique =
    let free = λ (k : EmailOutbox). is_ready now k && not (locked k.id) in
    let key = λ (k : EmailOutbox). k.id == id in
    elim (Bool-cases (elem id (ids (take limit (sort_by older (select free rows)))))) [
      | inr absent ↦ All-intro _ (λ k. inr (inl absent)) rows
      | inl present ↦
          let some_row : 1 ≤ count (λ k. key k && free k) rows = omega (
            arith,
            count-ids id (take limit (sort_by older (select free rows))) present,
            count-take-le key limit (sort_by older (select free rows)),
            count-sort_by key older (select free rows),
            count-select key free rows,
          ) in
          All-mono _ _ rows (λ k one. ground arith) (only_one key free rows unique some_row)
    ]

pub claim_batch-IsValid :
    (locked : ℕ → Bool) (limit : ℕ) (db db' : Db) (rows : List EmailOutbox)
    → HasUniqueIds db
    → IsValid db
    → claim_batch locked limit db ≡ ok (rows, db')
    → IsValid db'
unfolding claim_batch
claim_batch-IsValid locked limit db db' rows unique h e =
    let batch = ready_batch locked limit db.now db.outbox.rows in
    let written : db'.outbox.rows
        ≡ update_where (λ row. elem row.id (ids batch)) as_sending db.outbox.rows =
      ground arith in
    rw written (
      All-update_where_from RowIsValid {Q = λ k. RowIsValid k × WasPending batch k}
        (λ row. elem row.id (ids batch)) as_sending db.outbox.rows (λ k e both. ground arith)
        (λ k e both. both.0)
        (All-both _ db.outbox.rows h
          (All-at _ (λ k. k.id) db.outbox.rows
            (λ id. ready_batch-pending locked limit db.now id db.outbox.rows (unique id)))
          (λ k v p. (v, ground arith))))

-- what the settling of a row does to it
abbrev pub settled : ℕ → Option Text → EmailOutbox → EmailOutbox
settled now none = sent_row now
settled now (some error) = failed_row now error

pub settle_lem :
    (row : EmailOutbox) (result : Option Text) (db : Db)
    → settle row result db
      ≡ ok (
        tt,
        record db { outbox = update (λ k. k.id == row.id) (settled db.now result) db.outbox },
      )
unfolding mark_sent mark_failed
settle_lem row none db = refl
settle_lem row (some error) db = refl

pub settled-RowIsValid :
    (now : ℕ) (result : Option Text) (k : EmailOutbox)
    → k.status ≡ sending
    → RowIsValid k
    → RowIsValid (settled now result k)
unfolding sent_row failed_row
settled-RowIsValid now none k s v = ground arith
settled-RowIsValid now (some error) k s v = ground arith

pub settled-status :
    (now : ℕ) (result : Option Text) (k : EmailOutbox)
    → status_eq (settled now result k).status sending ≡ false
unfolding sent_row failed_row
settled-status now none k = refl
settled-status now (some error) k = ground arith

pub settled-id :
    (now : ℕ) (result : Option Text) (k : EmailOutbox) → (settled now result k).id ≡ k.id
unfolding sent_row failed_row
settled-id now none k = refl
settled-id now (some error) k = ground arith
