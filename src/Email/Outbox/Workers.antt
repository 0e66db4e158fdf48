-- ===== src/Email/Outbox/Workers.antt =====
-- Two workers on one queue: `requeue_orphaned_sending` and `claim_batch`.
use api_testoria.Base.{
  ℕ, ◌≤◌, ◌≡◌, refl, Bool, true, false, ◌&&◌, List, [], ◌∷◌, map, arith, ok, length, elem, select,
  sort_by, any, update_where, leb, ◌==◌, length-sort_by, length-select-le, length-update_where,
  take-all, any-sort_by, any-select, any_mono, any-update_where,
}
use api_testoria.Db.{Db, EmailOutbox, pending, sending}
use api_testoria.Email.Outbox.{
  status_eq, is_ready, older, ready_batch, ids, as_sending, claim_batch, requeue_orphaned_sending,
}

-- A row that is `sending` and due.
abbrev in_flight : ℕ → ℕ → EmailOutbox → Bool
in_flight id now k = k.id == id && (status_eq k.status sending && leb k.next_attempt_at now)

elem-ids :
    (id : ℕ) (rows : List EmailOutbox)
    → elem id (ids (map as_sending rows)) ≡ any (λ k. id == k.id) rows
elem-ids id [] = refl
elem-ids id (row ∷ rows) = ground (arith, elem-ids id rows)

ready_batch-full :
    (id limit now : ℕ) (rows : List EmailOutbox)
    → length rows ≤ limit
    → any (λ k. (id == k.id) && is_ready now k) rows ≡ true
    → any (λ k. id == k.id) (ready_batch (λ n. false) limit now rows) ≡ true
unfolding ready_batch
ready_batch-full id limit now rows room h =
    let free = select (λ k. is_ready now k && true) rows in
    rw
      (
        take-all limit (sort_by older free) (
            omega (
              arith,
              length-sort_by older free,
              length-select-le (λ k. is_ready now k && true) rows,
            )),
        any-sort_by (λ k. id == k.id) older free,
        any-select (λ k. id == k.id) (λ k. is_ready now k && true) rows,
      )
      (any_mono _ _ rows (λ k e. ground arith) h)

-- While a worker is sending a row, the start of another one (`requeue_orphaned_sending`) makes the
-- row pending, so that a claim large enough for the table hands it out once more.
pub requeue_reclaims :
    (id limit n : ℕ) (db mid db' : Db) (rows : List EmailOutbox)
    → any (in_flight id db.now) db.outbox.rows ≡ true
    → length db.outbox.rows ≤ limit
    → requeue_orphaned_sending db ≡ ok (n, mid)
    → claim_batch (λ k. false) limit mid ≡ ok (rows, db')
    → elem id (ids rows) ≡ true
unfolding claim_batch requeue_orphaned_sending
requeue_reclaims id limit n db mid db' rows flying room h k =
    let back = λ (r : EmailOutbox). record r { status = pending } in
    let is_sending = λ (r : EmailOutbox). status_eq r.status sending in
    let requeued : mid.outbox.rows ≡ update_where is_sending back db.outbox.rows = ground arith in
    let clock : mid.now ≡ db.now = ground arith in
    let taken : rows ≡ map as_sending (ready_batch (λ k. false) limit mid.now mid.outbox.rows) =
      ground arith in
    rw (taken, elem-ids, requeued, clock)
      (ready_batch-full id limit db.now (update_where is_sending back db.outbox.rows)
        (rw length-update_where room)
        (rw any-update_where (any_mono _ _ db.outbox.rows (λ r e. ground arith) flying)))
