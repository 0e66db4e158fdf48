-- ===== src/Email/Outbox/Claims.antt =====
-- Which rows `claim_batch` of app/services/email_outbox_service.py hands out.
use api_testoria.Base.{
  ℕ, ◌≤◌, ◌≡◌, refl, ◌⊎◌, inl, inr, Bool, true, false, List, [], ◌∷◌, map, arith, ok, length, elem,
  update_where, leb, All, All-select, All-select_of, All-sort_by, All-take, All-map, All-mono,
  All-both, All-update_where_set, length-take-le,
}
use api_testoria.Db.{Db, EmailOutbox, pending, sending}
use api_testoria.Email.Outbox.{status_eq, older, ready_batch, ids, as_sending, claim_batch}

-- Every row of a batch is pending, due, and not locked by another transaction.
abbrev IsFree : (ℕ → Bool) → ℕ → EmailOutbox → Type 0
IsFree locked now row =
    (status_eq row.status pending ≡ true)
    × (leb row.next_attempt_at now ≡ true)
    × (locked row.id ≡ false)

ready_batch-IsFree :
    (locked : ℕ → Bool) (limit now : ℕ) (rows : List EmailOutbox)
    → All (IsFree locked now) (ready_batch locked limit now rows)
unfolding ready_batch
ready_batch-IsFree locked limit now rows = All-take (IsFree locked now) limit _ (
    All-sort_by (IsFree locked now) older _
      (All-select (IsFree locked now) _ rows (λ row e. ground arith)))

pub ready_batch-All :
    (P : EmailOutbox → Type 0) (locked : ℕ → Bool) (limit now : ℕ) (rows : List EmailOutbox)
    → All P rows
    → All P (ready_batch locked limit now rows)
unfolding ready_batch
ready_batch-All P locked limit now rows h =
    All-take P limit _ (All-sort_by P older _ (All-select_of P _ rows h))

length-ready_batch :
    (locked : ℕ → Bool) (limit now : ℕ) (rows : List EmailOutbox)
    → length (ready_batch locked limit now rows) ≤ limit
unfolding ready_batch
length-ready_batch locked limit now rows = length-take-le limit _

length-map :
    (f : EmailOutbox → EmailOutbox) (rows : List EmailOutbox) → length (map f rows) ≡ length rows
length-map f [] = refl
length-map f (row ∷ rows) = omega (arith, length-map f rows)

pub ids-as_sending : (rows : List EmailOutbox) → ids (map as_sending rows) ≡ ids rows
ids-as_sending [] = refl
ids-as_sending (row ∷ rows) = rw (ids-as_sending rows)

-- A claim hands out at most `limit` rows, now `sending`, none of which another transaction holds
-- locked; and each row of the table with the id of one of them is `sending` afterwards.
pub claim_batch_lem :
    (locked : ℕ → Bool) (limit : ℕ) (db db' : Db) (rows : List EmailOutbox)
    → claim_batch locked limit db ≡ ok (rows, db')
    → (length rows ≤ limit)
      × All (λ row. (row.status ≡ sending) × (locked row.id ≡ false)) rows
      × All (λ k. (elem k.id (ids rows) ≡ false) ⊎ (k.status ≡ sending)) db'.outbox.rows
unfolding claim_batch
claim_batch_lem locked limit db db' rows h =
    let batch = ready_batch locked limit db.now db.outbox.rows in
    let taken : rows ≡ map as_sending batch = ground arith in
    let written : db'.outbox.rows
        ≡ update_where (λ row. elem row.id (ids batch)) as_sending db.outbox.rows =
      ground arith in
    (
      rw (taken, length-map as_sending batch)
          (length-ready_batch locked limit db.now db.outbox.rows),
      rw taken (
          All-map (λ row. (row.status ≡ sending) × (locked row.id ≡ false)) as_sending batch
            (All-mono _ (IsFree locked db.now) batch (λ row free. (refl, free.2))
              (ready_batch-IsFree locked limit db.now db.outbox.rows))),
      rw (written, taken, ids-as_sending batch)
          (All-update_where_set _ (λ row. elem row.id (ids batch)) as_sending db.outbox.rows
            (λ row e. inr refl) (λ row e. inl e)),
    )

-- Two claims, one after the other, never hand out the same row.
pub claims_disjoint :
    (locked locked' : ℕ → Bool) (limit limit' : ℕ) (db mid db' : Db) (rows rows' : List EmailOutbox)
    → claim_batch locked limit db ≡ ok (rows, mid)
    → claim_batch locked' limit' mid ≡ ok (rows', db')
    → All (λ row. elem row.id (ids rows) ≡ false) rows'
unfolding claim_batch
claims_disjoint locked locked' limit limit' db mid db' rows rows' h h' =
    let (size, held, marked) = claim_batch_lem locked limit db mid rows h in
    let batch = ready_batch locked' limit' mid.now mid.outbox.rows in
    let taken : rows' ≡ map as_sending batch = ground arith in
    rw taken (
      All-map (λ row. elem row.id (ids rows) ≡ false) as_sending batch
        (All-both (λ row. elem row.id (ids rows) ≡ false) batch
          (ready_batch-All _ locked' limit' mid.now mid.outbox.rows marked)
          (ready_batch-IsFree locked' limit' mid.now mid.outbox.rows)
          (λ row was free. ground arith)))
