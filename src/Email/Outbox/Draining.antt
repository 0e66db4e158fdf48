-- ===== src/Email/Outbox/Draining.antt =====
-- One pass of the drain loop: `_drain_once` of app/core/email_worker.py.
use api_testoria.Base.{
  ℕ, ◌≤◌, ◌≡◌, refl, ◌⊎◌, Bool, true, false, not, ◌&&◌, List, [], ◌∷◌, map, arith, ok, elem, count,
  select, sort_by, take, ◌==◌, All, All-mono, All-both, All-update_where, All-update_where_from,
  inl, inr, count-select-le, count-sort_by, count-take-le,
}
use api_testoria.Db.{Db, update, EmailOutbox, Table, sending}
use api_testoria.Email.Outbox.{
  status_eq, is_ready, older, ready_batch, ids, as_sending, claim_batch, Deliver, drain_rows,
  send_all, drain_once,
}
use api_testoria.Email.Outbox.Attempts.{
  RowIsValid, IsValid, HasUniqueIds, settled, settle_lem, settled-RowIsValid, settled-status,
  settled-id, claim_batch-IsValid,
}
use api_testoria.Email.Outbox.Claims.{claim_batch_lem, ids-as_sending}

-- the table after the rows of a batch are settled one by one
unfoldable pub drained : Deliver → ℕ → List EmailOutbox → Table EmailOutbox → Table EmailOutbox
drained deliver now [] t = t
drained deliver now (row ∷ rows) t =
    drained deliver now rows (update (λ k. k.id == row.id) (settled now (deliver row)) t)

pub drain_rows_lem :
    (deliver : Deliver) (rows : List EmailOutbox) (db : Db)
    → drain_rows deliver rows db
      ≡ ok (tt, record db { outbox = drained deliver db.now rows db.outbox })
unfolding drain_rows drained
drain_rows_lem deliver [] db = refl
drain_rows_lem deliver (row ∷ rows) db = rw (settle_lem row (deliver row) db) (
    drain_rows_lem deliver rows (record db {
      outbox = update (λ k. k.id == row.id) (settled db.now (deliver row)) db.outbox;
    }))

pub claim_batch_def :
    (locked : ℕ → Bool) (n : ℕ) (db : Db)
    → claim_batch locked n db
      ≡ ok (
        map as_sending (ready_batch locked n db.now db.outbox.rows),
        record db {
          outbox =
              update
                (λ row. elem row.id (ids (ready_batch locked n db.now db.outbox.rows)))
                as_sending
                db.outbox;
        },
      )
unfolding claim_batch
claim_batch_def locked n db = refl

abbrev pub Distinct : List ℕ → Type 0
Distinct [] = Unit
Distinct (id ∷ rest) = (elem id rest ≡ false) × Distinct rest

-- what holds of a row while the rows with the keys `rest` of a batch `whole` are to be settled
abbrev Waits : List ℕ → List ℕ → EmailOutbox → Type 0
Waits whole rest k =
    RowIsValid k
    × ((elem k.id rest ≡ false) ⊎ (k.status ≡ sending))
    × ((elem k.id whole ≡ false) ⊎ (elem k.id rest ≡ true) ⊎ (status_eq k.status sending ≡ false))

settle_now :
    (deliver : Deliver) (now : ℕ) (whole : List ℕ) (row : EmailOutbox) (rows : List EmailOutbox)
    → Distinct (ids (row ∷ rows))
    → (k : EmailOutbox) → (k.id == row.id) ≡ true
    → Waits whole (row.id ∷ ids rows) k
    → Waits whole (ids rows) (settled now (deliver row) k)
settle_now deliver now whole row rows d k e w = (
  settled-RowIsValid now (deliver row) k (ground arith) w.0,
  ground (arith, settled-id now (deliver row) k),
  ground (arith, settled-status now (deliver row) k),
)

drained-Waits :
    (deliver : Deliver) (now : ℕ) (whole : List ℕ) (rows : List EmailOutbox) (t : Table EmailOutbox)
    → Distinct (ids rows)
    → All (Waits whole (ids rows)) t.rows
    → All (Waits whole []) (drained deliver now rows t).rows
unfolding drained
drained-Waits deliver now whole [] t d h = h
drained-Waits deliver now whole (row ∷ rows) t d h = drained-Waits deliver now whole rows _ d.1 (
    All-update_where_from (Waits whole (ids rows)) {Q = Waits whole (row.id ∷ ids rows)}
      (λ k. k.id == row.id) (settled now (deliver row)) t.rows
      (settle_now deliver now whole row rows d) (λ k e w. ground arith) h)

ids-absent :
    (id : ℕ) (rows : List EmailOutbox)
    → count (λ k. k.id == id) rows ≡ 0
    → elem id (ids rows) ≡ false
ids-absent id [] h = refl
ids-absent id (row ∷ rows) h = ground (arith, ids-absent id rows)

Distinct-ids :
    (rows : List EmailOutbox) → ((id : ℕ) → count (λ k. k.id == id) rows ≤ 1) → Distinct (ids rows)
Distinct-ids [] h = tt
Distinct-ids (row ∷ rows) h = (
  ids-absent row.id rows (ground (arith, h row.id)),
  Distinct-ids rows (λ id. ground (arith, h id)),
)

pub ready_batch_unique :
    (locked : ℕ → Bool) (limit now : ℕ) (rows : List EmailOutbox)
    → ((id : ℕ) → count (λ k. k.id == id) rows ≤ 1)
    → Distinct (ids (map as_sending (ready_batch locked limit now rows)))
unfolding ready_batch
ready_batch_unique locked limit now rows h =
    let free = λ (k : EmailOutbox). is_ready now k && not (locked k.id) in
    rw ids-as_sending (
      Distinct-ids (take limit (sort_by older (select free rows))) (λ id. omega (
        arith,
        h id,
        count-take-le (λ k. k.id == id) limit (sort_by older (select free rows)),
        count-sort_by (λ k. k.id == id) older (select free rows),
        count-select-le (λ k. k.id == id) free rows,
      )))

pub send_all_lem :
    (deliver : Deliver) (rows : List EmailOutbox) (db : Db)
    → send_all deliver true rows db
      ≡ ok (true, record db { outbox = drained deliver db.now rows db.outbox })
unfolding drained
send_all_lem deliver [] db = refl
send_all_lem deliver (row ∷ rows) db = rw (drain_rows_lem deliver (row ∷ rows) db) refl

-- a row of the batch, or one that nobody is sending
abbrev pub IsOurs : List ℕ → EmailOutbox → Type 0
IsOurs whole k = (elem k.id whole ≡ true) ⊎ (status_eq k.status sending ≡ false)

drained-IsOurs :
    (deliver : Deliver) (now : ℕ) (whole : List ℕ) (rows : List EmailOutbox) (t : Table EmailOutbox)
    → All (IsOurs whole) t.rows
    → All (IsOurs whole) (drained deliver now rows t).rows
unfolding drained
drained-IsOurs deliver now whole [] t h = h
drained-IsOurs deliver now whole (row ∷ rows) t h = drained-IsOurs deliver now whole rows _ (
    All-update_where (IsOurs whole) (λ k. k.id == row.id) (settled now (deliver row)) t.rows
      (λ k e o. inr (settled-status now (deliver row) k)) h)

-- A pass of the drain loop with a connection returns whatever the template engine and the mail server
-- do with the emails. It keeps the invariant, and leaves no row `sending` if none was.
pub drain_once_lem :
    (deliver : Deliver) (locked : ℕ → Bool) (batch_size : ℕ) (db : Db)
    → HasUniqueIds db
    → IsValid db
    → All (λ k. status_eq k.status sending ≡ false) db.outbox.rows
    → (db' : Db) × (drain_once deliver true locked batch_size db ≡ ok (true, db'))
      × IsValid db'
      × All (λ k. status_eq k.status sending ≡ false) db'.outbox.rows
unfolding drain_once
drain_once_lem deliver locked n db unique valid idle =
    let batch = ready_batch locked n db.now db.outbox.rows in
    let rows = map as_sending batch in
    let mid = record db { outbox = update (λ row. elem row.id (ids batch)) as_sending db.outbox } in
    let claimed : claim_batch locked n db ≡ ok (rows, mid) = claim_batch_def locked n db in
    let (size, held, marked) = claim_batch_lem locked n db mid rows claimed in
    let start : All (Waits (ids rows) (ids rows)) mid.outbox.rows =
      All-both (Waits (ids rows) (ids rows)) mid.outbox.rows
        (claim_batch-IsValid locked n db mid rows unique valid claimed) marked
        (λ k v m. (v, m, ground arith)) in
    let ours : All (IsOurs (ids rows)) mid.outbox.rows = rw ids-as_sending (
      All-update_where_from (IsOurs (ids batch)) {Q = λ k. status_eq k.status sending ≡ false}
        (λ row. elem row.id (ids batch)) as_sending db.outbox.rows (λ k e i. inl e) (λ k e i. inr i)
        idle) in
    let settled_table = drained deliver db.now rows mid.outbox in
    let end =
      drained-Waits deliver db.now (ids rows) rows mid.outbox
        (ready_batch_unique locked n db.now db.outbox.rows unique) start in
    (
      record mid { outbox = settled_table },
      rw claimed (send_all_lem deliver rows mid),
      All-mono RowIsValid (Waits (ids rows) []) settled_table.rows (λ k w. w.0) end,
      All-both (λ k. status_eq k.status sending ≡ false) settled_table.rows end
          (drained-IsOurs deliver db.now (ids rows) rows mid.outbox ours)
          (λ k w o. ground (arith, w, o)),
    )
