-- ===== src/Email/Outbox/Passes.antt =====
-- What a pass of `_drain_once` of app/core/email_worker.py writes, and the attempts that it uses.
use api_testoria.Base.{
  ℕ, suc, ◌≤◌, ◌<◌, ◌≡◌, refl, subst, ◌∙◌, inl, inr, ◌⊎◌, Bool, true, List, [], ◌∷◌, arith, ok, map,
  ◌==◌, length, count, elem, All, All-both, All-at, count_mono, Bool-cases, count-update_where,
}
use api_testoria.Db.{Db, Table, EmailOutbox, update}
use api_testoria.Email.Outbox.{ready_batch, ids, as_sending, Deliver, drain_once}
use api_testoria.Email.Outbox.Attempts.{
  RowIsValid, IsValid, HasUniqueIds, WasPending, ready_batch-pending, settled, settled-id,
}
use api_testoria.Email.Outbox.Claims.{ready_batch-All, ids-as_sending}
use api_testoria.Email.Outbox.Draining.{drained, send_all_lem, claim_batch_def, ready_batch_unique}
use api_testoria.Email.Outbox.Work.{work, due_work, due-drained, due_work-none, due-claimed}

count-drained :
    (deliver : Deliver) (now id : ℕ) (rows : List EmailOutbox) (t : Table EmailOutbox)
    → count (λ k. k.id == id) (drained deliver now rows t).rows ≡ count (λ k. k.id == id) t.rows
unfolding drained
count-drained deliver now id [] t = refl
count-drained deliver now id (row ∷ rows) t =
    count-drained deliver now id rows (update (λ k. k.id == row.id) (settled now (deliver row)) t)
    ∙ count-update_where (λ k. k.id == id) (λ k. k.id == row.id) (settled now (deliver row)) t.rows
        (λ k e. ground (arith, settled-id now (deliver row) k))

-- the table after a pass
abbrev after_pass : Deliver → (ℕ → Bool) → ℕ → Db → Table EmailOutbox
after_pass deliver locked n db =
    let batch = ready_batch locked n db.now db.outbox.rows in
    drained deliver db.now (map as_sending batch)
      (update (λ row. elem row.id (ids batch)) as_sending db.outbox)

drain_once-writes :
    (deliver : Deliver) (locked : ℕ → Bool) (n : ℕ) (db db' : Db)
    → drain_once deliver true locked n db ≡ ok (true, db')
    → db'.outbox ≡ after_pass deliver locked n db
unfolding drain_once
drain_once-writes deliver locked n db db' h =
    let batch = ready_batch locked n db.now db.outbox.rows in
    let mid = record db { outbox = update (λ row. elem row.id (ids batch)) as_sending db.outbox } in
    let ran : drain_once deliver true locked n db
        ≡ ok (true, record mid { outbox = after_pass deliver locked n db }) =
      rw claim_batch_def (send_all_lem deliver (map as_sending batch) mid) in
    ground (arith, ran)

pub drain_once_unique :
    (deliver : Deliver) (locked : ℕ → Bool) (n : ℕ) (db db' : Db)
    → HasUniqueIds db
    → drain_once deliver true locked n db ≡ ok (true, db')
    → HasUniqueIds db'
drain_once_unique deliver locked n db db' unique h id =
    let batch = ready_batch locked n db.now db.outbox.rows in
    let claimed = update (λ row. elem row.id (ids batch)) as_sending db.outbox in
    rw (drain_once-writes deliver locked n db db' h) (
      omega (
        arith,
        unique id,
        count-drained deliver db.now id (map as_sending batch) claimed,
        count-update_where (λ k. k.id == id) (λ row. elem row.id (ids batch)) as_sending
            db.outbox.rows (λ k e. refl),
      ))

own_key :
    (seen rows : List EmailOutbox)
    → ((id : ℕ) → count (λ k. k.id == id) rows ≤ count (λ k. k.id == id) seen)
    → All (λ k. 1 ≤ count (λ x. x.id == k.id) seen) rows
own_key seen [] h = tt
own_key seen (k ∷ rows) h = (ground (arith, h k.id), own_key seen rows (λ id. ground (arith, h id)))

-- A batch that is not empty claims a row of the table.
some_claimed :
    (batch rows : List EmailOutbox)
    → 0 < length batch
    → All (λ k. 1 ≤ count (λ x. x.id == k.id) rows) batch
    → 1 ≤ count (λ k. elem k.id (ids batch)) rows
some_claimed [] rows lt h = absurd (omega (arith, lt))
some_claimed (b ∷ batch) rows lt h = omega (
  arith,
  h.0,
  count_mono (λ x. x.id == b.id) (λ k. elem k.id (ids (b ∷ batch))) rows (λ k e. ground (arith, e)),
)

-- What a pass uses: an attempt of each row that it claims.
pub drain_once-work :
    (deliver : Deliver) (locked : ℕ → Bool) (n : ℕ) (db db' : Db)
    → HasUniqueIds db
    → IsValid db
    → drain_once deliver true locked n db ≡ ok (true, db')
    → let batch = ready_batch locked n db.now db.outbox.rows in
      (work db'.outbox.rows ≤ work db.outbox.rows)
      × ((length batch ≡ 0) ⊎ (suc (work db'.outbox.rows) ≤ work db.outbox.rows))
drain_once-work deliver locked n db db' unique valid h =
    let rows = db.outbox.rows in
    let batch = ready_batch locked n db.now rows in
    let claimed = update (λ row. elem row.id (ids batch)) as_sending db.outbox in
    let was : All (λ k. RowIsValid k × WasPending batch k) rows =
      All-both _ rows valid
        (All-at _ (λ k. k.id) rows (λ id. ready_batch-pending locked n db.now id rows (unique id)))
        (λ k v p. (v, ground arith)) in
    let known = ready_batch-All _ locked n db.now rows (own_key rows rows (λ id. omega arith)) in
    let used : due_work [] (after_pass deliver locked n db).rows
        ≤ due_work (ids batch) claimed.rows =
      subst (λ w. due_work [] (after_pass deliver locked n db).rows ≤ due_work w claimed.rows)
        (ids-as_sending batch)
        (due-drained deliver db.now (map as_sending batch) claimed
          (ready_batch_unique locked n db.now rows unique)) in
    let spent = due-claimed batch rows was in
    let end = due_work-none (after_pass deliver locked n db).rows in
    rw (drain_once-writes deliver locked n db db' h) (
      omega (arith, used, spent, end),
      elim (Bool-cases (length batch == 0)) [
        | inl none_left ↦ inl (ground arith)
        | inr some_left ↦
            let lt : 0 < length batch = ground arith in
            inr (omega (arith, used, spent, end, some_claimed batch rows lt known))
      ],
    )
