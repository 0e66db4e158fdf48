-- ===== src/Email/Outbox/Liveness.antt =====
-- The worker of app/core/email_worker.py from its start: the requeue, and passes of `_drain_once` until every
-- email is sent or has failed for good.
use api_testoria.Base.{
  ℕ, suc, ◌≤◌, ◌<◌, ◌≡◌, refl, inl, inr, ◌⊎◌, Bool, true, false, ◌&&◌, List, [], ◌∷◌, arith, ok,
  ◌==◌, leb, length, count, All, All-both, Bool-cases, count-update_where, zero, max, not, select,
  sort_by, take, length-sort_by, none_of_count, pure, modify, ◌>>◌, ◌||◌, ◌+◌, ◌-◌, if◌then◌else◌,
  update_where,
}
use api_testoria.Db.{Db, Query, EmailOutbox, pending, sending, sent, failed, OutboxStatus, update}
use api_testoria.Email.Outbox.{
  status_eq, is_ready, older, ready_batch, Deliver, drain_once, requeue_orphaned_sending,
}
use api_testoria.Email.Outbox.Attempts.{RowIsValid, requeue-IsValid, IsValid, HasUniqueIds}
use api_testoria.Email.Outbox.Draining.{drain_once_lem}
use api_testoria.Email.Outbox.Work.{work, left}
use api_testoria.Email.Outbox.Passes.{drain_once_unique, drain_once-work}

idle :
    (rows : List EmailOutbox)
    → All RowIsValid rows
    → work rows ≡ 0
    → All (λ k. status_eq k.status pending ≡ false) rows
unfolding work
idle [] v h = tt
idle (k ∷ rows) v h = (own_idle k v.0 (omega (arith, h)), idle rows v.1 (omega (arith, h)))
  where
    own_idle : (k : EmailOutbox) → RowIsValid k → left k ≡ 0 → status_eq k.status pending ≡ false
    own_idle k v h = elim (Bool-cases (status_eq k.status pending)) [
      | inl e ↦ absurd (ground (arith, v))
      | inr e ↦ e
    ]

no_work :
    (rows : List EmailOutbox) → All (λ k. status_eq k.status pending ≡ false) rows → work rows ≡ 0
unfolding work
no_work [] h = refl
no_work (k ∷ rows) h = ground (arith, h.0, no_work rows h.1)

-- the latest time at which a row is to be tried
abbrev latest : List EmailOutbox → ℕ
latest [] = 0
latest (k ∷ rows) = max k.next_attempt_at (latest rows)

due_by :
    (now : ℕ) (rows : List EmailOutbox)
    → latest rows ≤ now
    → All (λ k. leb k.next_attempt_at now ≡ true) rows
due_by now [] h = tt
due_by now (k ∷ rows) h = (ground (arith, h), due_by now rows (omega (arith, h)))

length_taken : {A : Type 0} (n : ℕ) (xs : List A) → length (take (suc n) xs) ≡ 0 → length xs ≡ 0
length_taken n [] h = refl
length_taken n (x ∷ xs) h = absurd (omega (arith, h))

length_selected :
    (q : EmailOutbox → Bool) (rows : List EmailOutbox) → length (select q rows) ≡ count q rows
length_selected q [] = refl
length_selected q (k ∷ rows) = ground (arith, length_selected q rows)

-- Late enough and without locks, a batch is empty only where no row is pending.
none_ready :
    (n now : ℕ) (rows : List EmailOutbox)
    → latest rows ≤ now
    → length (ready_batch (λ id. false) (suc n) now rows) ≡ 0
    → work rows ≡ 0
unfolding ready_batch
none_ready n now rows late h =
    let free = λ (k : EmailOutbox). is_ready now k && not false in
    let empty : count free rows ≡ 0 = omega (
      arith,
      length_taken n (sort_by older (select free rows)) h,
      length-sort_by older (select free rows),
      length_selected free rows,
    ) in
    no_work rows (
      All-both _ rows (none_of_count free rows empty) (due_by now rows late)
        (λ k not_free late_k. ground arith))

-- Passes one after the other, each with a connection, with nothing locked, and at a time at which every
-- row that is left is to be tried.
pub passes : Deliver → ℕ → ℕ → Query (Unit {0})
passes deliver batch_size zero = pure tt
passes deliver batch_size (suc n) = do
  modify (λ db. record db { now = max db.now (latest db.outbox.rows) })
  drain_once deliver true (λ id. false) batch_size
  passes deliver batch_size n

-- `_run`: the requeue at the start of the worker, and then the passes
pub run : Deliver → ℕ → ℕ → Query (Unit {0})
run deliver batch_size n = do requeue_orphaned_sending; passes deliver batch_size n

-- sent, or failed with no attempt left
abbrev pub IsFinal : EmailOutbox → Type 0
IsFinal k = (k.status ≡ sent) ⊎ ((k.status ≡ failed) × (k.max_attempts ≤ k.attempts))

finished :
    (k : EmailOutbox)
    → RowIsValid k
    → status_eq k.status sending ≡ false
    → status_eq k.status pending ≡ false
    → IsFinal k
finished k v s p = go k.status refl
  where
    go : (t : OutboxStatus) → k.status ≡ t → IsFinal k
    go sent e = inl e
    go failed e = inr (e, ground (arith, v))
    go pending e = absurd (ground arith)
    go sending e = absurd (ground arith)

passes-IsFinal :
    (deliver : Deliver) (batch_size n : ℕ) (db : Db)
    → 0 < batch_size
    → HasUniqueIds db
    → IsValid db
    → All (λ k. status_eq k.status sending ≡ false) db.outbox.rows
    → work db.outbox.rows ≤ n
    → (db' : Db) × (passes deliver batch_size n db ≡ ok (tt, db')) × All IsFinal db'.outbox.rows
unfolding passes
passes-IsFinal deliver batch_size zero db lt unique valid free enough =
    let done = idle db.outbox.rows valid (omega (arith, enough)) in
    let quiet =
      All-both (λ k. (status_eq k.status sending ≡ false) × (status_eq k.status pending ≡ false))
        db.outbox.rows free done (λ k s p. (s, p)) in
    (db, refl, All-both IsFinal db.outbox.rows valid quiet (λ k v q. finished k v q.0 q.1))
passes-IsFinal deliver zero (suc n) db lt unique valid free enough = absurd (omega (arith, lt))
passes-IsFinal deliver (suc m) (suc n) db lt unique valid free enough =
    let d = record db { now = max db.now (latest db.outbox.rows) } in
    let locked : ℕ → Bool = λ id. false in
    let (mid, ran, valid', free') = drain_once_lem deliver locked (suc m) d unique valid free in
    let (less, strictly) = drain_once-work deliver locked (suc m) d mid unique valid ran in
    let fewer : work mid.outbox.rows ≤ n = elim strictly [
      | inl empty ↦ omega (arith, less, none_ready m d.now db.outbox.rows (omega arith) empty)
      | inr used ↦ omega (arith, used, enough)
    ] in
    let (db', rest, done) =
      passes-IsFinal deliver (suc m) n mid lt
        (drain_once_unique deliver locked (suc m) d mid unique ran) valid' free' fewer in
    (db', rw (ran, rest) refl, done)

-- the attempts that the emails have left that are pending or were left `sending`
unfoldable pub attempts_left : List EmailOutbox → ℕ
attempts_left [] = 0
attempts_left (k ∷ rows) =
    (if status_eq k.status pending || status_eq k.status sending
      then k.max_attempts - k.attempts
      else 0)
    + attempts_left rows

work-requeued :
    (rows : List EmailOutbox)
    → work
        (update_where (λ k. status_eq k.status sending) (λ k. record k { status = pending }) rows)
      ≡ attempts_left rows
unfolding work attempts_left
work-requeued [] = refl
work-requeued (k ∷ rows) = ground (arith, work-requeued rows)

requeued-free :
    (rows : List EmailOutbox)
    → All
        (λ k. status_eq k.status sending ≡ false)
        (update_where (λ k. status_eq k.status sending) (λ k. record k { status = pending }) rows)
requeued-free [] = tt
requeued-free (k ∷ rows) = (ground arith, requeued-free rows)

-- A worker that starts, and whose connections to the mail server succeed: whatever the server does
-- with the emails, after as many passes as the unsettled emails have attempts left, each at a time at
-- which those that are left are to be tried, every email is sent or has failed with no attempt left.
pub run_settles :
    (deliver : Deliver) (batch_size n : ℕ) (db : Db)
    → 0 < batch_size
    → HasUniqueIds db
    → IsValid db
    → attempts_left db.outbox.rows ≤ n
    → (db' : Db) × (run deliver batch_size n db ≡ ok (tt, db')) × All IsFinal db'.outbox.rows
unfolding run requeue_orphaned_sending
run_settles deliver batch_size n db lt unique valid enough =
    let back = λ (k : EmailOutbox). record k { status = pending } in
    let mid = record db { outbox = update (λ k. status_eq k.status sending) back db.outbox } in
    let kept : HasUniqueIds mid = λ id. omega (
      arith,
      unique id,
      count-update_where (λ k. k.id == id) (λ k. status_eq k.status sending) back db.outbox.rows
          (λ k e. refl),
    ) in
    passes-IsFinal deliver batch_size n mid lt kept (requeue-IsValid _ db mid valid refl)
      (requeued-free db.outbox.rows) (rw (work-requeued db.outbox.rows) enough)
