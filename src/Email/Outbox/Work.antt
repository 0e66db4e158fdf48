-- ===== src/Email/Outbox/Work.antt =====
-- The attempts that are left in the outbox, app/services/email_outbox_service.py, and what a pass of
-- `_drain_once` of app/core/email_worker.py uses of them.
use api_testoria.Base.{
  ℕ, suc, ◌+◌, ◌-◌, ◌≤◌, ◌≡◌, refl, ◌∙◌, inl, inr, true, false, Option, none, some, List, [], ◌∷◌,
  arith, ◌==◌, if◌then◌else◌, count, elem, update_where, All, Bool-cases, Text,
}
use api_testoria.Db.{Table, EmailOutbox, pending, update}
use api_testoria.Email.Outbox.{status_eq, ids, as_sending, sent_row, failed_row, Deliver}
use api_testoria.Email.Outbox.Attempts.{RowIsValid, WasPending, settled, settled-id}
use api_testoria.Email.Outbox.Draining.{drained, Distinct}

-- the attempts that a pending row has left
abbrev pub left : EmailOutbox → ℕ
left k = if status_eq k.status pending then k.max_attempts - k.attempts else 0

-- the attempts that all pending rows have left
unfoldable pub work : List EmailOutbox → ℕ
work [] = 0
work (k ∷ rows) = left k + work rows

-- The same while the rows with the keys `waiting` are to be settled: each of them has at most one
-- attempt less afterwards.
abbrev due : List ℕ → EmailOutbox → ℕ
due waiting k = if elem k.id waiting then k.max_attempts - k.attempts - 1 else left k

pub due_work : List ℕ → List EmailOutbox → ℕ
due_work waiting [] = 0
due_work waiting (k ∷ rows) = due waiting k + due_work waiting rows

left-settled :
    (now : ℕ) (result : Option Text) (k : EmailOutbox)
    → left (settled now result k) ≤ k.max_attempts - k.attempts - 1
unfolding sent_row failed_row
left-settled now none k = ground arith
left-settled now (some error) k = ground arith

due-settled :
    (now id : ℕ) (result : Option Text) (waiting : List ℕ) (rows : List EmailOutbox)
    → elem id waiting ≡ false
    → due_work waiting (update_where (λ k. k.id == id) (settled now result) rows)
      ≤ due_work (id ∷ waiting) rows
unfolding due_work
due-settled now id result waiting [] fresh = omega arith
due-settled now id result waiting (k ∷ rows) fresh = elim (Bool-cases (k.id == id)) [
  | inl e ↦
      let same : k.id ≡ id = ground arith in
      let key : (settled now result k).id ≡ id = settled-id now result k ∙ same in
      ground (arith, key, left-settled now result k, due-settled now id result waiting rows fresh)
  | inr e ↦ ground (arith, due-settled now id result waiting rows fresh)
]

pub due-drained :
    (deliver : Deliver) (now : ℕ) (rows : List EmailOutbox) (t : Table EmailOutbox)
    → Distinct (ids rows)
    → due_work [] (drained deliver now rows t).rows ≤ due_work (ids rows) t.rows
unfolding drained
due-drained deliver now [] t d = omega arith
due-drained deliver now (row ∷ rows) t d =
    let next = update (λ k. k.id == row.id) (settled now (deliver row)) t in
    omega (
      arith,
      due-drained deliver now rows next d.1,
      due-settled now row.id (deliver row) (ids rows) t.rows d.0,
    )

pub due_work-none : (rows : List EmailOutbox) → due_work [] rows ≡ work rows
unfolding due_work work
due_work-none [] = refl
due_work-none (k ∷ rows) = ground (arith, due_work-none rows)

claimed_left :
    (batch : List EmailOutbox) (k : EmailOutbox)
    → elem k.id (ids batch) ≡ true
    → RowIsValid k
    → WasPending batch k
    → suc (k.max_attempts - k.attempts - 1) ≤ left k
claimed_left batch k e valid was = ground (arith, valid, was)

-- Claiming a batch of pending rows takes an attempt of each.
pub due-claimed :
    (batch : List EmailOutbox) (rows : List EmailOutbox)
    → All (λ k. RowIsValid k × WasPending batch k) rows
    → count (λ k. elem k.id (ids batch)) rows
        + due_work (ids batch) (update_where (λ k. elem k.id (ids batch)) as_sending rows)
      ≤ work rows
unfolding due_work work
due-claimed batch [] h = omega arith
due-claimed batch (k ∷ rows) h = elim (Bool-cases (elem k.id (ids batch))) [
  | inl e ↦ ground (arith, due-claimed batch rows h.1, claimed_left batch k e h.0.0 h.0.1)
  | inr e ↦ ground (arith, due-claimed batch rows h.1)
]
