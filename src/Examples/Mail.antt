-- ===== src/Examples/Mail.antt =====
-- Examples of the email queue.
use api_testoria.Base.{
  ℕ, ◌≡◌, refl, Bool, true, false, some, List, [], ◌∷◌, arith, ok, elem, codes, All,
}
use api_testoria.Db.{Db, EmailOutbox, pending, sending}
use api_testoria.Email.Outbox.{
  Deliver, ready_batch, ids, drain_once, claim_batch, requeue_orphaned_sending,
}
use api_testoria.Email.Outbox.Attempts.{IsValid, HasUniqueIds}
use api_testoria.Email.Outbox.Claims.{claims_disjoint}
use api_testoria.Email.Outbox.Liveness.{run, IsFinal, attempts_left, run_settles}
use api_testoria.Email.Outbox.Workers.{requeue_reclaims}
use api_testoria.Examples.{shop, after, value, a_mail, table}

abbrev refusing : Deliver
refusing row = some (codes "refused")

abbrev nothing_locked : ℕ → Bool
nothing_locked id = false

-- an email that waits, and one that a worker was sending when it stopped
abbrev interrupted : Db
interrupted = record shop {
  outbox = table (a_mail pending ∷ record (a_mail sending) { id = 2 } ∷ []) 3;
}

interrupted_ids : HasUniqueIds interrupted
interrupted_ids id = ground arith

interrupted-IsValid : IsValid interrupted
interrupted-IsValid = (omega arith, (omega arith, tt))

run_settles_example :
    (db' : Db) × (run refusing 1 10 interrupted ≡ ok (tt, db')) × All IsFinal db'.outbox.rows
unfolding attempts_left
run_settles_example =
    run_settles refusing 1 10 interrupted (omega arith) interrupted_ids interrupted-IsValid
      (omega arith)

abbrev claimed : List EmailOutbox
unfolding claim_batch ready_batch
claimed = value [] (claim_batch nothing_locked 10 shop)

abbrev mid : Db
unfolding claim_batch ready_batch
mid = after (claim_batch nothing_locked 10 shop)

-- two pending emails, and two workers that take one each
abbrev two_mails : Db
two_mails = record shop {
  outbox = table (a_mail pending ∷ record (a_mail pending) { id = 2 } ∷ []) 3;
}

abbrev one_taken : Db
unfolding claim_batch ready_batch
one_taken = after (claim_batch nothing_locked 1 two_mails)

abbrev first_batch : List EmailOutbox
unfolding claim_batch ready_batch
first_batch = value [] (claim_batch nothing_locked 1 two_mails)

abbrev both_taken : Db
unfolding claim_batch ready_batch
both_taken = after (claim_batch nothing_locked 1 one_taken)

claims_disjoint_example :
    All
      (λ (row : EmailOutbox). elem row.id (ids first_batch) ≡ false)
      (record (a_mail sending) { id = 2 } ∷ [])
unfolding claim_batch ready_batch
claims_disjoint_example =
    claims_disjoint nothing_locked nothing_locked 1 1 two_mails one_taken both_taken first_batch
      (record (a_mail sending) { id = 2 } ∷ []) refl refl

abbrev busy : Db
busy = record shop { outbox = table (a_mail sending ∷ []) 2 }

requeue_reclaims_example : elem 1 (ids claimed) ≡ true
unfolding claim_batch ready_batch requeue_orphaned_sending
requeue_reclaims_example =
    requeue_reclaims 1 10 1 busy shop mid claimed refl (omega arith) refl refl

-- no connection for the first email, and a later claim
abbrev stranded : Db
unfolding drain_once claim_batch ready_batch
stranded = after (drain_once refusing false nothing_locked 1 two_mails)
