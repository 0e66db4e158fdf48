-- ===== src/Results/Submission.antt =====
-- What `submit` of app/services/test_result_service.py leaves behind.
use api_testoria.Base.{
  ℕ, ◌≡◌, refl, inl, inr, true, false, Option, none, some, [], ◌∷◌, ◌++◌, arith, ok, sym,
  Bool-cases, subst, ◌≢◌, ◌⊎◌, ap, get_or, Text, text_eq, text_eq_iff,
}
use api_testoria.Db.{
  Db, TestResult, ResultHistory, ResultStatus, passed, failed, blocked, no_run, skipped,
}
use api_testoria.Progress.{result_status_eq}
use api_testoria.Progress.Statuses.{status_eq_sym, status_eq_refl}
use api_testoria.Results.{
  comment_or_none, TestResultCreate, get_result, normalise_status, submit, should_record_history,
}
use api_testoria.Results.Invariant.{IsValid}
use api_testoria.Results.Writing.{live_result, submit-leaves}

-- how a result is kept that is submitted with a status
abbrev pub IsKeptAs : ResultStatus → ResultStatus → Type 0
IsKeptAs skipped status = status ≡ no_run
IsKeptAs asked status = status ≡ asked

-- A result is new, or has another status or another comment than the old one.
abbrev pub IsChange : Option TestResult → TestResult → Type 0
IsChange none tr = Unit
IsChange (some old) tr = (old.status ≢ tr.status) ⊎ (get_or old.comment [] ≢ get_or tr.comment [])

-- It has the status and the comment of the old one, where no comment is the same as an empty one.
abbrev pub IsNoChange : Option TestResult → TestResult → Type 0
IsNoChange old tr =
    (o : TestResult) × (old ≡ some o)
    × (o.status ≡ tr.status)
    × (get_or o.comment [] ≡ get_or tr.comment [])

-- the entry for a result that a user changes
abbrev pub entry_of : TestResult → ℕ → Db → ResultHistory
entry_of tr user_id db = record {
  id = db.history.next_id;
  result_id = tr.id;
  status = tr.status;
  comment = tr.comment;
  changed_by = some user_id;
  changed_at = db.now;
}

-- The history gets one entry for a change, and none otherwise.
abbrev pub IsRecorded : Option TestResult → TestResult → ℕ → Db → Db → Type 0
IsRecorded old tr user_id db db' =
    (IsChange old tr × (db'.history.rows ≡ db.history.rows ++ entry_of tr user_id db ∷ []))
    ⊎ (IsNoChange old tr × (db'.history.rows ≡ db.history.rows))

normalise_status-IsKeptAs : (s : ResultStatus) → IsKeptAs s (normalise_status s)
unfolding normalise_status
normalise_status-IsKeptAs passed = refl
normalise_status-IsKeptAs failed = refl
normalise_status-IsKeptAs blocked = refl
normalise_status-IsKeptAs no_run = refl
normalise_status-IsKeptAs skipped = refl

comment_or_none_def : (c : Option Text) → comment_or_none c ≡ get_or c []
comment_or_none_def none = refl
comment_or_none_def (some t) = refl

should_record_history-IsChange :
    (old : Option TestResult) (tr : TestResult)
    → (IsChange old tr × (should_record_history old tr ≡ true))
      ⊎ (IsNoChange old tr × (should_record_history old tr ≡ false))
unfolding should_record_history
should_record_history-IsChange none tr = inl (tt, refl)
should_record_history-IsChange (some old) tr =
    let was = get_or old.comment [] in
    let is = get_or tr.comment [] in
    elim (Bool-cases (result_status_eq old.status tr.status)) [
      | inr e ↦ inl (
        inl (λ same. absurd (
            ground (arith, status_eq_refl tr.status, ap (λ s. result_status_eq s tr.status) same))),
        ground arith,
      )
      | inl e ↦ elim (Bool-cases (text_eq was is)) [
        | inr c ↦ inl (
          inr (λ same. absurd (ground (arith, text_eq_iff was is))),
          ground (arith, comment_or_none_def old.comment, comment_or_none_def tr.comment),
        )
        | inl c ↦ inr (
          (old, refl, status_eq_sym old.status tr.status e, (text_eq_iff was is).0 c),
          ground (arith, comment_or_none_def old.comment, comment_or_none_def tr.comment),
        )
      ]
    ]

-- Over a well-formed table, a submission that returns leaves the result that it returns as the live
-- one of its run and case, found by its key too, with the comment and the status asked for ("skipped"
-- kept as "no_run"). The history gets one entry, with the new status and comment, the user and the
-- time, if there was no live result or the status or the comment changed (no comment being the same
-- as an empty one), and stays as it was otherwise. The table stays well formed.
pub submit_lem :
    (run_id user_id : ℕ) (item : TestResultCreate) (tr : TestResult) (db db' : Db)
    → IsValid db.results
    → submit run_id item user_id db ≡ ok (tr, db')
    → (live_result run_id item.case_id db' ≡ some tr)
      × (get_result tr.id db' ≡ ok (tr, db'))
      × IsKeptAs item.status tr.status
      × (tr.comment ≡ item.comment)
      × IsRecorded (live_result run_id item.case_id db) tr user_id db db'
      × IsValid db'.results
submit_lem run_id user_id item tr db db' v h =
    let (found, by_key, status, comment, history, valid) =
      submit-leaves run_id user_id item tr db db' v h in
    (
      found,
      by_key,
      subst (IsKeptAs item.status) (sym status) (normalise_status-IsKeptAs item.status),
      comment,
      elim (should_record_history-IsChange (live_result run_id item.case_id db) tr) [
        | inl (change, e) ↦ inl (change, ground arith)
        | inr (same, e) ↦ inr (same, ground arith)
      ],
      valid,
    )
