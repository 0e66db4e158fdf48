-- ===== src/Results/Counting.antt =====
-- The numbers that `submit_many` of app/services/test_result_service.py returns.
use api_testoria.Base.{
  ℕ, ◌+◌, ◌≡◌, false, some, List, [], ◌∷◌, arith, ok, length, ◌==◌, find?, >>=-eq-ok, ◌>>◌, pure,
  or_raise, when, raise_if, any, not_found, Bool, ◌||◌, Option, none, if◌then◌else◌, ap, sym, ◌∙◌,
  count, Bool-cases, inl, inr, refl,
}
use api_testoria.Db.{
  Db, TestCase, TestResult, ResultStatus, passed, failed, blocked, no_run, skipped,
}
use api_testoria.Effects.{publish_result_bulk}
use api_testoria.Runs.{get_run, transition_to_active}
use api_testoria.Progress.{result_status_eq, StatusCounts, sum_counts, get_count}
use api_testoria.Progress.Statuses.{status_eq_sym}
use api_testoria.Results.{
  TestResultCreate, validate_step_results, write_with_history, write_result, normalise_status,
  should_record_history, is_taken,
}
use api_testoria.Results.Writing.{record_history_step}
use api_testoria.Results.Bulk.{
  Existing, Tally, tallied, count_status, with_entry, existing_row, submit_items, finish_many,
  submit_many, live_cases, is_missing, item_ids, entries, live_results, empty_tally,
}

sum_counts-count_status :
    (s : ResultStatus) (counts : StatusCounts)
    → sum_counts (count_status s counts) ≡ sum_counts counts + 1
sum_counts-count_status s [] = omega arith
sum_counts-count_status s ((k, n) ∷ rest) = ground (arith, sum_counts-count_status s rest)

-- Whether a result that is submitted with a status is counted under another: "skipped" counts as
-- "no_run".
abbrev pub is_counted_as : ResultStatus → ResultStatus → Bool
is_counted_as no_run asked = result_status_eq asked no_run || result_status_eq asked skipped
is_counted_as skipped asked = false
is_counted_as status asked = result_status_eq asked status

normalise_status-is_counted_as :
    (s asked : ResultStatus) → result_status_eq (normalise_status asked) s ≡ is_counted_as s asked
unfolding normalise_status
normalise_status-is_counted_as passed passed = refl
normalise_status-is_counted_as passed failed = refl
normalise_status-is_counted_as passed blocked = refl
normalise_status-is_counted_as passed no_run = refl
normalise_status-is_counted_as passed skipped = refl
normalise_status-is_counted_as failed passed = refl
normalise_status-is_counted_as failed failed = refl
normalise_status-is_counted_as failed blocked = refl
normalise_status-is_counted_as failed no_run = refl
normalise_status-is_counted_as failed skipped = refl
normalise_status-is_counted_as blocked passed = refl
normalise_status-is_counted_as blocked failed = refl
normalise_status-is_counted_as blocked blocked = refl
normalise_status-is_counted_as blocked no_run = refl
normalise_status-is_counted_as blocked skipped = refl
normalise_status-is_counted_as no_run passed = refl
normalise_status-is_counted_as no_run failed = refl
normalise_status-is_counted_as no_run blocked = refl
normalise_status-is_counted_as no_run no_run = refl
normalise_status-is_counted_as no_run skipped = refl
normalise_status-is_counted_as skipped passed = refl
normalise_status-is_counted_as skipped failed = refl
normalise_status-is_counted_as skipped blocked = refl
normalise_status-is_counted_as skipped no_run = refl
normalise_status-is_counted_as skipped skipped = refl

get_count-count_status :
    (s t : ResultStatus) (counts : StatusCounts)
    → get_count s (count_status t counts)
      ≡ get_count s counts + (if result_status_eq t s then 1 else 0)
get_count-count_status s t [] = ground arith
get_count-count_status s t ((k, n) ∷ rest) =
    ground (arith, status_eq_sym k t, get_count-count_status s t rest)

write_result-status :
    (run_id user_id : ℕ) (item : TestResultCreate) (old : Option TestResult) (res : TestResult)
    (db db' : Db)
    → write_result run_id item user_id old db ≡ ok (res, db')
    → res.status ≡ normalise_status item.status
unfolding write_result
write_result-status run_id user_id item none res db db' h =
    elim (Bool-cases (is_taken run_id item.case_id db)) [
      | inl t ↦ absurd (ground arith)
      | inr t ↦ ground arith
    ]
write_result-status run_id user_id item (some old) res db db' h = ground arith

write_with_history-status :
    (run_id user_id : ℕ) (item : TestResultCreate) (old : Option TestResult)
    (written : TestResult × Bool) (db db' : Db)
    → write_with_history run_id item user_id old db ≡ ok (written, db')
    → written.0.status ≡ normalise_status item.status
unfolding write_with_history
write_with_history-status run_id user_id item old written db db' h =
    let (tr, mid, first, second) = >>=-eq-ok (write_result run_id item user_id old) _ db h in
    let (same, flag, results, kept, rows) =
      record_history_step (should_record_history old tr) tr user_id written.0 written.1 mid db'
        second in
    ap (λ (r : TestResult). r.status) (sym same)
    ∙ write_result-status run_id user_id item old tr db mid first

submit_items-counts :
    (run_id user_id : ℕ) (cases : List TestCase) (items : List TestResultCreate)
    (existing : Existing) (t t' : Tally) (db db' : Db)
    → submit_items run_id user_id cases items existing t db ≡ ok (t', db')
    → (t'.submitted ≡ t.submitted + length items)
      × (sum_counts t'.status_counts ≡ sum_counts t.status_counts + length items)
      × ((s : ResultStatus)
          → get_count s t'.status_counts
            ≡ get_count s t.status_counts + count (λ item. is_counted_as s item.status) items)
unfolding submit_items
submit_items-counts run_id user_id cases [] existing t t' db db' h =
    (ground arith, ground arith, λ s. ground arith)
submit_items-counts run_id user_id cases (item ∷ items) existing t t' db db' h =
    let (case, d1, h1, k1) =
      >>=-eq-ok (or_raise (find? (λ c. c.id == item.case_id) cases) not_found) _ db h in
    let (u, d2, h2, k2) = >>=-eq-ok (validate_step_results case item.step_results) _ d1 k1 in
    let (written, d3, h3, k3) =
      >>=-eq-ok (write_with_history run_id item user_id (existing_row existing item.case_id d2)) _
        d2 k2 in
    let rest =
      submit_items-counts run_id user_id cases items
        (with_entry item.case_id written.0.id (existing_row existing item.case_id d2) existing)
        (tallied written t) t' d3 db' k3 in
    let one = sum_counts-count_status written.0.status t.status_counts in
    (
      omega (arith, rest.0),
      omega (arith, rest.1, one),
      λ s. ground (
        arith,
        rest.2 s,
        get_count-count_status s written.0.status t.status_counts,
        write_with_history-status run_id user_id item (existing_row existing item.case_id d2)
            written d2 d3 h3,
        normalise_status-is_counted_as s item.status,
      ),
    )

-- A bulk submission that returns has submitted every item and counted it under its status, so that
-- its counts add up to the number of items.
pub submit_many-counts :
    (run_id user_id : ℕ) (items : List TestResultCreate) (submitted : ℕ) (counts : StatusCounts)
    (db db' : Db)
    → submit_many run_id items user_id db ≡ ok ((submitted, counts), db')
    → (submitted ≡ length items)
      × (sum_counts counts ≡ length items)
      × ((s : ResultStatus)
          → get_count s counts ≡ count (λ item. is_counted_as s item.status) items)
unfolding submit_many finish_many
submit_many-counts run_id user_id [] submitted counts db db' h =
    let (run, d1, h1, k1) = >>=-eq-ok (get_run run_id false) (λ _. pure (0, [])) db h in
    (ground arith, ground arith, λ s. ground arith)
submit_many-counts run_id user_id (item ∷ items) submitted counts db db' h =
    let (run, d1, h1, k1) = >>=-eq-ok (get_run run_id false) _ db h in
    let cases = live_cases (item_ids (item ∷ items)) d1 in
    let (u, d2, h2, k2) =
      >>=-eq-ok (raise_if (any (is_missing cases) (item ∷ items)) not_found) _ d1 k1 in
    let (t, d3, h3, k3) =
      >>=-eq-ok
        (submit_items run_id user_id cases (item ∷ items)
          (entries (live_results run_id (item_ids (item ∷ items)) d2)) empty_tally)
        _ d2 k2 in
    let (u', d4, h4, k4) =
      >>=-eq-ok (when t.changed (transition_to_active run_id (some user_id) >> pure tt)) _ d3 k3 in
    let (u'', d5, h5, k5) =
      >>=-eq-ok (publish_result_bulk run_id run.project_id t.submitted t.status_counts) _ d4 k4 in
    let counted =
      submit_items-counts run_id user_id cases (item ∷ items) _ empty_tally t d2 d3 h3 in
    (ground (arith, counted.0), ground (arith, counted.1), λ s. ground (arith, counted.2 s))
