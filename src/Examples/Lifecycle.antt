-- ===== src/Examples/Lifecycle.antt =====
-- Examples of runs, their progress, and projects.
use api_testoria.Base.{
  ◌≡◌, refl, true, false, none, some, [], ◌∷◌, arith, ok, raised, not_found, any, count, find?,
  Text, leb, length, Bool, ◌⊎◌, is_none, bad_request,
}
use api_testoria.Db.{Db, TestRun, completed, auto, explicit}
use api_testoria.Effects.{log_action, publish_run_status}
use api_testoria.Runs.{
  is_live_run, get_run, transition_to_active, close_run, set_run_cases, validate_case_ids,
  delete_run, restore_run,
}
use api_testoria.Runs.Closing.{start, close, stop, next, closed_stays}
use api_testoria.Runs.Members.{holds, set_run_cases-members}
use api_testoria.Runs.Deletion.{is_live_result, restore_run-after_delete}
use api_testoria.Progress.{batch_run_progress}
use api_testoria.Progress.Batch.{each_progress, batch_run_progress-each}
use api_testoria.Projects.{find_project, delete_project, is_live_suite}
use api_testoria.Projects.Cascade.{delete_project-cascade}
use api_testoria.Projects.Roundtrip.{restore_project-after_delete}
use api_testoria.Statistics.{project_rows, get_bulk_stats}
use api_testoria.Statistics.Bulk.{each_stats, get_bulk_stats-each}
use api_testoria.Examples.{shop, a_project, run_of, after}

abbrev started : Db
unfolding transition_to_active get_run log_action publish_run_status
started = after (transition_to_active 1 (some 1) shop)

abbrev closed : Db
unfolding close_run get_run log_action publish_run_status
closed = after (close_run 1 (some 1) shop)

abbrev closed_run : TestRun
closed_run = record (run_of 1 auto) { status = completed; completed_at = some 1000 }

-- the other run, started after the first is closed
abbrev both : Db
unfolding close_run transition_to_active get_run log_action publish_run_status
both = after (transition_to_active 2 none closed)

closed_stays_example : find? (is_live_run 1) both.runs.rows ≡ some closed_run
unfolding close_run transition_to_active get_run log_action publish_run_status
closed_stays_example = closed_stays 1 closed_run closed both refl refl (
    next (start 1 none {started = false} refl) (
      next (close 1 (some 1) {run = closed_run} refl)
        (next (start 2 none {started = true} refl) stop)))

abbrev chosen : Db
unfolding set_run_cases get_run validate_case_ids
chosen = after (set_run_cases 1 (2 ∷ 2 ∷ []) shop)

set_run_cases-members_example :
    (any (holds 1 2) chosen.run_cases ≡ true) × (any (holds 2 2) chosen.run_cases ≡ false)
unfolding set_run_cases get_run validate_case_ids
set_run_cases-members_example =
    set_run_cases-members 1 2 2 (2 ∷ 2 ∷ []) shop chosen (omega arith) refl

abbrev without_run : Db
unfolding delete_run get_run log_action
without_run = after (delete_run 2 (some 1) shop)

restore_run-after_delete_example :
    ((a_project.deleted_at ≡ none)
      × (db' : Db) × (restore_run 2 none without_run ≡ ok (run_of 2 explicit, db'))
      × (get_run 2 false db' ≡ ok (run_of 2 explicit, db'))
      × (count (is_live_result 2) db'.results.rows ≡ 0))
    ⊎ ((is_none a_project.deleted_at ≡ false)
        × (restore_run 2 none without_run ≡ raised bad_request))
unfolding delete_run get_run log_action
restore_run-after_delete_example =
    restore_run-after_delete 2 (some 1) none (run_of 2 explicit) a_project shop without_run
      (omega arith) refl refl refl

batch_run_progress-each_example :
    batch_run_progress (run_of 1 auto ∷ run_of 2 explicit ∷ []) shop
    ≡ each_progress (run_of 1 auto ∷ run_of 2 explicit ∷ []) shop
unfolding get_run
batch_run_progress-each_example =
    batch_run_progress-each shop (run_of 1 auto ∷ run_of 2 explicit ∷ []) (refl, (refl, tt))

abbrev by_name : Text → Text → Bool
by_name a b = leb (length a) (length b)

abbrev done_run : TestRun
done_run = record (run_of 1 auto) { status = completed; completed_at = some 900 }

abbrev tallied : Db
tallied = record shop { runs = record shop.runs { rows = done_run ∷ run_of 2 explicit ∷ [] } }

get_bulk_stats-each_example :
    get_bulk_stats by_name true [] tallied
    ≡ each_stats (project_rows by_name true [] tallied.projects.rows) tallied
unfolding find_project
get_bulk_stats-each_example =
    get_bulk_stats-each by_name true [] tallied
      ((refl, tt), (((refl, (refl, tt))), (refl, (refl, tt)))) (refl, (refl, tt)) (refl, tt)

abbrev without_project : Db
unfolding delete_project find_project log_action
without_project = after (delete_project 1 (some 1) shop)

delete_project-cascade_example : count (is_live_suite 1) without_project.suites.rows ≡ 0
unfolding delete_project find_project log_action
delete_project-cascade_example =
    (delete_project-cascade 1 7 (some 1) shop without_project (omega arith) refl).0

restore_project-after_delete_example : find_project 1 false without_project ≡ raised not_found
unfolding delete_project find_project log_action
restore_project-after_delete_example =
    (restore_project-after_delete 1 (some 1) none a_project shop without_project (omega arith) refl
      refl).0
