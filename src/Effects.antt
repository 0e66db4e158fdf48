-- ===== src/Effects.antt =====
-- app/services/audit_service.py and app/services/realtime_service.py: what a service call leaves
-- behind beside its own rows. A failure to publish is swallowed by `_safe_publish`, so what is kept
-- is what was handed over.
use api_testoria.Base.{ℕ, Option, List, [], ◌∷◌, ◌++◌, modify, ◌>>◌}
use api_testoria.Db.{
  Query, AuditAction, EntityType, Channel, testrun_channel, project_channel, Event, test_result,
  test_result_bulk, test_run_status, test_case_update, ResultStatus, RunStatus,
}

-- `log_action`
unfoldable pub log_action : Option ℕ → AuditAction → EntityType → ℕ → Query (Unit {0})
log_action user_id action entity_type entity_id = modify (λ db. record db {
  audit_logs =
      db.audit_logs
      ++ record {
        user_id = user_id;
        action = action;
        entity_type = entity_type;
        entity_id = entity_id;
      }
        ∷ [];
})

-- `_safe_publish`
abbrev publish : Channel → Event → Query (Unit {0})
publish channel event = modify (λ db. record db { events = db.events ++ (channel, event) ∷ [] })

abbrev publish_to_both : ℕ → ℕ → Event → Query (Unit {0})
publish_to_both run_id project_id event = do
  publish (testrun_channel run_id) event
  publish (project_channel project_id) event

unfoldable pub publish_result_update : ℕ → ℕ → ℕ → ℕ → ResultStatus → Option ℕ → Query (Unit {0})
publish_result_update run_id project_id result_id case_id status tested_by =
    publish_to_both run_id project_id (test_result result_id case_id status tested_by)

unfoldable pub publish_result_bulk : ℕ → ℕ → ℕ → List (ResultStatus × ℕ) → Query (Unit {0})
publish_result_bulk run_id project_id submitted status_counts =
    publish_to_both run_id project_id (test_result_bulk run_id submitted status_counts)

unfoldable pub publish_run_status : ℕ → ℕ → RunStatus → Query (Unit {0})
publish_run_status run_id project_id status =
    publish_to_both run_id project_id (test_run_status run_id status)

unfoldable pub publish_case_update : ℕ → ℕ → Query (Unit {0})
publish_case_update project_id case_id =
    publish (project_channel project_id) (test_case_update case_id)
