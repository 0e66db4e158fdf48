-- ===== src/Cases/Deletion.antt =====
-- Deletion and restoration of test cases, app/services/test_case_service.py.
use api_testoria.Base.{
  ℕ, ◌≡◌, refl, sym, ap, subst, ◌∙◌, ◌≤◌, Bool, false, ◌&&◌, Option, none, some, List, [], ◌∷◌,
  ◌++◌, arith, ok, raised, not_found, find?, count, update_where, ◌==◌, is_none, find?-some,
  SoftDelete, find?-deleted, update_where_restored,
}
use api_testoria.Db.{
  Db, TestCase, TestSuite, AuditLog, AuditAction, delete_action, restore_action, case_entity,
}
use api_testoria.Effects.{log_action}
use api_testoria.Cases.{get_test_case, delete_test_case, restore_test_case}

abbrev soft : SoftDelete TestCase
soft = record {
  key = λ c. c.id;
  deleted = λ c. c.deleted_at;
  mark = λ d c. record c { deleted_at = d };
  key-mark = λ d c. refl;
  deleted-mark = λ d c. refl;
  mark_own = λ d c. refl;
}

abbrev pub is_live_case : ℕ → TestCase → Bool
is_live_case id c = c.id == id && is_none c.deleted_at

abbrev pub entry : Option ℕ → AuditAction → ℕ → AuditLog
entry user_id action id = record {
  user_id = user_id;
  action = action;
  entity_type = case_entity;
  entity_id = id;
}

-- The database with two more entries of the audit log.
abbrev pub logged : Option ℕ → Option ℕ → ℕ → Db → Db
logged user_id user_id' id db = record db {
  audit_logs =
      (db.audit_logs ++ entry user_id delete_action id ∷ [])
      ++ entry user_id' restore_action id ∷ [];
}

restore_own :
    (user_id user_id' : Option ℕ) (tc : TestCase) (s : TestSuite) (db : Db)
    → count (λ c. c.id == tc.id) db.cases.rows ≤ 1
    → find? (is_live_case tc.id) db.cases.rows ≡ some tc
    → find? (λ k. k.id == tc.suite_id) db.suites.rows ≡ some s
    → s.deleted_at ≡ none
    → (mid : Db) × (delete_test_case tc.id user_id db ≡ ok (tt, mid))
      × (get_test_case tc.id false mid ≡ raised not_found)
      × (restore_test_case tc.id user_id' mid ≡ ok (tc, logged user_id user_id' tc.id db))
unfolding get_test_case delete_test_case restore_test_case log_action
restore_own user_id user_id' tc s db unique found suite live =
    let after = logged user_id user_id' tc.id db in
    let with_rows = λ (rows : List TestCase). record after {
      cases = record { rows = rows; next_id = db.cases.next_id };
    } in
    let (gone, there) = find?-deleted soft tc.id db.now db.cases.rows unique found in
    let back = update_where_restored soft tc.id db.now db.cases.rows unique found in
    let stamped =
      update_where (λ c. c.id == tc.id) (λ c. record c { deleted_at = some db.now })
        db.cases.rows in
    let cleared = update_where (λ c. c.id == tc.id) (λ c. record c { deleted_at = none }) stamped in
    let fits = find?-some (is_live_case tc.id) db.cases.rows found in
    let alive : tc.deleted_at ≡ none = ground arith in
    (
      record db {
        cases = record { rows = stamped; next_id = db.cases.next_id };
        audit_logs = db.audit_logs ++ entry user_id delete_action tc.id ∷ [];
      },
      rw found refl,
      rw gone refl,
      rw (there, suite, live)
          (ap {A = Option ℕ} (λ d. ok (record tc { deleted_at = d }, with_rows cleared)) (sym alive)
            ∙ ap (λ rows. ok (tc, with_rows rows)) back),
    )

-- A live case of a live suite can be deleted; it is found no more, and its restoration returns it and
-- leaves the database as it was before the deletion, but for the two entries of the audit log.
pub restore_test_case-after_delete :
    (id : ℕ) (user_id user_id' : Option ℕ) (tc : TestCase) (s : TestSuite) (db : Db)
    → count (λ c. c.id == id) db.cases.rows ≤ 1
    → find? (is_live_case id) db.cases.rows ≡ some tc
    → find? (λ k. k.id == tc.suite_id) db.suites.rows ≡ some s
    → s.deleted_at ≡ none
    → (mid : Db) × (delete_test_case id user_id db ≡ ok (tt, mid))
      × (get_test_case id false mid ≡ raised not_found)
      × (restore_test_case id user_id' mid ≡ ok (tc, logged user_id user_id' id db))
restore_test_case-after_delete id user_id user_id' tc s db unique found suite live =
    let same : tc.id ≡ id = ground (arith, find?-some (is_live_case id) db.cases.rows found) in
    subst
      (λ k.
        count (λ c. c.id == k) db.cases.rows ≤ 1
        → find? (is_live_case k) db.cases.rows ≡ some tc
        → (mid : Db) × (delete_test_case k user_id db ≡ ok (tt, mid))
          × (get_test_case k false mid ≡ raised not_found)
          × (restore_test_case k user_id' mid ≡ ok (tc, logged user_id user_id' k db)))
      same (λ u f. restore_own user_id user_id' tc s db u f suite live) unique found
