-- ===== src/Projects/Roundtrip.antt =====
-- Deletion and restoration of a project, app/services/project_service.py.
use api_testoria.Base.{
  ℕ, ◌≡◌, refl, ◌≤◌, true, false, ◌&&◌, Option, none, some, List, [], ◌∷◌, ◌++◌, arith, ok, raised,
  find?, count, update_where, ◌==◌, is_none, find?-some, find?-wider, find?-narrower,
  find?-update_where-some, not_found, find?-update_where_gone,
}
use api_testoria.Db.{Db, Project, update, restore_action, project_entity}
use api_testoria.Effects.{log_action}
use api_testoria.Projects.{find_project, delete_project, restore_project}

abbrev dropped : ℕ → Project → Project
dropped now p = record p { deleted_at = some now }

abbrev lifted : Project → Project
lifted p = record p { deleted_at = none }

-- A deletion on the table of projects, and the restoration after it.
project_rows :
    (project_id now : ℕ) (rows : List Project) {p : Project}
    → count (λ p. p.id == project_id) rows ≤ 1
    → find? (λ p. p.id == project_id && is_none p.deleted_at) rows ≡ some p
    → (find?
          (λ p. p.id == project_id && is_none p.deleted_at)
          (update_where (λ k. k.id == p.id) (dropped now) rows)
        ≡ none)
      × (find?
            (λ p. p.id == project_id && true)
            (update_where (λ k. k.id == p.id) (dropped now) rows)
          ≡ some (dropped now p))
project_rows project_id now rows {p = p} unique found =
    let live = λ (k : Project). k.id == project_id && is_none k.deleted_at in
    let known = λ (k : Project). k.id == project_id && true in
    let fits = find?-some live rows found in
    let same : p.id ≡ project_id = ground arith in
    let there : find? known rows ≡ some p =
      find?-narrower known (λ k. k.id == project_id) rows (λ k e. ground arith)
        (find?-wider live (λ k. k.id == project_id) rows unique (λ k e. ground arith) found)
        (ground arith) in
    let moved =
      find?-update_where-some known (λ k. k.id == p.id) (dropped now) rows (λ k e. refl) there in
    (
      find?-update_where_gone live (λ k. k.id == p.id) (dropped now) rows (λ k e. ground arith)
          (λ k e. ground arith),
      ground arith,
    )

delete_project-projects :
    (project_id : ℕ) (user_id : Option ℕ) (db mid : Db) {p : Project}
    → find? (λ p. p.id == project_id && is_none p.deleted_at) db.projects.rows ≡ some p
    → delete_project project_id user_id db ≡ ok (tt, mid)
    → mid.projects ≡ update (λ k. k.id == p.id) (dropped db.now) db.projects
unfolding delete_project find_project log_action
delete_project-projects project_id user_id db mid found h = ground arith

-- A live project that is deleted is found no more, and its restoration gives back the same project
-- but leaves its suites, cases, runs and results as the deletion left them.
pub restore_project-after_delete :
    (project_id : ℕ) (user_id user_id' : Option ℕ) (p : Project) (db mid : Db)
    → count (λ p. p.id == project_id) db.projects.rows ≤ 1
    → find? (λ p. p.id == project_id && is_none p.deleted_at) db.projects.rows ≡ some p
    → delete_project project_id user_id db ≡ ok (tt, mid)
    → (find_project project_id false mid ≡ raised not_found)
      × (db' : Db) × (restore_project project_id user_id' mid ≡ ok (p, db'))
      × (db'.suites ≡ mid.suites)
      × (db'.cases ≡ mid.cases)
      × (db'.runs ≡ mid.runs)
      × (db'.results ≡ mid.results)
unfolding restore_project find_project log_action
restore_project-after_delete project_id user_id user_id' p db mid unique found h =
    let (gone, deleted) = project_rows project_id db.now db.projects.rows unique found in
    let written = delete_project-projects project_id user_id db mid found h in
    let alive : p.deleted_at ≡ none = ground (
      arith,
      find?-some (λ p. p.id == project_id && is_none p.deleted_at) db.projects.rows found,
    ) in
    (
      ground arith,
      record mid {
        projects = update (λ k. k.id == p.id) lifted mid.projects;
        audit_logs =
            mid.audit_logs
            ++ record {
              user_id = user_id';
              action = restore_action;
              entity_type = project_entity;
              entity_id = p.id;
            }
              ∷ [];
      },
      ground arith,
      refl,
      refl,
      refl,
      refl,
    )
