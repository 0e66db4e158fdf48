-- ===== src/Projects.antt =====
-- app/services/project_service.py: projects and the cascade of their deletion.
pub mod Cascade
pub mod Roundtrip
use api_testoria.Base.{
  ℕ, zero, suc, ◌*◌, ◌-◌, Bool, true, false, not, ◌&&◌, ◌||◌, Option, none, some, List, [], ◌∷◌,
  ◌==◌, if◌then◌else◌, is_none, get_or, leb, select, find?, any, elem, length, count, take, sort_by,
  Text, not_found, bad_request, pure, gets, or_raise, ◌>>=◌, ◌>>◌, raise_if, modify,
}
use api_testoria.Db.{
  Db, Query, Project, TestSuite, TestCase, TestRun, TestResult, insert, update, create_action,
  update_action, delete_action, restore_action, project_entity,
}
use api_testoria.Effects.{log_action}

-- `get_project`
unfoldable pub find_project : ℕ → Bool → Query Project
find_project id allow_deleted = do
  found ← gets (λ db.
      find? (λ p. p.id == id && (if allow_deleted then true else is_none p.deleted_at))
        db.projects.rows)
  or_raise found not_found

abbrev is_listed : Bool → Bool → Project → Bool
is_listed include_archived include_deleted p =
    (include_archived || not p.is_archived) && (include_deleted || is_none p.deleted_at)

abbrev pub drop : {A : Type 0} → ℕ → List A → List A
drop zero xs = xs
drop (suc n) [] = []
drop (suc n) (x ∷ xs) = drop n xs

-- `list_projects`: the page and the number of all that the filters let pass
unfoldable pub list_projects : ℕ → ℕ → Bool → Bool → Query (List Project × ℕ)
list_projects page page_size include_archived include_deleted = gets (λ db.
    let rows = select (is_listed include_archived include_deleted) db.projects.rows in
    (
      take page_size
          (drop ((page - 1) * page_size) (sort_by (λ a b. leb b.created_at a.created_at) rows)),
      length rows,
    ))

abbrev new_project : Text → Option Text → ℕ → ℕ → Project
new_project name description now id = record {
  id = id;
  name = name;
  description = description;
  is_archived = false;
  created_at = now;
  deleted_at = none;
}

-- `create_project`
unfoldable pub create_project : Text → Option Text → Option ℕ → Query Project
create_project name description user_id = do
  now ← gets (λ db. db.now)
  id ← gets (λ db. db.projects.next_id)
  modify (λ db. record db { projects = insert (new_project name description now) db.projects })
  log_action user_id create_action project_entity id
  pure (new_project name description now id)

-- schemas/project.py
pub record ProjectUpdate : Type 0 where
  pub name : Option Text
  pub description : Option Text
  pub is_archived : Option Bool

abbrev or_kept : Option Text → Option Text → Option Text
or_kept none old = old
or_kept (some text) old = some text

abbrev updated_project : ProjectUpdate → Project → Project
updated_project data' p = record p {
  name = get_or data'.name p.name;
  description = or_kept data'.description p.description;
  is_archived = get_or data'.is_archived p.is_archived;
}

-- what the flush of a changed project writes
abbrev pub save_project : ℕ → (Project → Project) → Query (Unit {0})
save_project id f = modify (λ db. record db { projects = update (λ p. p.id == id) f db.projects })

-- `update_project`
unfoldable pub update_project : ℕ → ProjectUpdate → Option ℕ → Query Project
update_project project_id data' user_id = do
  project ← find_project project_id false
  save_project project.id (updated_project data')
  log_action user_id update_action project_entity project.id
  pure (updated_project data' project)

abbrev pub is_live_suite : ℕ → TestSuite → Bool
is_live_suite project_id s = s.project_id == project_id && is_none s.deleted_at

abbrev pub is_live_run_of : ℕ → TestRun → Bool
is_live_run_of project_id r = r.project_id == project_id && is_none r.deleted_at

abbrev suite_keys : List TestSuite → List ℕ
suite_keys [] = []
suite_keys (s ∷ rest) = s.id ∷ suite_keys rest

abbrev run_keys : List TestRun → List ℕ
run_keys [] = []
run_keys (r ∷ rest) = r.id ∷ run_keys rest

abbrev pub live_suite_ids : ℕ → Db → List ℕ
live_suite_ids project_id db = suite_keys (select (is_live_suite project_id) db.suites.rows)

abbrev pub live_run_ids : ℕ → Db → List ℕ
live_run_ids project_id db = run_keys (select (is_live_run_of project_id) db.runs.rows)

-- the two updates of the suites with the given ids and their cases; with no id they match no row
abbrev pub delete_suites : List ℕ → ℕ → Query (Unit {0})
delete_suites ids now = modify (λ db. record db {
  suites =
      update (λ s. elem s.id ids && is_none s.deleted_at) (λ s. record s { deleted_at = some now })
        db.suites;
  cases =
      update (λ c. elem c.suite_id ids && is_none c.deleted_at)
        (λ c. record c { deleted_at = some now }) db.cases;
})

-- the two updates of the runs with the given ids and their results
abbrev pub delete_runs : List ℕ → ℕ → Query (Unit {0})
delete_runs ids now = modify (λ db. record db {
  runs =
      update (λ r. elem r.id ids && is_none r.deleted_at) (λ r. record r { deleted_at = some now })
        db.runs;
  results =
      update (λ r. elem r.run_id ids && is_none r.deleted_at)
        (λ r. record r { deleted_at = some now }) db.results;
})

-- `delete_project`
unfoldable pub delete_project : ℕ → Option ℕ → Query (Unit {0})
delete_project project_id user_id = do
  project ← find_project project_id false
  now ← gets (λ db. db.now)
  save_project project.id (λ p. record p { deleted_at = some now })
  suite_ids ← gets (live_suite_ids project_id)
  delete_suites suite_ids now
  run_ids ← gets (live_run_ids project_id)
  delete_runs run_ids now
  log_action user_id delete_action project_entity project_id

-- `restore_project`
unfoldable pub restore_project : ℕ → Option ℕ → Query Project
restore_project project_id user_id = do
  project ← find_project project_id true
  raise_if (is_none project.deleted_at) bad_request
  save_project project.id (λ p. record p { deleted_at = none })
  log_action user_id restore_action project_entity project.id
  pure (record project { deleted_at = none })
