-- ===== src/Milestones.antt =====
-- app/services/milestone_service.py: milestones of projects.
pub mod Deletion
use api_testoria.Base.{
  nulls_last, eq_option, ℕ, Bool, true, false, ◌&&◌, ◌||◌, Option, none, some, List, ◌==◌,
  if◌then◌else◌, is_none, get_or, leb, ltb, select, find?, sort_by, Text, not_found, bad_request,
  pure, gets, or_raise, ◌>>=◌, ◌>>◌, raise_if, modify,
}
use api_testoria.Db.{Db, Query, Milestone, insert, update}
use api_testoria.Runs.{get_project, is_gone}

-- `get_milestone`
unfoldable pub get_milestone : ℕ → Bool → Query Milestone
get_milestone id allow_deleted = do
  found ← gets (λ db.
      find? (λ m. m.id == id && (if allow_deleted then true else is_none m.deleted_at))
        db.milestones.rows)
  or_raise found not_found

abbrev milestone_before : Milestone → Milestone → Bool
milestone_before a b =
    nulls_last a.target_date b.target_date
    || eq_option a.target_date b.target_date && leb a.created_at b.created_at

-- `list_milestones`
unfoldable pub list_milestones : ℕ → Bool → Query (List Milestone)
list_milestones project_id include_deleted = do
  get_project project_id
  gets (λ db. sort_by milestone_before (
      select (λ m. m.project_id == project_id && (include_deleted || is_none m.deleted_at))
        db.milestones.rows))

-- schemas/milestone.py
pub record MilestoneCreate : Type 0 where
  pub name : Text
  pub description : Option Text
  pub target_date : Option ℕ

abbrev new_milestone : ℕ → MilestoneCreate → ℕ → ℕ → Milestone
new_milestone project_id data' now id = record {
  id = id;
  project_id = project_id;
  name = data'.name;
  description = data'.description;
  target_date = data'.target_date;
  is_completed = false;
  created_at = now;
  deleted_at = none;
}

-- `create_milestone`
unfoldable pub create_milestone : ℕ → MilestoneCreate → Query Milestone
create_milestone project_id data' = do
  get_project project_id
  now ← gets (λ db. db.now)
  id ← gets (λ db. db.milestones.next_id)
  modify
      (λ db. record db { milestones = insert (new_milestone project_id data' now) db.milestones })
  pure (new_milestone project_id data' now id)

-- the outer option of the date tells whether the field was set
pub record MilestoneUpdate : Type 0 where
  pub name : Option Text
  pub description : Option Text
  pub target_date : Option (Option ℕ)
  pub is_completed : Option Bool

abbrev or_kept : Option Text → Option Text → Option Text
or_kept none old = old
or_kept (some text) old = some text

abbrev updated_milestone : MilestoneUpdate → Milestone → Milestone
updated_milestone data' m = record m {
  name = get_or data'.name m.name;
  description = or_kept data'.description m.description;
  target_date = get_or data'.target_date m.target_date;
  is_completed = get_or data'.is_completed m.is_completed;
}

abbrev pub save_milestone : ℕ → (Milestone → Milestone) → Query (Unit {0})
save_milestone id f =
    modify (λ db. record db { milestones = update (λ m. m.id == id) f db.milestones })

-- `update_milestone`
unfoldable pub update_milestone : ℕ → MilestoneUpdate → Query Milestone
update_milestone milestone_id data' = do
  ms ← get_milestone milestone_id false
  save_milestone ms.id (updated_milestone data')
  pure (updated_milestone data' ms)

-- `delete_milestone`
unfoldable pub delete_milestone : ℕ → Query (Unit {0})
delete_milestone milestone_id = do
  ms ← get_milestone milestone_id false
  now ← gets (λ db. db.now)
  save_milestone ms.id (λ m. record m { deleted_at = some now })

-- `restore_milestone`
unfoldable pub restore_milestone : ℕ → Query Milestone
restore_milestone milestone_id = do
  ms ← get_milestone milestone_id true
  raise_if (is_none ms.deleted_at) bad_request
  project ← gets (λ db. find? (λ p. p.id == ms.project_id) db.projects.rows)
  raise_if (is_gone project) bad_request
  save_milestone ms.id (λ m. record m { deleted_at = none })
  pure (record ms { deleted_at = none })
