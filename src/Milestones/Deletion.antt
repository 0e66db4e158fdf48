-- ===== src/Milestones/Deletion.antt =====
-- Deletion and restoration of milestones, app/services/milestone_service.py.
use api_testoria.Base.{
  ℕ, ◌≡◌, refl, sym, ap, subst, ◌∙◌, ◌≤◌, Bool, false, ◌&&◌, Option, none, some, List, arith, ok,
  raised, not_found, find?, count, update_where, ◌==◌, is_none, find?-some, SoftDelete,
  find?-deleted, update_where_restored,
}
use api_testoria.Db.{Db, Milestone, Project}
use api_testoria.Milestones.{get_milestone, delete_milestone, restore_milestone}

abbrev soft : SoftDelete Milestone
soft = record {
  key = λ m. m.id;
  deleted = λ m. m.deleted_at;
  mark = λ d m. record m { deleted_at = d };
  key-mark = λ d m. refl;
  deleted-mark = λ d m. refl;
  mark_own = λ d m. refl;
}

abbrev pub is_live_milestone : ℕ → Milestone → Bool
is_live_milestone id m = m.id == id && is_none m.deleted_at

restore_own :
    (ms : Milestone) (p : Project) (db : Db)
    → count (λ m. m.id == ms.id) db.milestones.rows ≤ 1
    → find? (is_live_milestone ms.id) db.milestones.rows ≡ some ms
    → find? (λ k. k.id == ms.project_id) db.projects.rows ≡ some p
    → p.deleted_at ≡ none
    → (mid : Db) × (delete_milestone ms.id db ≡ ok (tt, mid))
      × (get_milestone ms.id false mid ≡ raised not_found)
      × (restore_milestone ms.id mid ≡ ok (ms, db))
unfolding get_milestone delete_milestone restore_milestone
restore_own ms p db unique found project live =
    let with_rows = λ (rows : List Milestone). record db {
      milestones = record { rows = rows; next_id = db.milestones.next_id };
    } in
    let (gone, there) = find?-deleted soft ms.id db.now db.milestones.rows unique found in
    let back = update_where_restored soft ms.id db.now db.milestones.rows unique found in
    let stamped =
      update_where (λ m. m.id == ms.id) (λ m. record m { deleted_at = some db.now })
        db.milestones.rows in
    let cleared = update_where (λ m. m.id == ms.id) (λ m. record m { deleted_at = none }) stamped in
    let fits = find?-some (is_live_milestone ms.id) db.milestones.rows found in
    let alive : ms.deleted_at ≡ none = ground arith in
    (
      with_rows stamped,
      rw found refl,
      rw gone refl,
      rw (there, project, live)
          (ap {A = Option ℕ} (λ d. ok (record ms { deleted_at = d }, with_rows cleared)) (sym alive)
            ∙ ap (λ rows. ok (ms, with_rows rows)) back),
    )

-- A live milestone of a live project can be deleted; it is found no more, and its restoration returns
-- it and leaves the database exactly as it was before the deletion.
pub restore_milestone-after_delete :
    (id : ℕ) (ms : Milestone) (p : Project) (db : Db)
    → count (λ m. m.id == id) db.milestones.rows ≤ 1
    → find? (is_live_milestone id) db.milestones.rows ≡ some ms
    → find? (λ k. k.id == ms.project_id) db.projects.rows ≡ some p
    → p.deleted_at ≡ none
    → (mid : Db) × (delete_milestone id db ≡ ok (tt, mid))
      × (get_milestone id false mid ≡ raised not_found)
      × (restore_milestone id mid ≡ ok (ms, db))
restore_milestone-after_delete id ms p db unique found project live =
    let same : ms.id ≡ id =
      ground (arith, find?-some (is_live_milestone id) db.milestones.rows found) in
    subst
      (λ k.
        count (λ m. m.id == k) db.milestones.rows ≤ 1
        → find? (is_live_milestone k) db.milestones.rows ≡ some ms
        → (mid : Db) × (delete_milestone k db ≡ ok (tt, mid))
          × (get_milestone k false mid ≡ raised not_found)
          × (restore_milestone k mid ≡ ok (ms, db)))
      same (λ u f. restore_own ms p db u f project live) unique found
