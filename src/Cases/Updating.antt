-- ===== src/Cases/Updating.antt =====
-- `update_test_case` of app/services/test_case_service.py.
use api_testoria.Base.{
  ℕ, ◌≡◌, refl, ap, subst, ◌∙◌, Bool, false, not, ◌&&◌, Option, none, some, List, [], ◌∷◌, ◌++◌,
  arith, ok, find?, any, select, ◌==◌, find?-some, Text, any-append, any-select_drops,
  select-update_where, find?-update_where-some, if◌then◌else◌, is_some, get_or,
}
use api_testoria.Db.{
  Db, TestCase, TestSuite, Tag, CaseTag, update, project_channel, test_case_update, AuditLog,
  update_action, case_entity, CaseType, automated,
}
use api_testoria.Effects.{log_action, publish_case_update}
use api_testoria.Tags.{get_or_create_many}
use api_testoria.Tags.Names.{IsLower}
use api_testoria.Tags.Creation.{HasUniqueNames, get_or_create_many_lem}
use api_testoria.Cases.{
  TestCaseUpdate, get_test_case, updated_case, or_kept, check_new_suite, set_tags, tag_rows,
  publish_in, update_test_case,
}
use api_testoria.Cases.Deletion.{is_live_case}

abbrev pub tagged : ℕ → ℕ → CaseTag → Bool
tagged case_id tag_id ct = ct.case_id == case_id && ct.tag_id == tag_id

-- The tags of a case after an update: those of the names if names are given, else as before. The
-- tags of all other cases are as before.
abbrev pub HasTags : (Text → Text) → ℕ → Option (List Text) → Db → List CaseTag → Type 0
HasTags to_lower case_id none db rows = rows ≡ db.case_tags
HasTags to_lower case_id (some names) db rows =
    ((tags : List Tag) × (mid : Db) × (get_or_create_many to_lower names db ≡ ok (tags, mid))
      × ((k : ℕ) → any (tagged case_id k) rows ≡ any (λ t. t.id == k) tags))
    × (select (λ ct. not (ct.case_id == case_id)) rows
        ≡ select (λ ct. not (ct.case_id == case_id)) db.case_tags)

any-tag_rows :
    (id k : ℕ) (tags : List Tag) → any (tagged id k) (tag_rows id tags) ≡ any (λ t. t.id == k) tags
any-tag_rows id k [] = refl
any-tag_rows id k (t ∷ tags) = ground (arith, any-tag_rows id k tags)

select-tag_rows :
    (id : ℕ) (tags : List Tag) → select (λ ct. not (ct.case_id == id)) (tag_rows id tags) ≡ []
select-tag_rows id [] = refl
select-tag_rows id (t ∷ tags) = ground (arith, select-tag_rows id tags)

select_others :
    (id : ℕ) (rows : List CaseTag) (tags : List Tag)
    → select
        (λ ct. not (ct.case_id == id))
        (select (λ ct. not (ct.case_id == id)) rows ++ tag_rows id tags)
      ≡ select (λ ct. not (ct.case_id == id)) rows
select_others id [] tags = select-tag_rows id tags
select_others id (r ∷ rows) tags = ground (arith, select_others id rows tags)

set_tags_lem :
    (to_lower : Text → Text) (id : ℕ) (names : Option (List Text)) (db : Db)
    → IsLower to_lower
    → HasUniqueNames db
    → (db' : Db) × (set_tags to_lower id names db ≡ ok (tt, db'))
      × HasTags to_lower id names db db'.case_tags
      × (db' ≡ record db { tags = db'.tags; case_tags = db'.case_tags })
set_tags_lem to_lower id none db low uniq = (db, refl, refl, refl)
set_tags_lem to_lower id (some names) db low uniq =
    let (tags, mid, e, listed, distinct, kept, apart, only, again) =
      get_or_create_many_lem to_lower names db low uniq in
    let others = select (λ (ct : CaseTag). not (ct.case_id == id)) mid.case_tags in
    let same : mid.case_tags ≡ db.case_tags = ap {A = Db} (λ d. d.case_tags) only in
    (
      record mid { case_tags = others ++ tag_rows id tags },
      rw e refl,
      (
        (
          tags,
          mid,
          e,
          λ k.
              any-append (tagged id k) others (tag_rows id tags)
              ∙ rw
                  (any-select_drops (tagged id k) (λ ct. not (ct.case_id == id)) mid.case_tags
                    (λ ct h. ground arith))
                  (any-tag_rows id k tags),
        ),
        select_others id mid.case_tags tags ∙ ap (select (λ ct. not (ct.case_id == id))) same,
      ),
      ap {A = Db} (λ d. record d { case_tags = others ++ tag_rows id tags }) only,
    )

publish_in_lem :
    (suite : Option TestSuite) (id : ℕ) (db : Db)
    → (db' : Db) × (publish_in suite id db ≡ ok (tt, db'))
      × (db' ≡ record db { events = db'.events })
unfolding publish_case_update
publish_in_lem none id db = (db, refl, refl)
publish_in_lem (some s) id db = (
  record db { events = db.events ++ (project_channel s.project_id, test_case_update id) ∷ [] },
  refl,
  refl,
)

update_own :
    (to_lower : Text → Text) (user_id : Option ℕ) (data' : TestCaseUpdate) (tc : TestCase) (db : Db)
    → IsLower to_lower
    → HasUniqueNames db
    → find? (is_live_case tc.id) db.cases.rows ≡ some tc
    → check_new_suite data'.suite_id db ≡ ok (tt, db)
    → (db' : Db) × (update_test_case to_lower tc.id data' user_id db
        ≡ ok (updated_case data' tc, db'))
      × HasTags to_lower tc.id data'.tags db db'.case_tags
      × (db'.cases ≡ update (λ c. c.id == tc.id) (updated_case data') db.cases)
      × (db'.suites ≡ db.suites)
unfolding get_test_case update_test_case log_action
update_own to_lower user_id data' tc db low uniq found known =
    let tc' = updated_case data' tc in
    let (mid, e, tags, only) = set_tags_lem to_lower tc.id data'.tags db low uniq in
    let saved = record mid { cases = update (λ c. c.id == tc.id) (updated_case data') mid.cases } in
    let suite = find? (λ s. s.id == tc'.suite_id) saved.suites.rows in
    let (told, p, published) = publish_in_lem suite tc'.id saved in
    let same_tags : told.case_tags ≡ mid.case_tags = ap {A = Db} (λ d. d.case_tags) published in
    let same_cases : told.cases ≡ update (λ c. c.id == tc.id) (updated_case data') db.cases =
      ap {A = Db} (λ d. d.cases) published
      ∙ ap {A = Db} (λ d. update (λ c. c.id == tc.id) (updated_case data') d.cases) only in
    let entry : AuditLog = record {
      user_id = user_id;
      action = update_action;
      entity_type = case_entity;
      entity_id = tc.id;
    } in
    (
      record told { audit_logs = told.audit_logs ++ entry ∷ [] },
      rw (found, known, e, p) refl,
      rw same_tags tags,
      same_cases,
      ap {A = Db} (λ d. d.suites) published ∙ ap {A = Db} (λ d. d.suites) only,
    )

pub update_at :
    (to_lower : Text → Text) (id : ℕ) (user_id : Option ℕ) (data' : TestCaseUpdate) (tc : TestCase)
    (db : Db)
    → tc.id ≡ id
    → IsLower to_lower
    → HasUniqueNames db
    → find? (is_live_case id) db.cases.rows ≡ some tc
    → check_new_suite data'.suite_id db ≡ ok (tt, db)
    → (db' : Db) × (update_test_case to_lower id data' user_id db ≡ ok (updated_case data' tc, db'))
      × HasTags to_lower id data'.tags db db'.case_tags
      × (db'.cases ≡ update (λ c. c.id == id) (updated_case data') db.cases)
      × (db'.suites ≡ db.suites)
update_at to_lower id user_id data' tc db same low uniq found known =
    subst
      (λ k.
        find? (is_live_case k) db.cases.rows ≡ some tc
        → (db' : Db) × (update_test_case to_lower k data' user_id db
            ≡ ok (updated_case data' tc, db'))
          × HasTags to_lower k data'.tags db db'.case_tags
          × (db'.cases ≡ update (λ c. c.id == k) (updated_case data') db.cases)
          × (db'.suites ≡ db.suites))
      same (λ f. update_own to_lower user_id data' tc db low uniq f known) found

-- A field takes a value that is given, and keeps its own where none is.
abbrev pub Takes : {A : Type 0} → Option A → A → A → Type 0
Takes none old new = new ≡ old
Takes (some v) old new = new ≡ v

-- The same for a field that may be empty: no value given leaves it.
abbrev pub Fills : {A : Type 0} → Option A → Option A → Option A → Type 0
Fills none old new = new ≡ old
Fills (some v) old new = new ≡ some v

-- A case with an automation id is automated, whatever type is given.
abbrev pub TakesType : Option Text → Option CaseType → CaseType → CaseType → Type 0
TakesType none given old new = Takes given old new
TakesType (some id) given old new = new ≡ automated

-- what becomes of each attribute of a case in an update
abbrev pub IsUpdated : TestCaseUpdate → TestCase → TestCase → Type 0
IsUpdated data' old new =
    (new.id ≡ old.id)
    × Takes data'.suite_id old.suite_id new.suite_id
    × Takes data'.title old.title new.title
    × Fills data'.description old.description new.description
    × Fills data'.preconditions old.preconditions new.preconditions
    × Takes data'.steps old.steps new.steps
    × Takes data'.priority old.priority new.priority
    × TakesType data'.automation_id data'.type old.type new.type
    × Takes data'.status old.status new.status
    × Fills data'.automation_id old.automation_id new.automation_id
    × Takes data'.display_order old.display_order new.display_order
    × (new.created_at ≡ old.created_at)
    × (new.deleted_at ≡ old.deleted_at)

get_or-Takes : {A : Type 0} (given : Option A) (old : A) → Takes given old (get_or given old)
get_or-Takes none old = refl
get_or-Takes (some v) old = refl

or_kept-Fills : (given old : Option Text) → Fills given old (or_kept given old)
or_kept-Fills none old = refl
or_kept-Fills (some v) old = refl

type_of :
    (id : Option Text) (given : Option CaseType) (old : CaseType)
    → TakesType id given old (if is_some id then automated else get_or given old)
type_of none given old = get_or-Takes given old
type_of (some id) given old = refl

updated_case-IsUpdated :
    (data' : TestCaseUpdate) (tc : TestCase) → IsUpdated data' tc (updated_case data' tc)
updated_case-IsUpdated data' tc = (
  refl,
  get_or-Takes data'.suite_id tc.suite_id,
  get_or-Takes data'.title tc.title,
  or_kept-Fills data'.description tc.description,
  or_kept-Fills data'.preconditions tc.preconditions,
  get_or-Takes data'.steps tc.steps,
  get_or-Takes data'.priority tc.priority,
  type_of data'.automation_id data'.type tc.type,
  get_or-Takes data'.status tc.status,
  or_kept-Fills data'.automation_id tc.automation_id,
  get_or-Takes data'.display_order tc.display_order,
  refl,
  refl,
)

-- With the names of the tags kept apart, and where the new suite exists if one is given, the update of
-- a live case returns the case, found from then on, with the given values in the given fields and its
-- own in all others, and automated if an automation id was given. It has the tags of the given names,
-- or the old ones if none were given. Other cases and their tags stay as they were, and so do the
-- suites.
pub update_test_case_lem :
    (to_lower : Text → Text) (id : ℕ) (user_id : Option ℕ) (data' : TestCaseUpdate) (tc : TestCase)
    (db : Db)
    → IsLower to_lower
    → HasUniqueNames db
    → find? (is_live_case id) db.cases.rows ≡ some tc
    → check_new_suite data'.suite_id db ≡ ok (tt, db)
    → (tc' : TestCase) × (db' : Db) × (update_test_case to_lower id data' user_id db
        ≡ ok (tc', db'))
      × IsUpdated data' tc tc'
      × (get_test_case id false db' ≡ ok (tc', db'))
      × HasTags to_lower id data'.tags db db'.case_tags
      × (select (λ c. not (c.id == id)) db'.cases.rows
          ≡ select (λ c. not (c.id == id)) db.cases.rows)
      × (db'.suites ≡ db.suites)
unfolding get_test_case
update_test_case_lem to_lower id user_id data' tc db low uniq found known =
    let same : tc.id ≡ id = ground (arith, find?-some (is_live_case id) db.cases.rows found) in
    let (db', e, tags, cases, suites) =
      update_at to_lower id user_id data' tc db same low uniq found known in
    let moved =
      find?-update_where-some (is_live_case id) (λ c. c.id == id) (updated_case data') db.cases.rows
        (λ c t. refl) found in
    let here : find? (is_live_case id) db'.cases.rows ≡ some (updated_case data' tc) =
      rw cases (ground arith) in
    (
      updated_case data' tc,
      db',
      e,
      updated_case-IsUpdated data' tc,
      rw here refl,
      tags,
      rw cases (
          select-update_where (λ c. not (c.id == id)) (λ c. c.id == id) (updated_case data')
            db.cases.rows (λ c t. (ground arith, ground arith))),
      suites,
    )
