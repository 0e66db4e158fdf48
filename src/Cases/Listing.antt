-- ===== src/Cases/Listing.antt =====
-- `list_test_cases` of app/services/test_case_service.py, with its filters and its order.
use api_testoria.Base.{
  nulls_last, eq_option, ℕ, ◌-◌, ◌*◌, Bool, true, false, ◌&&◌, ◌||◌, Option, none, some, List, [],
  ◌∷◌, ◌++◌, ◌==◌, if◌then◌else◌, is_some, is_none, ltb, leb, length, select, any, elem, sort_by,
  take, Text, text_eq, codes, is_empty, pure, gets, ◌>>=◌, ◌>>◌,
}
use api_testoria.Db.{
  Db, Query, TestCase, Priority, low, medium, high, critical, CaseType, manual, automated,
  CaseStatus,
}
use api_testoria.Runs.{get_project}
use api_testoria.Projects.{drop}
use api_testoria.Cases.{is_live_suite_of}

-- `apply_case_order`
abbrev pub case_before : TestCase → TestCase → Bool
case_before a b =
    nulls_last a.display_order b.display_order
    || eq_option a.display_order b.display_order
      && (ltb a.created_at b.created_at || a.created_at == b.created_at && leb a.id b.id)

abbrev pub priority_eq : Priority → Priority → Bool
priority_eq low low = true
priority_eq medium medium = true
priority_eq high high = true
priority_eq critical critical = true
priority_eq _ _ = false

abbrev pub case_type_eq : CaseType → CaseType → Bool
case_type_eq manual manual = true
case_type_eq automated automated = true
case_type_eq _ _ = false

abbrev case_status_eq : CaseStatus → CaseStatus → Bool
case_status_eq CaseStatus.draft CaseStatus.draft = true
case_status_eq CaseStatus.active CaseStatus.active = true
case_status_eq CaseStatus.deprecated CaseStatus.deprecated = true
case_status_eq _ _ = false

-- `TestCaseListFilters` of schemas/test_case.py
pub record TestCaseListFilters : Type 0 where
  pub search : Option Text
  pub suite_id : Option ℕ
  pub priority : Option Priority
  pub type : Option CaseType
  pub status : Option CaseStatus
  pub tag_ids : Option (List ℕ)
  pub automation_id : Option Text
  pub has_automation_id : Option Bool
  pub page : ℕ
  pub page_size : ℕ

-- `if x is not None: query.where(…)`
abbrev pub if_given : {A : Type 0} → Option A → (A → Bool) → Bool
if_given none p = true
if_given (some a) p = p a

abbrev on_text : Option Text → (Text → Bool) → Bool
on_text none p = false
on_text (some text) p = p text

-- `if filters.search: …`, with PostgreSQL's ILIKE of a text and a pattern
abbrev matches_search : (Text → Text → Bool) → Text → TestCase → Bool
matches_search ilike text c =
    let term = codes "%" ++ (text ++ codes "%") in
    is_empty text || (ilike c.title term || on_text c.description (λ d. ilike d term))

-- `if filters.tag_ids: … EXISTS`
abbrev matches_tags : Db → List ℕ → TestCase → Bool
matches_tags db [] c = true
matches_tags db (id ∷ ids) c =
    any (λ ct. ct.case_id == c.id && elem ct.tag_id (id ∷ ids)) db.case_tags

-- `_build_list_query`
unfoldable pub in_case_list :
    (Text → Text → Bool) → ℕ → TestCaseListFilters → Bool → Db → TestCase → Bool
in_case_list ilike project_id filters include_deleted db c =
    any (is_live_suite_of c.suite_id project_id) db.suites.rows
    && ((include_deleted || is_none c.deleted_at)
        && (if_given filters.search (λ text. matches_search ilike text c)
            && (if_given filters.suite_id (λ id. c.suite_id == id)
                && (if_given filters.priority (λ p. priority_eq c.priority p)
                    && (if_given filters.type (λ t. case_type_eq c.type t)
                        && (if_given filters.status (λ s. case_status_eq c.status s)
                            && (if_given filters.tag_ids (λ ids. matches_tags db ids c)
                                && (if_given filters.automation_id
                                      (λ id. on_text c.automation_id (λ own. text_eq own id))
                                    && if_given filters.has_automation_id (λ has.
                                      if has
                                      then is_some c.automation_id
                                      else is_none c.automation_id)))))))))

-- `list_test_cases`: a page, and the number of all that the filters let pass
unfoldable pub list_test_cases :
    (Text → Text → Bool) → ℕ → TestCaseListFilters → Bool → Query (List TestCase × ℕ)
list_test_cases ilike project_id filters include_deleted = do
  get_project project_id
  rows ←
      gets (λ db. select (in_case_list ilike project_id filters include_deleted db) db.cases.rows)
  pure (
    take filters.page_size
        (drop ((filters.page - 1) * filters.page_size) (sort_by case_before rows)),
    length rows,
  )
