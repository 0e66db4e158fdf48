-- ===== src/Defects/Outcomes.antt =====
-- How the calls of app/services/defect_service.py end.
use api_testoria.Base.{
  ℕ, ◌≡◌, refl, ap, ◌⊎◌, inl, inr, not, none, some, List, [], ◌∷◌, arith, ok, raised, not_found,
  Text, Result, ◌==◌, select, find?, find?-some, find?-update_where-some, select-update_where,
  Option-cases, ◌++◌, get_or,
}
use api_testoria.Db.{Db, TestResult, update}
use api_testoria.Import.Parsing.{Value}
use api_testoria.Defects.{
  DefectResponse, Reference, respond, answer_with, with_defect, get_any_result, append_defect, link,
  Answer, created, Request, JiraDefectCreate, GitHubDefectCreate, GitLabDefectCreate, jira_request,
  read_jira, create_jira, github_request, read_github, create_github, gitlab_request, read_gitlab,
  create_gitlab,
}

-- One of the three calls.
pub data Call : Type 0 where
  jira : JiraDefectCreate → Call
  github : GitHubDefectCreate → Call
  gitlab : GitLabDefectCreate → Call

abbrev pub make :
    (Request → Answer)
    → (Reference → Text)
    → Call
    → Db
    → List Request × Result (DefectResponse × Db)
make trackers to_json (jira data') = create_jira trackers to_json data'
make trackers to_json (github data') = create_github trackers to_json data'
make trackers to_json (gitlab data') = create_gitlab trackers to_json data'

abbrev pub request_of : Call → Request
request_of (jira data') = jira_request data'
request_of (github data') = github_request data'
request_of (gitlab data') = gitlab_request data'

abbrev pub read_by : Call → List (Text × Value) → Result Reference
read_by (jira data') = read_jira data'
read_by (github data') = read_github data'
read_by (gitlab data') = read_gitlab data'

abbrev pub result_id_of : Call → ℕ
result_id_of (jira data') = data'.test_result_id
result_id_of (github data') = data'.test_result_id
result_id_of (gitlab data') = data'.test_result_id

-- The reference is with the result `tr`, after its other defects; all else of the results is as before.
abbrev pub IsLinked : (Reference → Text) → ℕ → Reference → TestResult → Db → Db → Type 0
IsLinked to_json id ref tr db db' =
    (find? (λ r. r.id == id) db'.results.rows
      ≡ some (record tr { defects = some (get_or tr.defects [] ++ to_json ref ∷ []) }))
    × (select (λ r. not (r.id == id)) db'.results.rows
        ≡ select (λ r. not (r.id == id)) db.results.rows)

link-outcomes :
    (to_json : Reference → Text) (id : ℕ) (ref : Reference) (response : DefectResponse) (db : Db)
    → respond ref ≡ ok response
    → ((find? (λ r. r.id == id) db.results.rows ≡ none)
        × (link to_json id (ok ref) db ≡ raised not_found))
      ⊎ ((tr : TestResult) × (db' : Db) × (find? (λ r. r.id == id) db.results.rows ≡ some tr)
          × (link to_json id (ok ref) db ≡ ok (response, db'))
          × IsLinked to_json id ref tr db db')
unfolding append_defect get_any_result
link-outcomes to_json id ref response db r =
    elim (Option-cases (find? (λ (r : TestResult). r.id == id) db.results.rows)) [
      | inl e ↦ inl (e, rw e refl)
      | inr (tr, e) ↦
          let own = λ (r : TestResult). r.id == id in
          let hit = λ (r : TestResult). r.id == tr.id in
          let same : tr.id ≡ id = ground (arith, find?-some own db.results.rows e) in
          let moved =
            find?-update_where-some own hit (with_defect (to_json ref)) db.results.rows
              (λ r t. refl) e in
          let others =
            select-update_where (λ r. not (r.id == id)) hit (with_defect (to_json ref))
              db.results.rows (λ r t. (ground arith, ground arith)) in
          inr (
            tr,
            record db { results = update hit (with_defect (to_json ref)) db.results },
            e,
            rw e (
                ap
                  (λ a.
                    answer_with a
                      (record db { results = update hit (with_defect (to_json ref)) db.results }))
                  r),
            (ground arith, others),
          )
    ]

-- Where the tracker has created an issue with a reference that can be answered, the call has posted
-- one request, whichever tracker it is for. If a result has the id, deleted or not, the call answers
-- the reference, and the result has it after its other defects and is otherwise as it was, like all
-- other results. If none has, the call raises all the same, and the issue stays in the tracker with
-- no result that refers to it.
pub make-outcomes :
    (trackers : Request → Answer) (to_json : Reference → Text) (call : Call)
    (issue : List (Text × Value)) (ref : Reference) (response : DefectResponse) (db : Db)
    → trackers (request_of call) ≡ created issue
    → read_by call issue ≡ ok ref
    → respond ref ≡ ok response
    → let (posted, answer) = make trackers to_json call db in
      (posted ≡ request_of call ∷ [])
      × (((find? (λ r. r.id == result_id_of call) db.results.rows ≡ none)
            × (answer ≡ raised not_found))
          ⊎ ((tr : TestResult) × (db' : Db) × (find?
                  (λ r. r.id == result_id_of call)
                  db.results.rows
                ≡ some tr)
              × (answer ≡ ok (response, db'))
              × IsLinked to_json (result_id_of call) ref tr db db'))
unfolding create_jira create_github create_gitlab
make-outcomes trackers to_json (jira data') issue ref response db h k r =
    (refl, rw (h, k) (link-outcomes to_json data'.test_result_id ref response db r))
make-outcomes trackers to_json (github data') issue ref response db h k r =
    (refl, rw (h, k) (link-outcomes to_json data'.test_result_id ref response db r))
make-outcomes trackers to_json (gitlab data') issue ref response db h k r =
    (refl, rw (h, k) (link-outcomes to_json data'.test_result_id ref response db r))
