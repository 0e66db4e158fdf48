-- ===== src/Defects.antt =====
-- app/services/defect_service.py: an issue in a tracker, and its reference in the defects of a result.
-- The trackers are a parameter, from a request to what comes of it. A call answers what it posted too,
-- since a rollback of the database takes no issue back.
pub mod Outcomes
use api_testoria.Base.{
  ℕ, Bool, true, false, Option, none, some, List, [], ◌∷◌, ◌++◌, ◌==◌, if◌then◌else◌, find?, get_or,
  Text, codes, HttpError, not_found, value_error, unprocessable, bad_gateway, Result, ok, raised,
  Action, pure, gets, or_raise, modify, ◌>>=◌, ◌>>◌,
}
use api_testoria.Db.{Db, Query, TestResult, update}
use api_testoria.Import.Parsing.{Value, null, string, other, get, str, map_result}

-- `DefectResponse` of schemas/defect.py
pub record DefectResponse : Type 0 where
  pub tracker : Text
  pub key : Text
  pub url : Text
  pub summary : Text

-- The dictionary `ref`: the key and the address are the values that the tracker answered with.
pub record Reference : Type 0 where
  pub tracker : Text
  pub key : Value
  pub url : Value
  pub summary : Text

-- `_get_result`, which finds deleted results too
unfoldable pub get_any_result : ℕ → Query TestResult
get_any_result id = do
  found ← gets (λ db. find? (λ r. r.id == id) db.results.rows)
  or_raise found not_found

abbrev pub with_defect : Text → TestResult → TestResult
with_defect ref r = record r { defects = some (get_or r.defects [] ++ ref ∷ []) }

-- `_append_defect`; `to_json` is the JSON value of a reference
unfoldable pub append_defect : (Reference → Text) → ℕ → Reference → Query (Unit {0})
append_defect to_json result_id ref = do
  tr ← get_any_result result_id
  modify (λ db. record db {
    results = update (λ r. r.id == tr.id) (with_defect (to_json ref)) db.results;
  })

-- What comes of a POST: a JSON answer, an HTTPStatusError with its status, or a RequestError.
pub data Answer : Type 0 where
  created : List (Text × Value) → Answer
  refused : ℕ → Answer
  unreachable : Answer

-- `_handle_tracker_error`
abbrev pub tracker_error : ℕ → HttpError
tracker_error status =
    if status == 401 then unprocessable else if status == 404 then unprocessable else bad_gateway

-- a POST: the URL, the entries of the JSON body (Jira's stand inside `fields`), and the credentials
pub record Request : Type 0 where
  pub address : Text
  pub body : List (Text × Text)
  pub credentials : List Text

-- `issue[key]`, where a missing key raises KeyError
abbrev pub value_at : Text → List (Text × Value) → Result Value
value_at key issue = elim (get key issue) [ none ↦ raised value_error | some v ↦ ok v ]

-- `str(issue[key])`
abbrev pub str_at : Text → List (Text × Value) → Result Value
str_at key issue = map_result (λ v. ok (string (str v))) (value_at key issue)

abbrev pub reference : Text → Text → Result Value → Result Value → Result Reference
reference tracker summary key url =
    map_result
      (λ k.
        map_result (λ u. ok (record { tracker = tracker; key = k; url = u; summary = summary }))
          url)
      key

-- a field of type `str`, which any other value fails
abbrev pub text_of : Value → Result Text
text_of (string s) = ok s
text_of null = raised value_error
text_of (other s b) = raised value_error

-- `DefectResponse(**ref)`
unfoldable pub respond : Reference → Result DefectResponse
respond ref =
    map_result
      (λ k.
        map_result
          (λ u. ok (record { tracker = ref.tracker; key = k; url = u; summary = ref.summary }))
          (text_of ref.url))
      (text_of ref.key)

abbrev pub answer_with : Result DefectResponse → Query DefectResponse
answer_with (ok response) db = ok (response, db)
answer_with (raised e) db = raised e

-- The end of the three functions: the reference is appended before the answer is made of it.
abbrev pub link : (Reference → Text) → ℕ → Result Reference → Query DefectResponse
link to_json result_id (raised e) db = raised e
link to_json result_id (ok ref) db =
    (append_defect to_json result_id ref >> answer_with (respond ref)) db

-- the `try: … except …` and what follows it
abbrev pub after_answer :
    (Reference → Text)
    → ℕ
    → (List (Text × Value) → Result Reference)
    → Answer
    → Query DefectResponse
after_answer to_json result_id read (created issue) = link to_json result_id (read issue)
after_answer to_json result_id read (refused status) = λ db. raised (tracker_error status)
after_answer to_json result_id read unreachable = λ db. raised bad_gateway

-- What is posted, and how the call ends.
abbrev pub post_and_link :
    (Request → Answer)
    → (Reference → Text)
    → ℕ
    → Request
    → (List (Text × Value) → Result Reference)
    → Db
    → List Request × Result (DefectResponse × Db)
post_and_link trackers to_json result_id request read db =
    (request ∷ [], after_answer to_json result_id read (trackers request) db)

-- schemas/defect.py
pub record JiraDefectCreate : Type 0 where
  pub test_result_id : ℕ
  pub jira_url : Text
  pub jira_username : Text
  pub jira_api_token : Text
  pub project_key : Text
  pub summary : Text
  pub description : Text

pub record GitHubDefectCreate : Type 0 where
  pub test_result_id : ℕ
  pub repo_owner : Text
  pub repo_name : Text
  pub token : Text
  pub title : Text
  pub body : Text

pub record GitLabDefectCreate : Type 0 where
  pub test_result_id : ℕ
  pub gitlab_url : Text
  pub project_id : Text  -- an int, in decimal
  pub token : Text
  pub title : Text
  pub description : Text

abbrev pub jira_request : JiraDefectCreate → Request
jira_request data' = record {
  address = data'.jira_url ++ codes "/rest/api/2/issue";
  body =
      (codes "project", data'.project_key)
      ∷ (codes "summary", data'.summary)
      ∷ (codes "description", data'.description)
      ∷ (codes "issuetype", codes "Bug")
      ∷ [];
  credentials = data'.jira_username ∷ data'.jira_api_token ∷ [];
}

abbrev pub read_jira : JiraDefectCreate → List (Text × Value) → Result Reference
read_jira data' issue =
    reference (codes "jira") data'.summary (value_at (codes "key") issue)
      (value_at (codes "self") issue)

-- `create_jira`
unfoldable pub create_jira :
    (Request → Answer)
    → (Reference → Text)
    → JiraDefectCreate
    → Db
    → List Request × Result (DefectResponse × Db)
create_jira trackers to_json data' =
    post_and_link trackers to_json data'.test_result_id (jira_request data') (read_jira data')

abbrev pub github_request : GitHubDefectCreate → Request
github_request data' = record {
  address =
      codes "https://api.github.com/repos/"
      ++ data'.repo_owner
      ++ codes "/"
      ++ data'.repo_name
      ++ codes "/issues";
  body = (codes "title", data'.title) ∷ (codes "body", data'.body) ∷ [];
  credentials = (codes "token " ++ data'.token) ∷ [];
}

abbrev pub read_github : GitHubDefectCreate → List (Text × Value) → Result Reference
read_github data' issue =
    reference (codes "github") data'.title (str_at (codes "number") issue)
      (value_at (codes "html_url") issue)

-- `create_github`
unfoldable pub create_github :
    (Request → Answer)
    → (Reference → Text)
    → GitHubDefectCreate
    → Db
    → List Request × Result (DefectResponse × Db)
create_github trackers to_json data' =
    post_and_link trackers to_json data'.test_result_id (github_request data') (read_github data')

abbrev pub gitlab_request : GitLabDefectCreate → Request
gitlab_request data' = record {
  address = data'.gitlab_url ++ codes "/api/v4/projects/" ++ data'.project_id ++ codes "/issues";
  body = (codes "title", data'.title) ∷ (codes "description", data'.description) ∷ [];
  credentials = data'.token ∷ [];
}

abbrev pub read_gitlab : GitLabDefectCreate → List (Text × Value) → Result Reference
read_gitlab data' issue =
    reference (codes "gitlab") data'.title (str_at (codes "iid") issue)
      (value_at (codes "web_url") issue)

-- `create_gitlab`
unfoldable pub create_gitlab :
    (Request → Answer)
    → (Reference → Text)
    → GitLabDefectCreate
    → Db
    → List Request × Result (DefectResponse × Db)
create_gitlab trackers to_json data' =
    post_and_link trackers to_json data'.test_result_id (gitlab_request data') (read_gitlab data')
