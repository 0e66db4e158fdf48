-- ===== src/Import/Report.antt =====
-- The numbers of the report that `import_results` of app/services/result_import_service.py returns.
use api_testoria.Base.{
  ℕ, ◌+◌, ◌≤◌, ◌≡◌, false, Option, [], arith, ok, raised, Result, length, length-take-le, Text,
  List, count, subst, ◌∙◌, >>=-eq-ok,
}
use api_testoria.Db.{Db, TestRun, ResultStatus}
use api_testoria.Runs.{get_run}
use api_testoria.Scope.{case_ids}
use api_testoria.Progress.{sum_counts, get_count}
use api_testoria.Results.Bulk.{submit_many}
use api_testoria.Results.Counting.{is_counted_as, submit_many-counts}
use api_testoria.Results.Writing.{get_run-reads}
use api_testoria.Import.Parsing.{Readers, ParsedCase}
use api_testoria.Import.Index.{index_cases}
use api_testoria.Import.{
  FormatChoice, parse, lift, scope_cases, match_cases, MatchState, no_matches, ResultImportReport,
  import_results,
}
use api_testoria.Import.Matching.{match_cases_lem}

lift-eq-ok :
    {A : Type 0} (r : Result A) (a : A) (db db' : Db)
    → lift r db ≡ ok (a, db')
    → (r ≡ ok a) × (db' ≡ db)
lift-eq-ok (ok b) a db db' h = (ground arith, ground arith)
lift-eq-ok (raised e) a db db' h = absurd (ground arith)

-- An import that returns has parsed the file and matched its entries against the scope of the run, and
-- has submitted what came of the matched ones. In its report, every entry is matched or unmatched,
-- every matched one is submitted, the count of each status is the number of submitted items with it
-- ("skipped" counting as "no_run"), and of the unmatched ones at most 100 are listed.
pub import_results-report :
    (readers : Readers) (run_id user_id : ℕ) (content : Text) (filename : Option Text)
    (fmt : FormatChoice) (report : ResultImportReport) (db db' : Db)
    → import_results readers run_id content user_id filename fmt db ≡ ok (report, db')
    → (run : TestRun) × (parsed : List ParsedCase) × (m : MatchState) × (get_run run_id false db
        ≡ ok (run, db))
      × (parse readers fmt filename content ≡ ok parsed)
      × (match_cases
            (index_cases (scope_cases run db) [])
            (case_ids (scope_cases run db))
            parsed
            no_matches
          ≡ ok m)
      × (submit_many run_id m.items user_id db ≡ ok ((report.submitted, report.status_counts), db'))
      × ((s : ResultStatus)
          → get_count s report.status_counts ≡ count (λ item. is_counted_as s item.status) m.items)
      × (report.total ≡ length parsed)
      × (report.matched + report.unmatched_count ≡ report.total)
      × (report.submitted ≡ report.matched)
      × (sum_counts report.status_counts ≡ report.matched)
      × (length report.unmatched_cases ≤ 100)
unfolding import_results
import_results-report readers run_id user_id content filename fmt report db db' h =
    let (run, d1, h1, k1) = >>=-eq-ok (get_run run_id false) _ db h in
    let (parsed, d2, h2, k2) = >>=-eq-ok (lift (parse readers fmt filename content)) _ d1 k1 in
    let cases = scope_cases run d2 in
    let (m, d3, h3, k3) =
      >>=-eq-ok (lift (match_cases (index_cases cases []) (case_ids cases) parsed no_matches)) _ d2
        k2 in
    let (done, d4, h4, k4) = >>=-eq-ok (submit_many run_id m.items user_id) _ d3 k3 in
    let matched =
      match_cases_lem (index_cases cases []) (case_ids cases) parsed m 0
        (lift-eq-ok _ m d2 d3 h3).0 in
    let counted = submit_many-counts run_id user_id m.items done.0 done.1 d3 d4 h4 in
    let few = length-take-le 100 m.unmatched in
    let (parses, same2) = lift-eq-ok (parse readers fmt filename content) parsed d1 d2 h2 in
    let (matches, same3) = lift-eq-ok _ m d2 d3 h3 in
    let same1 = get_run-reads run_id run db d1 h1 in
    let at2 : d2 ≡ db = same2 ∙ same1 in
    (
      run,
      parsed,
      m,
      subst (λ d. get_run run_id false db ≡ ok (run, d)) same1 h1,
      parses,
      subst
          (λ d.
            match_cases (index_cases (scope_cases run d) []) (case_ids (scope_cases run d)) parsed
              no_matches
            ≡ ok m)
          at2 matches,
      subst (λ d. submit_many run_id m.items user_id d ≡ ok (done, d4)) (same3 ∙ at2) h4
          ∙ ground (arith, k4),
      λ s. ground (arith, k4, counted.2 s),
      ground arith,
      ground arith,
      ground arith,
      ground arith,
      ground arith,
    )
