-- ===== src/Ci/Importing.antt =====
-- What `import_junit_xml` of app/services/ci_service.py counts and writes.
use api_testoria.Base.{
  ℕ, ◌+◌, ◌≡◌, refl, sym, ap, ◌∙◌, inl, inr, Bool, true, false, Option, none, some, List, [], ◌∷◌,
  arith, ok, select, any, count, length, is_some, get_or, codes, Text, >>=-eq-ok, Option-cases, ◌⊎◌,
  All, subst,
}
use api_testoria.Db.{Db, Table, TestCase}
use api_testoria.Runs.{get_run}
use api_testoria.Results.{submit}
use api_testoria.Results.Invariant.{IsValid}
use api_testoria.Results.Writing.{submit-cases, get_run-reads}
use api_testoria.Results.Submission.{submit_lem}
use api_testoria.Results.Tested.{is_tested, submit-tested}
use api_testoria.Import.Parsing.{Element, Seconds, seconds, negative}
use api_testoria.Ci.{
  Readers, title_of, has_title, one_or_none, checked_time, item_of, submit_element, import_elements,
  import_junit_xml,
}

-- Some live case has the title of the element.
abbrev pub is_matched : Db → Element → Bool
is_matched db e = any (has_title (title_of e)) db.cases.rows

is_any : List TestCase → Bool
is_any [] = false
is_any (c ∷ rows) = true

any-select_some : (q : TestCase → Bool) (rows : List TestCase) → any q rows ≡ is_any (select q rows)
unfolding is_any
any-select_some q [] = refl
any-select_some q (c ∷ rows) = ground (arith, any-select_some q rows)

one_or_none-cases :
    (rows : List TestCase) (case : Option TestCase) (db db' : Db)
    → one_or_none rows db ≡ ok (case, db')
    → (db' ≡ db)
      × (((rows ≡ []) × (case ≡ none)) ⊎ ((c : TestCase) × (rows ≡ c ∷ []) × (case ≡ some c)))
one_or_none-cases [] case db db' h = (ground arith, inl (refl, ground arith))
one_or_none-cases (c ∷ []) case db db' h = (ground arith, inr (c, refl, ground arith))
one_or_none-cases (c ∷ d ∷ rows) case db db' h = absurd (ground arith)

-- The one live case with the title of a matched element has a live result of the user in the run.
abbrev pub IsSubmitted : ℕ → ℕ → List TestCase → Db → Element → Type 0
IsSubmitted run_id user_id rows db' e =
    (any (has_title (title_of e)) rows ≡ false)
    ⊎ ((case : TestCase) × (select (has_title (title_of e)) rows ≡ case ∷ [])
        × (any (is_tested run_id user_id case.id) db'.results.rows ≡ true))

-- the case of an element, if it has one, has been tested
abbrev IsWritten : ℕ → ℕ → Option TestCase → Db → Type 0
IsWritten run_id user_id none db' = Unit
IsWritten run_id user_id (some case) db' =
    any (is_tested run_id user_id case.id) db'.results.rows ≡ true

abbrev IsKept : ℕ → ℕ → Db → Db → Type 0
IsKept run_id user_id db db' =
    (c : ℕ)
    → any (is_tested run_id user_id c) db.results.rows ≡ true
    → any (is_tested run_id user_id c) db'.results.rows ≡ true

-- what a query for one row or none has found
abbrev IsFound : List TestCase → Option TestCase → Type 0
IsFound rows case =
    ((rows ≡ []) × (case ≡ none)) ⊎ ((c : TestCase) × (rows ≡ c ∷ []) × (case ≡ some c))

is_any-is_some :
    {rows : List TestCase} {case : Option TestCase} → IsFound rows case → is_any rows ≡ is_some case
unfolding is_any
is_any-is_some (inl (e, k)) = rw (e, k) refl
is_any-is_some (inr (c, e, k)) = rw (e, k) refl

element-IsSubmitted :
    (run_id user_id : ℕ) (rows : List TestCase) (e : Element) (case : Option TestCase)
    (mid db' : Db)
    → IsFound (select (has_title (title_of e)) rows) case
    → IsWritten run_id user_id case mid
    → IsKept run_id user_id mid db'
    → IsSubmitted run_id user_id rows db' e
unfolding is_any
element-IsSubmitted run_id user_id rows e case mid db' (inl (f, k)) w kept =
    inl (any-select_some (has_title (title_of e)) rows ∙ ap is_any f)
element-IsSubmitted run_id user_id rows e case mid db' (inr (c, f, k)) w kept =
    inr (c, f, kept c.id (subst (λ o. IsWritten run_id user_id o mid) k w))

checked_time-reads :
    (t : Option Seconds) (time : ℕ) (db db' : Db) → checked_time t db ≡ ok (time, db') → db' ≡ db
checked_time-reads none time db db' h = absurd (ground arith)
checked_time-reads (some (seconds n)) time db db' h = ground arith
checked_time-reads (some (negative n)) time db db' h = absurd (ground arith)

submit_element-lem :
    (readers : Readers) (run_id user_id : ℕ) (e : Element) (case : Option TestCase) (done : Bool)
    (db db' : Db)
    → IsValid db.results
    → submit_element readers run_id user_id e case db ≡ ok (done, db')
    → (done ≡ is_some case)
      × (db'.cases ≡ db.cases)
      × IsValid db'.results
      × IsWritten run_id user_id case db'
      × IsKept run_id user_id db db'
submit_element-lem readers run_id user_id e none done db db' v h =
    let same : db' ≡ db = ground arith in
    (ground arith, rw same refl, rw same v, tt, λ c h. rw same h)
submit_element-lem readers run_id user_id e (some case) done db db' v h =
    let raw = readers.read_int (get_or e.time (codes "0")) in
    let (time, d1, h1, k1) = >>=-eq-ok (checked_time raw) _ db h in
    let (tr, d2, h2, k2) = >>=-eq-ok (submit run_id (item_of case.id e time) user_id) _ d1 k1 in
    let same = checked_time-reads raw time db d1 h1 in
    let v1 : IsValid d1.results = rw same v in
    let (found, by_key, status, comment, history, valid) =
      submit_lem run_id user_id (item_of case.id e time) tr d1 d2 v1 h2 in
    let cases = submit-cases run_id user_id (item_of case.id e time) tr d1 d2 h2 in
    let last : db' ≡ d2 = ground (arith, k2) in
    let (tested, kept) = submit-tested run_id user_id (item_of case.id e time) tr d1 d2 h2 in
    (
      ground (arith, k2),
      rw last (cases ∙ ap (λ (d : Db). d.cases) same),
      rw last valid,
      rw last tested,
      λ c told. rw last (kept c (rw same told)),
    )

import_elements-lem :
    (readers : Readers) (run_id user_id : ℕ) (elements : List Element) (start counts : ℕ × ℕ)
    (db db' : Db)
    → IsValid db.results
    → import_elements readers run_id user_id elements start db ≡ ok (counts, db')
    → (counts.0 ≡ start.0 + count (is_matched db) elements)
      × (counts.0 + counts.1 ≡ start.0 + start.1 + length elements)
      × (db'.cases ≡ db.cases)
      × IsValid db'.results
      × All (IsSubmitted run_id user_id db.cases.rows db') elements
      × IsKept run_id user_id db db'
unfolding import_elements
import_elements-lem readers run_id user_id [] start counts db db' v h =
    let same : db' ≡ db = ground arith in
    (ground arith, ground arith, rw same refl, rw same v, tt, λ c told. rw same told)
import_elements-lem readers run_id user_id (e ∷ rest) start counts db db' v h =
    let q = has_title (title_of e) in
    let (case, d1, h1, k1) = >>=-eq-ok (one_or_none (select q db.cases.rows)) _ db h in
    let (done, d2, h2, k2) = >>=-eq-ok (submit_element readers run_id user_id e case) _ d1 k1 in
    let (same, found) = one_or_none-cases (select q db.cases.rows) case db d1 h1 in
    let v1 : IsValid d1.results = rw same v in
    let (told, cases, valid, tested, stays) =
      submit_element-lem readers run_id user_id e case done d1 d2 v1 h2 in
    let (first, all, kept, well, later_ones, still_there) =
      import_elements-lem readers run_id user_id rest _ counts d2 db' valid k2 in
    let still : d2.cases ≡ db.cases = cases ∙ ap (λ (d : Db). d.cases) same in
    let here : is_matched db e ≡ done =
      any-select_some q db.cases.rows ∙ is_any-is_some found ∙ sym told in
    let later : count (is_matched d2) rest ≡ count (is_matched db) rest =
      ap (λ (t : Table TestCase). count (λ x. any (has_title (title_of x)) t.rows) rest) still in
    (
      ground (arith, first, here, later),
      ground (arith, all),
      kept ∙ still,
      well,
      (
        element-IsSubmitted run_id user_id db.cases.rows e case d2 db' found tested still_there,
        subst (λ (t : Table TestCase). All (IsSubmitted run_id user_id t.rows db') rest) still
            later_ones,
      ),
      λ c t. still_there c (stays c (rw same t)),
    )

-- Over a well-formed table of results, an import that returns has read the elements of the file. Of
-- each element with the title of a live case, there is only one such case, and it has a live result
-- in the run that the user tested; as many elements are counted as submitted, and all others as
-- skipped. No case changes, and the table of results stays well formed.
pub import_junit_xml_lem :
    (readers : Readers) (run_id user_id : ℕ) (content : Text) (submitted skipped : ℕ) (db db' : Db)
    → IsValid db.results
    → import_junit_xml readers run_id content user_id db ≡ ok ((submitted, skipped), db')
    → (elements : List Element) × (readers.find_cases content ≡ some elements)
      × (submitted ≡ count (is_matched db) elements)
      × (submitted + skipped ≡ length elements)
      × (db'.cases ≡ db.cases)
      × IsValid db'.results
      × All (IsSubmitted run_id user_id db.cases.rows db') elements
unfolding import_junit_xml
import_junit_xml_lem readers run_id user_id content submitted skipped db db' v h =
    let (run, d1, h1, k1) = >>=-eq-ok (get_run run_id false) _ db h in
    let same = get_run-reads run_id run db d1 h1 in
    let v1 : IsValid d1.results = rw same v in
    elim (Option-cases (readers.find_cases content)) [
      | inl e ↦ absurd (ground (arith, k1))
      | inr (elements, e) ↦
          let told : import_elements readers run_id user_id elements (0, 0) d1
              ≡ ok ((submitted, skipped), db') =
            ground (arith, k1) in
          let (first, all, kept, well, written, stays) =
            import_elements-lem readers run_id user_id elements (0, 0) (submitted, skipped) d1 db'
              v1 told in
          let matched : count (is_matched d1) elements ≡ count (is_matched db) elements =
            ap (λ d. count (is_matched d) elements) same in
          (
            elements,
            e,
            omega (arith, first, matched),
            omega (arith, all),
            kept ∙ ap (λ (d : Db). d.cases) same,
            well,
            subst (λ (d : Db). All (IsSubmitted run_id user_id d.cases.rows db') elements) same
                written,
          )
    ]
