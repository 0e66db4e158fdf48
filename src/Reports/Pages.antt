-- ===== src/Reports/Pages.antt =====
-- The pages of `run_custom_report`, app/services/report_service.py.
use api_testoria.Base.{
  ℕ, zero, suc, ◌+◌, ◌-◌, ◌*◌, ◌≤◌, ◌<◌, ◌≡◌, refl, sym, ap, ◌∙◌, List, [], ◌∷◌, ◌++◌, arith, leb,
  length, sort_by, take, ok, pure, ◌>>=◌, length-sort_by,
}
use api_testoria.Db.{Db, Query, Project}
use api_testoria.Runs.{get_project}
use api_testoria.Projects.{drop}
use api_testoria.Reports.Custom.{
  page_of, CustomReportRequest, CustomReportRow, CustomReportResponse, custom_rows, page_count,
  run_custom_report,
}

-- The reader's loop: the given number of pages, from the page of the request on.
abbrev pub read_pages : ℕ → CustomReportRequest → Query (List CustomReportRow)
read_pages zero f = pure []
read_pages (suc n) f = do
  response ← run_custom_report f
  rest ← read_pages n (record f { page = f.page + 1 })
  pure (response.items ++ rest)

take-drop : {A : Type 0} (n : ℕ) (xs : List A) → take n xs ++ drop n xs ≡ xs
take-drop zero xs = refl
take-drop (suc n) [] = refl
take-drop (suc n) (x ∷ xs) = ap (λ l. x ∷ l) (take-drop n xs)

drop-nil : {A : Type 0} (n : ℕ) → drop {A = A} n [] ≡ []
drop-nil zero = refl
drop-nil (suc n) = refl

drop_twice : {A : Type 0} (m n : ℕ) (xs : List A) → drop n (drop m xs) ≡ drop (m + n) xs
drop_twice zero n xs = ap (λ k. drop k xs) (omega arith)
drop_twice (suc m) n [] = drop-nil n ∙ sym (drop-nil (suc m + n))
drop_twice (suc m) n (x ∷ xs) =
    let step : suc m + n ≡ suc (m + n) = omega arith in rw step (drop_twice m n xs)

drop-all : {A : Type 0} (n : ℕ) (xs : List A) → length xs ≤ n → drop n xs ≡ []
drop-all zero [] h = refl
drop-all zero (x ∷ xs) h = absurd (omega arith)
drop-all (suc n) [] h = refl
drop-all (suc n) (x ∷ xs) h = drop-all n xs (omega arith)

-- Pages of a list, one after the other.
chunks : {A : Type 0} → ℕ → ℕ → ℕ → List A → List A
chunks zero k size xs = []
chunks (suc n) k size xs = take size (drop (k * size) xs) ++ chunks n (k + 1) size xs

chunks_all :
    {A : Type 0} (n k size : ℕ) (xs : List A)
    → length xs ≤ (k + n) * size
    → chunks n k size xs ≡ drop (k * size) xs
unfolding chunks
chunks_all zero k size xs h = sym (drop-all (k * size) xs (grind arith))
chunks_all (suc n) k size xs h =
    let rest = chunks_all n (k + 1) size xs (grind arith) in
    let next : drop ((k + 1) * size) xs ≡ drop size (drop (k * size) xs) =
      ap (λ m. drop m xs) (grind arith) ∙ sym (drop_twice (k * size) size xs) in
    ap (λ l. take size (drop (k * size) xs) ++ l) (rest ∙ next)
    ∙ take-drop size (drop (k * size) xs)

pages_enough : (total size : ℕ) → 0 < size → total ≤ page_count total size * size
unfolding page_count
pages_enough total size h = grind arith

read_pages-chunks :
    (n k : ℕ) (f : CustomReportRequest) (p : Project) (db : Db)
    → get_project f.project_id db ≡ ok (p, db)
    → read_pages n (record f { page = k + 1 }) db
      ≡ ok (
        chunks n k f.page_size (sort_by (λ a b. leb b.tested_at a.tested_at) (custom_rows f db)),
        db,
      )
unfolding chunks run_custom_report custom_rows
read_pages-chunks zero k f p db h = refl
read_pages-chunks (suc n) k f p db h =
    let back : k + 1 - 1 ≡ k = omega arith in
    rw (h, read_pages-chunks n (k + 1) f p db h, back) refl

-- The first page of a report is answered, and reading as many pages as that response says gives
-- every row of the query once, the newest first, for any page size but zero; rows of one time are
-- taken to come in the same order for each page.
pub run_custom_report-pages :
    (f : CustomReportRequest) (p : Project) (db : Db)
    → get_project f.project_id db ≡ ok (p, db)
    → 0 < f.page_size
    → (response : CustomReportResponse) × (run_custom_report (record f { page = 1 }) db
        ≡ ok (response, db))
      × (read_pages response.pages (record f { page = 1 }) db
          ≡ ok (sort_by (λ a b. leb b.tested_at a.tested_at) (custom_rows f db), db))
unfolding run_custom_report custom_rows
run_custom_report-pages f p db h size =
    let before = λ (a b : CustomReportRow). leb b.tested_at a.tested_at in
    let n = page_count (length (custom_rows f db)) f.page_size in
    let enough : length (sort_by before (custom_rows f db)) ≤ (0 + n) * f.page_size = ground (
      arith,
      length-sort_by before (custom_rows f db),
      pages_enough (length (custom_rows f db)) f.page_size size,
    ) in
    let start : 0 * f.page_size ≡ 0 = omega arith in
    (
      record {
        items = page_of 1 f.page_size (custom_rows f db);
        total = length (custom_rows f db);
        page = 1;
        page_size = f.page_size;
        pages = n;
      },
      rw h refl,
      read_pages-chunks n 0 f p db h
          ∙ ap (λ rows. ok (rows, db))
              (chunks_all n 0 f.page_size (sort_by before (custom_rows f db)) enough
                ∙ ap (λ k. drop k (sort_by before (custom_rows f db))) start),
    )
