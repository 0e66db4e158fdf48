-- ===== src/Reports/Buckets.antt =====
-- `_aggregate_run_status_counts` of app/services/report_service.py.
use api_testoria.Base.{
  ℕ, ◌+◌, ◌≤◌, ◌≡◌, refl, ap, ◌∙◌, inl, inr, Bool, true, false, ◌&&◌, List, [], ◌∷◌, arith, ◌==◌,
  if◌then◌else◌, is_none, select, count, any, elem, Bool-cases, All-intro,
}
use api_testoria.Db.{Db, TestResult, ResultStatus, passed, failed, blocked, no_run, skipped}
use api_testoria.Progress.{result_status_eq, with_status}
use api_testoria.Statistics.Grouping.{count-agree}
use api_testoria.Reports.Groups.{
  is_group, group_count, sum_of, one_group, group_count-group_results, sum_of-group_results,
}
use api_testoria.Reports.{
  Bucket, empty_bucket, Groups, group_results, put_count, put_in, put_all, empty_buckets,
  aggregate_run_status_counts, bucket_of,
}

-- One column of a bucket.
abbrev column : ResultStatus → Bucket → ℕ
column passed b = b.passed_count
column failed b = b.failed_count
column blocked b = b.blocked_count
column no_run b = b.no_run_count
column skipped b = 0

-- What the loop leaves in a column: the last group of the run and status, or what was there.
last_count : ℕ → ResultStatus → Groups → ℕ → ℕ
last_count id st [] acc = acc
last_count id st ((k, (s, n)) ∷ rest) acc =
    last_count id st rest (if k == id && result_status_eq s st then n else acc)

last_count-none :
    (id : ℕ) (st : ResultStatus) (g : Groups) (acc : ℕ)
    → count (is_group id st) g ≡ 0
    → last_count id st g acc ≡ acc
unfolding last_count
last_count-none id st [] acc h = refl
last_count-none id st ((k, (s, n)) ∷ g) acc h = ground (arith, last_count-none id st g acc)

last_count-first :
    (id : ℕ) (st : ResultStatus) (g : Groups)
    → count (is_group id st) g ≤ 1
    → last_count id st g 0 ≡ group_count id st g
unfolding last_count group_count
last_count-first id st [] h = refl
last_count-first id st ((k, (s, n)) ∷ g) h =
    ground (arith, last_count-none id st g n, last_count-first id st g)

-- The dictionary has the run.
abbrev has_bucket : ℕ → List (ℕ × Bucket) → Bool
has_bucket id counts = any (λ e. e.0 == id) counts

has_bucket-put_in :
    (id k : ℕ) (s : ResultStatus) (n : ℕ) (counts : List (ℕ × Bucket))
    → has_bucket id (put_in k s n counts) ≡ has_bucket id counts
has_bucket-put_in id k s n [] = refl
has_bucket-put_in id k s n ((j, b) ∷ counts) = ground (arith, has_bucket-put_in id k s n counts)

bucket_of-put_in :
    (id k : ℕ) (s : ResultStatus) (n : ℕ) (counts : List (ℕ × Bucket))
    → has_bucket id counts ≡ true
    → bucket_of id (put_in k s n counts)
      ≡ (if k == id then put_count s n (bucket_of id counts) else bucket_of id counts)
bucket_of-put_in id k s n [] h = cc
bucket_of-put_in id k s n ((j, b) ∷ counts) h = ground (arith, bucket_of-put_in id k s n counts)

column-put_count :
    (st s : ResultStatus) (n : ℕ) (b : Bucket)
    → result_status_eq st skipped ≡ false
    → column st (put_count s n b) ≡ (if result_status_eq s st then n else column st b)
column-put_count passed s n b h =
    elim s
      as (λ k.
        column passed (put_count k n b)
        ≡ (if result_status_eq k passed then n else column passed b)) [
          | passed ↦ refl
          | failed ↦ refl
          | blocked ↦ refl
          | no_run ↦ refl
          | skipped ↦ refl
        ]
column-put_count failed s n b h =
    elim s
      as (λ k.
        column failed (put_count k n b)
        ≡ (if result_status_eq k failed then n else column failed b)) [
          | passed ↦ refl
          | failed ↦ refl
          | blocked ↦ refl
          | no_run ↦ refl
          | skipped ↦ refl
        ]
column-put_count blocked s n b h =
    elim s
      as (λ k.
        column blocked (put_count k n b)
        ≡ (if result_status_eq k blocked then n else column blocked b)) [
          | passed ↦ refl
          | failed ↦ refl
          | blocked ↦ refl
          | no_run ↦ refl
          | skipped ↦ refl
        ]
column-put_count no_run s n b h =
    elim s
      as (λ k.
        column no_run (put_count k n b)
        ≡ (if result_status_eq k no_run then n else column no_run b)) [
          | passed ↦ refl
          | failed ↦ refl
          | blocked ↦ refl
          | no_run ↦ refl
          | skipped ↦ refl
        ]
column-put_count skipped s n b h = cc

total-put_count : (s : ResultStatus) (n : ℕ) (b : Bucket) → (put_count s n b).total ≡ b.total + n
total-put_count passed n b = refl
total-put_count failed n b = refl
total-put_count blocked n b = refl
total-put_count no_run n b = refl
total-put_count skipped n b = refl

column-put_all :
    (id : ℕ) (st : ResultStatus) (g : Groups) (counts : List (ℕ × Bucket))
    → result_status_eq st skipped ≡ false
    → has_bucket id counts ≡ true
    → column st (bucket_of id (put_all g counts))
      ≡ last_count id st g (column st (bucket_of id counts))
unfolding put_all last_count
column-put_all id st [] counts k h = refl
column-put_all id st ((j, (s, n)) ∷ g) counts k h =
    let there : has_bucket id (put_in j s n counts) ≡ true =
      has_bucket-put_in id j s n counts ∙ h in
    let next : column st (bucket_of id (put_in j s n counts))
        ≡ (if j == id && result_status_eq s st then n else column st (bucket_of id counts)) =
      elim (Bool-cases (j == id)) [
        | inl e ↦
            rw (bucket_of-put_in id j s n counts h, e)
              (column-put_count st s n (bucket_of id counts) k)
        | inr e ↦ rw (bucket_of-put_in id j s n counts h, e) refl
      ] in
    column-put_all id st g (put_in j s n counts) k there ∙ ap (last_count id st g) next

total-put_all :
    (id : ℕ) (g : Groups) (counts : List (ℕ × Bucket))
    → has_bucket id counts ≡ true
    → (bucket_of id (put_all g counts)).total ≡ (bucket_of id counts).total + sum_of id g
unfolding put_all sum_of
total-put_all id [] counts h = omega arith
total-put_all id ((j, (s, n)) ∷ g) counts h = ground (
  arith,
  has_bucket-put_in id j s n counts,
  bucket_of-put_in id j s n counts h,
  total-put_count s n (bucket_of id counts),
  total-put_all id g (put_in j s n counts),
)

empty-empty_buckets : (id : ℕ) (ids : List ℕ) → bucket_of id (empty_buckets ids) ≡ empty_bucket
empty-empty_buckets id [] = refl
empty-empty_buckets id (k ∷ ids) = ground (arith, empty-empty_buckets id ids)

has_bucket-empty_buckets : (id : ℕ) (ids : List ℕ) → has_bucket id (empty_buckets ids) ≡ elem id ids
has_bucket-empty_buckets id [] = refl
has_bucket-empty_buckets id (k ∷ ids) = ground (arith, has_bucket-empty_buckets id ids)

-- Of the results that the query selects, those of a run of the request are the live ones of the run.
requested :
    (p : TestResult → Bool) (id : ℕ) (ids : List ℕ) (rows : List TestResult)
    → elem id ids ≡ true
    → count
        (λ r. r.run_id == id && p r)
        (select (λ r. elem r.run_id ids && is_none r.deleted_at) rows)
      ≡ count (λ r. r.run_id == id && (p r && is_none r.deleted_at)) rows
requested p id ids [] h = refl
requested p id ids (r ∷ rows) h = elim (Bool-cases (r.run_id == id)) [
  | inl e ↦
      let same : r.run_id ≡ id = ground arith in
      let asked : elem r.run_id ids ≡ true = rw same h in ground (arith, requested p id ids rows h)
  | inr e ↦ ground (arith, requested p id ids rows h)
]

empty_column : (st : ResultStatus) → column st empty_bucket ≡ 0
empty_column passed = refl
empty_column failed = refl
empty_column blocked = refl
empty_column no_run = refl
empty_column skipped = refl

column-aggregate :
    (st : ResultStatus) (id : ℕ) (ids : List ℕ) (db : Db)
    → result_status_eq st skipped ≡ false
    → elem id ids ≡ true
    → column st (bucket_of id (aggregate_run_status_counts ids db))
      ≡ count (λ r. r.run_id == id && (with_status st r && is_none r.deleted_at)) db.results.rows
unfolding aggregate_run_status_counts
column-aggregate st id ids db k h =
    let rows =
      select (λ (r : TestResult). elem r.run_id ids && is_none r.deleted_at) db.results.rows in
    let start : column st (bucket_of id (empty_buckets ids)) ≡ 0 =
      ap (column st) (empty-empty_buckets id ids) ∙ empty_column st in
    column-put_all id st (group_results rows) (empty_buckets ids) k
      (has_bucket-empty_buckets id ids ∙ h)
    ∙ ap (last_count id st (group_results rows)) start
    ∙ last_count-first id st (group_results rows) (one_group id st rows)
    ∙ group_count-group_results id st rows
    ∙ requested (with_status st) id ids db.results.rows h

total-aggregate :
    (id : ℕ) (ids : List ℕ) (db : Db)
    → elem id ids ≡ true
    → (bucket_of id (aggregate_run_status_counts ids db)).total
      ≡ count (λ r. r.run_id == id && is_none r.deleted_at) db.results.rows
unfolding aggregate_run_status_counts
total-aggregate id ids db h =
    let rows =
      select (λ (r : TestResult). elem r.run_id ids && is_none r.deleted_at) db.results.rows in
    let start : (bucket_of id (empty_buckets ids)).total ≡ 0 =
      ap (λ b. b.total) (empty-empty_buckets id ids) in
    let of_run : count (λ r. r.run_id == id) rows
        ≡ count (λ (r : TestResult). r.run_id == id && true) rows =
      count-agree _ _ rows (All-intro _ (λ r. ground arith) rows) in
    let live = requested (λ r. true) id ids db.results.rows h in
    omega (
      arith,
      total-put_all id (group_results rows) (empty_buckets ids)
          (has_bucket-empty_buckets id ids ∙ h),
      start,
      sum_of-group_results id rows,
      of_run,
      live,
    )

-- The dictionary has for each run of the request how many live results the run has of each status
-- that it keeps, and of any; so all are zero for a run without results.
pub aggregate_run_status_counts_lem :
    (id : ℕ) (ids : List ℕ) (db : Db)
    → elem id ids ≡ true
    → let b = bucket_of id (aggregate_run_status_counts ids db) in
      let having = λ (st : ResultStatus).
        count (λ r. r.run_id == id && (with_status st r && is_none r.deleted_at)) db.results.rows in
      (b.passed_count ≡ having passed)
      × (b.failed_count ≡ having failed)
      × (b.blocked_count ≡ having blocked)
      × (b.no_run_count ≡ having no_run)
      × (b.total ≡ count (λ r. r.run_id == id && is_none r.deleted_at) db.results.rows)
aggregate_run_status_counts_lem id ids db h = (
  column-aggregate passed id ids db refl h,
  column-aggregate failed id ids db refl h,
  column-aggregate blocked id ids db refl h,
  column-aggregate no_run id ids db refl h,
  total-aggregate id ids db h,
)
