-- ===== src/Import/Matching.antt =====
-- The loop of `import_results` of app/services/result_import_service.py.
use api_testoria.Base.{
  ℕ, ◌+◌, ◌≤◌, ◌≡◌, refl, subst, ◌⊎◌, inl, inr, Bool, true, false, Option, none, some, List, [],
  ◌∷◌, arith, ok, length, count, elem, ◌==◌, if◌then◌else◌, All, All-append, length-append,
  count-append, Result-cases, Option-cases,
}
use api_testoria.Results.{TestResultCreate}
use api_testoria.Import.Parsing.{ParsedCase}
use api_testoria.Import.Index.{Rule, CaseIndex, lookup, identifier}
use api_testoria.Import.{
  Reason, MatchState, verdict, new_item, reject, accept, match_case, match_cases, no_matches,
}

verdict-found :
    (found : Option ℕ × Option Rule × Bool) (in_scope seen : List ℕ) (id : ℕ) (rule : Option Rule)
    → verdict found in_scope seen ≡ inr (id, rule)
    → (elem id in_scope ≡ true) × (elem id seen ≡ false)
verdict-found (case_id, r, true) in_scope seen id rule h = ground arith
verdict-found (none, r, false) in_scope seen id rule h = ground arith
verdict-found (some k, r, false) in_scope seen id rule h = ground arith

new_item-case_id :
    (id : ℕ) (case : ParsedCase) (item : TestResultCreate)
    → new_item id case ≡ some item
    → item.case_id ≡ id
new_item-case_id id case item h = ground arith

sum_cases : {A B : Type 0} (v : A ⊎ B) → ((a : A) × (v ≡ inl a)) ⊎ ((b : B) × (v ≡ inr b))
sum_cases (inl a) = inl (a, refl)
sum_cases (inr b) = inr (b, refl)

-- An entry is rejected, or accepted with a case of the scope that no entry before it had.
match_case-cases :
    (index : CaseIndex) (in_scope : List ℕ) (case : ParsedCase) (m m' : MatchState)
    → match_case index in_scope case m ≡ ok m'
    → ((reason : Reason) × (m' ≡ reject case reason m))
      ⊎ ((id : ℕ) × (rule : Option Rule) × (item : TestResultCreate) × (m' ≡ accept id rule item m)
          × (item.case_id ≡ id)
          × (elem id in_scope ≡ true)
          × (elem id m.seen ≡ false))
unfolding match_case
match_case-cases index in_scope case m m' h =
    let found = lookup (identifier case) case.name index in
    elim (sum_cases (verdict found in_scope m.seen)) [
      | inl (reason, e) ↦ inl (reason, ground arith)
      | inr ((id, rule), e) ↦ elim (Option-cases (new_item id case)) [
        | inl n ↦ absurd (ground arith)
        | inr (item, s) ↦
            let (inside, unseen) = verdict-found found in_scope m.seen id rule e in
            inr (id, rule, item, ground arith, new_item-case_id id case item s, inside, unseen)
      ]
    ]

abbrev pub has_case : ℕ → TestResultCreate → Bool
has_case c item = item.case_id == c

-- What the loop keeps of its lists, after `n` entries.
abbrev IsMatched : List ℕ → ℕ → MatchState → Type 0
IsMatched in_scope n m =
    (length m.items + length m.unmatched ≡ n)
    × All (λ item. elem item.case_id in_scope ≡ true) m.items
    × ((c : ℕ) → count (has_case c) m.items ≤ (if elem c m.seen then 1 else 0))

match_case-IsMatched :
    (index : CaseIndex) (in_scope : List ℕ) (case : ParsedCase) (n : ℕ) (m m' : MatchState)
    → IsMatched in_scope n m
    → match_case index in_scope case m ≡ ok m'
    → IsMatched in_scope (n + 1) m'
match_case-IsMatched index in_scope case n m m' v h =
    elim (match_case-cases index in_scope case m m' h) [
      | inl (reason, e) ↦
          rw e (omega (arith, length-append m.unmatched ((case, reason) ∷ []), v.0), v.1, v.2)
      | inr (id, rule, item, e, same, inside, unseen) ↦
          let next = item ∷ [] in
          rw e (
            omega (arith, length-append m.items next, v.0),
            All-append _ m.items next v.1 (rw same inside, tt),
            λ c. ground (arith, count-append (has_case c) m.items next, v.2 c),
          )
    ]

match_cases-IsMatched :
    (index : CaseIndex) (in_scope : List ℕ) (cases : List ParsedCase) (n : ℕ) (m m' : MatchState)
    → IsMatched in_scope n m
    → match_cases index in_scope cases m ≡ ok m'
    → IsMatched in_scope (n + length cases) m'
match_cases-IsMatched index in_scope [] n m m' v h =
    let same : m ≡ m' = ground arith in
    subst (IsMatched in_scope (n + 0)) same (omega (arith, v.0), v.1, v.2)
match_cases-IsMatched index in_scope (case ∷ rest) n m m' v h =
    elim (Result-cases (match_case index in_scope case m)) [
      | inr (x, e) ↦ absurd (ground arith)
      | inl (mid, e) ↦
          let kept =
            match_cases-IsMatched index in_scope rest (n + 1) mid m'
              (match_case-IsMatched index in_scope case n m mid v e) (ground arith) in
          (omega (arith, kept.0), kept.1, kept.2)
    ]

-- From a report that is read to the end, every entry is either submitted or reported as unmatched;
-- only cases of the run's scope are submitted, and each of them at most once.
pub match_cases_lem :
    (index : CaseIndex) (in_scope : List ℕ) (cases : List ParsedCase) (m : MatchState) (c : ℕ)
    → match_cases index in_scope cases no_matches ≡ ok m
    → (length m.items + length m.unmatched ≡ length cases)
      × All (λ item. elem item.case_id in_scope ≡ true) m.items
      × (count (has_case c) m.items ≤ 1)
match_cases_lem index in_scope cases m c h =
    let v =
      match_cases-IsMatched index in_scope cases 0 no_matches m (refl, tt, λ k. omega arith) h in
    (omega (arith, v.0), v.1, ground (arith, v.2 c))
