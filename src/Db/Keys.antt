-- ===== src/Db/Keys.antt =====
-- The primary keys of a table.
use api_testoria.Base.{
  ℕ, ◌+◌, ◌≤◌, ◌<◌, ◌≡◌, refl, Bool, List, [], ◌∷◌, arith, count, ◌==◌, All, All-append,
  All-update_where, count-append, count-update_where,
}
use api_testoria.Db.Tables.{Table, insert, update}

module _ {A : Type 0} (key : A → ℕ) where
  -- The keys are below the next one, and no two rows have the same.
  abbrev pub HasKeys : Table A → Type 0
  HasKeys t = All (λ r. key r < t.next_id) t.rows × ((k : ℕ) → count (λ r. key r == k) t.rows ≤ 1)

  count_of_fresh :
      (n : ℕ) (rows : List A) → All (λ r. key r < n) rows → count (λ r. key r == n) rows ≡ 0
  count_of_fresh n [] h = refl
  count_of_fresh n (r ∷ rows) h = ground (arith, h.0, count_of_fresh n rows h.1)

  raise_bound : (n : ℕ) (rows : List A) → All (λ r. key r < n) rows → All (λ r. key r < n + 1) rows
  raise_bound n [] h = tt
  raise_bound n (r ∷ rows) h = (omega (arith, h.0), raise_bound n rows h.1)

  pub insert-HasKeys :
      (row : ℕ → A) (t : Table A)
      → key (row t.next_id) ≡ t.next_id
      → HasKeys t
      → HasKeys (insert row t)
  insert-HasKeys row t same h =
      let next = row t.next_id ∷ [] in
      (
        All-append _ t.rows next (raise_bound t.next_id t.rows h.0) (omega (arith, same), tt),
        λ k. ground (
          arith,
          same,
          count_of_fresh t.next_id t.rows h.0,
          h.1 k,
          count-append (λ r. key r == k) t.rows next,
        ),
      )

  pub update-HasKeys :
      (p : A → Bool) (f : A → A) (t : Table A)
      → ((x : A) → key (f x) ≡ key x)
      → HasKeys t
      → HasKeys (update p f t)
  update-HasKeys p f t same h = (
    All-update_where _ p f t.rows (λ r e b. ground (arith, same r)) h.0,
    λ k.
        rw (count-update_where (λ r. key r == k) p f t.rows (λ r e. ground (arith, same r)))
          (h.1 k),
  )
