-- ===== src/Base/Selecting.antt =====
-- Which rows a query has, in a table and after a change of it.
use Prim.Native.Nat.{ℕ, zero, suc, ◌≤◌}
use mathlib.Core.Path.{◌≡◌, refl}
use mathlib.Core.Logic.{◌⊎◌, inl, inr}
use mathlib.Core.Bool.{Bool, true, false, ◌||◌, ◌&&◌}
use mathlib.Core.List.{List, [], ◌∷◌, ◌++◌}
use native.Mathlib.Omega.{arith}
use api_testoria.Base.Tests.{if◌then◌else◌, Bool-cases}
use api_testoria.Base.Lists.{
  length, select, any, count, update_where, insert_by, sort_by, take, All,
}
use api_testoria.Base.Counting.{count_mono}

module _ {ℓ} {A : Type ℓ} where
  -- An update that applies to no row changes nothing.
  pub update_where_idle :
      (p : A → Bool) (f : A → A) (xs : List A) → count p xs ≡ 0 → update_where p f xs ≡ xs
  update_where_idle p f [] h = refl
  update_where_idle p f (x ∷ xs) h = ground (arith, update_where_idle p f xs)

  pub none_of_count : (p : A → Bool) (xs : List A) → count p xs ≡ 0 → All (λ x. p x ≡ false) xs
  none_of_count p [] h = tt
  none_of_count p (x ∷ xs) h = (ground arith, none_of_count p xs (ground arith))

  -- Where a key fits one row at most, a row that fits it and passes a test is the only one that
  -- fits it, so each row that fits the key passes the test.
  pub only_one :
      (p q : A → Bool) (xs : List A)
      → count p xs ≤ 1
      → 1 ≤ count (λ x. p x && q x) xs
      → All (λ x. (p x ≡ false) ⊎ (q x ≡ true)) xs
  only_one p q [] c h = tt
  only_one p q (x ∷ xs) c h = elim (Bool-cases (p x)) [
    | inr e ↦ (inl e, only_one p q xs (ground arith) (ground arith))
    | inl e ↦
        let rest : count p xs ≡ 0 = ground arith in
        let none_left = none_of_count p xs rest in
        (
          ground (arith, count_mono (λ y. p y && q y) p xs (λ y t. ground arith)),
          weaken xs none_left,
        )
  ]
    where
      weaken :
          (ys : List A) → All (λ y. p y ≡ false) ys → All (λ y. (p y ≡ false) ⊎ (q y ≡ true)) ys
      weaken [] k = tt
      weaken (y ∷ ys) k = (inl k.0, weaken ys k.1)

  pub take-all : (n : ℕ) (xs : List A) → length xs ≤ n → take n xs ≡ xs
  take-all zero [] h = refl
  take-all zero (x ∷ xs) h = absurd (omega arith)
  take-all (suc n) [] h = refl
  take-all (suc n) (x ∷ xs) h = rw (take-all n xs (omega arith))

  any-insert_by :
      (p : A → Bool) (before : A → A → Bool) (x : A) (xs : List A)
      → any p (insert_by before x xs) ≡ any p (x ∷ xs)
  any-insert_by p before x [] = refl
  any-insert_by p before x (y ∷ ys) = ground (arith, any-insert_by p before x ys)

  pub any-sort_by :
      (p : A → Bool) (before : A → A → Bool) (xs : List A) → any p (sort_by before xs) ≡ any p xs
  any-sort_by p before [] = refl
  any-sort_by p before (x ∷ xs) =
      ground (arith, any-insert_by p before x (sort_by before xs), any-sort_by p before xs)

  -- An update of rows outside a selection, to rows outside it, leaves the selection alone.
  pub select-update_where :
      (q p : A → Bool) (f : A → A) (xs : List A)
      → ((x : A) → p x ≡ true → (q x ≡ false) × (q (f x) ≡ false))
      → select q (update_where p f xs) ≡ select q xs
  select-update_where q p f [] h = refl
  select-update_where q p f (x ∷ xs) h = ground (arith, h x, select-update_where q p f xs h)

  pub any-append : (p : A → Bool) (xs ys : List A) → any p (xs ++ ys) ≡ (any p xs || any p ys)
  any-append p [] ys = refl
  any-append p (x ∷ xs) ys = ground (arith, any-append p xs ys)

  -- A selection loses no row that a query finds, if the query asks for what was selected.
  pub any-select_keeps :
      (p q : A → Bool) (xs : List A)
      → ((x : A) → p x ≡ true → q x ≡ true)
      → any p (select q xs) ≡ any p xs
  any-select_keeps p q [] h = refl
  any-select_keeps p q (x ∷ xs) h = ground (arith, h x, any-select_keeps p q xs h)

  pub any-select_drops :
      (p q : A → Bool) (xs : List A)
      → ((x : A) → q x ≡ true → p x ≡ false)
      → any p (select q xs) ≡ false
  any-select_drops p q [] h = refl
  any-select_drops p q (x ∷ xs) h = ground (arith, h x, any-select_drops p q xs h)

  pub any-select : (p q : A → Bool) (xs : List A) → any p (select q xs) ≡ any (λ x. p x && q x) xs
  any-select p q [] = refl
  any-select p q (x ∷ xs) = ground (arith, any-select p q xs)

  pub any_mono :
      (p q : A → Bool) (xs : List A)
      → ((x : A) → p x ≡ true → q x ≡ true)
      → any p xs ≡ true
      → any q xs ≡ true
  any_mono p q [] h e = e
  any_mono p q (x ∷ xs) h e = ground (arith, h x, any_mono p q xs h)

  pub any-update_where :
      (q p : A → Bool) (f : A → A) (xs : List A)
      → any q (update_where p f xs) ≡ any (λ x. q (if p x then f x else x)) xs
  any-update_where q p f [] = refl
  any-update_where q p f (x ∷ xs) = ground (arith, any-update_where q p f xs)

  pub any-update_where_kept :
      (q p : A → Bool) (f : A → A) (xs : List A)
      → ((x : A) → p x ≡ true → q (f x) ≡ q x)
      → any q (update_where p f xs) ≡ any q xs
  any-update_where_kept q p f [] h = refl
  any-update_where_kept q p f (x ∷ xs) h = ground (arith, h x, any-update_where_kept q p f xs h)

  pub select-append_outside :
      (p : A → Bool) (xs : List A) (y : A) → p y ≡ false → select p (xs ++ y ∷ []) ≡ select p xs
  select-append_outside p [] y h = ground arith
  select-append_outside p (x ∷ xs) y h = ground (arith, select-append_outside p xs y h)

  -- An update of rows that are outside a selection, before and after.
  pub select-update_where_outside :
      (q p : A → Bool) (f : A → A) (xs : List A)
      → All (λ x. (p x ≡ false) ⊎ (q x ≡ false)) xs
      → ((x : A) → q x ≡ false → q (f x) ≡ false)
      → select q (update_where p f xs) ≡ select q xs
  select-update_where_outside q p f [] h k = refl
  select-update_where_outside q p f (x ∷ xs) h k =
      ground (arith, h.0, k x, select-update_where_outside q p f xs h.1 k)

  pub length-select-le : (p : A → Bool) (xs : List A) → length (select p xs) ≤ length xs
  length-select-le p [] = omega arith
  length-select-le p (x ∷ xs) = ground (arith, length-select-le p xs)
