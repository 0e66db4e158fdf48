-- ===== src/Base/Finding.antt =====
-- What a query for one row finds, in a table and after a change of it.
use Prim.Native.Nat.{◌≤◌, ◌<◌}
use mathlib.Core.Path.{◌≡◌, refl}
use mathlib.Core.Bool.{Bool, true, false}
use mathlib.Core.Option.{none, some}
use mathlib.Core.List.{List, [], ◌∷◌, ◌++◌}
use native.Mathlib.Omega.{arith}
use api_testoria.Base.Tests.{if◌then◌else◌}
use api_testoria.Base.Lists.{find?, any, count, update_where}

module _ {ℓ} {A : Type ℓ} where
  pub find?-some : (p : A → Bool) (xs : List A) {x : A} → find? p xs ≡ some x → p x ≡ true
  find?-some p [] h = cc
  find?-some p (y ∷ ys) {x = x} h = ground (arith, find?-some p ys {x = x})

  pub find?-append :
      (p : A → Bool) (xs ys : List A) → any p xs ≡ false → find? p (xs ++ ys) ≡ find? p ys
  find?-append p [] ys h = refl
  find?-append p (x ∷ xs) ys h = ground (arith, find?-append p xs ys)

  pub count_pos_of_find? :
      (p q : A → Bool) (xs : List A) {x : A} → find? q xs ≡ some x → p x ≡ true → 0 < count p xs
  count_pos_of_find? p q [] h e = cc
  count_pos_of_find? p q (y ∷ ys) {x = x} h e = ground (arith, count_pos_of_find? p q ys {x = x})

  -- A row that a query finds, where another query on a unique key finds its row, is that row if
  -- it fits the key.
  pub find?-unique :
      (p q : A → Bool) (xs : List A) {x y : A}
      → count p xs ≤ 1
      → find? p xs ≡ some x
      → find? q xs ≡ some y
      → p y ≡ true
      → y ≡ x
  find?-unique p q [] c hx hy e = cc
  find?-unique p q (z ∷ zs) {x = x} {y = y} c hx hy e =
      ground (arith, find?-unique p q zs {x = x} {y = y}, count_pos_of_find? p q zs {x = y})

  pub find?-append_none :
      (p : A → Bool) (xs ys : List A) → find? p xs ≡ none → find? p (xs ++ ys) ≡ find? p ys
  find?-append_none p [] ys h = refl
  find?-append_none p (x ∷ xs) ys h = ground (arith, find?-append_none p xs ys)

  pub find?-append_some :
      (p : A → Bool) (xs ys : List A) {x : A} → find? p xs ≡ some x → find? p (xs ++ ys) ≡ some x
  find?-append_some p [] ys h = cc
  find?-append_some p (x ∷ xs) ys {x = y} h = ground (arith, find?-append_some p xs ys {x = y})

  -- A row that some query finds is what a query on a unique key of it finds.
  pub find?-by_key :
      (p q : A → Bool) (xs : List A) {x : A}
      → count p xs ≤ 1
      → find? q xs ≡ some x
      → p x ≡ true
      → find? p xs ≡ some x
  find?-by_key p q [] c h e = cc
  find?-by_key p q (y ∷ ys) {x = x} c h e =
      ground (arith, find?-by_key p q ys {x = x}, count_pos_of_find? p q ys {x = x})

  pub find?-update_where-some :
      (q p : A → Bool) (f : A → A) (xs : List A) {x : A}
      → ((x : A) → p x ≡ true → q (f x) ≡ q x)
      → find? q xs ≡ some x
      → find? q (update_where p f xs) ≡ some (if p x then f x else x)
  find?-update_where-some q p f [] keep h = cc
  find?-update_where-some q p f (y ∷ ys) {x = x} keep h =
      ground (arith, keep y, find?-update_where-some q p f ys {x = x} keep)

  pub find?-update_where-none :
      (q p : A → Bool) (f : A → A) (xs : List A)
      → ((x : A) → p x ≡ true → q (f x) ≡ q x)
      → find? q xs ≡ none
      → find? q (update_where p f xs) ≡ none
  find?-update_where-none q p f [] keep h = refl
  find?-update_where-none q p f (y ∷ ys) keep h =
      ground (arith, keep y, find?-update_where-none q p f ys keep)

  pub find?-of_count :
      (p q : A → Bool) (xs : List A)
      → ((x : A) → p x ≡ true → q x ≡ true)
      → find? q xs ≡ none
      → count p xs ≡ 0
  find?-of_count p q [] h e = refl
  find?-of_count p q (x ∷ xs) h e = ground (arith, h x, find?-of_count p q xs h)

  -- The first row of a query is the first row of a narrower one that it fits.
  pub find?-narrower :
      (p q : A → Bool) (xs : List A) {x : A}
      → ((y : A) → p y ≡ true → q y ≡ true)
      → find? q xs ≡ some x
      → p x ≡ true
      → find? p xs ≡ some x
  find?-narrower p q [] h e f = cc
  find?-narrower p q (y ∷ ys) {x = x} h e f = ground (arith, h y, find?-narrower p q ys {x = x} h)

  -- Where a key is unique, what a narrower query finds is what the key finds.
  pub find?-wider :
      (p q : A → Bool) (xs : List A) {x : A}
      → count q xs ≤ 1
      → ((y : A) → p y ≡ true → q y ≡ true)
      → find? p xs ≡ some x
      → find? q xs ≡ some x
  find?-wider p q [] c h e = cc
  find?-wider p q (y ∷ ys) {x = x} c h e = ground (
    arith,
    h y,
    h x,
    find?-wider p q ys {x = x},
    count_pos_of_find? q p ys {x = x},
    find?-some p ys {x = x},
  )

  pub find?-update_where_gone :
      (q p : A → Bool) (f : A → A) (xs : List A)
      → ((y : A) → q y ≡ true → p y ≡ true)
      → ((y : A) → p y ≡ true → q (f y) ≡ false)
      → find? q (update_where p f xs) ≡ none
  find?-update_where_gone q p f [] h k = refl
  find?-update_where_gone q p f (x ∷ xs) h k =
      ground (arith, h x, k x, find?-update_where_gone q p f xs h k)

  pub find?-of_count_zero : (p : A → Bool) (xs : List A) → count p xs ≡ 0 → find? p xs ≡ none
  find?-of_count_zero p [] h = refl
  find?-of_count_zero p (x ∷ xs) h = ground (arith, find?-of_count_zero p xs)
