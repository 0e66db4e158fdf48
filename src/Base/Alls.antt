-- ===== src/Base/Alls.antt =====
-- Predicates on every row of a table.
use Prim.Native.Nat.{ℕ, zero, suc}
use mathlib.Core.Path.{◌≡◌, subst}
use mathlib.Core.Logic.{◌⊎◌, inl, inr}
use mathlib.Core.Bool.{Bool, true, false}
use mathlib.Core.Option.{some}
use mathlib.Core.List.{List, [], ◌∷◌, ◌++◌, map}
use native.Mathlib.Omega.{arith}
use api_testoria.Base.Tests.{if◌then◌else◌, Bool-cases}
use api_testoria.Base.Lists.{select, find?, update_where, insert_by, sort_by, take, All}

module _ {ℓ κ} {A : Type ℓ} (P : A → Type κ) where
  pub All-take : (n : ℕ) (xs : List A) → All P xs → All P (take n xs)
  All-take zero xs h = tt
  All-take (suc n) [] h = tt
  All-take (suc n) (x ∷ xs) h = (h.0, All-take n xs h.1)

  pub All-select : (p : A → Bool) (xs : List A) → ((x : A) → p x ≡ true → P x) → All P (select p xs)
  All-select p [] h = tt
  All-select p (x ∷ xs) h = elim (Bool-cases (p x)) [
    | inl e ↦ rw e (h x e, All-select p xs h)
    | inr e ↦ rw e (All-select p xs h)
  ]

  All-insert_by :
      (before : A → A → Bool) (x : A) (xs : List A) → P x → All P xs → All P (insert_by before x xs)
  All-insert_by before x [] h k = (h, tt)
  All-insert_by before x (y ∷ ys) h k = elim (Bool-cases (before x y)) [
    | inl e ↦ rw e (h, k)
    | inr e ↦ rw e (k.0, All-insert_by before x ys h k.1)
  ]

  pub All-sort_by : (before : A → A → Bool) (xs : List A) → All P xs → All P (sort_by before xs)
  All-sort_by before [] h = tt
  All-sort_by before (x ∷ xs) h =
      All-insert_by before x (sort_by before xs) h.0 (All-sort_by before xs h.1)

  pub All-map : {B : Type ℓ} (f : B → A) (xs : List B) → All (λ x. P (f x)) xs → All P (map f xs)
  All-map f [] h = tt
  All-map f (x ∷ xs) h = (h.0, All-map f xs h.1)

  pub All-mono : (Q : A → Type κ) (xs : List A) → ((x : A) → Q x → P x) → All Q xs → All P xs
  All-mono Q [] f h = tt
  All-mono Q (x ∷ xs) f h = (f x h.0, All-mono Q xs f h.1)

  pub All-select_of : (p : A → Bool) (xs : List A) → All P xs → All P (select p xs)
  All-select_of p [] h = tt
  All-select_of p (x ∷ xs) h = elim (Bool-cases (p x)) [
    | inl e ↦ rw e (h.0, All-select_of p xs h.1)
    | inr e ↦ rw e (All-select_of p xs h.1)
  ]

  pub All-append : (xs ys : List A) → All P xs → All P ys → All P (xs ++ ys)
  All-append [] ys hx hy = hy
  All-append (x ∷ xs) ys hx hy = (hx.0, All-append xs ys hx.1 hy)

  -- What the query finds is one of the rows.
  pub find?-All : (p : A → Bool) (xs : List A) {x : A} → All P xs → find? p xs ≡ some x → P x
  find?-All p [] h e = cc
  find?-All p (y ∷ ys) {x = x} h e = elim (Bool-cases (p y)) [
    | inl t ↦ let same : y ≡ x = ground arith in subst P same h.0
    | inr f ↦ find?-All p ys {x = x} h.1 (ground arith)
  ]

  -- An update that makes `P` hold where it applies, on rows that satisfy `P` where it does not.
  pub All-update_where_set :
      (p : A → Bool) (f : A → A) (xs : List A)
      → ((x : A) → p x ≡ true → P (f x))
      → ((x : A) → p x ≡ false → P x)
      → All P (update_where p f xs)
  All-update_where_set p f [] h k = tt
  All-update_where_set p f (x ∷ xs) h k = elim (Bool-cases (p x)) [
    | inl e ↦ rw e (h x e, All-update_where_set p f xs h k)
    | inr e ↦ rw e (k x e, All-update_where_set p f xs h k)
  ]

  pub All-intro : ((x : A) → P x) → (xs : List A) → All P xs
  All-intro h [] = tt
  All-intro h (x ∷ xs) = (h x, All-intro h xs)

  -- From what held of the rows before an update to what holds after it.
  pub All-update_where_from :
      {Q : A → Type κ} (p : A → Bool) (f : A → A) (xs : List A)
      → ((x : A) → p x ≡ true → Q x → P (f x))
      → ((x : A) → p x ≡ false → Q x → P x)
      → All Q xs
      → All P (update_where p f xs)
  All-update_where_from p f [] h k q = tt
  All-update_where_from p f (x ∷ xs) h k q = elim (Bool-cases (p x)) [
    | inl e ↦ rw e (h x e q.0, All-update_where_from p f xs h k q.1)
    | inr e ↦ rw e (k x e q.0, All-update_where_from p f xs h k q.1)
  ]

  pub All-update_where :
      (p : A → Bool) (f : A → A) (xs : List A)
      → ((x : A) → p x ≡ true → P x → P (f x))
      → All P xs
      → All P (update_where p f xs)
  All-update_where p f [] keep h = tt
  All-update_where p f (x ∷ xs) keep h = (head (Bool-cases (p x)), All-update_where p f xs keep h.1)
    where
      head : (p x ≡ true) ⊎ (p x ≡ false) → P (if p x then f x else x)
      head (inl e) = rw e (keep x e h.0)
      head (inr e) = rw e h.0

  pub All-both :
      {Q R : A → Type κ} (xs : List A)
      → All Q xs
      → All R xs
      → ((x : A) → Q x → R x → P x)
      → All P xs
  All-both [] q r f = tt
  All-both (x ∷ xs) q r f = (f x q.0 r.0, All-both xs q.1 r.1 f)

module _ {ℓ κ} {A : Type ℓ} where
  -- What holds of each row at every key holds of it at its own.
  pub All-at :
      (P : ℕ → A → Type κ) (key : A → ℕ) (xs : List A)
      → ((k : ℕ) → All (P k) xs)
      → All (λ x. P (key x) x) xs
  All-at P key [] h = tt
  All-at P key (x ∷ xs) h = ((h (key x)).0, All-at P key xs (λ k. (h k).1))
