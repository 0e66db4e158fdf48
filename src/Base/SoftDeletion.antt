-- ===== src/Base/SoftDeletion.antt =====
-- `SoftDeleteMixin` of app/models/mixins.py: rows that are deleted by a time stamp, and restored.
use Prim.Native.Nat.{ℕ, ◌≤◌}
use mathlib.Core.Path.{◌≡◌, refl, sym, ap, ◌∙◌}
use mathlib.Core.Logic.{◌⊎◌, inl, inr}
use mathlib.Core.Bool.{Bool, true, false, ◌&&◌}
use mathlib.Core.Option.{Option, none, some}
use mathlib.Core.List.{List, [], ◌∷◌}
use native.Mathlib.Omega.{arith}
use api_testoria.Base.Tests.{◌==◌, is_none, Bool-cases}
use api_testoria.Base.Lists.{find?, count, update_where, All}
use api_testoria.Base.Finding.{
  find?-some, find?-narrower, find?-wider, find?-update_where-some, find?-update_where_gone,
  count_pos_of_find?,
}
use api_testoria.Base.Selecting.{only_one}

-- A table's row: its key, its time of deletion, and the writing of that time.
pub record SoftDelete (A : Type 0) : Type 0 where
  pub key : A → ℕ
  pub deleted : A → Option ℕ
  pub mark : Option ℕ → A → A
  pub key-mark : (d : Option ℕ) (a : A) → key (mark d a) ≡ key a
  pub deleted-mark : (d : Option ℕ) (a : A) → deleted (mark d a) ≡ d
  pub mark_own : (d : Option ℕ) (a : A) → mark (deleted a) (mark d a) ≡ a

module _ {A : Type 0} (soft : SoftDelete A) where
  open soft use {key, deleted, mark, key-mark, deleted-mark, mark_own}

  abbrev pub is_row : ℕ → A → Bool
  is_row id x = key x == id

  abbrev pub is_live : ℕ → A → Bool
  is_live id x = key x == id && is_none (deleted x)

  abbrev pub is_known : ℕ → A → Bool
  is_known id x = key x == id && true

  -- A deleted row is found no more by its key but among the deleted ones, with its time.
  pub find?-deleted :
      (id now : ℕ) (rows : List A) {a : A}
      → count (is_row id) rows ≤ 1
      → find? (is_live id) rows ≡ some a
      → (find? (is_live id) (update_where (is_row id) (mark (some now)) rows) ≡ none)
        × (find? (is_known id) (update_where (is_row id) (mark (some now)) rows)
            ≡ some (mark (some now) a))
  find?-deleted id now rows {a = a} unique found =
      let own = find?-wider (is_live id) (is_row id) rows unique (λ x e. ground arith) found in
      let row = find?-some (is_row id) rows own in
      let known =
        find?-narrower (is_known id) (is_row id) rows (λ x e. ground arith) own (ground arith) in
      let moved =
        find?-update_where-some (is_known id) (is_row id) (mark (some now)) rows
          (λ x e. ground (arith, key-mark (some now) x)) known in
      (
        find?-update_where_gone (is_live id) (is_row id) (mark (some now)) rows
            (λ x e. ground arith)
            (λ x e. ground (arith, key-mark (some now) x, deleted-mark (some now) x)),
        moved ∙ (rw row refl),
      )

  -- Deletion and restoration give back the rows, one by one.
  pub update_where_restored :
      (id now : ℕ) (rows : List A) {a : A}
      → count (is_row id) rows ≤ 1
      → find? (is_live id) rows ≡ some a
      → update_where (is_row id) (mark none) (update_where (is_row id) (mark (some now)) rows)
        ≡ rows
  update_where_restored id now rows {a = a} unique found = each rows (
      only_one (is_row id) (λ x. is_none (deleted x)) rows unique
        (count_pos_of_find? (is_live id) (is_live id) rows found
          (find?-some (is_live id) rows found)))
    where
      back : (x : A) → is_none (deleted x) ≡ true → mark none (mark (some now) x) ≡ x
      back x e =
          let live : deleted x ≡ none = ground arith in
          ap (λ d. mark d (mark (some now) x)) (sym live) ∙ mark_own (some now) x

      each :
          (xs : List A)
          → All (λ x. (is_row id x ≡ false) ⊎ (is_none (deleted x) ≡ true)) xs
          → update_where (is_row id) (mark none) (update_where (is_row id) (mark (some now)) xs)
            ≡ xs
      each [] h = refl
      each (x ∷ xs) h =
          let rest = each xs h.1 in
          let same = key-mark (some now) x in
          elim (Bool-cases (is_row id x)) [ inl e ↦ ground (arith, back x) | inr e ↦ ground arith ]
