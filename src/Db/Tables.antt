-- ===== src/Db/Tables.antt =====
-- A table with its sequence of primary keys.
use api_testoria.Base.{ℕ, ◌+◌, Bool, List, [], ◌∷◌, ◌++◌, update_where}

pub record Table (A : Type 0) : Type 0 where
  pub rows : List A
  pub next_id : ℕ

module _ {A : Type 0} where
  -- `db.add(row)` and `flush`: the row takes the next key of the sequence.
  abbrev pub insert : (ℕ → A) → Table A → Table A
  insert row t = record { rows = t.rows ++ row t.next_id ∷ []; next_id = t.next_id + 1 }

  -- `update(Model).where(p).values(f)`, and an attribute set on an object that a query returned
  abbrev pub update : (A → Bool) → (A → A) → Table A → Table A
  update p f t = record t { rows = update_where p f t.rows }
