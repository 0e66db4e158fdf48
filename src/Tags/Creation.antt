-- ===== src/Tags/Creation.antt =====
-- `create_tag` and `get_or_create_many` of app/services/tag_service.py.
use api_testoria.Base.{
  ℕ, ◌+◌, ◌≡◌, ◌≤◌, refl, sym, ap, ◌∙◌, inl, inr, Bool, true, false, not, ◌&&◌, ◌||◌, none, some,
  List, [], ◌∷◌, ◌++◌, arith, find?, any, count, All, Bool-cases, Option-cases, Text, text_eq,
  text_eq_iff, text_eq_refl, is_empty, ok, find?-append_some, find?-append_none, find?-some,
  count-append, count_of_any, find?-of_count,
}
use api_testoria.Db.{Db, Tag}
use api_testoria.Tags.{
  normalize, has_name, new_tag, get_tag_by_name, or_new_tag, create_tag, create_tags, text_elem,
  get_or_create_many,
}
use api_testoria.Tags.Names.{IsLower, normalize_twice}

-- The unique index on the names.
abbrev pub HasUniqueNames : Db → Type 0
HasUniqueNames db = (name : Text) → count (has_name name) db.tags.rows ≤ 1

-- A tag that is found by a name stays the tag of that name.
abbrev pub Kept : Db → Db → Type 0
Kept db db' =
    (name : Text) (t : Tag)
    → find? (has_name name) db.tags.rows ≡ some t
    → find? (has_name name) db'.tags.rows ≡ some t

has_name-exclusive :
    (name other : Text) (t : Tag)
    → text_eq name other ≡ false
    → has_name other t ≡ true
    → has_name name t ≡ false
has_name-exclusive name other t h e =
    ground (arith, text_eq_iff t.name name, text_eq_iff t.name other, text_eq_iff name other)

-- What one call of `create_tag` leaves.
abbrev pub Resolved : Text → Db → Tag → Db → Type 0
Resolved name db t db' =
    (t.name ≡ name)
    × (find? (has_name name) db'.tags.rows ≡ some t)
    × Kept db db'
    × HasUniqueNames db'
    × (db' ≡ record db { tags = db'.tags })

-- A tag whose name no row has keeps the names apart.
count-fresh :
    (name n : Text) (id : ℕ) (rows : List Tag)
    → find? (has_name name) rows ≡ none
    → count (has_name n) rows ≤ 1
    → count (has_name n) (rows ++ new_tag name id ∷ []) ≤ 1
count-fresh name n id rows none_yet once =
    let sum = count-append (has_name n) rows (new_tag name id ∷ []) in
    elim (Bool-cases (text_eq name n)) [
      | inl e ↦
          let same : name ≡ n = (text_eq_iff name n).0 e in
          let zero_rows : count (has_name n) rows ≡ 0 =
            find?-of_count (has_name n) (has_name name) rows (λ t h. rw same h) none_yet in
          ground (arith, sum)
      | inr e ↦ ground (arith, sum)
    ]

abbrev pub AreFound : List Tag → Db → Type 0
AreFound tags db = All (λ t. find? (has_name t.name) db.tags.rows ≡ some t) tags

module _ (to_lower : Text → Text) where
  create_tag_lem :
      (name : Text) (db : Db)
      → normalize to_lower name ≡ name
      → HasUniqueNames db
      → (t : Tag) × (fresh : Bool) × (db' : Db) × (create_tag to_lower name db
          ≡ ok ((t, fresh), db'))
        × Resolved name db t db'
  unfolding create_tag or_new_tag get_tag_by_name
  create_tag_lem name db norm uniq = elim (Option-cases (find? (has_name name) db.tags.rows)) [
    | inr (t, e) ↦
        let named : t.name ≡ name =
          ground
            (arith, find?-some (has_name name) db.tags.rows {x = t} e, text_eq_iff t.name name) in
        (t, false, db, rw (norm, norm, e) refl, (named, e, (λ n x h. h), uniq, refl))
    | inl e ↦
        let t = new_tag name db.tags.next_id in
        let self = text_eq_refl name in
        (
          t,
          true,
          record db {
            tags = record { rows = db.tags.rows ++ t ∷ []; next_id = db.tags.next_id + 1 };
          },
          rw (norm, norm, e) refl,
          (
            refl,
            find?-append_none (has_name name) db.tags.rows (t ∷ []) e ∙ (rw self refl),
            (λ n x h. find?-append_some (has_name n) db.tags.rows (t ∷ []) h),
            (λ n. count-fresh name n db.tags.next_id db.tags.rows e (uniq n)),
            refl,
          ),
        )
  ]

  abbrev pub is_wanted : List Text → List Text → Text → Bool
  is_wanted seen names name =
      not (is_empty name)
      && (not (text_elem name seen) && any (λ raw. text_eq name (normalize to_lower raw)) names)

  -- What the loop leaves.
  pub record Created (seen names : List Text) (db : Db) (tags : List Tag) (db' : Db) : Type 0 where
    pub listed : (name : Text) → any (has_name name) tags ≡ is_wanted seen names name
    pub distinct : (name : Text) → count (has_name name) tags ≤ 1
    pub found : AreFound tags db'
    pub kept : Kept db db'
    pub apart : HasUniqueNames db'
    pub only : db' ≡ record db { tags = db'.tags }
    pub again :
        (other : Db)
        → AreFound tags other
        → create_tags to_lower seen names other ≡ ok (tags, other)

  -- A name that is empty or seen is not wanted.
  is_wanted-skip :
      (seen rest : List Text) (raw name : Text)
      → (is_empty (normalize to_lower raw) || text_elem (normalize to_lower raw) seen) ≡ true
      → is_wanted seen rest name ≡ is_wanted seen (raw ∷ rest) name
  is_wanted-skip seen rest raw name h = elim (Bool-cases (text_eq name (normalize to_lower raw))) [
    | inr e ↦ rw e refl
    | inl e ↦
        let same : name ≡ normalize to_lower raw =
          (text_eq_iff name (normalize to_lower raw)).0 e in
        let gone : (is_empty name || text_elem name seen) ≡ true = rw same h in ground arith
  ]

  is_wanted-take :
      (seen rest : List Text) (raw name : Text)
      → (is_empty (normalize to_lower raw) || text_elem (normalize to_lower raw) seen) ≡ false
      → (text_eq (normalize to_lower raw) name
          || is_wanted (normalize to_lower raw ∷ seen) rest name)
        ≡ is_wanted seen (raw ∷ rest) name
  is_wanted-take seen rest raw name h = elim (Bool-cases (text_eq name (normalize to_lower raw))) [
    | inr e ↦
        let other : text_eq (normalize to_lower raw) name ≡ false = ground (
          arith,
          text_eq_iff name (normalize to_lower raw),
          text_eq_iff (normalize to_lower raw) name,
        ) in
        rw (e, other) refl
    | inl e ↦
        let same : name ≡ normalize to_lower raw =
          (text_eq_iff name (normalize to_lower raw)).0 e in
        let new : (is_empty name || text_elem name seen) ≡ false = rw same h in
        let self : text_eq (normalize to_lower raw) name ≡ true =
          (text_eq_iff (normalize to_lower raw) name).1 (sym same) in
        ground arith
  ]

  create_tag-found :
      (name : Text) (t : Tag) (db : Db)
      → normalize to_lower name ≡ name
      → find? (has_name name) db.tags.rows ≡ some t
      → create_tag to_lower name db ≡ ok ((t, false), db)
  unfolding create_tag or_new_tag get_tag_by_name
  create_tag-found name t db norm e = rw (norm, norm, e) refl

  -- The tag of a new name is the only one of its name.
  count-new :
      (seen rest : List Text) (name : Text) (t : Tag) (tags : List Tag) (n : Text)
      → t.name ≡ name
      → any (has_name n) tags ≡ is_wanted (name ∷ seen) rest n
      → count (has_name n) tags ≤ 1
      → count (has_name n) (t ∷ tags) ≤ 1
  count-new seen rest name t tags n named listed once = elim (Bool-cases (text_eq n name)) [
    | inl e ↦
        let none_left : any (has_name n) tags ≡ false = ground arith in
        ground (arith, count_of_any (has_name n) tags none_left)
    | inr e ↦
        let other : text_eq t.name n ≡ false =
          ground (arith, text_eq_iff t.name n, text_eq_iff n name) in
        rw other once
  ]

  create_tags_lem :
      (seen names : List Text) (db : Db)
      → IsLower to_lower
      → HasUniqueNames db
      → (tags : List Tag) × (db' : Db) × (create_tags to_lower seen names db ≡ ok (tags, db'))
        × Created seen names db tags db'
  unfolding create_tags
  create_tags_lem seen [] db low uniq = (
    [],
    db,
    refl,
    record {
      listed = λ name. ground arith;
      distinct = λ name. omega arith;
      found = tt;
      kept = λ n t h. h;
      apart = uniq;
      only = refl;
      again = λ other h. refl;
    },
  )
  create_tags_lem seen (raw ∷ rest) db low uniq =
      let name = normalize to_lower raw in
      elim (Bool-cases (is_empty name || text_elem name seen)) [
        | inl skip ↦
            let (tags, db', e, c) = create_tags_lem seen rest db low uniq in
            (
              tags,
              db',
              rw skip e,
              record {
                listed = λ n. c.listed n ∙ is_wanted-skip seen rest raw n skip;
                distinct = c.distinct;
                found = c.found;
                kept = c.kept;
                apart = c.apart;
                only = c.only;
                again = λ other h. rw skip (c.again other h);
              },
            )
        | inr take ↦
            let norm = normalize_twice to_lower raw low in
            let (t, fresh, mid, e, (named, here, kept, apart, only)) =
              create_tag_lem name db norm uniq in
            let (tags, db', e', c) = create_tags_lem (name ∷ seen) rest mid low apart in
            (
              t ∷ tags,
              db',
              rw (take, e, e') refl,
              record {
                listed = λ n. rw (named, c.listed n) (is_wanted-take seen rest raw n take);
                distinct = λ n. count-new seen rest name t tags n named (c.listed n) (c.distinct n);
                found = (rw named (c.kept name t here), c.found);
                kept = λ n x h. c.kept n x (kept n x h);
                apart = c.apart;
                only = c.only ∙ ap {A = Db} (λ d. record d { tags = db'.tags }) only;
                again = λ other h.
                    let first = create_tag-found name t other norm (rw named at h.0) in
                    rw (take, first, c.again other h.1) refl;
              },
            )
      ]

  pub get_or_create_many_lem :
      (names : List Text) (db : Db)
      → IsLower to_lower
      → HasUniqueNames db
      → (tags : List Tag) × (db' : Db) × (get_or_create_many to_lower names db ≡ ok (tags, db'))
        × ((name : Text)
            → any (has_name name) tags
              ≡ (not (is_empty name) && any (λ raw. text_eq name (normalize to_lower raw)) names))
        × ((name : Text) → count (has_name name) tags ≤ 1)
        × Kept db db'
        × HasUniqueNames db'
        × (db' ≡ record db { tags = db'.tags })
        × (get_or_create_many to_lower names db' ≡ ok (tags, db'))
  unfolding get_or_create_many
  get_or_create_many_lem names db low uniq =
      let (tags, db', e, c) = create_tags_lem [] names db low uniq in
      (tags, db', e, c.listed, c.distinct, c.kept, c.apart, c.only, c.again db' c.found)
