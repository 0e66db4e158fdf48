-- ===== src/Tags.antt =====
-- app/services/tag_service.py: tags by their normalised names. A unique index keeps the names apart;
-- only another transaction that adds the name between the query and the flush can violate it, and the
-- branch of `create_tag` for that is left out. `str.lower` is a parameter, `to_lower`.
pub mod Names
pub mod Creation
use api_testoria.Base.{
  ℕ, Bool, true, false, not, ◌&&◌, ◌||◌, Option, none, some, List, [], ◌∷◌, ◌++◌, ◌==◌,
  if◌then◌else◌, find?, select, take, sort_by, Text, text_eq, is_empty, strip, codes, pure, gets,
  ◌>>=◌, ◌>>◌, modify,
}
use api_testoria.Db.{Db, Query, Tag, insert}

-- `_normalize`
unfoldable pub normalize : (Text → Text) → Text → Text
normalize to_lower name = to_lower (strip name)

-- `list_tags`; `before` is the order of texts by the database's collation
unfoldable pub list_tags : (Text → Text → Bool) → ℕ → Query (List Tag)
list_tags before limit =
    gets (λ db. take limit (sort_by (λ a b. before a.name b.name) db.tags.rows))

-- `s.replace("%", "").replace("_", "")`
abbrev without_wildcards : Text → Text
without_wildcards q = select (λ c. not (c == 95)) (select (λ c. not (c == 37)) q)

-- `search_tags`; `ilike` is PostgreSQL's, of a text and a pattern
unfoldable pub search_tags :
    (Text → Text) → (Text → Text → Bool) → (Text → Text → Bool) → Text → ℕ → Query (List Tag)
search_tags to_lower before ilike q limit = gets (λ db. take limit (
    sort_by (λ a b. before a.name b.name)
      (select (λ t. ilike t.name (without_wildcards (normalize to_lower q) ++ codes "%"))
        db.tags.rows)))

abbrev pub has_name : Text → Tag → Bool
has_name name t = text_eq t.name name

-- `get_tag_by_name`
unfoldable pub get_tag_by_name : (Text → Text) → Text → Query (Option Tag)
get_tag_by_name to_lower name = gets (λ db. find? (has_name (normalize to_lower name)) db.tags.rows)

abbrev pub new_tag : Text → ℕ → Tag
new_tag name id = record { id = id; name = name }

-- the `if existing is not None … else …` of `create_tag`
unfoldable pub or_new_tag : Text → Option Tag → Query (Tag × Bool)
or_new_tag name (some tag) = pure (tag, false)
or_new_tag name none = do
  id ← gets (λ db. db.tags.next_id)
  modify (λ db. record db { tags = insert (new_tag name) db.tags })
  pure (new_tag name id, true)

-- `create_tag`: the tag, and whether it is new
unfoldable pub create_tag : (Text → Text) → Text → Query (Tag × Bool)
create_tag to_lower name = do
  existing ← get_tag_by_name to_lower (normalize to_lower name)
  or_new_tag (normalize to_lower name) existing

-- `x in seen`, on texts
abbrev pub text_elem : Text → List Text → Bool
text_elem x [] = false
text_elem x (y ∷ ys) = text_eq x y || text_elem x ys

-- the loop of `get_or_create_many`, from the names seen so far
unfoldable pub create_tags : (Text → Text) → List Text → List Text → Query (List Tag)
create_tags to_lower seen [] = pure []
create_tags to_lower seen (raw ∷ rest) =
    let name = normalize to_lower raw in
    let others = create_tags to_lower (name ∷ seen) rest in
    let skipped = create_tags to_lower seen rest in
    if is_empty name || text_elem name seen
    then skipped
    else do created ← create_tag to_lower name; tags ← others; pure (created.0 ∷ tags)

-- `get_or_create_many`; without names the loop makes no round
unfoldable pub get_or_create_many : (Text → Text) → List Text → Query (List Tag)
get_or_create_many to_lower names = create_tags to_lower [] names
