-- ===== src/Auth/ApiKeys.antt =====
-- app/services/api_key_service.py. `sha256` stands for `hash_api_key`, which calls `hashlib`; the
-- settings are those of app/config.py that the service reads.
pub mod Minting
pub mod Resolving
pub mod Revoking
use api_testoria.Base.{
  ℕ, ◌+◌, ◌-◌, ◌*◌, Bool, true, false, not, ◌&&◌, Option, none, some, List, ltb, leb, ◌==◌,
  if◌then◌else◌, is_some, is_none, select, find?, any, sort_by, Text, text_eq, Result, ok, raised,
  not_found, forbidden, bad_request, value_error, integrity_error, pure, raise, gets, or_raise,
  ◌>>=◌, ◌>>◌, raise_if, when, modify,
}
use api_testoria.Db.{Db, Query, User, ApiKey, insert, update}
use api_testoria.Auth.Roles.{
  UserRole, no_access, lead, admin, role_value, hierarchy, role_eq, user_role, rank,
}
use api_testoria.Auth.Secrets.{full_key, split_api_key}

-- API_KEY_MAX_ROLE, API_KEY_DEFAULT_TTL_DAYS, API_KEY_LAST_USED_THROTTLE_SECONDS
pub record Settings : Type 0 where
  pub max_role : Text
  pub default_ttl_days : ℕ
  pub last_used_throttle_seconds : ℕ

-- schemas/api_key.py
pub record ApiKeyCreate : Type 0 where
  pub name : Text
  pub project_id : Option ℕ
  pub role : UserRole
  pub expires_in_days : Option ℕ
  pub never_expires : Bool
  pub user_id : Option ℕ

-- the two random texts that `generate_api_key` draws
pub record Drawn : Type 0 where
  pub key_prefix : Text
  pub secret : Text

abbrev pub is_live_user : ℕ → User → Bool
is_live_user id u = u.id == id && is_none u.deleted_at

-- `_get_owner`
abbrev pub get_owner : ℕ → Query User
get_owner id = do
  found ← gets (λ db. find? (is_live_user id) db.users.rows)
  or_raise found not_found

-- The owner that `mint` settles on: the first statements of its body.
unfoldable pub key_owner : User → Option ℕ → Query User
key_owner actor none = pure actor
key_owner actor (some id) = if id == actor.id then pure actor else do
  raise_if (ltb (rank actor.role) (hierarchy lead)) forbidden
  owner ← get_owner id
  raise_if (ltb (rank actor.role) (rank owner.role)) forbidden
  pure owner

abbrev check_project : Option ℕ → Query (Unit {0})
check_project none = pure tt
check_project (some id) = do
  found ← gets (λ db. find? (λ p. p.id == id && is_none p.deleted_at) db.projects.rows)
  project ← or_raise found not_found
  pure tt

-- `data.expires_in_days or settings.API_KEY_DEFAULT_TTL_DAYS`
abbrev ttl_days : Option ℕ → ℕ → ℕ
ttl_days none default = default
ttl_days (some days) default = if days == 0 then default else days

abbrev seconds_per_day : ℕ
seconds_per_day = 86400

-- `expires_at`, at the time `now`
unfoldable pub expiry : Settings → ApiKeyCreate → ℕ → Option ℕ
expiry st data' now =
    if data'.never_expires
    then none
    else some (now + ttl_days data'.expires_in_days st.default_ttl_days * seconds_per_day)

-- an INSERT under the unique index on `key_prefix`
abbrev add_key : ApiKey → Query ApiKey
add_key row = do
  clash ← gets (λ db. any (λ k. text_eq k.key_prefix row.key_prefix) db.api_keys.rows)
  raise_if clash integrity_error
  id ← gets (λ db. db.api_keys.next_id)
  modify (λ db. record db { api_keys = insert (λ n. record row { id = n }) db.api_keys })
  pure (record row { id = id })

-- what `resolve` does with the owner's row
abbrev admit_owner : ApiKey → Option User → Result (Option (ApiKey × User))
admit_owner key none = ok none
admit_owner key (some owner) =
    if not owner.is_active then ok none else elim (user_role owner.role) [
      | none ↦ raised value_error
      | some r ↦ if role_eq r no_access then ok none else ok (some (key, owner))
    ]

-- `expires_at is not None and expires_at <= now`
abbrev pub is_expired : Option ℕ → ℕ → Bool
is_expired none now = false
is_expired (some t) now = leb t now

module _ (sha256 : Text → Text) where
  -- `mint` from the test of `owner.is_active` on
  unfoldable pub mint_for : Settings → Drawn → ApiKeyCreate → User → Query (ApiKey × Text)
  mint_for st drawn data' owner = do
    raise_if (not owner.is_active) bad_request
    raise_if (ltb (rank owner.role) (hierarchy data'.role)) bad_request
    raise_if (ltb (rank st.max_role) (hierarchy data'.role)) bad_request
    check_project data'.project_id
    now ← gets (λ db. db.now)
    api_key ← add_key (record {
      id = 0;
      name = data'.name;
      key_prefix = drawn.key_prefix;
      key_hash = sha256 drawn.secret;
      user_id = owner.id;
      project_id = data'.project_id;
      role = role_value data'.role;
      expires_at = expiry st data' now;
      last_used_at = none;
      revoked_at = none;
      created_at = now;
    })
    pure (api_key, full_key drawn.key_prefix drawn.secret)

  -- `mint`
  unfoldable pub mint : Settings → Drawn → ApiKeyCreate → User → Query (ApiKey × Text)
  mint st drawn data' actor = do
    owner ← key_owner actor data'.user_id
    mint_for st drawn data' owner

  abbrev admit_key : Db → Text → Option ApiKey → Result (Option (ApiKey × User))
  admit_key db secret none = ok none
  admit_key db secret (some key) =
      if not (text_eq (sha256 secret) key.key_hash)
      then ok none
      else if is_some key.revoked_at
      then ok none
      else if is_expired key.expires_at db.now
      then ok none
      else admit_owner key (find? (is_live_user key.user_id) db.users.rows)

  abbrev resolve_parts : Db → Option (Text × Text) → Result (Option (ApiKey × User))
  resolve_parts db none = ok none
  resolve_parts db (some (key_prefix, secret)) =
      admit_key db secret (find? (λ k. text_eq k.key_prefix key_prefix) db.api_keys.rows)

  -- `resolve`, which changes nothing
  unfoldable pub resolve : Text → Db → Result (Option (ApiKey × User))
  resolve raw_key db = resolve_parts db (split_api_key raw_key)

-- `UserRole(actor.role) != UserRole.ADMIN`
abbrev is_admin : Option UserRole → Query Bool
is_admin none = raise value_error
is_admin (some r) = pure (role_eq r admin)

abbrev pub target_user : User → Option ℕ → Query ℕ
target_user actor none = pure actor.id
target_user actor (some id) =
    if id == actor.id
    then pure actor.id
    else do allowed ← is_admin (user_role actor.role); raise_if (not allowed) forbidden; pure id

-- newest first
abbrev pub newer : ApiKey → ApiKey → Bool
newer a b = leb b.created_at a.created_at

-- the keys that the query of `list_keys` answers
abbrev pub keys_of : ℕ → Bool → List ApiKey → List ApiKey
keys_of target include_revoked rows = sort_by newer (
    select (λ k. k.user_id == target && (if include_revoked then true else is_none k.revoked_at))
      rows)

-- `list_keys`
unfoldable pub list_keys : User → Option ℕ → Bool → Query (List ApiKey)
list_keys actor user_id include_revoked = do
  target ← target_user actor user_id
  gets (λ db. keys_of target include_revoked db.api_keys.rows)

-- `revoke`
unfoldable pub revoke : ℕ → User → Query (Unit {0})
revoke key_id actor = do
  found ← gets (λ db. find? (λ k. k.id == key_id) db.api_keys.rows)
  api_key ← or_raise found not_found
  allowed ← (if api_key.user_id == actor.id then pure true else is_admin (user_role actor.role))
  raise_if (not allowed) not_found
  now ← gets (λ db. db.now)
  when (is_none api_key.revoked_at) (
      modify (λ db. record db {
        api_keys =
            update (λ k. k.id == key_id) (λ k. record k { revoked_at = some now }) db.api_keys;
      }))

abbrev used_recently : Settings → Option ℕ → ℕ → Bool
used_recently st none now = false
used_recently st (some t) now = ltb (now - t) st.last_used_throttle_seconds

-- `touch_last_used`; the clock does not run backwards
unfoldable pub touch_last_used : Settings → ApiKey → Query (Unit {0})
touch_last_used st key = do
  now ← gets (λ db. db.now)
  when (not (used_recently st key.last_used_at now)) (
      modify (λ db. record db {
        api_keys =
            update (λ k. k.id == key.id) (λ k. record k { last_used_at = some now }) db.api_keys;
      }))
