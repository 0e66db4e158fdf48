-- ===== src/Users.antt =====
-- app/services/user_service.py: accounts, and who may manage them; with `queue_welcome_invite` of
-- app/services/email_service.py. The hash of passwords and the random texts are parameters.
pub mod Authority
pub mod Invites
pub mod Bulk
use api_testoria.Base.{
  ℕ, ◌+◌, Bool, true, false, not, ◌&&◌, ◌||◌, Option, none, some, List, [], ◌∷◌, ◌++◌, ◌==◌,
  if◌then◌else◌, is_none, is_some, get_or, reverse, find?, any, Text, codes, text_eq, not_found,
  forbidden, conflict, bad_request, integrity_error, HttpError, pure, gets, or_raise, ◌>>=◌, ◌>>◌,
  raise_if, modify, Result, ok, raised,
}
use api_testoria.Db.{Db, Query, User, insert, update, welcome_invite_sent, user_entity}
use api_testoria.Effects.{log_action}
use api_testoria.Email.Outbox.{enqueue}
use api_testoria.Auth.Roles.{UserRole, admin, lead, role_value, role_eq}

-- what is given from outside: `get_password_hash`, and the settings that an invitation reads
pub record Site : Type 0 where
  pub password_hash : Text → Text
  pub frontend_base_url : Text
  pub email_max_attempts : ℕ

-- `secrets.token_urlsafe` of the password and of the invite token
pub record Secrets : Type 0 where
  pub password : Text
  pub token : Text

-- `actor is None or actor.role == UserRole.ADMIN`
abbrev pub is_unrestricted : Option User → Bool
is_unrestricted none = true
is_unrestricted (some actor) = text_eq actor.role (role_value admin)

-- `_assert_can_manage_role`
unfoldable pub assert_can_manage_role : Option User → UserRole → Query (Unit {0})
assert_can_manage_role actor target_role =
    raise_if (not (is_unrestricted actor) && role_eq target_role admin) forbidden

abbrev pub is_admin : User → Bool
is_admin user = text_eq user.role (role_value admin)

-- `_assert_can_manage_user`
unfoldable pub assert_can_manage_user : Option User → User → Query (Unit {0})
assert_can_manage_user actor target =
    raise_if (not (is_unrestricted actor) && is_admin target) forbidden

-- `rstrip("/")`
abbrev skip_slashes : Text → Text
skip_slashes [] = []
skip_slashes (c ∷ s) = if c == 47 then skip_slashes s else c ∷ s

-- `_link`
abbrev pub link : Site → Text → Text → Text
link site path token =
    reverse (skip_slashes (reverse site.frontend_base_url))
    ++ codes "/"
    ++ path
    ++ codes "?token="
    ++ token

-- `_context`
abbrev pub context_of : User → Text → List Text
context_of user url = user.username ∷ get_or user.full_name [] ∷ url ∷ []

-- `queue_welcome_invite`, less the token that it leaves in Redis
unfoldable pub queue_welcome_invite : Site → Secrets → User → Query Text
queue_welcome_invite site drawn user = do
  enqueue site.email_max_attempts user.email (codes "welcome_invite")
      (context_of user (link site (codes "set-password") drawn.token))
      (codes "Welcome to Testoria — set your password") none
  log_action (some user.id) welcome_invite_sent user_entity user.id
  pure drawn.token

pub record UserCreate : Type 0 where
  pub username : Text
  pub email : Text
  pub full_name : Option Text
  pub role : UserRole

-- the WHERE clause of the search for a user of the same name or address; deleted users count
abbrev pub is_same : UserCreate → User → Bool
is_same data' u = text_eq u.username data'.username || text_eq u.email data'.email

abbrev pub new_user : Site → Secrets → UserCreate → ℕ → ℕ → User
new_user site drawn data' now id = record {
  id = id;
  username = data'.username;
  email = data'.email;
  hashed_password = site.password_hash drawn.password;
  full_name = data'.full_name;
  role = role_value data'.role;
  is_active = true;
  created_at = now;
  deleted_at = none;
}

-- `create_user`
unfoldable pub create_user : Site → Secrets → UserCreate → Option User → Query User
create_user site drawn data' actor = do
  assert_can_manage_role actor data'.role
  taken ← gets (λ db. any (is_same data') db.users.rows)
  raise_if taken conflict
  now ← gets (λ db. db.now)
  id ← gets (λ db. db.users.next_id)
  modify (λ db. record db { users = insert (new_user site drawn data' now) db.users })
  queue_welcome_invite site drawn (new_user site drawn data' now id)
  pure (new_user site drawn data' now id)

abbrev pub is_live_user : ℕ → User → Bool
is_live_user id u = u.id == id && is_none u.deleted_at

-- `get_user`
unfoldable pub get_user : ℕ → Query User
get_user id = do
  found ← gets (λ db. find? (is_live_user id) db.users.rows)
  or_raise found not_found

pub record UserUpdate : Type 0 where
  pub email : Option Text
  pub full_name : Option Text
  pub role : Option UserRole
  pub is_active : Option Bool
  pub password : Option Text

-- `if data.role is not None: _assert_can_manage_role(…)`
abbrev pub check_role : Option User → Option UserRole → Query (Unit {0})
check_role actor none = pure tt
check_role actor (some role) = assert_can_manage_role actor role

abbrev pub new_role : Option UserRole → Text → Text
new_role none old = old
new_role (some role) old = role_value role

abbrev new_hash : Site → Option Text → Text → Text
new_hash site none old = old
new_hash site (some password) old = site.password_hash password

abbrev pub updated_user : Site → UserUpdate → User → User
updated_user site data' user = record user {
  email = get_or data'.email user.email;
  full_name = elim data'.full_name [ none ↦ user.full_name | some name ↦ some name ];
  role = new_role data'.role user.role;
  is_active = get_or data'.is_active user.is_active;
  hashed_password = new_hash site data'.password user.hashed_password;
}

-- the unique constraint on `email`
abbrev pub clashes : ℕ → Text → Db → Bool
clashes id email db = any (λ u. not (u.id == id) && text_eq u.email email) db.users.rows

-- `update_user`
unfoldable pub update_user : Site → ℕ → UserUpdate → Option User → Query User
update_user site user_id data' actor = do
  user ← get_user user_id
  assert_can_manage_user actor user
  check_role actor data'.role
  let user' = updated_user site data' user
  clash ← gets (clashes user.id user'.email)
  raise_if clash integrity_error
  modify
      (λ db. record db { users = update (λ u. u.id == user.id) (updated_user site data') db.users })
  pure user'

abbrev pub with_password : Site → Text → User → User
with_password site password u = record u { hashed_password = site.password_hash password }

-- `user is None or not user.is_active`
abbrev pub is_barred : Option User → Bool
is_barred none = true
is_barred (some u) = not u.is_active

-- `set_password`
unfoldable pub set_password : Site → ℕ → Text → Query User
set_password site user_id new_password = do
  found ← gets (λ db. find? (is_live_user user_id) db.users.rows)
  raise_if (is_barred found) bad_request
  user ← or_raise found bad_request
  modify (λ db. record db {
    users = update (λ u. u.id == user.id) (with_password site new_password) db.users;
  })
  pure (with_password site new_password user)

-- `delete_user`
unfoldable pub delete_user : ℕ → Option User → Query (Unit {0})
delete_user user_id actor = do
  user ← get_user user_id
  assert_can_manage_user actor user
  raise_if (text_eq user.role (role_value lead)) conflict
  now ← gets (λ db. db.now)
  modify (λ db. record db {
    users = update (λ u. u.id == user.id) (λ u. record u { deleted_at = some now }) db.users;
  })

-- `BulkCreateError`, with the exception in place of its text
pub record BulkError : Type 0 where
  pub index : ℕ
  pub username : Text
  pub email : Text
  pub detail : HttpError

-- One turn of the loop of `bulk_create_users`: its savepoint keeps what `create_user` does or
-- nothing, and every exception becomes an entry of `errors`.
abbrev pub kept_or_reported : ℕ → UserCreate → Db → Result (User × Db) → Db × ℕ × List BulkError
kept_or_reported index data' db (ok (user, db')) = (db', 1, [])
kept_or_reported index data' db (raised e) = (
  db,
  0,
  record { index = index; username = data'.username; email = data'.email; detail = e } ∷ [],
)

abbrev pub bulk_step : Site → Secrets → ℕ → UserCreate → Option User → Db → Db × ℕ × List BulkError
bulk_step site drawn index data' actor db =
    kept_or_reported index data' db (create_user site drawn data' actor db)

-- `if data.strict and errors: break`, or the turns after this one
abbrev pub or_break :
    Bool → Db × ℕ × List BulkError → Db × ℕ × List BulkError → Db × ℕ × List BulkError
or_break true (db, created, e ∷ errors) rest = (db, created, e ∷ errors)
or_break _ (db, created, errors) (db', created', errors') =
    (db', created + created', errors ++ errors')

-- the loop of `bulk_create_users`, from index `i`; the draws are those of each index
abbrev pub bulk_from :
    Site → (ℕ → Secrets) → Bool → ℕ → List UserCreate → Option User → Db → Db × ℕ × List BulkError
bulk_from site drawn strict i [] actor db = (db, 0, [])
bulk_from site drawn strict i (data' ∷ rest) actor db =
    let step = bulk_step site (drawn i) i data' actor db in
    or_break strict step (bulk_from site drawn strict (i + 1) rest actor step.0)

-- `bulk_create_users`
unfoldable pub bulk_create_users :
    Site → (ℕ → Secrets) → Bool → List UserCreate → Option User → Query (ℕ × List BulkError)
bulk_create_users site drawn strict users actor db =
    let (db', created, errors) = bulk_from site drawn strict 0 users actor db in
    ok ((created, errors), db')
