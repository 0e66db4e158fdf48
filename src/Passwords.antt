-- ===== src/Passwords.antt =====
-- app/services/password_token_service.py, `queue_password_reset` of app/services/email_service.py, and
-- the routes of app/api/v1/auth.py. Redis is not part of the database: what a route did to it stays
-- when the route raises.
pub mod Tokens
pub mod Once
use api_testoria.Base.{
  value_error, ℕ, ◌+◌, Bool, true, false, not, ◌&&◌, ◌||◌, Option, none, some, List, [], ◌∷◌, ltb,
  ◌==◌, if◌then◌else◌, is_none, select, find?, Text, codes, text_eq, Result, ok, raised,
  unauthorized, bad_request, pure, raise, gets, or_raise, ◌>>=◌, ◌>>◌, raise_if, modify, when,
}
use api_testoria.Db.{
  Db, Query, User, login_action, password_reset_requested, password_reset_done, user_entity,
}
use api_testoria.Effects.{log_action}
use api_testoria.Email.Outbox.{enqueue}
use api_testoria.Auth.Principals.{Payload, decode_token}
use api_testoria.Users.{Site, link, context_of, set_password}

-- PURPOSE_INVITE, PURPOSE_RESET
pub data Purpose : Type 0 where
  invite reset : Purpose

-- an entry `pwtoken:{token}` of Redis with its time to live
pub record StoredToken : Type 0 where
  pub token : Text
  pub user_id : ℕ
  pub purpose : Purpose
  pub expires_at : ℕ

abbrev pub Store : Type 0
Store = List StoredToken

-- `create_token`, with the text that `secrets.token_urlsafe` drew; SET replaces an entry of the key
unfoldable pub create_token : Text → ℕ → Purpose → ℕ → ℕ → Store → Store
create_token token user_id purpose ttl now store =
    record { token = token; user_id = user_id; purpose = purpose; expires_at = now + ttl }
    ∷ select (λ t. not (text_eq t.token token)) store

abbrev pub is_valid : Text → ℕ → StoredToken → Bool
is_valid token now t = text_eq t.token token && ltb now t.expires_at

abbrev pub payload_of : Option StoredToken → Option (ℕ × Purpose)
payload_of none = none
payload_of (some t) = some (t.user_id, t.purpose)

-- `peek_token`
unfoldable pub peek_token : Text → ℕ → Store → Option (ℕ × Purpose)
peek_token token now store = payload_of (find? (is_valid token now) store)

-- `consume_token`: GETDEL
unfoldable pub consume_token : Text → ℕ → Store → Option (ℕ × Purpose) × Store
consume_token token now store =
    (payload_of (find? (is_valid token now) store), select (λ t. not (text_eq t.token token)) store)

-- `queue_password_reset`, less the token that it leaves in Redis
unfoldable pub queue_password_reset : Site → Text → User → Query Text
queue_password_reset site token user = do
  enqueue site.email_max_attempts user.email (codes "password_reset")
      (context_of user (link site (codes "reset-password") token))
      (codes "Reset your Testoria password") none
  pure token

-- A route: the store afterwards, and what the route answers.
abbrev pub Route : Type 0 → Type 0
Route A = Store → Db → Store × Result (A × Db)

abbrev is_reachable : Text → User → Bool
is_reachable email u = text_eq u.email email && (is_none u.deleted_at && u.is_active)

abbrev request_reset : Site → Text → Option User → Query (Unit {0})
request_reset site token none = pure tt
request_reset site token (some user) = do
  queue_password_reset site token user
  log_action (some user.id) password_reset_requested user_entity user.id

abbrev stored_for : Text → ℕ → Option User → ℕ → Store → Store
stored_for token ttl none now store = store
stored_for token ttl (some user) now store = create_token token user.id reset ttl now store

-- `forgot_password`, with the drawn token and EMAIL_RESET_TOKEN_TTL_SECONDS
unfoldable pub forgot_password : Site → Text → ℕ → Text → Route (Unit {0})
forgot_password site token ttl email store db =
    let user = find? (is_reachable email) db.users.rows in
    (stored_for token ttl user db.now store, request_reset site token user db)

abbrev pub change_password : Site → Text → Option (ℕ × Purpose) → Query (Unit {0})
change_password site new_password none = raise bad_request
change_password site new_password (some (user_id, purpose)) = do
  user ← set_password site user_id new_password
  log_action (some user.id) password_reset_done user_entity user.id

-- `reset_password`
unfoldable pub reset_password : Site → Text → Text → Route (Unit {0})
reset_password site token new_password store db =
    let (consumed, store') = consume_token token db.now store in
    (store', change_password site new_password consumed db)

abbrev username_of : Option User → Result Text
username_of none = raised bad_request
username_of (some u) = ok u.username

abbrev validated : Db → Option (ℕ × Purpose) → Result Text
validated db none = raised bad_request
validated db (some (user_id, purpose)) =
    username_of
      (find? (λ u. u.id == user_id && (is_none u.deleted_at && u.is_active)) db.users.rows)

-- `validate_reset_token`, which changes nothing
unfoldable pub validate_reset_token : Text → Store → Db → Result Text
validate_reset_token token store db = validated db (peek_token token db.now store)

-- `Token`: the two texts, which `create_access_token` and `create_refresh_token` make of a user's id
abbrev pub Issue : Type 0
Issue = ℕ → Text × Text

-- `verify_password(…)` on the user that was found
abbrev fits_password : (Text → Text → Bool) → Text → Option User → Bool
fits_password verify password none = false
fits_password verify password (some u) = verify password u.hashed_password

-- `login`
unfoldable pub login : (Text → Text → Bool) → Issue → Text → Text → Query (Text × Text)
login verify issue username password = do
  found ← gets (λ db. find? (λ u. text_eq u.username username) db.users.rows)
  raise_if (not (fits_password verify password found)) unauthorized
  user ← or_raise found unauthorized
  raise_if (not user.is_active) bad_request
  log_action (some user.id) login_action user_entity user.id
  pure (issue user.id)

-- `refresh_token`
unfoldable pub refresh_token : (Text → Option Payload) → Issue → Text → Query (Text × Text)
refresh_token decode issue token = do
  payload ← decode_token decode token (codes "refresh")
  user_id_raw ← or_raise payload.sub unauthorized
  user_id ← or_raise user_id_raw value_error
  found ← gets (λ db. find? (λ u. u.id == user_id) db.users.rows)
  user ← or_raise found unauthorized
  raise_if (not user.is_active) unauthorized
  pure (issue user.id)
