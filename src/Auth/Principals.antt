-- ===== src/Auth/Principals.antt =====
-- app/dependencies.py. `decode` stands for `jwt.decode` with the server's key: the payload of a token
-- that is valid and not expired.
pub mod Authority
use api_testoria.Base.{
  ℕ, Bool, true, false, not, ◌&&◌, ◌||◌, Option, none, some, List, [], ◌∷◌, ◌==◌, if◌then◌else◌,
  is_empty, find?, Text, text_eq, codes, Result, ok, raised, unauthorized, forbidden, bad_request,
  value_error, pure, raise, gets, or_raise, ◌>>=◌, ◌>>◌, raise_if,
}
use api_testoria.Db.{Db, Query, User, ApiKey}
use api_testoria.Auth.Roles.{UserRole, no_access, role_eq, role_value, user_role, effective_role}
use api_testoria.Auth.ApiKeys.{Settings, resolve, touch_last_used}

pub data Via : Type 0 where
  jwt api_key : Via

pub record Principal : Type 0 where
  pub user : User
  pub role : UserRole
  pub project_id : Option ℕ
  pub via : Via
  pub api_key_id : Option ℕ

-- The claims of a token that the services read. `sub` is what `int(str(sub))` makes of the claim, none
-- where that raises ValueError.
pub record Payload : Type 0 where
  pub type : Text
  pub sub : Option (Option ℕ)

-- `if token`: a header that is there and not empty
abbrev is_given : Option Text → Bool
is_given none = false
is_given (some s) = not (is_empty s)

-- what a dependency raises, or its value, in a request
abbrev pub lift : {A : Type 0} → Result A → Query A
lift (ok a) db = ok (a, db)
lift (raised e) db = raised e

-- `UserRole(user.role)`
abbrev as_role : Option UserRole → Query UserRole
as_role none = raise value_error
as_role (some r) = pure r

-- `decode_token(token, expected_type)` of app/core/security.py
unfoldable pub decode_token : (Text → Option Payload) → Text → Text → Query Payload
decode_token decode token expected = do
  payload ← or_raise (decode token) unauthorized
  raise_if (not (text_eq payload.type expected)) unauthorized
  pure payload

-- `_principal_from_jwt`
unfoldable pub principal_from_jwt : (Text → Option Payload) → Text → Query Principal
unfolding decode_token
principal_from_jwt decode token = do
  payload ← decode_token decode token (codes "access")
  user_id_raw ← or_raise payload.sub unauthorized
  user_id ← or_raise user_id_raw value_error
  found ← gets (λ db. find? (λ u. u.id == user_id) db.users.rows)
  user ← or_raise found unauthorized
  raise_if (not user.is_active) unauthorized
  raise_if (text_eq user.role (role_value no_access)) forbidden
  role ← as_role (user_role user.role)
  pure (record { user = user; role = role; project_id = none; via = jwt; api_key_id = none })

abbrev from_token : (Text → Option Payload) → Option Text → Query Principal
from_token decode none = raise unauthorized
from_token decode (some t) = if is_empty t then raise unauthorized else principal_from_jwt decode t

module _ (sha256 : Text → Text) (st : Settings) where
  abbrev principal_of : Option (ApiKey × User) → Query Principal
  principal_of none = raise unauthorized
  principal_of (some (key, owner)) = do
    touch_last_used st key
    role ← lift (effective_role key.role owner.role st.max_role)
    pure (record {
      user = owner;
      role = role;
      project_id = key.project_id;
      via = api_key;
      api_key_id = some key.id;
    })

  -- `_principal_from_api_key`
  unfoldable pub principal_from_api_key : Text → Query Principal
  principal_from_api_key raw_key = do
    resolved ← (λ db. lift (resolve sha256 raw_key db) db)
    principal_of resolved

  abbrev from_headers : (Text → Option Payload) → Option Text → Option Text → Query Principal
  from_headers decode token none = from_token decode token
  from_headers decode token (some key) =
      if is_empty key then from_token decode token else principal_from_api_key key

  -- `get_principal`
  unfoldable pub get_principal :
      (Text → Option Payload) → Option Text → Option Text → Query Principal
  get_principal decode token raw_key =
      if is_given token && is_given raw_key
      then raise bad_request
      else from_headers decode token raw_key

-- `principal.role in roles`
abbrev is_one_of : UserRole → List UserRole → Bool
is_one_of r [] = false
is_one_of r (s ∷ ss) = role_eq r s || is_one_of r ss

-- the dependency that `require_role(*roles)` returns
unfoldable pub require_role : List UserRole → Principal → Result User
require_role roles p = if is_one_of p.role roles then ok p.user else raised forbidden

abbrev is_jwt : Via → Bool
is_jwt jwt = true
is_jwt api_key = false

-- `require_jwt`
unfoldable pub require_jwt : Principal → Result Principal
require_jwt p = if is_jwt p.via then ok p else raised forbidden
