-- ===== src/Auth/Roles.antt =====
-- app/core/roles.py, and `_rank` and `effective_role` of app/services/api_key_service.py.
pub mod Ranks
use api_testoria.Base.{
  ℕ, ◌≡◌, Bool, true, Option, none, some, Text, codes, text_eq, ltb, ◌==◌, if◌then◌else◌, Result,
  ok, raised, value_error,
}

pub data UserRole : Type 0 where
  no_access read_only tester lead admin : UserRole

-- the strings of the StrEnum
abbrev pub role_value : UserRole → Text
role_value no_access = codes "no_access"
role_value read_only = codes "read_only"
role_value tester = codes "tester"
role_value lead = codes "lead"
role_value admin = codes "admin"

-- ROLE_HIERARCHY
abbrev pub hierarchy : UserRole → ℕ
hierarchy no_access = 0
hierarchy read_only = 1
hierarchy tester = 2
hierarchy lead = 3
hierarchy admin = 4

-- `role == UserRole.X`, on members
abbrev pub role_eq : UserRole → UserRole → Bool
role_eq r s = hierarchy r == hierarchy s

-- `UserRole(role)`; `none` is the ValueError
unfoldable pub user_role : Text → Option UserRole
user_role s =
    if text_eq s (role_value no_access)
    then some no_access
    else if text_eq s (role_value read_only)
    then some read_only
    else if text_eq s (role_value tester)
    then some tester
    else if text_eq s (role_value lead)
    then some lead
    else if text_eq s (role_value admin)
    then some admin
    else none

-- `_rank`
unfoldable pub rank : Text → ℕ
rank s = elim (user_role s) [ none ↦ 0 | some r ↦ hierarchy r ]

-- `min((a, b, c), key=_rank)`: the first of the least
unfoldable pub weakest : Text → Text → Text → Text
weakest a b c =
    let m = if ltb (rank b) (rank a) then b else a in if ltb (rank c) (rank m) then c else m

-- `UserRole(s)` where the exception goes on to the caller
abbrev pub or_value_error : Option UserRole → Result UserRole
or_value_error none = raised value_error
or_value_error (some r) = ok r

-- `effective_role`, with `settings.API_KEY_MAX_ROLE` as its last argument
unfoldable pub effective_role : Text → Text → Text → Result UserRole
effective_role key_role owner_role max_role =
    or_value_error (user_role (weakest key_role owner_role max_role))
