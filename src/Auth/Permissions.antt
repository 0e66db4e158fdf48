-- ===== src/Auth/Permissions.antt =====
-- app/core/permissions.py: the permissions of each role, and the check of one.
use api_testoria.Base.{
  ℕ, ◌≤◌, ◌≡◌, refl, Bool, true, false, ◌||◌, List, [], ◌∷◌, ◌==◌, arith, Option, none, some,
  Result, ok, raised, forbidden, value_error,
}
use api_testoria.Db.{User}
use api_testoria.Auth.Roles.{
  UserRole, no_access, read_only, tester, lead, admin, hierarchy, user_role,
}

pub data Permission : Type 0 where
  view_project edit_project delete_project : Permission
  create_test_case edit_test_case delete_test_case : Permission
  execute_test view_reports manage_users : Permission

-- The place of a member in the declaration order; two members are equal when it is.
abbrev pub ordinal : Permission → ℕ
ordinal view_project = 0
ordinal edit_project = 1
ordinal delete_project = 2
ordinal create_test_case = 3
ordinal edit_test_case = 4
ordinal delete_test_case = 5
ordinal execute_test = 6
ordinal view_reports = 7
ordinal manage_users = 8

-- ROLE_PERMISSIONS
abbrev pub role_permissions : UserRole → List Permission
role_permissions no_access = []
role_permissions read_only = view_project ∷ view_reports ∷ []
role_permissions tester =
    view_project ∷ create_test_case ∷ edit_test_case ∷ execute_test ∷ view_reports ∷ []
role_permissions lead =
    view_project ∷ edit_project ∷ create_test_case ∷ edit_test_case ∷ delete_test_case
    ∷ execute_test ∷ view_reports ∷ []
role_permissions admin =
    view_project ∷ edit_project ∷ delete_project ∷ create_test_case ∷ edit_test_case
    ∷ delete_test_case ∷ execute_test ∷ view_reports ∷ manage_users ∷ []

-- `permission in permissions`
abbrev pub grants : Permission → List Permission → Bool
grants p [] = false
grants p (q ∷ qs) = ordinal p == ordinal q || grants p qs

abbrev role_grants : Permission → Option UserRole → Result Bool
role_grants p none = raised value_error
role_grants p (some r) = ok (grants p (role_permissions r))

unfoldable pub has_permission : User → Permission → Result Bool
has_permission user p = role_grants p (user_role user.role)

abbrev allow : User → Result Bool → Result User
allow user (ok true) = ok user
allow user (ok false) = raised forbidden
allow user (raised e) = raised e

-- the dependency that `require_permission(p)` returns
unfoldable pub require_permission : Permission → User → Result User
unfolding has_permission
require_permission p user = allow user (has_permission user p)

grants_up :
    (r s : UserRole) (p : Permission)
    → hierarchy r ≤ hierarchy s
    → grants p (role_permissions r) ≡ true
    → grants p (role_permissions s) ≡ true
grants_up no_access s p le h = cc
grants_up r no_access p le h = ground arith
grants_up r admin view_project le h = refl
grants_up r s p le h = ground arith

-- Permissions only grow with the role: whoever passes a permission check passes it still in any
-- role that ranks at least as high.
pub require_permission-monotone :
    (p : Permission) (u v : User) (r s : UserRole)
    → user_role u.role ≡ some r
    → user_role v.role ≡ some s
    → hierarchy r ≤ hierarchy s
    → require_permission p u ≡ ok u
    → require_permission p v ≡ ok v
unfolding require_permission
require_permission-monotone p u v r s hr hs le h = ground (arith, grants_up r s p le)
