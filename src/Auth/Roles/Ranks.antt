-- ===== src/Auth/Roles/Ranks.antt =====
-- The ranks of role texts: `_rank` and `effective_role` of app/services/api_key_service.py.
use api_testoria.Base.{◌≤◌, ◌≡◌, refl, ◌⊎◌, some, Text, arith, ok}
use api_testoria.Auth.Roles.{
  UserRole, no_access, read_only, tester, lead, admin, role_value, hierarchy, user_role, rank,
  weakest, effective_role,
}

-- Every member is read back from its string.
pub user_role-role_value : (r : UserRole) → user_role (role_value r) ≡ some r
unfolding user_role
user_role-role_value no_access = refl
user_role-role_value read_only = refl
user_role-role_value tester = refl
user_role-role_value lead = refl
user_role-role_value admin = refl

pub rank-role_value : (r : UserRole) → rank (role_value r) ≡ hierarchy r
unfolding rank user_role
rank-role_value no_access = refl
rank-role_value read_only = refl
rank-role_value tester = refl
rank-role_value lead = refl
rank-role_value admin = refl

pub rank-user_role : (s : Text) (r : UserRole) → user_role s ≡ some r → rank s ≡ hierarchy r
unfolding rank
rank-user_role s r h = rw (h, rank)

pub hierarchy-injective : (r s : UserRole) → hierarchy r ≡ hierarchy s → r ≡ s
hierarchy-injective r s h = ground arith

weakest-member : (a b c : Text) → (weakest a b c ≡ a) ⊎ (weakest a b c ≡ b) ⊎ (weakest a b c ≡ c)
unfolding weakest
weakest-member a b c = ground arith

weakest-le :
    (a b c : Text)
    → (rank (weakest a b c) ≤ rank a)
      × (rank (weakest a b c) ≤ rank b)
      × (rank (weakest a b c) ≤ rank c)
unfolding weakest
weakest-le a b c = ground arith

-- The role that an API key gets is no stronger than the key's own role, its owner's current role
-- and the configured ceiling, and its string is one of these three.
pub effective_role-weakest :
    (k o m : Text) (r : UserRole)
    → effective_role k o m ≡ ok r
    → (hierarchy r ≤ rank k)
      × (hierarchy r ≤ rank o)
      × (hierarchy r ≤ rank m)
      × ((hierarchy r ≡ rank k) ⊎ (hierarchy r ≡ rank o) ⊎ (hierarchy r ≡ rank m))
unfolding effective_role
effective_role-weakest k o m r h =
    let e : rank (weakest k o m) ≡ hierarchy r = rank-user_role (weakest k o m) r (ground arith) in
    ground (arith, weakest-le k o m, weakest-member k o m)
