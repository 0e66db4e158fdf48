-- ===== src/Auth/Principals/Authority.antt =====
-- What authority a request has, by app/dependencies.py.
use api_testoria.Base.{
  ℕ, ◌≡◌, ◌≢◌, inl, inr, ◌≤◌, ◌<◌, true, false, Option, none, some, find?, find?-some, Text,
  text_eq, codes, arith, ok, raised, ◌==◌, Result-cases, forbidden, [], ◌∷◌,
}
use api_testoria.Db.{Db, User, ApiKey}
use api_testoria.Auth.Roles.{
  UserRole, no_access, lead, admin, hierarchy, user_role, rank, role_value, effective_role,
}
use api_testoria.Auth.Roles.Ranks.{effective_role-weakest}
use api_testoria.Auth.ApiKeys.{Settings, is_live_user, resolve, touch_last_used}
use api_testoria.Auth.ApiKeys.Resolving.{resolve-IsUsable}
use api_testoria.Auth.Principals.{
  Principal, Payload, api_key, jwt, principal_from_jwt, principal_from_api_key, principal_of,
  require_role, require_jwt,
}

module _ (sha256 : Text → Text) (st : Settings) where
  principal_of-bounds :
      (key : ApiKey) (owner : User) (db db' : Db) (p : Principal)
      → principal_of sha256 st (some (key, owner)) db ≡ ok (p, db')
      → (effective_role key.role owner.role st.max_role ≡ ok p.role)
        × (p.user ≡ owner)
        × (p.project_id ≡ key.project_id)
        × (p.via ≡ api_key)
  unfolding touch_last_used
  principal_of-bounds key owner db db' p h =
      elim (Result-cases (effective_role key.role owner.role st.max_role)) [
        | inl (r, e) ↦ ground arith
        | inr (x, e) ↦ absurd (ground arith)
      ]

  -- A request that an API key authenticates has the key's project, and a role no stronger than the
  -- configured ceiling, than the key's role, and than the role that its owner has at that moment.
  pub principal_from_api_key-bounds :
      (raw_key : Text) (db db' : Db) (p : Principal)
      → principal_from_api_key sha256 st raw_key db ≡ ok (p, db')
      → (key : ApiKey) × (resolve sha256 raw_key db ≡ ok (some (key, p.user)))
        × (hierarchy p.role ≤ rank key.role)
        × (hierarchy p.role ≤ rank p.user.role)
        × (hierarchy p.role ≤ rank st.max_role)
        × (p.project_id ≡ key.project_id)
        × (p.via ≡ api_key)
  unfolding principal_from_api_key
  principal_from_api_key-bounds raw_key db db' p h =
      elim (Result-cases (resolve sha256 raw_key db)) [
        | inr (x, e) ↦ absurd (ground arith)
        | inl (none, e) ↦ absurd (ground arith)
        | inl (some (key, owner), e) ↦
            let (role, user, project, via) =
              principal_of-bounds key owner db db' p (ground arith) in
            let (k, o, m, some_one) =
              effective_role-weakest key.role owner.role st.max_role p.role role in
            (key, ground arith, ground arith, ground arith, ground arith, project, via)
      ]

  -- Under a ceiling below `lead`, no route that asks for a lead or an admin is open to an API key,
  -- whatever the roles of the key and of its owner; and `require_jwt` is closed to it as well.
  pub api_key_closed :
      (raw_key : Text) (db db' : Db) (p : Principal)
      → rank st.max_role < hierarchy lead
      → principal_from_api_key sha256 st raw_key db ≡ ok (p, db')
      → (require_role (lead ∷ admin ∷ []) p ≡ raised forbidden) × (require_jwt p ≡ raised forbidden)
  unfolding require_role require_jwt
  api_key_closed raw_key db db' p low h =
      let (key, resolved, k, o, m, project, via) =
        principal_from_api_key-bounds raw_key db db' p h in
      ground arith

-- A bearer token admits its account also after the account was soft-deleted, as long as the account
-- is active and its role is a known one other than `no_access`; no API key of a deleted account
-- resolves to it.
pub principal_from_jwt-deleted :
    (sha256 : Text → Text) (decode : Text → Option Payload) (token raw_key : Text)
    (payload : Payload) (user : User) (r : UserRole) (key : ApiKey) (db : Db) {t : ℕ}
    → decode token ≡ some payload
    → text_eq payload.type (codes "access") ≡ true
    → payload.sub ≡ some (some user.id)
    → find? (λ u. u.id == user.id) db.users.rows ≡ some user
    → user.is_active ≡ true
    → text_eq user.role (role_value no_access) ≡ false
    → user_role user.role ≡ some r
    → user.deleted_at ≡ some t
    → (principal_from_jwt decode token db
        ≡ ok
            (record { user = user; role = r; project_id = none; via = jwt; api_key_id = none }, db))
      × (resolve sha256 raw_key db ≢ ok (some (key, user)))
unfolding principal_from_jwt
principal_from_jwt-deleted sha256 decode token raw_key payload user r key db valid access sub found
      active allowed known gone =
    (
      ground arith,
      λ h.
          let (p, s, role, shape, usable) = (resolve-IsUsable sha256 raw_key db key user).0 h in
          ground (arith, find?-some (is_live_user key.user_id) db.users.rows usable.owner_found),
    )
