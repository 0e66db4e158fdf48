-- ===== src/Auth/ApiKeys/Resolving.antt =====
-- `resolve` and `list_keys` of app/services/api_key_service.py.
use api_testoria.Base.{
  ℕ, ◌≡◌, ◌≢◌, ◌↔◌, ◌⊎◌, inl, inr, Bool, true, false, Option, none, some, List, find?, Text,
  text_eq, arith, ok, >>=-eq-ok, Option-cases, All, All-select, All-sort_by,
}
use api_testoria.Db.{Db, User, ApiKey}
use api_testoria.Auth.Roles.{UserRole, no_access, admin, role_eq, user_role}
use api_testoria.Auth.Secrets.{split_api_key}
use api_testoria.Auth.ApiKeys.{
  is_live_user, resolve, resolve_parts, is_expired, list_keys, newer, target_user, keys_of,
}

-- What a key and its owner must be for a request to be authenticated by them.
pub record IsUsable (sha256 : Text → Text) (db : Db) (key_prefix secret : Text) (key : ApiKey)
    (owner : User) (role : UserRole) : Type 0 where
  pub key_found : find? (λ k. text_eq k.key_prefix key_prefix) db.api_keys.rows ≡ some key
  pub hash_matches : text_eq (sha256 secret) key.key_hash ≡ true
  pub not_revoked : key.revoked_at ≡ none
  pub not_expired : is_expired key.expires_at db.now ≡ false
  pub owner_found : find? (is_live_user key.user_id) db.users.rows ≡ some owner
  pub owner_active : owner.is_active ≡ true
  pub known_role : user_role owner.role ≡ some role
  pub has_access : role_eq role no_access ≡ false

module _ (sha256 : Text → Text) where
  resolve_parts-IsUsable :
      (db : Db) (key_prefix secret : Text) (key : ApiKey) (owner : User) (r : UserRole)
      → user_role owner.role ≡ some r
      → resolve_parts sha256 db (some (key_prefix, secret)) ≡ ok (some (key, owner))
      → IsUsable sha256 db key_prefix secret key owner r
  resolve_parts-IsUsable db p s key owner r e h = ground arith

  admitted_owner-has_role :
      (db : Db) (key_prefix secret : Text) (key : ApiKey) (owner : User)
      → resolve_parts sha256 db (some (key_prefix, secret)) ≡ ok (some (key, owner))
      → user_role owner.role ≢ none
  admitted_owner-has_role db p s key owner h e = ground arith

  -- A presented text resolves to a key and an owner exactly when it has the shape of a key, a
  -- stored key has its prefix and the hash of its secret, that key is neither revoked nor expired,
  -- and the key's owner is not deleted, is active and has a known role other than `no_access`.
  pub resolve-IsUsable :
      (raw_key : Text) (db : Db) (key : ApiKey) (owner : User)
      → (resolve sha256 raw_key db ≡ ok (some (key, owner))) ↔ (
          (key_prefix : Text) × (secret : Text) × (r : UserRole) × (split_api_key raw_key
            ≡ some (key_prefix, secret))
          × IsUsable sha256 db key_prefix secret key owner r)
  unfolding resolve
  resolve-IsUsable raw_key db key owner = (to, back)
    where
      to :
          resolve sha256 raw_key db ≡ ok (some (key, owner))
          → (key_prefix : Text) × (secret : Text) × (r : UserRole) × (split_api_key raw_key
              ≡ some (key_prefix, secret))
            × IsUsable sha256 db key_prefix secret key owner r
      to h = elim (Option-cases (split_api_key raw_key)) [
        | inl e ↦ cc
        | inr ((p, s), e) ↦
            let k : resolve_parts sha256 db (some (p, s)) ≡ ok (some (key, owner)) = rw e at h in
            elim (Option-cases (user_role owner.role)) [
              | inl bad ↦ absurd (admitted_owner-has_role db p s key owner k bad)
              | inr (r, good) ↦ (p, s, r, e, resolve_parts-IsUsable db p s key owner r good k)
            ]
      ]

      back :
          (key_prefix : Text) × (secret : Text) × (r : UserRole) × (split_api_key raw_key
              ≡ some (key_prefix, secret))
            × IsUsable sha256 db key_prefix secret key owner r
          → resolve sha256 raw_key db ≡ ok (some (key, owner))
      back (p, s, r, e, usable) = rw e (ground arith)

-- What a listed key is: its user's own or listed by an admin, and revoked only on demand.
abbrev IsListable : User → Bool → ApiKey → Type 0
IsListable actor include_revoked k =
    ((k.user_id ≡ actor.id) ⊎ (user_role actor.role ≡ some admin))
    × ((include_revoked ≡ true) ⊎ (k.revoked_at ≡ none))

target_user-own :
    (actor : User) (user_id : Option ℕ) (db db' : Db) (target : ℕ)
    → target_user actor user_id db ≡ ok (target, db')
    → (target ≡ actor.id) ⊎ (user_role actor.role ≡ some admin)
target_user-own actor none db db' target h = ground arith
target_user-own actor (some id) db db' target h = elim (Option-cases (user_role actor.role)) [
  | inl e ↦ ground arith
  | inr (r, e) ↦ ground arith
]

keys_of-IsListable :
    (actor : User) (target : ℕ) (include_revoked : Bool) (rows : List ApiKey)
    → (target ≡ actor.id) ⊎ (user_role actor.role ≡ some admin)
    → All (IsListable actor include_revoked) (keys_of target include_revoked rows)
keys_of-IsListable actor target include_revoked rows h =
    All-sort_by (IsListable actor include_revoked) newer _
      (All-select (IsListable actor include_revoked) _ rows (λ k e. (ground arith, ground arith)))

-- Every key that `list_keys` answers belongs to the actor, or the actor is an admin; and it is not
-- revoked, or revoked keys were asked for.
pub list_keys-own :
    (actor : User) (user_id : Option ℕ) (include_revoked : Bool) (db db' : Db) (keys : List ApiKey)
    → list_keys actor user_id include_revoked db ≡ ok (keys, db')
    → All (IsListable actor include_revoked) keys
unfolding list_keys
list_keys-own actor user_id include_revoked db db' keys h =
    let (target, mid, chosen, rest) = >>=-eq-ok (target_user actor user_id) _ db h in
    let listed : keys ≡ keys_of target include_revoked mid.api_keys.rows = ground arith in
    rw listed (
      keys_of-IsListable actor target include_revoked mid.api_keys.rows
        (target_user-own actor user_id db mid target chosen))
