-- ===== src/Auth/ApiKeys/Revoking.antt =====
-- Revocation: `revoke` and `resolve` of app/services/api_key_service.py.
use api_testoria.Base.{
  All, All-update_where_set, find?-All, ℕ, ◌≡◌, refl, ◌≢◌, ◌⊎◌, inl, inr, ◌≤◌, false, some, List,
  find?, find?-unique, count, update_where, Text, text_eq, arith, ok, Option-cases, is_none, ◌==◌,
}
use api_testoria.Db.{Db, User, ApiKey}
use api_testoria.Auth.Roles.{user_role}
use api_testoria.Auth.ApiKeys.{resolve, revoke}
use api_testoria.Auth.ApiKeys.Resolving.{resolve-IsUsable}

revoke-updated :
    (key_id : ℕ) (actor : User) (db db' : Db)
    → revoke key_id actor db ≡ ok (tt, db')
    → (key : ApiKey) × (find? (λ k. k.id == key_id) db.api_keys.rows ≡ some key)
      × (((is_none key.revoked_at ≡ false) × (db' ≡ db))
          ⊎ (db'.api_keys.rows
              ≡ update_where
                  (λ k. k.id == key_id)
                  (λ k. record k { revoked_at = some db.now })
                  db.api_keys.rows))
unfolding revoke
revoke-updated key_id actor db db' h =
    elim (Option-cases (find? (λ k. k.id == key_id) db.api_keys.rows)) [
      | inl e ↦ absurd (ground arith)
      | inr (key, e) ↦ (
        key,
        e,
        elim (Option-cases (user_role actor.role)) [
          | inl unknown ↦ ground arith
          | inr (r, known) ↦ ground arith
        ],
      )
    ]

abbrev IsRevoked : ℕ → ApiKey → Type 0
IsRevoked key_id k = ((k.id == key_id) ≡ false) ⊎ (is_none k.revoked_at ≡ false)

update-IsRevoked :
    (key_id now : ℕ) (rows : List ApiKey)
    → All
        (IsRevoked key_id)
        (update_where (λ k. k.id == key_id) (λ k. record k { revoked_at = some now }) rows)
update-IsRevoked key_id now rows =
    All-update_where_set (IsRevoked key_id) (λ k. k.id == key_id) _ rows (λ k e. inr refl)
      (λ k e. inl e)

-- After a successful `revoke` no presented text resolves to the revoked key, if keys have distinct
-- ids.
pub revoke-resolve :
    (sha256 : Text → Text) (key_id : ℕ) (actor : User) (db db' : Db) (raw_key : Text) (key : ApiKey)
    (owner : User)
    → count (λ k. k.id == key_id) db.api_keys.rows ≤ 1
    → revoke key_id actor db ≡ ok (tt, db')
    → resolve sha256 raw_key db' ≡ ok (some (key, owner))
    → key.id ≢ key_id
revoke-resolve sha256 key_id actor db db' raw key owner unique h r same =
    let (p, s, role, shape, usable) = (resolve-IsUsable sha256 raw db' key owner).0 r in
    let (old, found, outcome) = revoke-updated key_id actor db db' h in
    elim outcome [
      | inl (before, e) ↦
          let one : key ≡ old =
            find?-unique (λ k. k.id == key_id) (λ k. text_eq k.key_prefix p) db.api_keys.rows unique
              found (rw e at usable.key_found) (ground arith) in
          ground (arith, usable.not_revoked)
      | inr e ↦
          let marked : IsRevoked key_id key =
            find?-All (IsRevoked key_id) (λ k. text_eq k.key_prefix p) db'.api_keys.rows
              (rw e (update-IsRevoked key_id db.now db.api_keys.rows)) usable.key_found in
          ground (arith, usable.not_revoked)
    ]
