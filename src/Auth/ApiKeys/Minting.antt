-- ===== src/Auth/ApiKeys/Minting.antt =====
-- The key that `mint` of app/services/api_key_service.py returns.
use api_testoria.Base.{
  ℕ, ◌≤◌, ◌<◌, ◌≡◌, ◌⊎◌, true, false, Option, none, some, find?, find?-append, Text, text_eq,
  text_eq_refl, is_empty, arith, ok, ◌++◌, [], ◌∷◌, >>=-eq-ok,
}
use api_testoria.Db.{Db, User, ApiKey}
use api_testoria.Auth.Roles.{UserRole, no_access, lead, hierarchy, role_eq, user_role, rank}
use api_testoria.Auth.Roles.Ranks.{rank-role_value}
use api_testoria.Auth.Secrets.{full_key, NoUnderscore, NoSpace, split_api_key-full_key}
use api_testoria.Auth.ApiKeys.{
  Settings, ApiKeyCreate, Drawn, is_live_user, is_expired, key_owner, mint, mint_for, resolve,
  expiry,
}

key_owner-rank :
    (actor owner : User) (id : Option ℕ) (db db' : Db)
    → key_owner actor id db ≡ ok (owner, db')
    → (rank owner.role ≤ rank actor.role)
      × (db' ≡ db)
      × ((owner ≡ actor) ⊎ (hierarchy lead ≤ rank actor.role))
unfolding key_owner
key_owner-rank actor owner none db db' h = ground arith
key_owner-rank actor owner (some id) db db' h = ground arith

module _ (sha256 : Text → Text) (st : Settings) (drawn : Drawn) (request : ApiKeyCreate)
    (actor : User) where
  -- The rest of `mint`, once the owner is settled.
  mint_for_bounds :
      (owner : User) (key : ApiKey) (plain : Text) (db db' : Db)
      → mint_for sha256 st drawn request owner db ≡ ok ((key, plain), db')
      → (rank key.role ≤ rank st.max_role)
        × (rank key.role ≤ rank owner.role)
        × (key.user_id ≡ owner.id)
        × (db'.api_keys.rows ≡ db.api_keys.rows ++ key ∷ [])
        × (key.revoked_at ≡ none)
        × (plain ≡ full_key drawn.key_prefix drawn.secret)
  unfolding mint_for
  mint_for_bounds owner key plain db db' h = ground (arith, rank-role_value request.role)

  -- A minted key is no stronger than the configured ceiling nor than whoever minted it, and it is
  -- the actor's own unless the actor ranks as a lead at least. It is stored as it is returned, not
  -- revoked, and the text that comes with it is made of the drawn prefix and secret.
  pub mint_bounds :
      (key : ApiKey) (plain : Text) (db db' : Db)
      → mint sha256 st drawn request actor db ≡ ok ((key, plain), db')
      → (rank key.role ≤ rank st.max_role)
        × (rank key.role ≤ rank actor.role)
        × ((key.user_id ≡ actor.id) ⊎ (hierarchy lead ≤ rank actor.role))
        × (db'.api_keys.rows ≡ db.api_keys.rows ++ key ∷ [])
        × (key.revoked_at ≡ none)
        × (plain ≡ full_key drawn.key_prefix drawn.secret)
  unfolding mint
  mint_bounds key plain db db' h =
      let (owner, mid, found, rest) =
        >>=-eq-ok (key_owner actor request.user_id) (mint_for sha256 st drawn request) db h in
      ground (
        arith,
        key_owner-rank actor owner request.user_id db mid found,
        mint_for_bounds owner key plain mid db' rest,
      )

  mint_for-found :
      (owner : User) (key : ApiKey) (plain : Text) (db db' : Db)
      → mint_for sha256 st drawn request owner db ≡ ok ((key, plain), db')
      → (find? (λ k. text_eq k.key_prefix drawn.key_prefix) db'.api_keys.rows ≡ some key)
        × (key.key_hash ≡ sha256 drawn.secret)
        × (key.revoked_at ≡ none)
        × (key.expires_at ≡ expiry st request db.now)
        × (key.user_id ≡ owner.id)
        × (owner.is_active ≡ true)
        × (db'.users ≡ db.users)
        × (db'.now ≡ db.now)
  unfolding mint_for
  mint_for-found owner key plain db db' h = ground (
    arith,
    text_eq_refl drawn.key_prefix,
    find?-append (λ k. text_eq k.key_prefix drawn.key_prefix) db.api_keys.rows (key ∷ []),
  )

  expiry-later :
      (now : ℕ) → 0 < st.default_ttl_days → is_expired (expiry st request now) now ≡ false
  unfolding expiry
  expiry-later now pos = ground arith

  -- The text that `mint` returns resolves to the key that it returns and to the key's owner, at the
  -- time of minting, if the drawn prefix has no underscore and the secret no white space, neither
  -- is empty, the default life time is not zero, and the owner's row is found, is active and has a
  -- role other than `no_access`.
  pub resolve-mint :
      (key : ApiKey) (plain : Text) (owner : User) (r : UserRole) (db db' : Db)
      → NoUnderscore drawn.key_prefix
      → is_empty drawn.key_prefix ≡ false
      → NoSpace drawn.secret
      → is_empty drawn.secret ≡ false
      → 0 < st.default_ttl_days
      → mint sha256 st drawn request actor db ≡ ok ((key, plain), db')
      → find? (is_live_user key.user_id) db.users.rows ≡ some owner
      → owner.is_active ≡ true
      → user_role owner.role ≡ some r
      → role_eq r no_access ≡ false
      → resolve sha256 plain db' ≡ ok (some (key, owner))
  unfolding mint resolve
  resolve-mint key plain owner r db db' up ep us es ttl h found active role allowed =
      let (minter, mid, chosen, rest) =
        >>=-eq-ok (key_owner actor request.user_id) (mint_for sha256 st drawn request) db h in
      let (same_rank, same, who) = key_owner-rank actor minter request.user_id db mid chosen in
      let (kept, bound, whose, stored, alive, text) =
        mint_for_bounds minter key plain mid db' rest in
      let (row, hash, unrevoked, life, own, act, users, clock) =
        mint_for-found minter key plain mid db' rest in
      rw (text, split_api_key-full_key drawn.key_prefix drawn.secret up ep us es)
        (ground (
          arith,
          row,
          hash,
          unrevoked,
          life,
          users,
          clock,
          same,
          found,
          active,
          role,
          allowed,
          text_eq_refl (sha256 drawn.secret),
          expiry-later mid.now ttl,
        ))
