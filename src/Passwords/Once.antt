-- ===== src/Passwords/Once.antt =====
-- The reset of a password: `reset_password` and `forgot_password` of app/api/v1/auth.py.
use api_testoria.Base.{
  ℕ, ◌≡◌, refl, inl, inr, true, Option, none, some, arith, ok, raised, bad_request, find?, Text,
  ◌==◌, Option-cases, Bool-cases, find?-update_where-some,
}
use api_testoria.Db.{Db, User}
use api_testoria.Effects.{log_action}
use api_testoria.Users.{Site, is_live_user, set_password, with_password}
use api_testoria.Passwords.{
  Purpose, Store, is_valid, payload_of, consume_token, peek_token, reset_password, change_password,
}
use api_testoria.Passwords.Tokens.{find?-removed}

change_password-sets :
    (site : Site) (new_password : Text) (consumed : Option (ℕ × Purpose)) (db db' : Db)
    → change_password site new_password consumed db ≡ ok (tt, db')
    → (user_id : ℕ) × (purpose : Purpose) × (user : User) × (consumed ≡ some (user_id, purpose))
      × (find? (is_live_user user_id) db'.users.rows ≡ some user)
      × (user.hashed_password ≡ site.password_hash new_password)
      × (user.is_active ≡ true)
unfolding set_password log_action
change_password-sets site new_password none db db' h = absurd (ground arith)
change_password-sets site new_password (some (user_id, purpose)) db db' h =
    elim (Option-cases (find? (is_live_user user_id) db.users.rows)) [
      | inl e ↦ absurd (ground arith)
      | inr (u, e) ↦ elim (Bool-cases u.is_active) [
        | inr t ↦ absurd (ground arith)
        | inl t ↦
            let moved =
              find?-update_where-some (is_live_user user_id) (λ k. k.id == u.id)
                (with_password site new_password) db.users.rows (λ k f. refl) e in
            (
              user_id,
              purpose,
              with_password site new_password u,
              refl,
              ground (arith, moved),
              refl,
              t,
            )
      ]
    ]

-- A reset that succeeds had a token that was still good, and it sets the password of the token's
-- user, who is live and active. The same token is refused afterwards, in every later state of the
-- database.
pub reset_password_once :
    (site : Site) (token new_password other_password : Text) (store store' : Store)
    (db db' later : Db)
    → reset_password site token new_password store db ≡ (store', ok (tt, db'))
    → ((user_id : ℕ) × (purpose : Purpose) × (user : User) × (peek_token token db.now store
          ≡ some (user_id, purpose))
        × (find? (is_live_user user_id) db'.users.rows ≡ some user)
        × (user.hashed_password ≡ site.password_hash new_password)
        × (user.is_active ≡ true))
      × ((reset_password site token other_password store' later).1 ≡ raised bad_request)
unfolding reset_password consume_token peek_token
reset_password_once site token new_password other_password store store' db db' later h = (
  change_password-sets site new_password (payload_of (find? (is_valid token db.now) store)) db db'
      (ground arith),
  ground (arith, find?-removed token later.now store),
)
