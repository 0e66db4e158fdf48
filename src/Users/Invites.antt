-- ===== src/Users/Invites.antt =====
-- A new account and its invitation: `create_user` of app/services/user_service.py.
use api_testoria.Base.{
  ◌≡◌, refl, inl, inr, false, not, ◌&&◌, Option, none, [], ◌∷◌, ◌++◌, arith, ok, any, Bool-cases,
  codes, Text,
}
use api_testoria.Db.{Db, User, EmailOutbox, pending, insert}
use api_testoria.Effects.{log_action}
use api_testoria.Email.Outbox.{enqueue, new_email}
use api_testoria.Auth.Roles.{admin, role_eq}
use api_testoria.Users.{
  Site, Secrets, UserCreate, is_same, create_user, queue_welcome_invite, assert_can_manage_role,
  is_unrestricted, context_of, link, new_user,
}

abbrev invitation : Site → Secrets → User → Db → EmailOutbox
invitation site drawn user db =
    new_email site.email_max_attempts user.email (codes "welcome_invite")
      (context_of user (link site (codes "set-password") drawn.token))
      (codes "Welcome to Testoria — set your password") none db.now db.outbox.next_id

-- A creation that returns found no user, deleted ones included, of the name or the address. It adds
-- the user with the hash of the drawn password, and in the same commit exactly one mail, to be sent
-- to the user's address, and nothing to the rest of the outbox. The password itself goes nowhere
-- else: with any other one drawn, the outbox, the audit log and the events come out the same.
pub create_user-invites :
    (site : Site) (drawn : Secrets) (data' : UserCreate) (actor : Option User) (user : User)
    (db db' : Db)
    → create_user site drawn data' actor db ≡ ok (user, db')
    → (any (is_same data') db.users.rows ≡ false)
      × (db'.users.rows ≡ db.users.rows ++ user ∷ [])
      × (user.hashed_password ≡ site.password_hash drawn.password)
      × (mail : EmailOutbox) × (db'.outbox.rows ≡ db.outbox.rows ++ mail ∷ [])
      × (mail.to_email ≡ user.email)
      × (mail.status ≡ pending)
      × ((other : Text)
          → (user' : User) × (db'' : Db) × (create_user site
                (record drawn { password = other })
                data'
                actor
                db
              ≡ ok (user', db''))
            × (db''.outbox ≡ db'.outbox)
            × (db''.audit_logs ≡ db'.audit_logs)
            × (db''.events ≡ db'.events))
unfolding create_user queue_welcome_invite enqueue log_action assert_can_manage_role
create_user-invites site drawn data' actor user db db' h =
    elim (Bool-cases (any (is_same data') db.users.rows)) [
      | inl t ↦ elim (Bool-cases (not (is_unrestricted actor) && role_eq data'.role admin)) [
        | inl k ↦ absurd (ground arith)
        | inr k ↦ absurd (ground arith)
      ]
      | inr t ↦ elim (Bool-cases (not (is_unrestricted actor) && role_eq data'.role admin)) [
        | inl k ↦ absurd (ground arith)
        | inr k ↦ (
          t,
          ground arith,
          ground arith,
          invitation site drawn user db,
          ground arith,
          ground arith,
          ground arith,
          λ other.
              let row = new_user site (record drawn { password = other }) data' db.now in
              (
                row db.users.next_id,
                record db' { users = insert row db.users },
                ground arith,
                refl,
                refl,
                refl,
              ),
        )
      ]
    ]
