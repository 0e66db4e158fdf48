-- ===== src/Examples/Accounts.antt =====
-- Examples of accounts.
use api_testoria.Base.{◌≡◌, refl, false, Option, none, some, [], arith, codes, any, select}
use api_testoria.Db.{Db, User, HasKeys}
use api_testoria.Effects.{log_action}
use api_testoria.Email.Outbox.{enqueue}
use api_testoria.Auth.Roles.{tester}
use api_testoria.Users.{
  Site, Secrets, UserCreate, is_admin, is_same, assert_can_manage_role, queue_welcome_invite,
  create_user,
}
use api_testoria.Users.Authority.{nothing, create, Managed-admins}
use api_testoria.Users.Invites.{create_user-invites}
use api_testoria.Examples.{shop, user_of, after, value}

abbrev site : Site
site = record {
  password_hash = λ s. s;
  frontend_base_url = codes "http://x/";
  email_max_attempts = 5;
}

abbrev drawn : Secrets
drawn = record { password = codes "p"; token = codes "t" }

abbrev bob : UserCreate
bob = record { username = codes "bob"; email = codes "bob@x"; full_name = none; role = tester }

-- a lead who creates the account
abbrev actor : Option User
actor = some (user_of 9 (codes "lead"))

abbrev with_bob : Db
unfolding create_user queue_welcome_invite enqueue log_action assert_can_manage_role
with_bob = after (create_user site drawn bob actor shop)

abbrev bob_row : User
unfolding create_user queue_welcome_invite enqueue log_action assert_can_manage_role
bob_row = value (user_of 0 []) (create_user site drawn bob actor shop)

keys : HasKeys (λ (u : User). u.id) shop.users
keys = ((omega arith, tt), λ k. ground arith)

Managed-admins_example :
    (HasKeys (λ (u : User). u.id) with_bob.users)
    × (select is_admin with_bob.users.rows ≡ select is_admin shop.users.rows)
unfolding create_user queue_welcome_invite enqueue log_action assert_can_manage_role
Managed-admins_example =
    Managed-admins site actor shop with_bob refl keys (create drawn bob bob_row nothing refl)

create_user-invites_example : any (is_same bob) shop.users.rows ≡ false
unfolding create_user queue_welcome_invite enqueue log_action assert_can_manage_role
create_user-invites_example =
    (create_user-invites site drawn bob actor bob_row shop with_bob refl).0
