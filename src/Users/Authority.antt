-- ===== src/Users/Authority.antt =====
-- Who may touch the admins: the guards of app/services/user_service.py.
use api_testoria.Base.{
  ℕ, ◌≡◌, refl, ◌∙◌, ◌⊎◌, inl, inr, true, false, not, ◌&&◌, Option, none, some, List, arith, ok,
  raised, forbidden, Text, select, find?, any, ◌==◌, text_eq, All, All-mono, select-append_outside,
  select-update_where_outside, only_one, count_pos_of_find?, Bool-cases, Option-cases,
}
use api_testoria.Db.{Db, User, insert, update, HasKeys, insert-HasKeys, update-HasKeys}
use api_testoria.Effects.{log_action}
use api_testoria.Email.Outbox.{enqueue}
use api_testoria.Auth.Roles.{
  UserRole, no_access, read_only, tester, lead, admin, role_value, role_eq,
}
use api_testoria.Users.{
  Site, Secrets, UserCreate, UserUpdate, is_unrestricted, is_admin, new_user, is_same, create_user,
  is_live_user, clashes, check_role, get_user, updated_user, new_role, update_user, delete_user,
  assert_can_manage_role, assert_can_manage_user, queue_welcome_invite,
}

-- the users with the role of an admin, deleted ones included
abbrev admins : Db → List User
admins db = select is_admin db.users.rows

is_admin-role_value : (r : UserRole) → text_eq (role_value r) (role_value admin) ≡ role_eq r admin
is_admin-role_value no_access = refl
is_admin-role_value read_only = refl
is_admin-role_value tester = refl
is_admin-role_value lead = refl
is_admin-role_value admin = refl

create_user-writes :
    (site : Site) (drawn : Secrets) (data' : UserCreate) (actor : Option User) (user : User)
    (db db' : Db)
    → is_unrestricted actor ≡ false
    → create_user site drawn data' actor db ≡ ok (user, db')
    → (role_eq data'.role admin ≡ false)
      × (db'.users ≡ insert (new_user site drawn data' db.now) db.users)
unfolding create_user queue_welcome_invite enqueue log_action assert_can_manage_role
create_user-writes site drawn data' actor user db db' u h =
    elim (Bool-cases (role_eq data'.role admin)) [
      | inl e ↦ absurd (ground arith)
      | inr e ↦ elim (Bool-cases (any (is_same data') db.users.rows)) [
        | inl t ↦ absurd (ground arith)
        | inr t ↦ (e, ground arith)
      ]
    ]

-- where an operation on a user that is no admin writes
outside :
    (user_id : ℕ) (user : User) (db : Db)
    → HasKeys (λ (u : User). u.id) db.users
    → find? (is_live_user user_id) db.users.rows ≡ some user
    → is_admin user ≡ false
    → All (λ u. ((u.id == user.id) ≡ false) ⊎ (is_admin u ≡ false)) db.users.rows
outside user_id user db keys found low =
    let same = λ (u : User). u.id == user.id in
    let plain = λ (u : User). not (is_admin u) in
    All-mono _ (λ u. (same u ≡ false) ⊎ (plain u ≡ true)) db.users.rows (λ u e. ground arith)
      (only_one same plain db.users.rows (keys.1 user.id) (
        count_pos_of_find? (λ u. same u && plain u) (is_live_user user_id) db.users.rows found
          (ground arith)))

check_role-cases :
    (actor : Option User) (role : Option UserRole) (db : Db)
    → is_unrestricted actor ≡ false
    → (check_role actor role db ≡ raised forbidden)
      ⊎ ((check_role actor role db ≡ ok (tt, db))
          × ((old : Text)
              → text_eq old (role_value admin) ≡ false
              → text_eq (new_role role old) (role_value admin) ≡ false))
unfolding assert_can_manage_role
check_role-cases actor none db r = inr (refl, λ old e. e)
check_role-cases actor (some role) db r = elim (Bool-cases (role_eq role admin)) [
  | inl t ↦ inl (ground arith)
  | inr t ↦ inr (ground arith, λ old e. is_admin-role_value role ∙ t)
]

update_user-writes :
    (site : Site) (user_id : ℕ) (data' : UserUpdate) (actor : Option User) (res : User)
    (db db' : Db)
    → is_unrestricted actor ≡ false
    → update_user site user_id data' actor db ≡ ok (res, db')
    → (user : User) × (find? (is_live_user user_id) db.users.rows ≡ some user)
      × (is_admin user ≡ false)
      × ((u : User) → is_admin u ≡ false → is_admin (updated_user site data' u) ≡ false)
      × (db'.users ≡ update (λ u. u.id == user.id) (updated_user site data') db.users)
unfolding update_user get_user assert_can_manage_user assert_can_manage_role
update_user-writes site user_id data' actor res db db' r h =
    elim (Option-cases (find? (is_live_user user_id) db.users.rows)) [
      | inl e ↦ absurd (ground arith)
      | inr (user, e) ↦ elim (Bool-cases (is_admin user)) [
        | inl t ↦ absurd (ground arith)
        | inr t ↦ elim (check_role-cases actor data'.role db r) [
          | inl c ↦ absurd (ground arith)
          | inr (c, low) ↦
              elim (Bool-cases (clashes user.id (updated_user site data' user).email db)) [
                | inl k ↦ absurd (ground arith)
                | inr k ↦ (user, e, t, λ u p. low u.role p, ground arith)
              ]
        ]
      ]
    ]

delete_user-writes :
    (user_id : ℕ) (actor : Option User) (db db' : Db)
    → is_unrestricted actor ≡ false
    → delete_user user_id actor db ≡ ok (tt, db')
    → (user : User) × (find? (is_live_user user_id) db.users.rows ≡ some user)
      × (is_admin user ≡ false)
      × (db'.users
          ≡ update (λ u. u.id == user.id) (λ u. record u { deleted_at = some db.now }) db.users)
unfolding delete_user get_user assert_can_manage_user
delete_user-writes user_id actor db db' r h =
    elim (Option-cases (find? (is_live_user user_id) db.users.rows)) [
      | inl e ↦ absurd (ground arith)
      | inr (user, e) ↦ elim (Bool-cases (is_admin user)) [
        | inl t ↦ absurd (ground arith)
        | inr t ↦ elim (Bool-cases (text_eq user.role (role_value lead))) [
          | inl l ↦ absurd (ground arith)
          | inr l ↦ (user, e, t, ground arith)
        ]
      ]
    ]

-- The calls that one actor makes, each returning, in any order and number.
pub data Managed (site : Site) (actor : Option User) : Db → Db → Type 0 where
  nothing : {db : Db} → Managed site actor db db
  create :
      {db db1 db2 : Db} (drawn : Secrets) (data' : UserCreate) (user : User)
      → Managed site actor db db1
      → create_user site drawn data' actor db1 ≡ ok (user, db2)
      → Managed site actor db db2
  change :
      {db db1 db2 : Db} (user_id : ℕ) (data' : UserUpdate) (user : User)
      → Managed site actor db db1
      → update_user site user_id data' actor db1 ≡ ok (user, db2)
      → Managed site actor db db2
  delete :
      {db db1 db2 : Db} (user_id : ℕ)
      → Managed site actor db db1
      → delete_user user_id actor db1 ≡ ok (tt, db2)
      → Managed site actor db db2

-- Whatever an actor who is no admin creates, changes and deletes, the admins are the same as before,
-- in each of their fields, and no user becomes one.
pub Managed-admins :
    (site : Site) (actor : Option User) (db db' : Db)
    → is_unrestricted actor ≡ false
    → HasKeys (λ (u : User). u.id) db.users
    → Managed site actor db db'
    → (HasKeys (λ (u : User). u.id) db'.users) × (admins db' ≡ admins db)
Managed-admins site actor db db' r keys nothing = (keys, refl)
Managed-admins site actor db db' r keys (create {db1 = mid} drawn data' user before h) =
    let (kept, same) = Managed-admins site actor db mid r keys before in
    let (low, writes) = create_user-writes site drawn data' actor user mid db' r h in
    (
      rw writes (insert-HasKeys (λ (u : User). u.id) (new_user site drawn data' _) _ refl kept),
      rw writes (
            select-append_outside is_admin mid.users.rows
              (new_user site drawn data' mid.now mid.users.next_id)
              (is_admin-role_value data'.role ∙ low))
          ∙ same,
    )
Managed-admins site actor db db' r keys (change {db1 = mid} user_id data' user before h) =
    let (kept, same) = Managed-admins site actor db mid r keys before in
    let (old, found, plain, low, writes) =
      update_user-writes site user_id data' actor user mid db' r h in
    (
      rw writes (
          update-HasKeys (λ (u : User). u.id) _ (updated_user site data') mid.users (λ u. refl)
            kept),
      rw writes (
            select-update_where_outside is_admin (λ u. u.id == old.id) (updated_user site data')
              mid.users.rows (outside user_id old mid kept found plain) low)
          ∙ same,
    )
Managed-admins site actor db db' r keys (delete {db1 = mid} user_id before h) =
    let (kept, same) = Managed-admins site actor db mid r keys before in
    let (old, found, plain, writes) = delete_user-writes user_id actor mid db' r h in
    (
      rw writes (update-HasKeys (λ (u : User). u.id) _ _ mid.users (λ u. refl) kept),
      rw writes (
            select-update_where_outside is_admin (λ u. u.id == old.id) _ mid.users.rows
              (outside user_id old mid kept found plain) (λ u e. e))
          ∙ same,
    )
