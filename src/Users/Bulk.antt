-- ===== src/Users/Bulk.antt =====
-- `bulk_create_users` of app/services/user_service.py.
use api_testoria.Base.{ℕ, ◌+◌, ◌≡◌, List, length, ◌⊎◌}
use api_testoria.Db.{Db}
use api_testoria.Users.{BulkError}

abbrev created_of : Db × ℕ × List BulkError → ℕ
created_of r = r.1

abbrev errors_of : Db × ℕ × List BulkError → List BulkError
errors_of r = r.2

-- one error, or all `n` users created
abbrev IsOneOrAll : ℕ → Db × ℕ × List BulkError → Type 0
IsOneOrAll n r = (length (errors_of r) ≡ 1) ⊎ ((length (errors_of r) ≡ 0) × (created_of r ≡ n))

-- `n` more users, and as many more mails
abbrev pub Grows : ℕ → Db → Db → Type 0
Grows n db db' =
    (length db'.users.rows ≡ length db.users.rows + n)
    × (length db'.outbox.rows ≡ length db.outbox.rows + n)
