-- ===== src/Examples/Resets.antt =====
-- Examples of password tokens.
use api_testoria.Base.{◌≡◌, refl, some, [], raised, bad_request, codes}
use api_testoria.Db.{Db}
use api_testoria.Effects.{log_action}
use api_testoria.Users.{Site, set_password}
use api_testoria.Passwords.{
  invite, reset, Store, create_token, peek_token, consume_token, reset_password,
}
use api_testoria.Passwords.Tokens.{peek_token-create_token}
use api_testoria.Passwords.Once.{reset_password_once}
use api_testoria.Examples.{shop, after}

abbrev site : Site
site = record {
  password_hash = λ s. s;
  frontend_base_url = codes "http://x";
  email_max_attempts = 5;
}

peek_token-create_token_example :
    peek_token (codes "t") 20 (create_token (codes "t") 1 invite 30 10 []) ≡ some (1, invite)
peek_token-create_token_example =
    (peek_token-create_token (codes "t") (codes "u") 1 invite 30 10 20 [] refl).0

abbrev stored : Store
unfolding create_token
stored = create_token (codes "t") 1 reset 3600 900 []

abbrev renewed : Db
unfolding create_token reset_password consume_token set_password log_action
renewed = after ((reset_password site (codes "t") (codes "new") stored shop).1)

reset_password_once_example :
    (reset_password site (codes "t") (codes "again") [] renewed).1 ≡ raised bad_request
unfolding create_token reset_password consume_token set_password log_action
reset_password_once_example =
    (reset_password_once site (codes "t") (codes "new") (codes "again") stored [] shop renewed
      renewed refl).1
