-- ===== src/Examples/Keys.antt =====
-- Examples of API keys, principals and permissions.
use api_testoria.Base.{
  ◌≡◌, ◌≤◌, refl, false, Option, none, some, [], ◌∷◌, ◌+◌, ◌*◌, is_space, arith, ok, raised,
  forbidden, codes, Text, count, ◌==◌,
}
use api_testoria.Db.{Db, User, ApiKey}
use api_testoria.Auth.Roles.{
  UserRole, tester, lead, admin, hierarchy, user_role, rank, weakest, effective_role,
}
use api_testoria.Auth.Permissions.{
  execute_test, require_permission, require_permission-monotone, has_permission,
}
use api_testoria.Auth.Secrets.{full_key, split_api_key}
use api_testoria.Auth.ApiKeys.{
  Settings, ApiKeyCreate, Drawn, mint, mint_for, key_owner, expiry, resolve, revoke,
  touch_last_used,
}
use api_testoria.Auth.ApiKeys.Minting.{resolve-mint}
use api_testoria.Auth.ApiKeys.Resolving.{IsUsable, resolve-IsUsable}
use api_testoria.Auth.Principals.{
  jwt, api_key, Principal, Payload, principal_from_jwt, principal_from_api_key, require_role,
  require_jwt,
}
use api_testoria.Auth.Principals.Authority.{
  principal_from_api_key-bounds, api_key_closed, principal_from_jwt-deleted,
}
use api_testoria.Examples.{shop, user_of, table, after}

-- a hash that tells the texts of the examples apart
abbrev digest : Text → Text
digest s = 1 ∷ s

abbrev settings : Settings
settings = record {
  max_role = codes "tester";
  default_ttl_days = 90;
  last_used_throttle_seconds = 60;
}

abbrev drawn : Drawn
drawn = record { key_prefix = codes "ab12"; secret = codes "s_3" }

abbrev request : ApiKeyCreate
request = record {
  name = codes "ci";
  project_id = some 1;
  role = tester;
  expires_in_days = none;
  never_expires = false;
  user_id = none;
}

abbrev ann : User
ann = user_of 1 (codes "admin")

abbrev a_key : ApiKey
a_key = record {
  id = 1;
  name = codes "ci";
  key_prefix = codes "ab12";
  key_hash = 1 ∷ codes "s_3";
  user_id = 1;
  project_id = some 1;
  role = codes "tester";
  expires_at = some (1000 + 90 * 86400);
  last_used_at = none;
  revoked_at = none;
  created_at = 1000;
}

abbrev keyed : Db
keyed = record shop { api_keys = table (a_key ∷ []) 2 }

abbrev revoked : Db
unfolding revoke
revoked = after (revoke 1 ann keyed)

require_permission-monotone_example : require_permission execute_test ann ≡ ok ann
unfolding require_permission has_permission user_role
require_permission-monotone_example =
    require_permission-monotone execute_test (user_of 2 (codes "tester")) ann tester admin refl refl
      (omega arith) refl

resolves : resolve digest (full_key drawn.key_prefix drawn.secret) keyed ≡ ok (some (a_key, ann))
unfolding resolve split_api_key is_space full_key user_role
resolves = refl

resolve-mint_example :
    resolve digest (full_key drawn.key_prefix drawn.secret) keyed ≡ ok (some (a_key, ann))
unfolding mint mint_for key_owner rank user_role expiry full_key is_space
resolve-mint_example =
    resolve-mint digest settings drawn request ann a_key _ ann admin shop keyed
      (refl, (refl, (refl, (refl, tt)))) refl (refl, (refl, (refl, tt))) refl (omega arith) refl
      refl refl refl refl

resolve-IsUsable_example :
    (key_prefix : Text) × (secret : Text) × (r : UserRole) × (split_api_key
        (full_key drawn.key_prefix drawn.secret)
      ≡ some (key_prefix, secret))
    × IsUsable digest keyed key_prefix secret a_key ann r
resolve-IsUsable_example =
    (resolve-IsUsable digest (full_key drawn.key_prefix drawn.secret) keyed a_key ann).0 resolves

abbrev principal : Principal
principal = record {
  user = ann;
  role = tester;
  project_id = some 1;
  via = api_key;
  api_key_id = some 1;
}

abbrev touched : Db
touched = record keyed { api_keys = table (record a_key { last_used_at = some 1000 } ∷ []) 2 }

principal_from_api_key-bounds_example :
    (key : ApiKey) × (resolve digest (codes "tsk_ab12_s_3") keyed ≡ ok (some (key, ann)))
    × (hierarchy tester ≤ rank key.role)
    × (hierarchy tester ≤ rank ann.role)
    × (hierarchy tester ≤ rank settings.max_role)
    × (some 1 ≡ key.project_id)
    × (api_key ≡ api_key)
unfolding principal_from_api_key resolve split_api_key is_space touch_last_used effective_role
    weakest rank user_role
principal_from_api_key-bounds_example =
    principal_from_api_key-bounds digest settings (codes "tsk_ab12_s_3") keyed touched principal
      refl

api_key_closed_example :
    (require_role (lead ∷ admin ∷ []) principal ≡ raised forbidden)
    × (require_jwt principal ≡ raised forbidden)
unfolding principal_from_api_key resolve split_api_key is_space touch_last_used effective_role
    weakest rank user_role
api_key_closed_example =
    api_key_closed digest settings (codes "tsk_ab12_s_3") keyed touched principal (omega arith) refl

-- another key of the same owner, which the revocation of the first leaves usable
abbrev other_key : ApiKey
other_key = record a_key { id = 2; key_prefix = codes "cd34" }

abbrev two_keys : Db
two_keys = record shop { api_keys = table (a_key ∷ other_key ∷ []) 3 }

one_key : count (λ (k : ApiKey). k.id == 1) two_keys.api_keys.rows ≤ 1
one_key = omega arith

abbrev gone : User
gone = record ann { deleted_at = some 900 }

abbrev closed_shop : Db
closed_shop = record keyed { users = table (gone ∷ []) 2 }

abbrev reader : Text → Option Payload
reader token = some (record { type = codes "access"; sub = some (some 1) })

principal_from_jwt-deleted_example :
    principal_from_jwt reader (codes "t") closed_shop
    ≡ ok (
      record { user = gone; role = admin; project_id = none; via = jwt; api_key_id = none },
      closed_shop,
    )
unfolding user_role
principal_from_jwt-deleted_example =
    (principal_from_jwt-deleted digest reader (codes "t") (codes "tsk_ab12_s_3")
      (record { type = codes "access"; sub = some (some 1) }) gone admin a_key closed_shop refl refl
      refl refl refl refl refl refl).0
