-- ===== src/Tests/Witness.antt =====
-- The theorems on requests, middlewares and routes at concrete inputs.
use mathlib.Core.List.{Memᴰ}
use clip_sync_admin.Prelude.{◌+◌, ◌≡◌, ◌≢◌, ◌⊎◌, ◌↔◌, List, refl, inr, some, none, [], arith}
use clip_sync_admin.Prelude.Members.{IsOrdered}
use clip_sync_admin.Reply.{ok, success}
use clip_sync_admin.Config.{second}
use clip_sync_admin.World.{World}
use clip_sync_admin.Model.{RbacMenu}
use clip_sync_admin.Access.{method_code, before_menu, menus_for_admin}
use clip_sync_admin.Access.Menus.{menus_for_admin_shows}
use clip_sync_admin.Access.Spec.{HasSuperRole, Granted, IsMenuFor}
use clip_sync_admin.Session.Keys.{token_key, sign_secret_key}
use clip_sync_admin.Middleware.Signature.{Request, pass, sign}
use clip_sync_admin.Middleware.Signature.Correct.{IsSigned, sign_sound}
use clip_sync_admin.Middleware.Signature.Replay.{replay_refused}
use clip_sync_admin.Middleware.Token.{Session, jwt_auth}
use clip_sync_admin.Middleware.Token.Correct.{IsAuthenticated, jwt_auth_sound}
use clip_sync_admin.Middleware.Permission.{rbac}
use clip_sync_admin.Middleware.Permission.Correct.{rbac_sound}
use clip_sync_admin.Middleware.Permission.Complete.{rbac_complete}
use clip_sync_admin.Handler.Respond.{Handled}
use clip_sync_admin.Router.{checked_route}
use clip_sync_admin.Router.Correct.{IsRefused, checked_route_guards}
use clip_sync_admin.Tests.Redis.{memory-IsRedis}
use clip_sync_admin.Tests.Sample.{
  env, world, admin_claims, role_menu, menu_perm, op_role, users_perm,
}

abbrev pub request : Request
request = record {
  method = "GET";
  path = "/api/admin/users";
  query = [];
  timestamp = "1200000";
  nonce = "n1";
  signature = "secretGET\n/users\n\n1200000\nn1\n";
  authorization = "Bearer jwt:op";
  body = some "";
}

pub signed : (sign request env world).0 ≡ ok (pass tt)
unfolding sign sign_secret_key
signed = refl

sign_sound_example : IsSigned env world request
sign_sound_example = sign_sound request env world memory-IsRedis signed

-- The world a second after the request.
abbrev later : World
later = record (sign request env world).1 { now = world.now + second }

replay_refused_example : (sign request env later).0 ≢ ok (pass tt)
replay_refused_example =
    replay_refused request request env world later memory-IsRedis signed refl refl (omega arith)

abbrev session : Session
session = record { claims = admin_claims 2; token = "jwt:op"; refreshed = none }

admitted : (jwt_auth "Bearer jwt:op" env world).0 ≡ ok (pass session)
unfolding jwt_auth token_key
admitted = refl

jwt_auth_sound_example : IsAuthenticated env world "Bearer jwt:op" session
jwt_auth_sound_example = jwt_auth_sound env world "Bearer jwt:op" session memory-IsRedis admitted

pub users-Granted : Granted world.db 2 (method_code "GET") "/api/admin/users"
unfolding method_code
users-Granted = record {
  perm = users_perm;
  listed = Memᴰ.head refl;
  active = refl;
  same_route = refl;
  same_method = inr refl;
  allowed = inr (record {
    role_menu = role_menu;
    menu_perm = menu_perm;
    role_listed = Memᴰ.head refl;
    perm_listed = Memᴰ.head refl;
    role_active = refl;
    perm_active = refl;
    bound = record {
      binding = op_role;
      listed = Memᴰ.tail (Memᴰ.head refl);
      active = refl;
      of_admin = refl;
      to_role = refl;
    };
    same_menu = refl;
    to_perm = refl;
  });
}

allowed : (rbac (some (admin_claims 2)) "GET" "/api/admin/users" env world).0 ≡ ok (pass tt)
allowed =
    rbac_complete env world (admin_claims 2) "GET" "/api/admin/users" (λ n. refl)
      (inr users-Granted)

rbac_sound_example :
    HasSuperRole world.db 2 ⊎ Granted world.db 2 (method_code "GET") "/api/admin/users"
rbac_sound_example = rbac_sound env world (admin_claims 2) "GET" "/api/admin/users" allowed

menus_for_admin_shows_example :
    (ms : List RbacMenu) × ((menus_for_admin 2 env world).0 ≡ ok ms)
    × ((m : RbacMenu) → Memᴰ m ms ↔ IsMenuFor world.db 2 m)
    × IsOrdered before_menu ms
    × ((menus_for_admin 2 env world).1.db ≡ world.db)
menus_for_admin_shows_example = menus_for_admin_shows env world 2 (λ n. refl)

abbrev pub handler : Session → Handled (Unit {0})
handler s _ w = (success none, w)

checked_route_guards_example :
    ((s : Session) × (w' : World) × IsSigned env world request
      × IsAuthenticated env (sign request env world).1 "Bearer jwt:op" s
      × (HasSuperRole world.db s.claims.admin_id
          ⊎ Granted world.db s.claims.admin_id (method_code "GET") "/api/admin/users")
      × (w'.db ≡ world.db)
      × (checked_route request "/api/admin/users" handler env world ≡ handler s env w'))
    ⊎ IsRefused (checked_route request "/api/admin/users" handler env world) world
checked_route_guards_example =
    checked_route_guards request "/api/admin/users" handler env world memory-IsRedis
