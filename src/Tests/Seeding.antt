-- ===== src/Tests/Seeding.antt =====
-- The theorems on the seeding of the database, at concrete inputs.
use clip_sync_admin.Prelude.{
  ◌≡◌, ◌≢◌, refl, true, some, [], ◌∷◌, All, arith, all, nat_eq, string_eq,
}
use clip_sync_admin.Prelude.Int.{pos}
use clip_sync_admin.Reply.{ok}
use clip_sync_admin.Model.{RbacAdmin, RbacPerm, RbacMenu, Db}
use clip_sync_admin.World.{Env, World}
use clip_sync_admin.Access.Spec.{HasSuperRole}
use clip_sync_admin.Middleware.Permission.{rbac, after_roles, after_super}
use clip_sync_admin.Access.{user_role_ids, is_super}
use clip_sync_admin.Middleware.Signature.{pass}
use clip_sync_admin.Rbac.Admins.{delete_admin}
use clip_sync_admin.Seed.{seed_super_admin}
use clip_sync_admin.Seed.Super.{seed_super_admin-again}
use clip_sync_admin.Seed.Unprotected.{super_admin_lost}
use clip_sync_admin.Seed.Tree.{PermSeed, MenuSeeds, menu, nil, cons}
use clip_sync_admin.Seed.Menus.{upsert_perm_and_bind, seed_menus_and_perms}
use clip_sync_admin.Seed.Menus.Intercept.{stored, upsert_perm_and_bind-opens_late}
use clip_sync_admin.Router.Routes.{admin_status_route}
use clip_sync_admin.Router.Routes.Seeded.{
  Registered, other_routes, in_tree, from_tree, seed-registers_routes, status_route_super_only,
}
use clip_sync_admin.Tests.Sample.{config, env, world, database, root, admin_claims}

-- A database without rows.
abbrev empty : Db
empty = record {
  admins = [];
  roles = [];
  admin_roles = [];
  menus = [];
  perms = [];
  role_menus = [];
  menu_perms = [];
  users = [];
  devices = [];
}

abbrev pub fresh : World
fresh = record world { db = empty }

seeded : (seed_super_admin config.bootstrap 10 env fresh).0 ≡ ok tt
unfolding seed_super_admin
seeded = refl

seed_super_admin-again_example :
    let w' = (seed_super_admin config.bootstrap 10 env fresh).1 in
    (seed_super_admin config.bootstrap 10 env w').1.db ≡ w'.db
seed_super_admin-again_example =
    seed_super_admin-again env env fresh (seed_super_admin config.bootstrap 10 env fresh).1
      config.bootstrap 10 seeded refl

-- The configuration without an account, and the administrator that the seeding makes of it.
abbrev no_account : Env
no_account = record env {
  cfg = record config { bootstrap = record config.bootstrap { super_admin_account = "" } };
}

abbrev admin : RbacAdmin
admin = record root { account = "admin" }

abbrev seeded_world : World
seeded_world = record world { db = record database { admins = admin ∷ [] } }

super_admin_lost_example :
    ((delete_admin 1 2 no_account seeded_world).0 ≡ ok tt)
    × ((seed_super_admin no_account.cfg.bootstrap 10 no_account
          (delete_admin 1 2 no_account seeded_world).1).0
        ≢ ok tt)
    × ((seed_super_admin no_account.cfg.bootstrap 10 no_account
          (delete_admin 1 2 no_account seeded_world).1).1.db.admins
        ≡ (delete_admin 1 2 no_account seeded_world).1.db.admins)
super_admin_lost_example =
    super_admin_lost no_account no_account seeded_world (delete_admin 1 2 no_account seeded_world).1
      admin 2 10 refl (λ n. refl) refl refl (omega arith) (omega arith) refl

abbrev small_tree : MenuSeeds
small_tree =
    cons
      (menu
        (record {
          code = "home";
          title = "Home";
          name = "home";
          path = "/";
          icon = "";
          type = 2;
          sort = pos 0;
        })
        [] nil)
      nil

-- A menu that the tree does not have.
abbrev old_menu : RbacMenu
old_menu = record {
  id = 1;
  name = "old";
  parent_id = 0;
  path = "";
  icon = "";
  is_link = 0;
  title = "";
  code = "old";
  include = "";
  type = 2;
  field_value_key = "";
  field_value_width = "";
  field_value_ellipsis = 0;
  base = root.base;
}

abbrev with_old : World
with_old = record world { db = record empty { menus = old_menu ∷ [] } }

-- A permission that is meant to be open to all.
abbrev open_seed : PermSeed
open_seed = record {
  name = "home";
  route = "/api/admin/dashboard";
  method = 1;
  is_intercept = 0;
  sort = pos 0;
}

first_run : (upsert_perm_and_bind 1 open_seed env fresh).0 ≡ ok tt
unfolding upsert_perm_and_bind
first_run = refl

second_run :
    (upsert_perm_and_bind 1 open_seed env (upsert_perm_and_bind 1 open_seed env fresh).1).0 ≡ ok tt
unfolding upsert_perm_and_bind
second_run = refl

upsert_perm_and_bind-opens_late_example :
    let w1 = (upsert_perm_and_bind 1 open_seed env fresh).1 in
    ((p : RbacPerm) × (stored open_seed w1.db ≡ some p) × (p.is_intercept ≡ 1))
    × ((q : RbacPerm) × (stored open_seed (upsert_perm_and_bind 1 open_seed env w1).1.db ≡ some q)
        × (q.is_intercept ≡ 0))
upsert_perm_and_bind-opens_late_example =
    upsert_perm_and_bind-opens_late env env fresh (upsert_perm_and_bind 1 open_seed env fresh).1
      open_seed 1 1 refl (omega arith) refl first_run refl second_run

root_passes :
    (rbac (some (admin_claims 1)) "PUT" admin_status_route.pattern env world).0 ≡ ok (pass tt)
unfolding rbac user_role_ids after_roles is_super after_super
root_passes = refl

all-from_tree : all from_tree world.db.perms ≡ true
unfolding in_tree
all-from_tree = refl

status_route_super_only_example : HasSuperRole world.db 1
status_route_super_only_example =
    status_route_super_only env world (admin_claims 1) all-from_tree root_passes

menus_seeded : (seed_menus_and_perms env fresh).0 ≡ ok tt
unfolding seed_menus_and_perms
menus_seeded = refl

seed-registers_routes_example : All (Registered (seed_menus_and_perms env fresh).1.db) other_routes
seed-registers_routes_example = seed-registers_routes env fresh refl menus_seeded
