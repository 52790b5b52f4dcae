-- ===== src/Seed.antt =====
-- internal/bootstrap/bootstrap.go: the rows of the super administrator that the program makes sure
-- of when it starts. A start stops at the first error.
pub mod Tree
pub mod Menus
pub mod Super
pub mod Lost
pub mod Unprotected
use clip_sync_admin.Prelude.{
  ℕ, String, Bool, ◌&&◌, none, some, ◌==◌, nat_eq, string_eq, if◌then◌else◌,
}
use clip_sync_admin.Reply.{raw}
use clip_sync_admin.Config.{BootstrapConfig}
use clip_sync_admin.Model.{RbacAdmin, RbacRole, RbacAdminRole}
use clip_sync_admin.World.{
  M, pure, gets, ◌>>=◌, ◌>>◌, Table, first, count, create, admins, roles, admin_roles, admin_base,
  role_base, admin_role_base, not_del, no_base, created_by,
}
use clip_sync_admin.Auth.{hash_password}

-- The first row that a condition selects, or else a row that is created.
abbrev pub first_or : {Row : Type 0} → Table Row → (Row → Bool) → M Row → M Row
first_or t p make = do found ← first t raw p; elim found [ some r ↦ pure r | none ↦ make ]

abbrev pub account_of : BootstrapConfig → String
account_of c = if c.super_admin_account == "" then "admin" else c.super_admin_account

abbrev pub password_of : BootstrapConfig → String
password_of c = if c.super_admin_password == "" then "Admin**8" else c.super_admin_password

abbrev pub name_of : BootstrapConfig → String
name_of c = if c.super_admin_name == "" then "超级管理员" else c.super_admin_name

-- The conditions of the three statements that look for a row.
abbrev pub is_super_role : RbacRole → Bool
is_super_role r = r.type == 1 && not_del r

abbrev pub has_account : String → RbacAdmin → Bool
has_account account a = a.account == account && not_del a

abbrev pub binds : ℕ → ℕ → RbacAdminRole → Bool
binds admin_id role_id r = r.admin_id == admin_id && r.role_id == role_id && not_del r

unfoldable pub create_super_role : String → M RbacRole
create_super_role name = do
  now ← gets (λ w. w.now)
  create roles raw (
      created_by now 0 (record {
        id = 0;
        name = name;
        type = 1;
        base = record no_base { remark = "系统内置：拥有全部权限" };
      }))

unfoldable pub create_super_admin : BootstrapConfig → ℕ → M RbacAdmin
unfolding hash_password
create_super_admin c cost = do
  hash ← hash_password (password_of c) cost
  now ← gets (λ w. w.now)
  create admins raw (
      created_by now 0 (record {
        id = 0;
        name = name_of c;
        account = account_of c;
        password = hash;
        is_lock = 0;
        avatar = "";
        validity_period = none;
        last_update_password_time = some now;
        last_login_time = none;
        base = record no_base { remark = "系统内置超级管理员" };
      }))

abbrev pub new_binding : ℕ → ℕ → RbacAdminRole
new_binding admin_id role_id = record {
  id = 0;
  admin_id = admin_id;
  role_id = role_id;
  base = record no_base { remark = "系统内置绑定" };
}

abbrev bind_if_none : ℕ → RbacAdminRole → M (Unit {0})
bind_if_none cnt r = if cnt == 0 then create admin_roles raw r >> pure tt else pure tt

-- The binding of the administrator to the role, where there is none.
unfoldable pub bind_super : ℕ → ℕ → M (Unit {0})
bind_super admin_id role_id = do
  cnt ← count admin_roles raw (binds admin_id role_id)
  now ← gets (λ w. w.now)
  bind_if_none cnt (created_by now 0 (new_binding admin_id role_id))

-- `SeedSuperAdmin`
unfoldable pub seed_super_admin : BootstrapConfig → ℕ → M (Unit {0})
unfolding create_super_role create_super_admin bind_super
seed_super_admin c cost = do
  role ← first_or roles is_super_role (create_super_role (name_of c))
  admin ← first_or admins (has_account (account_of c)) (create_super_admin c cost)
  bind_super admin.id role.id
