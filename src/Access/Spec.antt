-- ===== src/Access/Spec.antt =====
-- What the permission check of internal/service/auth_service.go means, in terms of the rows of the
-- database: a role leads to its menus, and a menu to its permissions.
use clip_sync_admin.Prelude.{ℕ, String, ◌≡◌, ◌⊎◌, true, nat_eq}
use mathlib.Core.List.{Memᴰ}
use clip_sync_admin.Model.{
  RbacAdminRole, RbacRole, RbacRoleMenu, RbacMenu, RbacMenuPerm, RbacPerm, Db,
}
use clip_sync_admin.World.{
  scope_active, menu_base, role_base, admin_role_base, perm_base, role_menu_base, menu_perm_base,
}

-- An administrator has a role by a binding that is active.
pub record HasRole (db : Db) (admin_id role_id : ℕ) : Type 0 where
  pub binding : RbacAdminRole
  pub listed : Memᴰ binding db.admin_roles
  pub active : scope_active binding ≡ true
  pub of_admin : binding.admin_id ≡ admin_id
  pub to_role : binding.role_id ≡ role_id

-- An administrator is a super administrator by an active role of type 1.
pub record HasSuperRole (db : Db) (admin_id : ℕ) : Type 0 where
  pub role : RbacRole
  pub listed : Memᴰ role db.roles
  pub active : scope_active role ≡ true
  pub super : role.type ≡ 1
  pub bound : HasRole db admin_id role.id

-- A permission is reached from an administrator through a role and a menu, by active bindings.
pub record Reaches (db : Db) (admin_id perm_id : ℕ) : Type 0 where
  pub role_menu : RbacRoleMenu
  pub menu_perm : RbacMenuPerm
  pub role_listed : Memᴰ role_menu db.role_menus
  pub perm_listed : Memᴰ menu_perm db.menu_perms
  pub role_active : scope_active role_menu ≡ true
  pub perm_active : scope_active menu_perm ≡ true
  pub bound : HasRole db admin_id role_menu.role_id
  pub same_menu : menu_perm.menu_id ≡ role_menu.menu_id
  pub to_perm : menu_perm.perm_id ≡ perm_id

-- A route is granted by an active permission for its path and method that is open to all, or that
-- the administrator reaches.
pub record Granted (db : Db) (admin_id : ℕ) (method : ℕ) (path : String) : Type 0 where
  pub perm : RbacPerm
  pub listed : Memᴰ perm db.perms
  pub active : scope_active perm ≡ true
  pub same_route : perm.route ≡ path
  pub same_method : (perm.method ≡ 0) ⊎ (perm.method ≡ method)
  pub allowed : (perm.is_intercept ≡ 0) ⊎ Reaches db admin_id perm.id

-- A menu is reached from an administrator through a role, by active bindings.
pub record ReachesMenu (db : Db) (admin_id menu_id : ℕ) : Type 0 where
  pub role_menu : RbacRoleMenu
  pub listed : Memᴰ role_menu db.role_menus
  pub active : scope_active role_menu ≡ true
  pub bound : HasRole db admin_id role_menu.role_id
  pub to_menu : role_menu.menu_id ≡ menu_id

-- An active menu is for the administrators who are super administrators or reach it.
pub record IsMenuFor (db : Db) (admin_id : ℕ) (m : RbacMenu) : Type 0 where
  pub listed : Memᴰ m db.menus
  pub active : scope_active m ≡ true
  pub allowed : HasSuperRole db admin_id ⊎ ReachesMenu db admin_id m.id
