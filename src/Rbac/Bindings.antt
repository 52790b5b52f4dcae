-- ===== src/Rbac/Bindings.antt =====
-- The bindings that rbac_service.go overwrites as a whole: of a role to its menus, of a menu to its
-- permissions, of an administrator to the roles.
pub mod Correct
use clip_sync_admin.Prelude.{◌&&◌, ℕ, List, [], ◌∷◌, map, ◌==◌, nat_eq, if◌then◌else◌}
use clip_sync_admin.World.{
  M, pure, gets, ◌>>=◌, ◌>>◌, select, update, create, transaction, db_error, admin_roles,
  role_menus, menu_perms, admin_role_base, role_menu_base, menu_perm_base, no_base, not_del,
  soft_delete, created_by,
}

-- `for _, rid := range roleIDs { if rid == 0 { continue }; tx.Create(...) }`
unfoldable pub bind_roles : ℕ → ℕ → List ℕ → M (Unit {0})
bind_roles admin_id operator [] = pure tt
bind_roles admin_id operator (rid ∷ rids) =
    let rest = bind_roles admin_id operator rids in
    if rid == 0 then rest else do
      now ← gets (λ w. w.now)
      create admin_roles db_error (
          created_by now operator
            (record { id = 0; admin_id = admin_id; role_id = rid; base = no_base }))
      rest

unfoldable pub bind_menus : ℕ → ℕ → List ℕ → M (Unit {0})
bind_menus role_id operator [] = pure tt
bind_menus role_id operator (mid ∷ mids) =
    let rest = bind_menus role_id operator mids in
    if mid == 0 then rest else do
      now ← gets (λ w. w.now)
      create role_menus db_error (
          created_by now operator
            (record { id = 0; role_id = role_id; menu_id = mid; base = no_base }))
      rest

unfoldable pub bind_perms : ℕ → ℕ → List ℕ → M (Unit {0})
bind_perms menu_id operator [] = pure tt
bind_perms menu_id operator (pid ∷ pids) =
    let rest = bind_perms menu_id operator pids in
    if pid == 0 then rest else do
      now ← gets (λ w. w.now)
      create menu_perms db_error (
          created_by now operator
            (record { id = 0; menu_id = menu_id; perm_id = pid; base = no_base }))
      rest

-- `AssignRoleMenus`
unfoldable pub assign_role_menus : ℕ → List ℕ → ℕ → M (Unit {0})
unfolding bind_menus
assign_role_menus role_id menu_ids operator = transaction (do
  now ← gets (λ w. w.now)
  update role_menus db_error (λ r. r.role_id == role_id) (soft_delete now)
  bind_menus role_id operator menu_ids)

-- `RoleMenuIDs`
unfoldable pub role_menu_ids : ℕ → M (List ℕ)
role_menu_ids role_id = do
  rows ← select role_menus db_error (λ r. not_del r && r.role_id == role_id)
  pure (map (λ r. r.menu_id) rows)

-- `AssignMenuPerms`
unfoldable pub assign_menu_perms : ℕ → List ℕ → ℕ → M (Unit {0})
unfolding bind_perms
assign_menu_perms menu_id perm_ids operator = transaction (do
  now ← gets (λ w. w.now)
  update menu_perms db_error (λ r. r.menu_id == menu_id) (soft_delete now)
  bind_perms menu_id operator perm_ids)

-- `AdminRoleIDs`
unfoldable pub admin_role_ids : ℕ → M (List ℕ)
admin_role_ids admin_id = do
  rows ← select admin_roles db_error (λ r. not_del r && r.admin_id == admin_id)
  pure (map (λ r. r.role_id) rows)
