-- ===== src/Handler/Rbac.antt =====
-- internal/handler/rbac_handler.go: each handler binds its request and calls one operation of the
-- service. `cl` are the claims of the session, `id` is the parameter of the path.
use clip_sync_admin.Prelude.{ℕ, String, Option, some, List}
use clip_sync_admin.Prelude.Int.{pos}
use clip_sync_admin.Reply.{fail, code_param_error}
use clip_sync_admin.Model.{Field, RbacAdmin, RbacRole, RbacMenu, RbacPerm}
use clip_sync_admin.World.{Claims}
use clip_sync_admin.Paging.{Page}
use clip_sync_admin.Rbac.Admins.{
  list_admins, create_admin, update_admin, reset_admin_password, delete_admin, update_admin_status,
}
use clip_sync_admin.Rbac.Bindings.{
  admin_role_ids, assign_role_menus, role_menu_ids, assign_menu_perms,
}
use clip_sync_admin.Rbac.Roles.{list_roles, create_role, update_role, delete_role}
use clip_sync_admin.Rbac.Menus.{list_menus, create_menu, update_menu, delete_menu}
use clip_sync_admin.Rbac.Perms.{list_perms, create_perm, update_perm, delete_perm}
use clip_sync_admin.Handler.Respond.{Handled, respond, no_payload}
use clip_sync_admin.Handler.Params.{operator_id, Bound, bound, unbound, bind_or_fail, uint_p, int_q}

-- `RBACHandler.ListAdmins`
unfoldable pub list_admins_handler : (keyword page size : String) → Handled (Page RbacAdmin)
unfolding list_admins respond int_q
list_admins_handler keyword page size =
    respond (list_admins keyword (int_q page (pos 1)) (int_q size (pos 20))) some

-- `createAdminReq`
pub record CreateAdminReq : Type 0 where
  pub admin : RbacAdmin
  pub password : String
  pub role_ids : List ℕ

-- `RBACHandler.CreateAdmin`
unfoldable pub create_admin_handler : Option Claims → Bound CreateAdminReq → Handled RbacAdmin
unfolding bind_or_fail create_admin respond operator_id
create_admin_handler cl body =
    bind_or_fail body
      λ req. respond (create_admin req.admin req.password req.role_ids (operator_id cl)) some

-- `updateAdminReq`; the slice is nil where the body has no such list.
pub record UpdateAdminReq : Type 0 where
  pub admin : RbacAdmin
  pub role_ids : Option (List ℕ)

-- `RBACHandler.UpdateAdmin`
unfoldable pub update_admin_handler :
    Option Claims → String → Bound UpdateAdminReq → Handled (Unit {0})
unfolding bind_or_fail update_admin respond operator_id uint_p
update_admin_handler cl id body =
    bind_or_fail body
      λ req. respond (update_admin (uint_p id) req.admin req.role_ids (operator_id cl)) no_payload

-- `RBACHandler.ResetAdminPassword`
unfoldable pub reset_admin_password_handler :
    Option Claims → String → Bound String → Handled (Unit {0})
unfolding bind_or_fail reset_admin_password respond operator_id uint_p
reset_admin_password_handler cl id body =
    bind_or_fail body
      λ password. respond (reset_admin_password (uint_p id) password (operator_id cl)) no_payload

-- `RBACHandler.DeleteAdmin`
unfoldable pub delete_admin_handler : Option Claims → String → Handled (Unit {0})
unfolding delete_admin respond operator_id uint_p
delete_admin_handler cl id = respond (delete_admin (uint_p id) (operator_id cl)) no_payload

-- `RBACHandler.UpdateAdminStatus`
unfoldable pub update_admin_status_handler : Option Claims → String → Bound ℕ → Handled (Unit {0})
unfolding bind_or_fail update_admin_status respond operator_id uint_p
update_admin_status_handler cl id body =
    bind_or_fail body
      λ status. respond (update_admin_status (uint_p id) status (operator_id cl)) no_payload

-- `RBACHandler.AdminRoleIDs`
unfoldable pub admin_role_ids_handler : String → Handled (List ℕ)
unfolding admin_role_ids respond uint_p
admin_role_ids_handler id = respond (admin_role_ids (uint_p id)) some

-- `RBACHandler.ListRoles`
unfoldable pub list_roles_handler : Handled (List RbacRole)
unfolding list_roles respond
list_roles_handler = respond list_roles some

-- `RBACHandler.CreateRole`
unfoldable pub create_role_handler : Option Claims → Bound RbacRole → Handled RbacRole
unfolding bind_or_fail create_role respond operator_id
create_role_handler cl body = bind_or_fail body λ r. respond (create_role r (operator_id cl)) some

-- `RBACHandler.UpdateRole`
unfoldable pub update_role_handler : Option Claims → String → Bound RbacRole → Handled (Unit {0})
unfolding bind_or_fail update_role respond operator_id uint_p
update_role_handler cl id body =
    bind_or_fail body λ r. respond (update_role (uint_p id) r (operator_id cl)) no_payload

-- `RBACHandler.DeleteRole`
unfoldable pub delete_role_handler : Option Claims → String → Handled (Unit {0})
unfolding delete_role respond operator_id uint_p
delete_role_handler cl id = respond (delete_role (uint_p id) (operator_id cl)) no_payload

-- `RBACHandler.AssignRoleMenus`
unfoldable pub assign_role_menus_handler :
    Option Claims → String → Bound (List ℕ) → Handled (Unit {0})
unfolding bind_or_fail assign_role_menus respond operator_id uint_p
assign_role_menus_handler cl id body =
    bind_or_fail body
      λ menu_ids. respond (assign_role_menus (uint_p id) menu_ids (operator_id cl)) no_payload

-- `RBACHandler.RoleMenuIDs`
unfoldable pub role_menu_ids_handler : String → Handled (List ℕ)
unfolding role_menu_ids respond uint_p
role_menu_ids_handler id = respond (role_menu_ids (uint_p id)) some

-- `RBACHandler.ListMenus`
unfoldable pub list_menus_handler : Handled (List RbacMenu)
unfolding list_menus respond
list_menus_handler = respond list_menus some

-- `RBACHandler.CreateMenu`
unfoldable pub create_menu_handler : Option Claims → Bound RbacMenu → Handled RbacMenu
unfolding bind_or_fail create_menu respond operator_id
create_menu_handler cl body = bind_or_fail body λ m. respond (create_menu m (operator_id cl)) some

-- `RBACHandler.UpdateMenu`; a body that does not bind is answered without the error's text.
unfoldable pub update_menu_handler :
    Option Claims → String → Bound (List (String × Field)) → Handled (Unit {0})
unfolding fail update_menu respond operator_id uint_p
update_menu_handler cl id (unbound message) env w = (fail code_param_error, w)
update_menu_handler cl id (bound raw) env w =
    respond (update_menu (uint_p id) raw (operator_id cl)) no_payload env w

-- `RBACHandler.DeleteMenu`
unfoldable pub delete_menu_handler : Option Claims → String → Handled (Unit {0})
unfolding delete_menu respond operator_id uint_p
delete_menu_handler cl id = respond (delete_menu (uint_p id) (operator_id cl)) no_payload

-- `RBACHandler.AssignMenuPerms`
unfoldable pub assign_menu_perms_handler :
    Option Claims → String → Bound (List ℕ) → Handled (Unit {0})
unfolding bind_or_fail assign_menu_perms respond operator_id uint_p
assign_menu_perms_handler cl id body =
    bind_or_fail body
      λ perm_ids. respond (assign_menu_perms (uint_p id) perm_ids (operator_id cl)) no_payload

-- `RBACHandler.ListPerms`
unfoldable pub list_perms_handler : (keyword page size : String) → Handled (Page RbacPerm)
unfolding list_perms respond int_q
list_perms_handler keyword page size =
    respond (list_perms keyword (int_q page (pos 1)) (int_q size (pos 20))) some

-- `RBACHandler.CreatePerm`
unfoldable pub create_perm_handler : Option Claims → Bound RbacPerm → Handled RbacPerm
unfolding bind_or_fail create_perm respond operator_id
create_perm_handler cl body = bind_or_fail body λ p. respond (create_perm p (operator_id cl)) some

-- `RBACHandler.UpdatePerm`
unfoldable pub update_perm_handler : Option Claims → String → Bound RbacPerm → Handled (Unit {0})
unfolding bind_or_fail update_perm respond operator_id uint_p
update_perm_handler cl id body =
    bind_or_fail body λ p. respond (update_perm (uint_p id) p (operator_id cl)) no_payload

-- `RBACHandler.DeletePerm`
unfoldable pub delete_perm_handler : Option Claims → String → Handled (Unit {0})
unfolding delete_perm respond operator_id uint_p
delete_perm_handler cl id = respond (delete_perm (uint_p id) (operator_id cl)) no_payload
