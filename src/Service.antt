-- ===== src/Service.antt =====
-- The services of internal/service as a system: their operations on accounts, roles, menus and
-- permissions, in whatever order requests bring them.
pub mod Accounts
pub mod Own
pub mod Admins
pub mod Frame
pub mod Builtin
use clip_sync_admin.Prelude.{ℕ, String, List, Option, ◌≡◌}
use clip_sync_admin.Model.{Field, RbacAdmin, RbacRole, RbacMenu, RbacPerm}
use clip_sync_admin.World.{Env, World}
use clip_sync_admin.Session.{login, logout, refresh_token, reissue}
use clip_sync_admin.Access.{update_profile, change_own_password}
use clip_sync_admin.Rbac.Admins.{
  create_admin, update_admin, reset_admin_password, delete_admin, update_admin_status,
}
use clip_sync_admin.Rbac.Bindings.{assign_role_menus, assign_menu_perms}
use clip_sync_admin.Rbac.Roles.{create_role, update_role, delete_role}
use clip_sync_admin.Rbac.Menus.{create_menu, update_menu, delete_menu}
use clip_sync_admin.Rbac.Perms.{create_perm, update_perm, delete_perm}

-- A call of a method of AuthService or RBACService that may write, with its arguments.
pub data Operation : Type 0 where
  log_in : (account password : String) → Operation
  log_out : (jti : String) → (admin_id : ℕ) → Operation
  refresh : (jti : String) → Operation
  renew_token : (admin_id : ℕ) → (account old_jti : String) → Operation
  edit_profile : (admin_id : ℕ) → (name avatar : String) → Operation
  set_own_password : (admin_id : ℕ) → (old_pass new_pass : String) → Operation
  add_admin : RbacAdmin → (password : String) → (role_ids : List ℕ) → (operator : ℕ) → Operation
  edit_admin : (id : ℕ) → RbacAdmin → (role_ids : Option (List ℕ)) → (operator : ℕ) → Operation
  reset_password : (id : ℕ) → (password : String) → (operator : ℕ) → Operation
  remove_admin : (id operator : ℕ) → Operation
  set_admin_status : (id status operator : ℕ) → Operation
  add_role : RbacRole → (operator : ℕ) → Operation
  edit_role : (id : ℕ) → RbacRole → (operator : ℕ) → Operation
  remove_role : (id operator : ℕ) → Operation
  assign_menus : (role_id : ℕ) → (menu_ids : List ℕ) → (operator : ℕ) → Operation
  add_menu : RbacMenu → (operator : ℕ) → Operation
  edit_menu : (id : ℕ) → (body : List (String × Field)) → (operator : ℕ) → Operation
  remove_menu : (id operator : ℕ) → Operation
  assign_perms : (menu_id : ℕ) → (perm_ids : List ℕ) → (operator : ℕ) → Operation
  add_perm : RbacPerm → (operator : ℕ) → Operation
  edit_perm : (id : ℕ) → RbacPerm → (operator : ℕ) → Operation
  remove_perm : (id operator : ℕ) → Operation

-- The world that an operation leaves, whether it succeeds or fails.
unfoldable pub run : Operation → Env → World → World
run (log_in account password) env w = (login account password env w).1
run (log_out jti admin_id) env w = (logout jti admin_id env w).1
run (refresh jti) env w = (refresh_token jti env w).1
run (renew_token admin_id account old_jti) env w = (reissue admin_id account old_jti env w).1
run (edit_profile admin_id name avatar) env w = (update_profile admin_id name avatar env w).1
run (set_own_password admin_id old_pass new_pass) env w =
    (change_own_password admin_id old_pass new_pass env w).1
run (add_admin a password role_ids operator) env w =
    (create_admin a password role_ids operator env w).1
run (edit_admin id a role_ids operator) env w = (update_admin id a role_ids operator env w).1
run (reset_password id password operator) env w =
    (reset_admin_password id password operator env w).1
run (remove_admin id operator) env w = (delete_admin id operator env w).1
run (set_admin_status id status operator) env w = (update_admin_status id status operator env w).1
run (add_role r operator) env w = (create_role r operator env w).1
run (edit_role id r operator) env w = (update_role id r operator env w).1
run (remove_role id operator) env w = (delete_role id operator env w).1
run (assign_menus role_id menu_ids operator) env w =
    (assign_role_menus role_id menu_ids operator env w).1
run (add_menu m operator) env w = (create_menu m operator env w).1
run (edit_menu id body operator) env w = (update_menu id body operator env w).1
run (remove_menu id operator) env w = (delete_menu id operator env w).1
run (assign_perms menu_id perm_ids operator) env w =
    (assign_menu_perms menu_id perm_ids operator env w).1
run (add_perm p operator) env w = (create_perm p operator env w).1
run (edit_perm id p operator) env w = (update_perm id p operator env w).1
run (remove_perm id operator) env w = (delete_perm id operator env w).1

-- A step of the system: an operation, or what happens elsewhere, as long as it leaves the rows of the
-- administrators: the time, the Server's writes to Redis, the operations on users and devices.
pub data Step (env : Env) (w w' : World) : Type 0 where
  operation : (o : Operation) → w' ≡ run o env w → Step env w w'
  elsewhere : w'.db.admins ≡ w.db.admins → Step env w w'

-- The worlds that any sequence of steps reaches.
pub data Reach (env : Env) (w : World) : World → Type 0 where
  here : Reach env w w
  next : {u v : World} → Reach env w u → Step env u v → Reach env w v
