-- ===== src/Service/Builtin.antt =====
-- The built-in super administrator under the operations of internal/service.
use clip_sync_admin.Prelude.{ℕ, String, ◌≡◌, ◌≢◌, ◌∙◌, refl, ap}
use clip_sync_admin.World.{Env, World}
use clip_sync_admin.Session.{logout, refresh_token, reissue}
use clip_sync_admin.Rbac.Bindings.{assign_role_menus, assign_menu_perms}
use clip_sync_admin.Rbac.Roles.{create_role, update_role, delete_role}
use clip_sync_admin.Rbac.Menus.{create_menu, update_menu, delete_menu}
use clip_sync_admin.Rbac.Perms.{create_perm, update_perm, delete_perm}
use clip_sync_admin.Service.Frame.{
  logout-SparesAdmins, refresh_token-SparesAdmins, reissue-SparesAdmins, create_role-SparesAdmins,
  update_role-SparesAdmins, delete_role-SparesAdmins, create_menu-SparesAdmins,
  update_menu-SparesAdmins, delete_menu-SparesAdmins, create_perm-SparesAdmins,
  update_perm-SparesAdmins, delete_perm-SparesAdmins, assign_role_menus-SparesAdmins,
  assign_menu_perms-SparesAdmins,
}
use clip_sync_admin.Service.{
  Operation, log_in, log_out, refresh, renew_token, edit_profile, set_own_password, add_admin,
  edit_admin, reset_password, remove_admin, set_admin_status, add_role, edit_role, remove_role,
  assign_menus, add_menu, edit_menu, remove_menu, assign_perms, add_perm, edit_perm, remove_perm,
  run, Reach, here, next, operation, elsewhere,
}
use clip_sync_admin.Service.Own.{login-Keeps, update_profile-Keeps, change_own_password-Keeps}
use clip_sync_admin.Service.Admins.{
  reset_admin_password-Keeps, update_admin-Keeps, create_admin-Keeps, delete_admin-Keeps,
  update_admin_status-Keeps,
}
use clip_sync_admin.Service.Accounts.{account_at, Holds, Keeps-SparesAdmins}

module _ (env : Env) (id : ℕ) (s : String) where
  -- Every operation keeps the account of the built-in super administrator where it is.
  run-Keeps :
      (o : Operation) (w : World)
      → s ≡ env.cfg.bootstrap.super_admin_account
      → s ≢ ""
      → Holds env id s w
      → Holds env id s (run o env w)
  unfolding run
  run-Keeps (log_in account password) w b n h = login-Keeps env id s account password w h
  run-Keeps (log_out jti admin_id) w b n h =
      Keeps-SparesAdmins env id s (logout jti admin_id) (logout-SparesAdmins jti admin_id) w h
  run-Keeps (refresh jti) w b n h =
      Keeps-SparesAdmins env id s (refresh_token jti) (refresh_token-SparesAdmins jti) w h
  run-Keeps (renew_token admin_id account old) w b n h =
      Keeps-SparesAdmins env id s (reissue admin_id account old)
        (reissue-SparesAdmins admin_id account old) w h
  run-Keeps (edit_profile admin_id name avatar) w b n h =
      update_profile-Keeps env id s admin_id name avatar w h
  run-Keeps (set_own_password admin_id old_pass new_pass) w b n h =
      change_own_password-Keeps env id s admin_id old_pass new_pass w h
  run-Keeps (add_admin a plain ids operator) w b n h =
      create_admin-Keeps env id s a plain ids operator w h
  run-Keeps (edit_admin target a ids operator) w b n h =
      update_admin-Keeps env id s target a ids operator w h
  run-Keeps (reset_password target plain operator) w b n h =
      reset_admin_password-Keeps env id s target plain operator w h
  run-Keeps (remove_admin target operator) w b n h =
      delete_admin-Keeps env id s target operator b n w h
  run-Keeps (set_admin_status target status operator) w b n h =
      update_admin_status-Keeps env id s target status operator w h
  run-Keeps (add_role r operator) w b n h =
      Keeps-SparesAdmins env id s (create_role r operator) (create_role-SparesAdmins r operator) w h
  run-Keeps (edit_role target r operator) w b n h =
      Keeps-SparesAdmins env id s (update_role target r operator)
        (update_role-SparesAdmins target r operator) w h
  run-Keeps (remove_role target operator) w b n h =
      Keeps-SparesAdmins env id s (delete_role target operator)
        (delete_role-SparesAdmins target operator) w h
  run-Keeps (assign_menus role_id ids operator) w b n h =
      Keeps-SparesAdmins env id s (assign_role_menus role_id ids operator)
        (assign_role_menus-SparesAdmins role_id ids operator) w h
  run-Keeps (add_menu m operator) w b n h =
      Keeps-SparesAdmins env id s (create_menu m operator) (create_menu-SparesAdmins m operator) w h
  run-Keeps (edit_menu target body operator) w b n h =
      Keeps-SparesAdmins env id s (update_menu target body operator)
        (update_menu-SparesAdmins target body operator) w h
  run-Keeps (remove_menu target operator) w b n h =
      Keeps-SparesAdmins env id s (delete_menu target operator)
        (delete_menu-SparesAdmins target operator) w h
  run-Keeps (assign_perms menu_id ids operator) w b n h =
      Keeps-SparesAdmins env id s (assign_menu_perms menu_id ids operator)
        (assign_menu_perms-SparesAdmins menu_id ids operator) w h
  run-Keeps (add_perm p operator) w b n h =
      Keeps-SparesAdmins env id s (create_perm p operator) (create_perm-SparesAdmins p operator) w h
  run-Keeps (edit_perm target p operator) w b n h =
      Keeps-SparesAdmins env id s (update_perm target p operator)
        (update_perm-SparesAdmins target p operator) w h
  run-Keeps (remove_perm target operator) w b n h =
      Keeps-SparesAdmins env id s (delete_perm target operator)
        (delete_perm-SparesAdmins target operator) w h

-- Where the account of the built-in super administrator is set, and an id stands for it in a row that
-- is not deleted, the id does so in every world that any sequence of operations of AuthService and
-- RBACService reaches, with failed calls and with other steps between them that write no row of an
-- administrator.
pub Reach-Holds :
    (env : Env) (id : ℕ) (w w' : World)
    → env.cfg.bootstrap.super_admin_account ≢ ""
    → Holds env id env.cfg.bootstrap.super_admin_account w
    → Reach env w w'
    → Holds env id env.cfg.bootstrap.super_admin_account w'
Reach-Holds env id w _ named h here = h
Reach-Holds env id w _ named h (next r (operation o e)) =
    let before = Reach-Holds env id w _ named h r in
    ap (λ (w : World). account_at w.db.admins id) e
    ∙ run-Keeps env id env.cfg.bootstrap.super_admin_account o _ refl named before
Reach-Holds env id w _ named h (next r (elsewhere same)) =
    ap (λ rows. account_at rows id) same ∙ Reach-Holds env id w _ named h r
