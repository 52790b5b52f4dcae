-- ===== src/Handler/Login.antt =====
-- internal/handler/auth_handler.go. The body of a request is bound already; `none` for the claims
-- is a context without them (`currentAdmin` is nil).
use clip_sync_admin.Prelude.{ℕ, String, Bool, false, Option, none, some, List, []}
use clip_sync_admin.Reply.{
  success, fail, fail_with, ok, err, error_text, code_unauthorized, code_cache_error,
  code_account_not_found,
}
use clip_sync_admin.Model.{RbacAdmin, RbacMenu}
use clip_sync_admin.World.{M, Claims, pure, or_zero, asks, ignore, ◌>>=◌, ◌>>◌}
use clip_sync_admin.Session.{login, logout}
use clip_sync_admin.Access.{
  get_admin, user_role_ids, is_super, perm_ids_of_roles, menus_for_admin, update_profile,
  change_own_password,
}
use clip_sync_admin.Handler.Respond.{Handled, respond, no_payload}

pub record LoginReply : Type 0 where
  pub token : String
  pub admin : RbacAdmin
  pub sign_secret : String

abbrev login_reply : String × RbacAdmin × String → Option LoginReply
login_reply (tok, admin, secret) =
    some (record { token = tok; admin = admin; sign_secret = secret })

-- `AuthHandler.Login`
unfoldable pub login_handler : String → String → Handled LoginReply
unfolding login respond
login_handler account password = respond (login account password) login_reply

-- `AuthHandler.Logout`
unfoldable pub logout_handler : Option Claims → Handled (Unit {0})
unfolding logout success fail fail_with
logout_handler none env w = (fail code_unauthorized, w)
logout_handler (some c) env w =
    let (r, w') = logout c.id c.admin_id env w in
    elim r [ ok _ ↦ (success none, w') | err e ↦ (fail_with code_cache_error (error_text e), w') ]

pub record MeReply : Type 0 where
  pub admin : RbacAdmin
  pub role_ids : List ℕ
  pub is_super : Bool
  pub perm_ids : List ℕ
  pub builtin_super_account : String

-- What `Me` reads; the errors after the first are dropped.
unfoldable pub me : ℕ → M MeReply
unfolding get_admin user_role_ids is_super perm_ids_of_roles
me admin_id = do
  admin ← get_admin admin_id
  role_ids ← or_zero [] (user_role_ids admin_id)
  super ← or_zero false (is_super role_ids)
  perm_ids ← or_zero [] (perm_ids_of_roles role_ids)
  account ← asks (λ env. env.cfg.bootstrap.super_admin_account)
  pure (record {
    admin = admin;
    role_ids = role_ids;
    is_super = super;
    perm_ids = perm_ids;
    builtin_super_account = account;
  })

-- `AuthHandler.Me`
unfoldable pub me_handler : Option Claims → Handled MeReply
unfolding me success fail fail_with
me_handler none env w = (fail code_unauthorized, w)
me_handler (some c) env w =
    let (r, w') = me c.admin_id env w in
    elim r [
      | ok a ↦ (success (some a), w')
      | err e ↦ (fail_with code_account_not_found (error_text e), w')
    ]

-- `AuthHandler.Menus`
unfoldable pub menus_handler : Option Claims → Handled (List RbacMenu)
unfolding menus_for_admin respond fail
menus_handler none env w = (fail code_unauthorized, w)
menus_handler (some c) env w = respond (menus_for_admin c.admin_id) some env w

-- What `ChangePassword` does: the password, and the logout, whose error is dropped.
unfoldable pub change_password : Claims → String → String → M (Unit {0})
unfolding change_own_password logout
change_password c old_pass new_pass = do
  change_own_password c.admin_id old_pass new_pass
  ignore (logout c.id c.admin_id)

-- `AuthHandler.ChangePassword`
unfoldable pub change_password_handler : Option Claims → String → String → Handled (Unit {0})
unfolding change_password respond fail
change_password_handler none old_pass new_pass env w = (fail code_unauthorized, w)
change_password_handler (some c) old_pass new_pass env w =
    respond (change_password c old_pass new_pass) no_payload env w

-- `AuthHandler.UpdateProfile`
unfoldable pub profile_handler : Option Claims → String → String → Handled (Unit {0})
unfolding update_profile respond fail
profile_handler none name avatar env w = (fail code_unauthorized, w)
profile_handler (some c) name avatar env w =
    respond (update_profile c.admin_id name avatar) no_payload env w
