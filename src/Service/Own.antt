-- ===== src/Service/Own.antt =====
-- The operations of AuthService (internal/service/auth_service.go) that write rows of administrators:
-- each keeps the account behind an id.
use clip_sync_admin.Prelude.{
  ℕ, String, refl, Option, some, none, head?, filter, arith, inl, inr, ◌==◌, nat_eq, string_eq,
  ◌&&◌,
}
use clip_sync_admin.Text.{trim_space}
use clip_sync_admin.Model.{RbacAdmin}
use clip_sync_admin.World.{Env, tick, admin_base, admin_role_base, not_del, touch}
use clip_sync_admin.World.Inversion.{Outcome-cases}
use clip_sync_admin.Auth.{generate, check_password, hash_password}
use clip_sync_admin.Session.{login, login_found, login_accepted, issue_sign_secret}
use clip_sync_admin.Session.Login.{row_of}
use clip_sync_admin.Access.{update_profile, change_own_password, change_found_password}
use clip_sync_admin.Service.Frame.{bump_login_err-SparesAdmins}
use clip_sync_admin.Service.Accounts.{account_at-map_where, Keeps}

module _ (env : Env) (id : ℕ) (s : String) where
  login_accepted-Keeps :
      (account : String) (a : RbacAdmin) → Keeps env id s (login_accepted account a)
  unfolding login_accepted issue_sign_secret generate
  login_accepted-Keeps account a w h = ground (
    arith,
    h,
    account_at-map_where (λ x. x.id == a.id)
        (λ x. touch w.now (record x { last_login_time = some w.now })) w.db.admins id (λ x. refl)
        (λ x. refl) (λ x. refl),
  )

  login_found-Keeps :
      (account password : String) (found : Option RbacAdmin)
      → Keeps env id s (login_found account password found)
  unfolding login_found check_password
  login_found-Keeps account password none w h =
      ground (arith, h, bump_login_err-SparesAdmins account env w)
  login_found-Keeps account password (some a) w h =
      ground (arith, h, bump_login_err-SparesAdmins account env w, login_accepted-Keeps account a w)

  pub login-Keeps : (account password : String) → Keeps env id s (login account password)
  unfolding login
  login-Keeps account password w h =
      let found = row_of w (trim_space account) in
      ground (arith, h, login_found-Keeps (trim_space account) password found (tick (tick w)))

  pub update_profile-Keeps :
      (admin_id : ℕ) (name avatar : String) → Keeps env id s (update_profile admin_id name avatar)
  unfolding update_profile
  update_profile-Keeps admin_id name avatar w h = ground (
    arith,
    h,
    account_at-map_where (λ a. a.id == admin_id && not_del a)
        (λ a. record a {
          name = name;
          avatar = avatar;
          base = record a.base { u_by = admin_id; updated_at = w.now };
        })
        w.db.admins id (λ x. refl) (λ x. refl) (λ x. refl),
  )

  change_found_password-Keeps :
      (old_pass new_pass : String) (found : Option RbacAdmin)
      → Keeps env id s (change_found_password old_pass new_pass found)
  unfolding change_found_password check_password hash_password
  change_found_password-Keeps old_pass new_pass none w h = ground (arith, h)
  change_found_password-Keeps old_pass new_pass (some a) w h =
      elim (Outcome-cases (hash_password new_pass env.cfg.security.bcrypt_cost env w).0) [
        | inr (x, e) ↦ ground (arith, h, e)
        | inl (hash, e) ↦ ground (
          arith,
          h,
          e,
          account_at-map_where (λ x. x.id == a.id)
              (λ x. record x {
                password = hash;
                last_update_password_time = some w.now;
                base = record x.base { u_by = a.id; updated_at = w.now };
              })
              w.db.admins id (λ x. refl) (λ x. refl) (λ x. refl),
        )
      ]

  pub change_own_password-Keeps :
      (admin_id : ℕ) (old_pass new_pass : String)
      → Keeps env id s (change_own_password admin_id old_pass new_pass)
  unfolding change_own_password
  change_own_password-Keeps admin_id old_pass new_pass w h =
      let found = head? (filter (λ a. a.id == admin_id && not_del a) w.db.admins) in
      ground (arith, h, change_found_password-Keeps old_pass new_pass found (tick w))
