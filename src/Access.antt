-- ===== src/Access.antt =====
-- internal/service/auth_service.go: what an administrator may do. Roles lead to menus and menus to
-- permissions, and a route is allowed by the permissions that it matches.
pub mod Spec
pub mod Queries
pub mod Answers
pub mod Menus
use Prim.Native.String.{◌++◌}
use clip_sync_admin.Prelude.{
  sort_by, ℕ, String, Bool, true, false, not, ◌&&◌, ◌||◌, Option, none, some, List, [], ◌∷◌, map,
  contains, distinct, ltb, ◌==◌, nat_eq, string_eq, if◌then◌else◌,
}
use clip_sync_admin.Prelude.Int.{ltb_ℤ}
use clip_sync_admin.Text.{upper, spells}
use clip_sync_admin.Reply.{
  biz, raw, Outcome, ok, err, code_param_error, code_access_denied, code_auth_fail,
  code_account_not_found, code_internal_error, message_of,
}
use clip_sync_admin.Model.{RbacAdmin, RbacMenu, RbacPerm}
use clip_sync_admin.World.{
  M, pure, raise, lift, fail_if, asks, gets, ◌>>=◌, ◌>>◌, select, first, count, update, db_error,
  admins, roles, admin_roles, menus, perms, role_menus, menu_perms, admin_base, role_base,
  admin_role_base, menu_base, perm_base, role_menu_base, menu_perm_base, scope_active, not_del,
}
use clip_sync_admin.Auth.{check_password, hash_password}
use clip_sync_admin.Session.{wrap_error}

-- `GetAdmin`: `First` with an error where there is no such row.
unfoldable pub get_admin : ℕ → M RbacAdmin
get_admin id = do
  found ← first admins raw (λ a. a.id == id && not_del a)
  elim found [ some a ↦ pure a | none ↦ raise (raw "record not found") ]

-- `UserRoleIDs`
unfoldable pub user_role_ids : ℕ → M (List ℕ)
user_role_ids admin_id = do
  rows ← select admin_roles raw (λ r. scope_active r && r.admin_id == admin_id)
  pure (map (λ r. r.role_id) rows)

-- `IsSuper`
unfoldable pub is_super : List ℕ → M Bool
is_super [] = pure false
is_super (id ∷ ids) = do
  cnt ← count roles raw (λ r. scope_active r && contains r.id (id ∷ ids) && r.type == 1)
  pure (ltb 0 cnt)

-- The menus of some roles, as `PermIDsOfRoles` and `MenusForAdmin` both query them.
unfoldable pub menu_ids_of_roles : List ℕ → M (List ℕ)
menu_ids_of_roles role_ids = do
  rows ← select role_menus raw (λ r. scope_active r && contains r.role_id role_ids)
  pure (distinct (map (λ r. r.menu_id) rows))

unfoldable pub perm_ids_of_menus : List ℕ → M (List ℕ)
perm_ids_of_menus [] = pure []
perm_ids_of_menus (id ∷ ids) = do
  rows ← select menu_perms raw (λ r. scope_active r && contains r.menu_id (id ∷ ids))
  pure (distinct (map (λ r. r.perm_id) rows))

-- `PermIDsOfRoles`
unfoldable pub perm_ids_of_roles : List ℕ → M (List ℕ)
perm_ids_of_roles [] = pure []
perm_ids_of_roles (id ∷ ids) = do
  menu_ids ← menu_ids_of_roles (id ∷ ids)
  perm_ids_of_menus menu_ids

-- `methodCode`
unfoldable pub method_code : String → ℕ
unfolding upper spells
method_code method =
    let m = upper method in
    if spells m "GET"
    then 1
    else if spells m "POST"
    then 2
    else if spells m "PUT"
    then 3
    else if spells m "DELETE"
    then 4
    else 0

-- The loop of `CheckRoute` over the permissions that match the route.
unfoldable pub allows : List ℕ → List RbacPerm → Bool
allows perm_ids [] = false
allows perm_ids (p ∷ ps) =
    let rest = allows perm_ids ps in
    if p.is_intercept == 0 then true else if contains p.id perm_ids then true else rest

-- The rows that `CheckRoute` reads.
unfoldable pub matches_route : ℕ → String → RbacPerm → Bool
matches_route m path p = scope_active p && p.route == path && (p.method == 0 || p.method == m)

-- What `CheckRoute` answers to those rows.
unfoldable pub route_verdict : String → String → List ℕ → List RbacPerm → Outcome (Unit {0})
unfolding allows
route_verdict method path perm_ids [] =
    err (biz code_access_denied ("接口未注册: " ++ (method ++ (" " ++ path))))
route_verdict method path perm_ids (p ∷ ps) =
    if allows perm_ids (p ∷ ps) then ok tt else err (biz code_access_denied "无接口权限")

-- `CheckRoute`
unfoldable pub check_route : String → String → List ℕ → M (Unit {0})
unfolding matches_route route_verdict
check_route method path perm_ids = do
  rows ← select perms db_error (matches_route (method_code method) path)
  lift (route_verdict method path perm_ids rows)

-- The order of `ORDER BY sort ASC, id ASC`.
unfoldable pub before_menu : RbacMenu → RbacMenu → Bool
before_menu a b = ltb_ℤ a.sort b.sort || (not (ltb_ℤ b.sort a.sort) && ltb a.id b.id)

unfoldable pub list_menus_where : (RbacMenu → Bool) → M (List RbacMenu)
unfolding before_menu
list_menus_where p = do
  rows ← select menus raw (λ m. scope_active m && p m)
  pure (sort_by before_menu rows)

unfoldable pub menus_in : List ℕ → M (List RbacMenu)
unfolding list_menus_where
menus_in [] = pure []
menus_in (id ∷ ids) = list_menus_where (λ m. contains m.id (id ∷ ids))

-- The menus of an administrator who is not a super administrator.
unfoldable pub menus_of_roles : List ℕ → M (List RbacMenu)
unfolding menus_in menu_ids_of_roles
menus_of_roles [] = pure []
menus_of_roles (id ∷ ids) = do menu_ids ← menu_ids_of_roles (id ∷ ids); menus_in menu_ids

-- `MenusForAdmin`
unfoldable pub menus_for_admin : ℕ → M (List RbacMenu)
unfolding user_role_ids is_super list_menus_where menus_of_roles
menus_for_admin admin_id = do
  role_ids ← user_role_ids admin_id
  super ← is_super role_ids
  if super then list_menus_where (λ m. true) else menus_of_roles role_ids

-- `UpdateProfile`
unfoldable pub update_profile : ℕ → String → String → M (Unit {0})
update_profile admin_id name avatar = do
  fail_if (name == "") (biz code_param_error "姓名不能为空")
  now ← gets (λ w. w.now)
  update admins raw (λ a. a.id == admin_id && not_del a)
      (λ a. record a {
        name = name;
        avatar = avatar;
        base = record a.base { u_by = admin_id; updated_at = now };
      })
  pure tt

unfoldable pub change_found_password : String → String → Option RbacAdmin → M (Unit {0})
unfolding check_password hash_password message_of
change_found_password old_pass new_pass none =
    raise (biz code_account_not_found (message_of code_account_not_found))
change_found_password old_pass new_pass (some admin) = do
  matches ← asks (λ env. check_password env old_pass admin.password)
  fail_if (not matches) (biz code_auth_fail "旧密码不正确")
  cost ← asks (λ env. env.cfg.security.bcrypt_cost)
  hash ← wrap_error code_internal_error (hash_password new_pass cost)
  now ← gets (λ w. w.now)
  update admins db_error (λ a. a.id == admin.id)
      (λ a. record a {
        password = hash;
        last_update_password_time = some now;
        base = record a.base { u_by = admin.id; updated_at = now };
      })
  pure tt

-- `ChangeOwnPassword`
unfoldable pub change_own_password : ℕ → String → String → M (Unit {0})
unfolding change_found_password
change_own_password admin_id old_pass new_pass = do
  fail_if (old_pass == "" || new_pass == "") (biz code_param_error "旧密码/新密码不能为空")
  found ← first admins db_error (λ a. a.id == admin_id && not_del a)
  change_found_password old_pass new_pass found
