-- ===== src/Rbac/Admins.antt =====
-- internal/service/rbac_service.go, the part on administrators.
pub mod Creation
pub mod Deletion
pub mod Protection
use Prim.Native.String.{◌++◌}
use clip_sync_admin.Prelude.{
  ℕ, String, Bool, true, not, ◌&&◌, ◌||◌, Option, none, some, List, ltb, sort_by, ◌==◌, nat_eq,
  string_eq, if◌then◌else◌,
}
use clip_sync_admin.Prelude.Int.{ℤ}
use clip_sync_admin.Reply.{
  biz, message_of, code_param_error, code_account_exists, code_account_not_found,
  code_access_denied, code_internal_error,
}
use clip_sync_admin.Model.{RbacAdmin}
use clip_sync_admin.World.{
  Env, M, pure, raise, fail_if, asks, gets, ◌>>=◌, ◌>>◌, select, first, count, update, create,
  transaction, db_error, admins, admin_roles, admin_base, admin_role_base, not_del, soft_delete,
  soft_delete_by, created_by,
}
use clip_sync_admin.Auth.{hash_password}
use clip_sync_admin.Session.{wrap_error}
use clip_sync_admin.Paging.{Page, normalize, page_rows}
use clip_sync_admin.Rbac.Bindings.{bind_roles}

-- The condition of `ListAdmins`.
abbrev listed_admin : Env → String → RbacAdmin → Bool
listed_admin env keyword a =
    not_del a
    && (if keyword == ""
        then true
        else (env.like ("%" ++ (keyword ++ "%")) a.account
            || env.like ("%" ++ (keyword ++ "%")) a.name))

-- ORDER BY id DESC, created_at DESC
abbrev newer_admin : RbacAdmin → RbacAdmin → Bool
newer_admin a b = ltb b.id a.id || (a.id == b.id && ltb b.created_at a.created_at)

-- `ListAdmins`
unfoldable pub list_admins : String → ℤ → ℤ → M (Page RbacAdmin)
unfolding normalize page_rows
list_admins keyword page0 size0 = do
  let (page, size) = normalize page0 size0
  p ← asks (λ env. listed_admin env keyword)
  total ← count admins db_error p
  rows ← select admins db_error p
  pure (record {
    list = page_rows page size (sort_by newer_admin rows);
    total = total;
    page = page;
    page_size = size;
  })

-- The transaction of `CreateAdmin`.
unfoldable pub insert_admin : RbacAdmin → String → List ℕ → ℕ → M RbacAdmin
unfolding bind_roles
insert_admin in_row hash role_ids operator = do
  now ← gets (λ w. w.now)
  transaction (do
    new ← create admins db_error (created_by now operator (record in_row { password = hash }))
    bind_roles new.id operator role_ids
    pure new)

-- `CreateAdmin`; the result is the row that the handler answers with.
unfoldable pub create_admin : RbacAdmin → String → List ℕ → ℕ → M RbacAdmin
unfolding hash_password insert_admin message_of
create_admin in_row plain_pass role_ids operator = do
  fail_if (in_row.account == "" || plain_pass == "") (biz code_param_error "账号或密码不能为空")
  cnt ← count admins db_error (λ a. not_del a && a.account == in_row.account)
  fail_if (ltb 0 cnt) (biz code_account_exists (message_of code_account_exists))
  cost ← asks (λ env. env.cfg.security.bcrypt_cost)
  hash ← wrap_error code_internal_error (hash_password plain_pass cost)
  insert_admin in_row hash role_ids operator

-- The replacement of the roles in `UpdateAdmin`; `none` is the slice that is nil.
unfoldable pub replace_roles : ℕ → ℕ → Option (List ℕ) → M (Unit {0})
unfolding bind_roles
replace_roles id operator none = pure tt
replace_roles id operator (some role_ids) = do
  now ← gets (λ w. w.now)
  update admin_roles db_error (λ r. r.admin_id == id) (soft_delete now)
  bind_roles id operator role_ids

-- `UpdateAdmin`
unfoldable pub update_admin : ℕ → RbacAdmin → Option (List ℕ) → ℕ → M (Unit {0})
unfolding replace_roles
update_admin id in_row role_ids operator = do
  fail_if (id == 0) (biz code_param_error "id 不能为空")
  now ← gets (λ w. w.now)
  transaction (do
    update admins db_error (λ a. a.id == id && not_del a)
        (λ a. record a {
          name = in_row.name;
          avatar = in_row.avatar;
          is_lock = in_row.is_lock;
          base = record a.base {
            status = in_row.status;
            remark = in_row.remark;
            u_by = operator;
            updated_at = now;
          };
        })
    replace_roles id operator role_ids)

-- `ResetAdminPassword`
unfoldable pub reset_admin_password : ℕ → String → ℕ → M (Unit {0})
unfolding hash_password message_of
reset_admin_password id plain_pass operator = do
  fail_if (plain_pass == "") (biz code_param_error "新密码不能为空")
  cost ← asks (λ env. env.cfg.security.bcrypt_cost)
  hash ← wrap_error code_internal_error (hash_password plain_pass cost)
  now ← gets (λ w. w.now)
  n ←
      update admins db_error (λ a. a.id == id && not_del a)
        (λ a. record a {
          password = hash;
          base = record a.base { u_by = operator; updated_at = now };
        })
  fail_if (n == 0) (biz code_account_not_found (message_of code_account_not_found))

-- The row that `DeleteAdmin` and `UpdateAdminStatus` look up, with their protection of the built-in
-- super administrator.
unfoldable pub guarded_target : ℕ → String → M (Unit {0})
unfolding message_of
guarded_target id refusal = do
  found ← first admins db_error (λ a. a.id == id && not_del a)
  super_account ← asks (λ env. env.cfg.bootstrap.super_admin_account)
  elim found [
    | none ↦ raise (biz code_account_not_found (message_of code_account_not_found))
    | some target ↦
        fail_if (not (super_account == "") && target.account == super_account)
          (biz code_access_denied refusal)
  ]

-- `DeleteAdmin`
unfoldable pub delete_admin : ℕ → ℕ → M (Unit {0})
unfolding guarded_target
delete_admin id operator = do
  fail_if (id == 0) (biz code_param_error "id 不能为空")
  fail_if (id == operator) (biz code_param_error "不能删除当前登录账号")
  guarded_target id "内置超级管理员不可删除"
  now ← gets (λ w. w.now)
  transaction (do
    update admins db_error (λ a. a.id == id) (soft_delete_by now operator)
    update admin_roles db_error (λ r. r.admin_id == id) (soft_delete now)
    pure tt)

-- `UpdateAdminStatus`
unfoldable pub update_admin_status : ℕ → ℕ → ℕ → M (Unit {0})
unfolding guarded_target
update_admin_status id status operator = do
  fail_if (id == 0) (biz code_param_error "id 不能为空")
  guarded_target id "内置超级管理员状态不可变更"
  now ← gets (λ w. w.now)
  update admins db_error (λ a. a.id == id)
      (λ a. record a {
        base = record a.base { status = status; u_by = operator; updated_at = now };
      })
  pure tt
