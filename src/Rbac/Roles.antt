-- ===== src/Rbac/Roles.antt =====
-- internal/service/rbac_service.go, the part on roles.
use clip_sync_admin.Prelude.{not, ℕ, Bool, ◌&&◌, ◌||◌, List, ltb, sort_by, ◌==◌, nat_eq, string_eq}
use clip_sync_admin.Prelude.Int.{ltb_ℤ}
use clip_sync_admin.Reply.{biz, raw, code_param_error, code_record_not_found}
use clip_sync_admin.Model.{RbacRole}
use clip_sync_admin.World.{
  M, pure, fail_if, gets, ◌>>=◌, ◌>>◌, select, update, create, transaction, db_error, roles,
  admin_roles, role_menus, role_base, admin_role_base, role_menu_base, not_del, soft_delete,
  soft_delete_by, created_by,
}

-- ORDER BY sort ASC, id ASC
abbrev before_role : RbacRole → RbacRole → Bool
before_role a b = ltb_ℤ a.sort b.sort || (not (ltb_ℤ b.sort a.sort) && ltb a.id b.id)

-- `ListRoles`
unfoldable pub list_roles : M (List RbacRole)
list_roles = do rows ← select roles db_error not_del; pure (sort_by before_role rows)

-- `CreateRole`
unfoldable pub create_role : RbacRole → ℕ → M RbacRole
create_role in_row operator = do
  fail_if (in_row.name == "") (biz code_param_error "角色名称不能为空")
  now ← gets (λ w. w.now)
  create roles raw (created_by now operator in_row)

-- `UpdateRole`
unfoldable pub update_role : ℕ → RbacRole → ℕ → M (Unit {0})
update_role id in_row operator = do
  now ← gets (λ w. w.now)
  n ←
      update roles db_error (λ r. r.id == id && not_del r)
        (λ r. record r {
          name = in_row.name;
          type = in_row.type;
          base = record r.base {
            remark = in_row.remark;
            status = in_row.status;
            sort = in_row.sort;
            u_by = operator;
            updated_at = now;
          };
        })
  fail_if (n == 0) (biz code_record_not_found "角色不存在")

-- `DeleteRole`
unfoldable pub delete_role : ℕ → ℕ → M (Unit {0})
delete_role id operator = transaction (do
  now ← gets (λ w. w.now)
  update roles db_error (λ r. r.id == id) (soft_delete_by now operator)
  update admin_roles db_error (λ r. r.role_id == id) (soft_delete now)
  update role_menus db_error (λ r. r.role_id == id) (soft_delete now)
  pure tt)
