-- ===== src/Rbac/Perms.antt =====
-- internal/service/rbac_service.go, the part on permissions.
pub mod Correct
use Prim.Native.String.{◌++◌}
use clip_sync_admin.Prelude.{
  ℕ, String, Bool, true, ◌&&◌, ◌||◌, ltb, sort_by, ◌==◌, nat_eq, string_eq, if◌then◌else◌,
}
use clip_sync_admin.Prelude.Int.{ℤ}
use clip_sync_admin.Reply.{biz, raw, code_param_error, code_record_not_found}
use clip_sync_admin.Model.{RbacPerm}
use clip_sync_admin.World.{
  Env, M, pure, fail_if, asks, gets, ◌>>=◌, ◌>>◌, select, count, update, create, transaction,
  db_error, perms, menu_perms, perm_base, menu_perm_base, not_del, soft_delete, soft_delete_by,
  created_by,
}
use clip_sync_admin.Paging.{Page, normalize, page_rows}

-- The condition of `ListPerms`.
abbrev listed_perm : Env → String → RbacPerm → Bool
listed_perm env keyword p =
    not_del p
    && (if keyword == ""
        then true
        else (env.like ("%" ++ (keyword ++ "%")) p.name
            || env.like ("%" ++ (keyword ++ "%")) p.route))

-- ORDER BY id DESC, created_at DESC
abbrev newer_perm : RbacPerm → RbacPerm → Bool
newer_perm a b = ltb b.id a.id || (a.id == b.id && ltb b.created_at a.created_at)

-- `ListPerms`
unfoldable pub list_perms : String → ℤ → ℤ → M (Page RbacPerm)
unfolding normalize page_rows
list_perms keyword page0 size0 = do
  let (page, size) = normalize page0 size0
  p ← asks (λ env. listed_perm env keyword)
  total ← count perms db_error p
  rows ← select perms db_error p
  pure (record {
    list = page_rows page size (sort_by newer_perm rows);
    total = total;
    page = page;
    page_size = size;
  })

-- gorm leaves a zero value out of an INSERT where the column's tag has a `default`, and the database
-- fills it in: `default:2` of `Method` and `default:1` of `IsIntercept`.
unfoldable pub with_defaults : RbacPerm → RbacPerm
with_defaults p = record p {
  method = if p.method == 0 then 2 else p.method;
  is_intercept = if p.is_intercept == 0 then 1 else p.is_intercept;
}

-- `CreatePerm`
unfoldable pub create_perm : RbacPerm → ℕ → M RbacPerm
unfolding with_defaults
create_perm in_row operator = do
  fail_if (in_row.route == "") (biz code_param_error "路由不能为空")
  now ← gets (λ w. w.now)
  create perms raw (with_defaults (created_by now operator in_row))

-- `UpdatePerm`
unfoldable pub update_perm : ℕ → RbacPerm → ℕ → M (Unit {0})
update_perm id in_row operator = do
  now ← gets (λ w. w.now)
  n ←
      update perms db_error (λ p. p.id == id && not_del p)
        (λ p. record p {
          name = in_row.name;
          parent_id = in_row.parent_id;
          method = in_row.method;
          route = in_row.route;
          is_intercept = in_row.is_intercept;
          base = record p.base {
            remark = in_row.remark;
            status = in_row.status;
            sort = in_row.sort;
            u_by = operator;
            updated_at = now;
          };
        })
  fail_if (n == 0) (biz code_record_not_found "权限不存在")

-- `DeletePerm`
unfoldable pub delete_perm : ℕ → ℕ → M (Unit {0})
delete_perm id operator = transaction (do
  now ← gets (λ w. w.now)
  update perms db_error (λ p. p.id == id) (soft_delete_by now operator)
  update menu_perms db_error (λ r. r.perm_id == id) (soft_delete now)
  pure tt)
