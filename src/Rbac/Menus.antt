-- ===== src/Rbac/Menus.antt =====
-- internal/service/rbac_service.go, the part on menus.
use clip_sync_admin.Prelude.{
  ℕ, String, Bool, true, false, ◌&&◌, Option, some, none, any, List, [], ◌∷◌, sort_by, ◌==◌, nat_eq,
  string_eq, if◌then◌else◌,
}
use clip_sync_admin.Prelude.Int.{ℤ, pos_part}
use clip_sync_admin.Reply.{biz, raw, code_param_error, code_record_not_found}
use clip_sync_admin.Model.{RbacMenu, Field, words, number, other}
use clip_sync_admin.World.{
  Env, M, pure, raise, fail_if, asks, gets, ◌>>=◌, ◌>>◌, select, update, create, transaction,
  db_error, menus, role_menus, menu_perms, menu_base, role_menu_base, menu_perm_base, not_del,
  soft_delete, soft_delete_by, created_by,
}
use clip_sync_admin.Access.{before_menu}

-- `ListMenus`
unfoldable pub list_menus : M (List RbacMenu)
unfolding before_menu
list_menus = do rows ← select menus db_error not_del; pure (sort_by before_menu rows)

-- `CreateMenu`
unfoldable pub create_menu : RbacMenu → ℕ → M RbacMenu
create_menu in_row operator = do
  fail_if (in_row.name == "" && in_row.title == "") (biz code_param_error "菜单名称/标题不能为空")
  now ← gets (λ w. w.now)
  create menus raw (created_by now operator in_row)

abbrev as_text : Env → Field → String
as_text env (words s) = s
as_text env (number n) = env.number_as_text n
as_text env (other j) = env.json_as_text j

abbrev as_number : Env → Field → ℤ
as_number env (words s) = env.text_as_number s
as_number env (number n) = n
as_number env (other j) = env.json_as_number j

-- The number of a column of ids or codes, which is not negative.
abbrev as_code : Env → Field → ℕ
as_code env v = pos_part (as_number env v)

-- The columns that `UpdateMenu` may write: the map `allow`, by the names of the front end.
pub data Column : Type 0 where
  name parent_id path icon is_link title code include type field_value_key field_value_width
        field_value_ellipsis remark status sort :
      Column

unfoldable pub allow : String → List Column
allow k =
    if k == "name"
    then name ∷ []
    else if k == "parentId"
    then parent_id ∷ []
    else if k == "path"
    then path ∷ []
    else if k == "icon"
    then icon ∷ []
    else if k == "isLink"
    then is_link ∷ []
    else if k == "title"
    then title ∷ []
    else if k == "code"
    then code ∷ []
    else if k == "include"
    then include ∷ []
    else if k == "type"
    then type ∷ []
    else if k == "fieldValueKey"
    then field_value_key ∷ []
    else if k == "fieldValueWidth"
    then field_value_width ∷ []
    else if k == "fieldValueEllipsis"
    then field_value_ellipsis ∷ []
    else if k == "remark"
    then remark ∷ []
    else if k == "status"
    then status ∷ []
    else if k == "sort"
    then sort ∷ []
    else []

unfoldable pub set_column : Env → Column → Field → RbacMenu → RbacMenu
set_column env name v m = record m { name = as_text env v }
set_column env parent_id v m = record m { parent_id = as_code env v }
set_column env path v m = record m { path = as_text env v }
set_column env icon v m = record m { icon = as_text env v }
set_column env is_link v m = record m { is_link = as_code env v }
set_column env title v m = record m { title = as_text env v }
set_column env code v m = record m { code = as_text env v }
set_column env include v m = record m { include = as_text env v }
set_column env type v m = record m { type = as_code env v }
set_column env field_value_key v m = record m { field_value_key = as_text env v }
set_column env field_value_width v m = record m { field_value_width = as_text env v }
set_column env field_value_ellipsis v m = record m { field_value_ellipsis = as_code env v }
set_column env remark v m = record m { base = record m.base { remark = as_text env v } }
set_column env status v m = record m { base = record m.base { status = as_code env v } }
set_column env sort v m = record m { base = record m.base { sort = as_number env v } }

-- The loop over `body`, whose keys are different: the columns to write.
unfoldable pub updates_of : List (String × Field) → List (Column × Field)
unfolding allow
updates_of [] = []
updates_of ((k, v) ∷ body) =
    let rest = updates_of body in elim (allow k) [ [] ↦ rest | c ∷ _ ↦ (c, v) ∷ rest ]

unfoldable pub apply_updates : Env → List (Column × Field) → RbacMenu → RbacMenu
unfolding set_column
apply_updates env [] m = m
apply_updates env ((c, v) ∷ us) m = apply_updates env us (set_column env c v m)

abbrev is_empty : List (Column × Field) → Bool
is_empty [] = true
is_empty (_ ∷ _) = false

-- The error of the UPDATE for a value that a column does not take.
abbrev accept : Option String → M (Unit {0})
accept none = pure tt
accept (some e) = raise (db_error e)

-- `UpdateMenu`
unfoldable pub update_menu : ℕ → List (String × Field) → ℕ → M (Unit {0})
unfolding updates_of apply_updates
update_menu id body operator = do
  let updates = updates_of body
  fail_if (is_empty updates) (biz code_param_error "请求体为空")
  now ← gets (λ w. w.now)
  write ← asks (λ env. apply_updates env updates)
  matched ← gets (λ w. any (λ m. m.id == id && not_del m) w.db.menus)
  refusal ← asks (λ env. env.refuses body matched)
  accept refusal
  n ←
      update menus db_error (λ m. m.id == id && not_del m)
        (λ m. write (record m { base = record m.base { u_by = operator; updated_at = now } }))
  fail_if (n == 0) (biz code_record_not_found "菜单不存在")

-- `DeleteMenu`
unfoldable pub delete_menu : ℕ → ℕ → M (Unit {0})
delete_menu id operator = transaction (do
  now ← gets (λ w. w.now)
  update menus db_error (λ m. m.id == id) (soft_delete_by now operator)
  update role_menus db_error (λ r. r.menu_id == id) (soft_delete now)
  update menu_perms db_error (λ r. r.menu_id == id) (soft_delete now)
  pure tt)
