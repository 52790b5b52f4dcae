-- ===== src/Seed/Menus.antt =====
-- internal/bootstrap/seed_rbac.go: the menus and permissions that the program makes sure of when it
-- starts.
pub mod Stays
pub mod Codes
pub mod Registered
pub mod Enabled
pub mod Intercept
use clip_sync_admin.Prelude.{
  zero, ℕ, String, Bool, not, ◌&&◌, Option, none, some, List, [], ◌∷◌, contains, ◌==◌, nat_eq,
  string_eq, if◌then◌else◌,
}
use clip_sync_admin.Prelude.Int.{ℤ, pos}
use clip_sync_admin.Reply.{raw}
use clip_sync_admin.Model.{RbacMenu, RbacPerm, RbacMenuPerm}
use clip_sync_admin.World.{
  M, pure, gets, ◌>>=◌, ◌>>◌, first, count, update, create, menus, perms, menu_perms, menu_base,
  perm_base, menu_perm_base, not_del, no_base, created_by, touch, soft_delete,
}
use clip_sync_admin.Rbac.Perms.{with_defaults}
use clip_sync_admin.Seed.Tree.{
  PermSeed, MenuFields, MenuSeed, menu, MenuSeeds, nil, cons, collect_codes, rbac_menu_tree,
}

abbrev pub has_code : String → RbacMenu → Bool
has_code code m = m.code == code && not_del m

abbrev pub serves : PermSeed → RbacPerm → Bool
serves s p = p.route == s.route && p.method == s.method && not_del p

abbrev pub joins : ℕ → ℕ → RbacMenuPerm → Bool
joins menu_id perm_id r = r.menu_id == menu_id && r.perm_id == perm_id && not_del r

unfoldable pub new_perm : PermSeed → RbacPerm
new_perm s = record {
  id = 0;
  name = s.name;
  parent_id = 0;
  method = s.method;
  route = s.route;
  is_intercept = s.is_intercept;
  base = record no_base { sort = s.sort; remark = "系统内置" };
}

unfoldable pub rewritten_perm : PermSeed → RbacPerm → RbacPerm
rewritten_perm s p = record p { name = s.name; is_intercept = s.is_intercept }

-- What is done with the permission that is found, or not found: its id.
unfoldable pub store_perm : PermSeed → Option RbacPerm → M ℕ
unfolding new_perm rewritten_perm with_defaults
store_perm s none = do
  now ← gets (λ w. w.now)
  p ← create perms raw (with_defaults (created_by now 0 (new_perm s)))
  pure p.id
store_perm s (some p) = do
  now ← gets (λ w. w.now)
  update perms raw (λ q. q.id == p.id) (λ q. touch now (rewritten_perm s q))
  pure p.id

-- The permission of a seed: its id.
unfoldable pub upsert_perm : PermSeed → M ℕ
unfolding store_perm
upsert_perm s = do found ← first perms raw (serves s); store_perm s found

abbrev pub new_joint : ℕ → ℕ → RbacMenuPerm
new_joint menu_id perm_id = record {
  id = 0;
  menu_id = menu_id;
  perm_id = perm_id;
  base = record no_base { remark = "系统内置" };
}

abbrev join_if_none : ℕ → RbacMenuPerm → M (Unit {0})
join_if_none cnt r = if cnt == 0 then create menu_perms raw r >> pure tt else pure tt

-- The binding of a permission to a menu, where there is none.
unfoldable pub bind_perm : ℕ → ℕ → M (Unit {0})
bind_perm menu_id perm_id = do
  cnt ← count menu_perms raw (joins menu_id perm_id)
  now ← gets (λ w. w.now)
  join_if_none cnt (created_by now 0 (new_joint menu_id perm_id))

-- `upsertPermAndBind`
unfoldable pub upsert_perm_and_bind : ℕ → PermSeed → M (Unit {0})
unfolding upsert_perm bind_perm
upsert_perm_and_bind menu_id s = do perm_id ← upsert_perm s; bind_perm menu_id perm_id

unfoldable pub upsert_perms : ℕ → List PermSeed → M (Unit {0})
unfolding upsert_perm_and_bind
upsert_perms menu_id [] = pure tt
upsert_perms menu_id (s ∷ rest) = do upsert_perm_and_bind menu_id s; upsert_perms menu_id rest

unfoldable pub new_menu : ℕ → MenuFields → RbacMenu
new_menu parent_id f = record {
  id = 0;
  name = f.name;
  parent_id = parent_id;
  path = f.path;
  icon = f.icon;
  is_link = 0;
  title = f.title;
  code = f.code;
  include = "";
  type = f.type;
  field_value_key = "";
  field_value_width = "";
  field_value_ellipsis = 0;
  base = record no_base { sort = f.sort; remark = "系统内置" };
}

abbrev unless_zero : ℤ → ℤ → ℤ
unless_zero (pos zero) old = old
unless_zero new old = new

-- The columns that `updates` holds: an empty text and a zero sort leave the column as it is.
unfoldable pub rewritten_menu : ℕ → MenuFields → RbacMenu → RbacMenu
rewritten_menu parent_id f m = record m {
  parent_id = parent_id;
  title = f.title;
  type = f.type;
  name = if f.name == "" then m.name else f.name;
  path = if f.path == "" then m.path else f.path;
  icon = if f.icon == "" then m.icon else f.icon;
  base = record m.base { is_del = 0; sort = unless_zero f.sort m.sort };
}

-- What is done with the menu that is found, or not found: its id.
unfoldable pub store_row : ℕ → MenuFields → Option RbacMenu → M ℕ
unfolding new_menu rewritten_menu
store_row parent_id f none = do
  now ← gets (λ w. w.now)
  m ← create menus raw (created_by now 0 (new_menu parent_id f))
  pure m.id
store_row parent_id f (some m) = do
  now ← gets (λ w. w.now)
  update menus raw (λ n. n.id == m.id) (λ n. touch now (rewritten_menu parent_id f n))
  pure m.id

-- The menu of a seed: its id.
unfoldable pub upsert_row : ℕ → MenuFields → M ℕ
unfolding store_row
upsert_row parent_id f = do found ← first menus raw (has_code f.code); store_row parent_id f found

-- A menu with its permissions: the id of the menu.
unfoldable pub upsert_node : ℕ → MenuFields → List PermSeed → M ℕ
unfolding upsert_row upsert_perms
upsert_node parent_id f ps = do id ← upsert_row parent_id f; upsert_perms id ps; pure id

-- `upsertMenu`, and its loop over the children of a menu.
unfoldable mutual
  unfolding upsert_node

  pub upsert_menu : ℕ → MenuSeed → M (Unit {0})
  upsert_menu parent_id (menu f ps children) = do
    id ← upsert_node parent_id f ps
    upsert_menus id children

  pub upsert_menus : ℕ → MenuSeeds → M (Unit {0})
  upsert_menus parent_id nil = pure tt
  upsert_menus parent_id (cons s tree) = do upsert_menu parent_id s; upsert_menus parent_id tree

-- A menu that the tree does not have, and that is not deleted.
abbrev pub is_foreign : List String → RbacMenu → Bool
is_foreign codes m = not (contains m.code codes) && not_del m

unfoldable pub clean_menus : List String → M (Unit {0})
clean_menus codes = do
  now ← gets (λ w. w.now)
  update menus raw (is_foreign codes) (soft_delete now)
  pure tt

-- `SeedMenusAndPerms`, for any tree of menus.
unfoldable pub seed_tree : MenuSeeds → M (Unit {0})
unfolding upsert_menus clean_menus collect_codes
seed_tree tree = do upsert_menus 0 tree; clean_menus (collect_codes tree)

unfoldable pub seed_menus_and_perms : M (Unit {0})
unfolding seed_tree
seed_menus_and_perms = seed_tree rbac_menu_tree
