-- ===== src/Seed/Menus/Enabled.antt =====
-- The seeding of internal/bootstrap/seed_rbac.go disables no permission: none that it creates, and none
-- that it finds.
use clip_sync_admin.Prelude.{
  ℕ, ◌≡◌, Bool, true, not, ◌||◌, Option, some, none, List, [], ◌∷◌, ◌++◌, all, map_where, arith,
  ◌==◌, nat_eq,
}
use clip_sync_admin.Reply.{raw}
use clip_sync_admin.Model.{RbacPerm, Db}
use clip_sync_admin.World.{
  Env, World, perms, perm_base, not_del, assigned, touch, first, created_by,
}
use clip_sync_admin.Rbac.Perms.{with_defaults}
use clip_sync_admin.Seed.Tree.{PermSeed, MenuFields, MenuSeeds}
use clip_sync_admin.Seed.Menus.{
  serves, store_perm, upsert_perm, bind_perm, upsert_perm_and_bind, store_row, upsert_row,
  clean_menus, upsert_menus, seed_tree, rewritten_perm, new_perm,
}
use clip_sync_admin.Seed.Menus.Stays.{Stays, >>=-Stays, first-Stays, upsert_menus-Stays}

-- Whether a permission is deleted or enabled.
abbrev pub enabled : RbacPerm → Bool
enabled p = not (not_del p) || p.status == 0

abbrev AllEnabled : Db → Type 0
AllEnabled db = all enabled db.perms ≡ true

all_snoc {ℓ} :
    {A : Type ℓ} (p : A → Bool) (xs : List A) (x : A)
    → all p xs ≡ true
    → p x ≡ true
    → all p (xs ++ x ∷ []) ≡ true
all_snoc p [] x h hx = ground (arith, hx)
all_snoc p (y ∷ xs) x h hx = ground (arith, h, all_snoc p xs x (ground (arith, h)) hx)

all-map_where {ℓ} :
    {A : Type ℓ} (p q : A → Bool) (f : A → A) (xs : List A)
    → ((x : A) → p x ≡ true → p (f x) ≡ true)
    → all p xs ≡ true
    → all p (map_where q f xs) ≡ true
all-map_where p q f [] keep h = h
all-map_where p q f (x ∷ xs) keep h =
    ground (arith, h, keep x, all-map_where p q f xs keep (ground (arith, h)))

store_perm-AllEnabled :
    (s : PermSeed) (found : Option RbacPerm) → Stays AllEnabled (store_perm s found)
unfolding store_perm new_perm with_defaults rewritten_perm
store_perm-AllEnabled s none env w h =
    let new = with_defaults (created_by w.now 0 (new_perm s)) in
    ground (arith, h, all_snoc enabled w.db.perms (assigned perms new env w) h (ground arith))
store_perm-AllEnabled s (some p) env w h =
    let change = λ (q : RbacPerm). touch w.now (rewritten_perm s q) in
    ground (
      arith,
      h,
      all-map_where enabled (λ q. q.id == p.id) change w.db.perms (λ q t. ground (arith, t)) h,
    )

upsert_perm_and_bind-AllEnabled :
    (menu_id : ℕ) (s : PermSeed) → Stays AllEnabled (upsert_perm_and_bind menu_id s)
unfolding upsert_perm_and_bind upsert_perm bind_perm
upsert_perm_and_bind-AllEnabled menu_id s =
    >>=-Stays AllEnabled (upsert_perm s) (bind_perm menu_id)
      (>>=-Stays AllEnabled (first perms raw (serves s)) (store_perm s)
        (first-Stays AllEnabled perms (serves s)) (store_perm-AllEnabled s))
      (λ perm_id env w h. ground (arith, h))

upsert_row-AllEnabled : (parent_id : ℕ) (f : MenuFields) → Stays AllEnabled (upsert_row parent_id f)
unfolding upsert_row store_row
upsert_row-AllEnabled parent_id f env w h = ground (arith, h)

-- For any tree: where no permission is disabled before the seeding, none is after it.
pub seed_tree-AllEnabled :
    (env : Env) (w : World) (tree : MenuSeeds)
    → all enabled w.db.perms ≡ true
    → all enabled (seed_tree tree env w).1.db.perms ≡ true
unfolding seed_tree clean_menus
seed_tree-AllEnabled env w tree =
    >>=-Stays AllEnabled (upsert_menus 0 tree) (λ _. clean_menus _)
      (upsert_menus-Stays AllEnabled upsert_row-AllEnabled upsert_perm_and_bind-AllEnabled 0 tree)
      (λ _ env w h. ground (arith, h)) env w
