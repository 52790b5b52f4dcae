-- ===== src/Router/Routes/Seeded.antt =====
-- The routes of internal/router/router.go against the permissions of internal/bootstrap/seed_rbac.go.
use clip_sync_admin.Prelude.{
  ℕ, String, ◌≡◌, ◌≢◌, refl, sym, ap, ◌∙◌, Bool, true, false, not, ◌||◌, ◌&&◌, ◌⊎◌, inl, inr, some,
  List, [], ◌∷◌, Bool-cases, &&-left, &&-right, All, all, any, filter, arith, ◌==◌, nat_eq,
  string_eq,
}
use clip_sync_admin.Prelude.Members.{all-mem, All-of_all}
use clip_sync_admin.Reply.{ok}
use clip_sync_admin.Model.{RbacPerm, Db}
use clip_sync_admin.World.{Env, World, perm_base, not_del, scope_active, Claims}
use clip_sync_admin.Access.{method_code, matches_route}
use clip_sync_admin.Access.Spec.{HasSuperRole}
use clip_sync_admin.Middleware.Signature.{pass}
use clip_sync_admin.Middleware.Permission.{rbac}
use clip_sync_admin.Middleware.Permission.Correct.{rbac_sound}
use clip_sync_admin.Seed.Tree.{rbac_menu_tree}
use clip_sync_admin.Seed.Menus.{seed_menus_and_perms}
use clip_sync_admin.Seed.Menus.Stays.{any_menus}
use clip_sync_admin.Seed.Menus.Enabled.{enabled, seed_tree-AllEnabled}
use clip_sync_admin.Seed.Menus.Registered.{for_route, lists_route, seed_tree-registers}
use clip_sync_admin.Router.Routes.{Route, same_route, checked_routes, admin_status_route}

-- Whether the tree of the program has a permission for a route.
unfoldable pub in_tree : String → ℕ → Bool
unfolding lists_route any_menus
in_tree pattern method = any_menus (lists_route pattern method) rbac_menu_tree

abbrev listed : Route → Bool
listed r = in_tree r.pattern (method_code r.method) && not (method_code r.method == 0)

-- `CheckRoute` finds a permission for the route among the rows that it reads.
abbrev pub Registered : Db → Route → Type 0
Registered db r = any (matches_route (method_code r.method) r.pattern) db.perms ≡ true

any-matches_route :
    (route : String) (method : ℕ) (ps : List RbacPerm)
    → any (for_route route method) ps ≡ true
    → all enabled ps ≡ true
    → any (matches_route method route) ps ≡ true
unfolding matches_route
any-matches_route route method [] h on = h
any-matches_route route method (p ∷ ps) h on = elim (Bool-cases (for_route route method p)) [
  | inl here ↦ ground (arith, here, on)
  | inr miss ↦
      let rest = any-matches_route route method ps (rw miss at h) (ground (arith, on)) in
      ground (arith, rest)
]

-- The routes that are guarded, without the one for the status of an administrator.
abbrev pub other_routes : List Route
other_routes = filter (λ r. not (same_route r admin_status_route)) checked_routes

others_listed : all listed other_routes ≡ true
unfolding in_tree method_code
others_listed = refl

status_unlisted : in_tree admin_status_route.pattern 3 ≡ false
unfolding in_tree
status_unlisted = refl

any_unlisted : in_tree admin_status_route.pattern 0 ≡ false
unfolding in_tree
any_unlisted = refl

listed_tree :
    (r : Route)
    → listed r ≡ true
    → any_menus (lists_route r.pattern (method_code r.method)) rbac_menu_tree ≡ true
unfolding in_tree
listed_tree r h = &&-left (in_tree r.pattern (method_code r.method)) _ h

listed_method : (r : Route) → listed r ≡ true → method_code r.method ≢ 0
listed_method r h =
    let nonzero = &&-right (in_tree r.pattern (method_code r.method)) _ h in ground (arith, nonzero)

-- Where no permission that is not deleted is disabled, then after a successful `SeedMenusAndPerms`
-- `CheckRoute` finds, among the permissions that are neither deleted nor disabled, one for every route
-- that `RBAC` guards, with one exception: the route for the status of an administrator.
pub seed-registers_routes :
    (env : Env) (w : World)
    → all enabled w.db.perms ≡ true
    → (seed_menus_and_perms env w).0 ≡ ok tt
    → All (Registered (seed_menus_and_perms env w).1.db) other_routes
unfolding seed_menus_and_perms
seed-registers_routes env w on h =
    let after = (seed_menus_and_perms env w).1.db in
    All-of_all (Registered after) listed other_routes
      (λ r fits.
        any-matches_route r.pattern (method_code r.method) after.perms
          (seed_tree-registers r.pattern (method_code r.method) env w rbac_menu_tree
            (listed_tree r fits) (listed_method r fits) h)
          (seed_tree-AllEnabled env w rbac_menu_tree on))
      others_listed

-- Whether a permission that is not deleted comes from the tree.
abbrev pub from_tree : RbacPerm → Bool
from_tree p = not (not_del p) || in_tree p.route p.method

no_grant :
    (p : RbacPerm)
    → p.route ≡ admin_status_route.pattern
    → (p.method ≡ 0) ⊎ (p.method ≡ method_code admin_status_route.method)
    → scope_active p ≡ true
    → from_tree p ≡ true
    → ⊥
unfolding method_code
no_grant p route method active seeded =
    let here : in_tree p.route p.method ≡ true = ground (arith, active, seeded) in
    elim method [
      | inl any ↦
          cc (sym here ∙ ap (λ r. in_tree r p.method) route ∙ ap (in_tree _) any ∙ any_unlisted)
      | inr put ↦
          cc (sym here ∙ ap (λ r. in_tree r p.method) route ∙ ap (in_tree _) put ∙ status_unlisted)
    ]

-- In a database whose permissions all come from the tree of the program, nobody but a super
-- administrator passes `RBAC` on the route for the status of an administrator: no role can be given
-- that right.
pub status_route_super_only :
    (env : Env) (w : World) (c : Claims)
    → all from_tree w.db.perms ≡ true
    → (rbac (some c) admin_status_route.method admin_status_route.pattern env w).0 ≡ ok (pass tt)
    → HasSuperRole w.db c.admin_id
status_route_super_only env w c seeds passed =
    elim (rbac_sound env w c admin_status_route.method admin_status_route.pattern passed) [
      | inl super ↦ super
      | inr g ↦ absurd (
          no_grant g.perm g.same_route g.same_method g.active
            (all-mem from_tree w.db.perms seeds g.listed))
    ]
