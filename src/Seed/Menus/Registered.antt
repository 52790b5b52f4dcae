-- ===== src/Seed/Menus/Registered.antt =====
-- The permissions that internal/bootstrap/seed_rbac.go makes sure of: those of its tree.
use clip_sync_admin.Prelude.{
  ℕ, String, ◌≡◌, ◌≢◌, ◌∙◌, sym, ap, Bool, true, ◌&&◌, Option, some, none, List, [], ◌∷◌, any,
  head?, filter, arith, inl, inr, Bool-cases, any-append, any-map_where, any-of_head, eq_iff, ◌==◌,
  nat_eq, string_eq,
}
use clip_sync_admin.Reply.{raw, ok}
use clip_sync_admin.Model.{RbacPerm, Db}
use clip_sync_admin.World.{
  Env, World, ◌>>◌, pure, perms, perm_base, not_del, create, assigned, update, touch, first,
  created_by,
}
use clip_sync_admin.World.Inversion.{>>=-ok, first-ok}
use clip_sync_admin.Rbac.Perms.{with_defaults}
use clip_sync_admin.Seed.Tree.{PermSeed, MenuFields, MenuSeeds}
use clip_sync_admin.Seed.Menus.{
  serves, store_perm, upsert_perm, bind_perm, upsert_perm_and_bind, upsert_perms, store_row,
  upsert_row, upsert_node, upsert_menus, clean_menus, seed_tree, rewritten_perm, new_perm,
}
use clip_sync_admin.Seed.Menus.Stays.{
  Stays, Ensures, >>=-Stays, >>=-Ensures, >>=-Ensures_first, first-Stays, upsert_perms-Stays,
  any_menus, upsert_menus-Ensures,
}

-- Whether a permission that is not deleted has a route and the code of a method.
abbrev pub for_route : String → ℕ → RbacPerm → Bool
for_route route method p = p.route == route && p.method == method && not_del p

abbrev pub registered : Db → String → ℕ → Bool
registered db route method = any (for_route route method) db.perms

abbrev Kept : String → ℕ → Db → Type 0
Kept route method db = registered db route method ≡ true

module _ (route : String) (method : ℕ) where
  create-Stays : (r : RbacPerm) → Stays (Kept route method) (create perms raw r)
  create-Stays r env w h =
      ground
        (arith, h, any-append (for_route route method) w.db.perms (assigned perms r env w ∷ []))

  create-Ensures :
      (r : RbacPerm)
      → for_route route method r ≡ true
      → Ensures (Kept route method) (create perms raw r)
  create-Ensures r fits env w a h =
      ground (
        arith,
        h,
        fits,
        any-append (for_route route method) w.db.perms (assigned perms r env w ∷ []),
      )

  rewrite-for_route :
      (now : ℕ) (s : PermSeed) (p : RbacPerm)
      → for_route route method p ≡ true
      → for_route route method (touch now (rewritten_perm s p)) ≡ true
  unfolding rewritten_perm
  rewrite-for_route now s p h = ground arith

  rewrite-Stays :
      (id now : ℕ) (s : PermSeed)
      → Stays
          (Kept route method)
          (update perms raw (λ q. q.id == id) (λ q. touch now (rewritten_perm s q)))
  rewrite-Stays id now s env w h =
      let change = λ (q : RbacPerm). touch now (rewritten_perm s q) in
      ground (
        arith,
        h,
        any-map_where (for_route route method) (λ q. q.id == id) change w.db.perms
            (rewrite-for_route now s) h,
      )

  store_perm-Stays :
      (s : PermSeed) (found : Option RbacPerm) → Stays (Kept route method) (store_perm s found)
  unfolding store_perm
  store_perm-Stays s none env w h =
      let new = with_defaults (created_by w.now 0 (new_perm s)) in
      >>=-Stays (Kept route method) (create perms raw new) (λ p. pure p.id) (create-Stays new)
        (λ _ _ _ k. k) env w h
  store_perm-Stays s (some p) env w h =
      >>=-Stays (Kept route method)
        (update perms raw (λ q. q.id == p.id) (λ q. touch w.now (rewritten_perm s q)))
        (λ _. pure p.id) (rewrite-Stays p.id w.now s) (λ _ _ _ k. k) env w h

  upsert_perm-Stays : (s : PermSeed) → Stays (Kept route method) (upsert_perm s)
  unfolding upsert_perm
  upsert_perm-Stays s =
      >>=-Stays (Kept route method) (first perms raw (serves s)) (store_perm s)
        (first-Stays (Kept route method) perms (serves s)) (store_perm-Stays s)

  -- The statements on the other tables leave the permissions as they are.
  bind_perm-Stays : (menu_id perm_id : ℕ) → Stays (Kept route method) (bind_perm menu_id perm_id)
  unfolding bind_perm
  bind_perm-Stays menu_id perm_id env w h = ground (arith, h)

  upsert_row-Stays :
      (parent_id : ℕ) (f : MenuFields) → Stays (Kept route method) (upsert_row parent_id f)
  unfolding upsert_row store_row
  upsert_row-Stays parent_id f env w h = ground (arith, h)

  upsert_perm_and_bind-Stays :
      (menu_id : ℕ) (s : PermSeed) → Stays (Kept route method) (upsert_perm_and_bind menu_id s)
  unfolding upsert_perm_and_bind
  upsert_perm_and_bind-Stays menu_id s =
      >>=-Stays (Kept route method) (upsert_perm s) (bind_perm menu_id) (upsert_perm-Stays s)
        (bind_perm-Stays menu_id)

  -- A seed for the route and the method.
  abbrev wanted : PermSeed → Bool
  wanted s = s.route == route && s.method == method

  store_perm-Ensures :
      (s : PermSeed) (found : Option RbacPerm) (env : Env) (w : World) (id : ℕ)
      → wanted s ≡ true
      → method ≢ 0
      → head? (filter (serves s) w.db.perms) ≡ found
      → (store_perm s found env w).0 ≡ ok id
      → Kept route method (store_perm s found env w).1.db
  unfolding store_perm new_perm with_defaults
  store_perm-Ensures s none env w id want nonzero e h =
      let new = with_defaults (created_by w.now 0 (new_perm s)) in
      >>=-Ensures_first (Kept route method) (create perms raw new) (λ p. pure p.id)
        (create-Ensures new (ground (arith, want, nonzero))) (λ _ _ _ k. k) env w id h
  store_perm-Ensures s (some p) env w id want nonzero e h =
      let r : s.route ≡ route = (eq_iff s.route route).0 (ground (arith, want)) in
      let m : s.method ≡ method = ground (arith, want) in
      let there : any (for_route s.route s.method) w.db.perms ≡ true =
        any-of_head (serves s) w.db.perms p e in
      store_perm-Stays s (some p) env w (rw (r, m) at there)

  upsert_perm-Ensures :
      (s : PermSeed) → wanted s ≡ true → method ≢ 0 → Ensures (Kept route method) (upsert_perm s)
  unfolding upsert_perm
  upsert_perm-Ensures s want nonzero env w id h =
      let look = first perms raw (serves s) in
      let (found, e, whole) = >>=-ok look (store_perm s) env w h in
      let (row, same) = first-ok perms (serves s) env w raw found e in
      let rows : head? (filter (serves s) (look env w).1.db.perms) ≡ found =
        ap (λ v. head? (filter (serves s) v.db.perms)) same ∙ row in
      rw whole (
        store_perm-Ensures s found env (look env w).1 id want nonzero rows
          (ap (λ o. o.0) (sym whole) ∙ h))

  upsert_perms-Ensures :
      (menu_id : ℕ) (ps : List PermSeed)
      → any wanted ps ≡ true
      → method ≢ 0
      → Ensures (Kept route method) (upsert_perms menu_id ps)
  unfolding upsert_perms upsert_perm_and_bind
  upsert_perms-Ensures menu_id [] listed nonzero = λ env w a h. cc
  upsert_perms-Ensures menu_id (s ∷ ps) listed nonzero =
      let rest = λ (_ : Unit {0}). upsert_perms menu_id ps in
      elim (Bool-cases (wanted s)) [
        | inl here ↦
            >>=-Ensures_first (Kept route method) (upsert_perm_and_bind menu_id s) rest
              (>>=-Ensures_first (Kept route method) (upsert_perm s) (bind_perm menu_id)
                (upsert_perm-Ensures s here nonzero) (bind_perm-Stays menu_id))
              (λ _.
                upsert_perms-Stays (Kept route method) upsert_row-Stays upsert_perm_and_bind-Stays
                  menu_id ps)
        | inr there ↦
            >>=-Ensures (Kept route method) (upsert_perm_and_bind menu_id s) rest
              (λ _. upsert_perms-Ensures menu_id ps (rw there at listed) nonzero)
      ]

  -- Whether a node has a seed for the route and the method.
  unfoldable pub lists_route : MenuFields → List PermSeed → Bool
  lists_route f ps = any wanted ps

  upsert_node-Ensures :
      (parent_id : ℕ) (f : MenuFields) (ps : List PermSeed)
      → method ≢ 0
      → lists_route f ps ≡ true
      → Ensures (Kept route method) (upsert_node parent_id f ps)
  unfolding upsert_node lists_route
  upsert_node-Ensures parent_id f ps nonzero listed =
      >>=-Ensures (Kept route method) (upsert_row parent_id f) (λ id. upsert_perms id ps >> pure id)
        λ id.
          >>=-Ensures_first (Kept route method) (upsert_perms id ps) (λ _. pure id)
            (upsert_perms-Ensures id ps listed nonzero) (λ _ _ _ k. k)

  clean_menus-Stays : (codes : List String) → Stays (Kept route method) (clean_menus codes)
  unfolding clean_menus
  clean_menus-Stays codes env w h = ground (arith, h)

  -- A route that the tree lists is registered after the seeding, for any tree.
  pub seed_tree-registers :
      (env : Env) (w : World) (tree : MenuSeeds)
      → any_menus lists_route tree ≡ true
      → method ≢ 0
      → (seed_tree tree env w).0 ≡ ok tt
      → registered (seed_tree tree env w).1.db route method ≡ true
  unfolding seed_tree
  seed_tree-registers env w tree listed nonzero h =
      >>=-Ensures_first (Kept route method) (upsert_menus 0 tree) (λ _. clean_menus _)
        (upsert_menus-Ensures (Kept route method) upsert_row-Stays upsert_perm_and_bind-Stays
          lists_route (λ id f ps. upsert_node-Ensures id f ps nonzero) 0 tree listed)
        (λ _. clean_menus-Stays _) env w tt h
