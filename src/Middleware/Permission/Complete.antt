-- ===== src/Middleware/Permission/Complete.antt =====
-- The RBAC middleware (internal/middleware/rbac.go) where the database answers every call.
use clip_sync_admin.Prelude.{
  ℕ, String, ◌≡◌, ◌⊎◌, inl, inr, true, some, List, [], ◌∷◌, filter, length, ltb, arith, Bool-cases,
}
use clip_sync_admin.Reply.{ok}
use clip_sync_admin.World.{Env, World, Claims}
use clip_sync_admin.World.Laws.{NoFault}
use clip_sync_admin.Access.{
  user_role_ids, is_super, perm_ids_of_roles, menu_ids_of_roles, perm_ids_of_menus, method_code,
  check_route, route_verdict, allows, matches_route,
}
use clip_sync_admin.Access.Spec.{HasSuperRole, Granted}
use clip_sync_admin.Access.Queries.{
  roles_of, super_rows, menus_reached, perms_reached, is_super_iff, Granted-iff,
}
use clip_sync_admin.Access.Answers.{super_rows_nil, menus_reached_nil, perms_reached_nil}
use clip_sync_admin.Middleware.Signature.{pass}
use clip_sync_admin.Middleware.Permission.{check_permission, after_roles, after_super, rbac}

module _ (env : Env) (up : NoFault env) where
  user_role_ids-runs :
      (w : World) (id : ℕ)
      → ((user_role_ids id env w).0 ≡ ok (roles_of w.db id))
        × ((user_role_ids id env w).1.db ≡ w.db)
  unfolding user_role_ids
  user_role_ids-runs w id = ground (arith, up w.calls)

  is_super-runs :
      (w : World) (ids : List ℕ)
      → ((is_super ids env w).0 ≡ ok (ltb 0 (length (super_rows w.db ids))))
        × ((is_super ids env w).1.db ≡ w.db)
  unfolding is_super
  is_super-runs w [] = rw super_rows_nil (ground arith)
  is_super-runs w (i ∷ ids) = ground (arith, up w.calls)

  menu_ids_of_roles-runs :
      (w : World) (ids : List ℕ)
      → ((menu_ids_of_roles ids env w).0 ≡ ok (menus_reached w.db ids))
        × ((menu_ids_of_roles ids env w).1.db ≡ w.db)
  unfolding menu_ids_of_roles
  menu_ids_of_roles-runs w ids = ground (arith, up w.calls)

  perm_ids_of_menus-runs :
      (w : World) (ids : List ℕ)
      → ((perm_ids_of_menus ids env w).0 ≡ ok (perms_reached w.db ids))
        × ((perm_ids_of_menus ids env w).1.db ≡ w.db)
  unfolding perm_ids_of_menus
  perm_ids_of_menus-runs w [] = rw perms_reached_nil (ground arith)
  perm_ids_of_menus-runs w (i ∷ ids) = ground (arith, up w.calls)

  perm_ids_of_roles-runs :
      (w : World) (ids : List ℕ)
      → ((perm_ids_of_roles ids env w).0 ≡ ok (perms_reached w.db (menus_reached w.db ids)))
        × ((perm_ids_of_roles ids env w).1.db ≡ w.db)
  unfolding perm_ids_of_roles
  perm_ids_of_roles-runs w [] = rw (menus_reached_nil, perms_reached_nil) (ground arith)
  perm_ids_of_roles-runs w (i ∷ ids) =
      let w' = (menu_ids_of_roles (i ∷ ids) env w).1 in
      ground (
        arith,
        menu_ids_of_roles-runs w (i ∷ ids),
        perm_ids_of_menus-runs w' (menus_reached w.db (i ∷ ids)),
      )

  check_permission-runs :
      (w : World) (method path : String) (ids : List ℕ)
      → allows ids (filter (matches_route (method_code method) path) w.db.perms) ≡ true
      → (check_permission method path ids env w).0 ≡ ok (pass tt)
  unfolding check_permission check_route route_verdict
  check_permission-runs w method path ids h = ground (arith, up w.calls)

-- Where the database answers every call, a request passes if its administrator has an active super
-- role, or if the route is granted to the administrator.
pub rbac_complete :
    (env : Env) (w : World) (c : Claims) (method path : String)
    → NoFault env
    → HasSuperRole w.db c.admin_id ⊎ Granted w.db c.admin_id (method_code method) path
    → (rbac (some c) method path env w).0 ≡ ok (pass tt)
unfolding rbac after_roles after_super
rbac_complete env w c method path up granted =
    let ids = roles_of w.db c.admin_id in
    let w1 = (user_role_ids c.admin_id env w).1 in
    let (got_ids, db1) = user_role_ids-runs env up w c.admin_id in
    let (got_super, db2) = is_super-runs env up w1 ids in
    let w2 = (is_super ids env w1).1 in
    let (got_ps, db3) = perm_ids_of_roles-runs env up w2 ids in
    let w3 = (perm_ids_of_roles ids env w2).1 in
    let ps = perms_reached w2.db (menus_reached w2.db ids) in
    elim (Bool-cases (ltb 0 (length (super_rows w.db ids)))) [
      | inl super ↦ ground (arith, got_ids, got_super, db1, super)
      | inr plain ↦ elim granted [
        | inl super ↦ absurd (ground (arith, plain, (is_super_iff w.db c.admin_id).1 super))
        | inr g ↦
            let h = (Granted-iff w.db c.admin_id (method_code method) path).1 g in
            let passes =
              check_permission-runs env up w3 method path ps (ground (arith, h, db1, db2, db3)) in
            ground (arith, got_ids, got_super, got_ps, db1, plain, passes)
      ]
    ]
