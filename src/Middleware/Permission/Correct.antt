-- ===== src/Middleware/Permission/Correct.antt =====
-- The RBAC middleware (internal/middleware/rbac.go) against the rows of the database.
use clip_sync_admin.Prelude.{ℕ, String, ◌≡◌, ◌⊎◌, inl, inr, some, List, arith, Bool-cases}
use clip_sync_admin.Reply.{ok}
use clip_sync_admin.World.{Env, World, M, Claims}
use clip_sync_admin.World.Inversion.{Outcome-cases}
use clip_sync_admin.Access.{user_role_ids, is_super, perm_ids_of_roles, method_code, check_route}
use clip_sync_admin.Access.Spec.{HasSuperRole, Granted}
use clip_sync_admin.Access.Queries.{is_super_iff, Granted-iff}
use clip_sync_admin.Access.Answers.{
  user_role_ids-ok, is_super-ok, perm_ids_of_roles-ok, check_route-ok,
}
use clip_sync_admin.Middleware.Signature.{Verdict, pass}
use clip_sync_admin.Middleware.Permission.{
  or_db_error, check_permission, refusal, after_roles, after_super, rbac,
}

or_db_error-pass :
    {A : Type 0} (m : M A) (k : A → M (Verdict (Unit {0}))) (env : Env) (w : World)
    → (or_db_error m k env w).0 ≡ ok (pass tt)
    → (a : A) × ((m env w).0 ≡ ok a) × ((k a env (m env w).1).0 ≡ ok (pass tt))
or_db_error-pass m k env w h = elim (Outcome-cases (m env w).0) [
  | inl (a, e) ↦ (a, e, rw (e, or_db_error) at h)
  | inr (e, x) ↦ absurd (ground arith)
]

check_permission-pass :
    (method path : String) (ids : List ℕ) (env : Env) (w : World)
    → (check_permission method path ids env w).0 ≡ ok (pass tt)
    → (check_route method path ids env w).0 ≡ ok tt
unfolding check_permission refusal
check_permission-pass method path ids env w h = ground arith

-- A request that the middleware lets pass is of an administrator who has an active super role, or
-- to whom the route is granted, in the database as it stood; also where some calls fail.
pub rbac_sound :
    (env : Env) (w : World) (c : Claims) (method path : String)
    → (rbac (some c) method path env w).0 ≡ ok (pass tt)
    → HasSuperRole w.db c.admin_id ⊎ Granted w.db c.admin_id (method_code method) path
unfolding rbac after_roles after_super
rbac_sound env w c method path h =
    let (ids, got_ids, rest) =
      or_db_error-pass (user_role_ids c.admin_id) (after_roles method path) env w h in
    let (eq_ids, db1) = user_role_ids-ok env w c.admin_id ids got_ids in
    let w1 = (user_role_ids c.admin_id env w).1 in
    let (b, got_b, rest') =
      or_db_error-pass (is_super ids) (after_super method path ids) env w1 rest in
    let (eq_b, db2) = is_super-ok env w1 ids b got_b in
    let w2 = (is_super ids env w1).1 in
    elim (Bool-cases b) [
      | inl super ↦
          inl ((is_super_iff w.db c.admin_id).0 (ground (arith, super, db1, eq_ids, eq_b)))
      | inr plain ↦
          let (ps, got_ps, rest'') =
            or_db_error-pass (perm_ids_of_roles ids) (check_permission method path) env w2
              (rw plain at rest') in
          let (eq_ps, db3) = perm_ids_of_roles-ok env w2 ids ps got_ps in
          let w3 = (perm_ids_of_roles ids env w2).1 in
          let allowed =
            check_route-ok env w3 method path ps
              (check_permission-pass method path ps env w3 rest'') in
          inr (
            (Granted-iff w.db c.admin_id (method_code method) path).0
              (ground (arith, allowed, db1, db2, db3, eq_ids, eq_ps)))
    ]
