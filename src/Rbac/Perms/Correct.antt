-- ===== src/Rbac/Perms/Correct.antt =====
-- The permissions that `CreatePerm` can create (internal/service/rbac_service.go).
use clip_sync_admin.Prelude.{
  ℕ, ◌≡◌, ◌≢◌, [], ◌∷◌, ◌++◌, arith, ◌==◌, nat_eq, string_eq, if◌then◌else◌,
}
use clip_sync_admin.Reply.{ok}
use clip_sync_admin.Model.{RbacPerm}
use clip_sync_admin.World.{Env, World}
use clip_sync_admin.Rbac.Perms.{create_perm, with_defaults}

-- A permission that `CreatePerm` creates stands behind the rows that were there, and never is one
-- for all methods or one that is open to all: a method of 0 is stored as 2, and an `is_intercept`
-- of 0 as 1.
create_perm-intercepts :
    (env : Env) (w : World) (in_row new : RbacPerm) (operator : ℕ)
    → (create_perm in_row operator env w).0 ≡ ok new
    → ((create_perm in_row operator env w).1.db.perms ≡ w.db.perms ++ new ∷ [])
      × (new.route ≡ in_row.route)
      × (new.method ≢ 0)
      × (new.is_intercept ≢ 0)
      × (new.method ≡ (if in_row.method == 0 then 2 else in_row.method))
      × (new.is_intercept ≡ (if in_row.is_intercept == 0 then 1 else in_row.is_intercept))
unfolding create_perm with_defaults
create_perm-intercepts env w in_row new operator h =
    (ground arith, ground arith, ground arith, ground arith, ground arith, ground arith)
