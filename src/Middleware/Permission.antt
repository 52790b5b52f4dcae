-- ===== src/Middleware/Permission.antt =====
-- internal/middleware/rbac.go: `RBAC`.
pub mod Complete
pub mod Correct
use clip_sync_admin.Prelude.{ℕ, String, Bool, Option, none, some, List, if◌then◌else◌}
use clip_sync_admin.Reply.{
  Error, biz, raw, ok, err, message_of, code_unauthorized, code_access_denied, code_db_error,
}
use clip_sync_admin.World.{M, Claims, pure}
use clip_sync_admin.Access.{user_role_ids, is_super, perm_ids_of_roles, check_route}
use clip_sync_admin.Middleware.Signature.{Verdict, pass, abort, abort_with}

-- What an error of `CheckRoute` is answered with.
unfoldable pub refusal : Error → Verdict (Unit {0})
unfolding message_of
refusal (biz code message) = abort code message
refusal (raw _) = abort_with code_access_denied

-- A step of the middleware whose error is answered as a database error.
abbrev pub or_db_error : {A : Type 0} → M A → (A → M (Verdict (Unit {0}))) → M (Verdict (Unit {0}))
or_db_error m k env w =
    let (r, w') = m env w in
    elim r [ ok a ↦ k a env w' | err _ ↦ (ok (abort_with code_db_error), w') ]

unfoldable pub check_permission : String → String → List ℕ → M (Verdict (Unit {0}))
unfolding refusal
check_permission method full_path perm_ids env w =
    let (r, w') = check_route method full_path perm_ids env w in
    elim r [ ok _ ↦ (ok (pass tt), w') | err e ↦ (ok (refusal e), w') ]

-- What follows the query of `IsSuper`, and that of the roles.
unfoldable pub after_super : String → String → List ℕ → Bool → M (Verdict (Unit {0}))
after_super method full_path role_ids super =
    if super
    then pure (pass tt)
    else or_db_error (perm_ids_of_roles role_ids) (check_permission method full_path)

unfoldable pub after_roles : String → String → List ℕ → M (Verdict (Unit {0}))
after_roles method full_path role_ids =
    or_db_error (is_super role_ids) (after_super method full_path role_ids)

-- `RBAC`, with the claims that the context holds.
unfoldable pub rbac : Option Claims → String → String → M (Verdict (Unit {0}))
unfolding message_of
rbac none method full_path = pure (abort_with code_unauthorized)
rbac (some c) method full_path =
    or_db_error (user_role_ids c.admin_id) (after_roles method full_path)
