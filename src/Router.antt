-- ===== src/Router.antt =====
-- internal/router/router.go: the chains that `New` puts before a handler. The group `/api/admin` has
-- `Sign`; the protected routes have `JWTAuth` too, and the routes of the last group `RBAC` as well.
pub mod Complete
pub mod Correct
pub mod Quiet
pub mod Routes
pub mod Sessions
use clip_sync_admin.Prelude.{String, some}
use clip_sync_admin.Reply.{fail_with, ok, err, error_text, code_internal_error}
use clip_sync_admin.World.{M}
use clip_sync_admin.Middleware.Signature.{Request, Verdict, pass, abort, sign}
use clip_sync_admin.Middleware.Token.{Session, jwt_auth}
use clip_sync_admin.Middleware.Permission.{rbac}
use clip_sync_admin.Handler.Respond.{Handled}

-- A middleware before the rest of a chain; the middlewares return no error of their own.
unfoldable pub chain : {A B : Type 0} → M (Verdict A) → (A → Handled B) → Handled B
unfolding fail_with
chain check next env w =
    let (r, w') = check env w in
    elim r [
      | ok (pass a) ↦ next a env w'
      | ok (abort code message) ↦ (fail_with code message, w')
      | err e ↦ (fail_with code_internal_error (error_text e), w')
    ]

-- `/health` and `/auth/login`
unfoldable pub public_route : {B : Type 0} → Request → Handled B → Handled B
unfolding chain sign
public_route r handler = chain (sign r) λ _. handler

-- The group `priv`
unfoldable pub private_route : {B : Type 0} → Request → (Session → Handled B) → Handled B
unfolding chain sign jwt_auth
private_route r handler = chain (sign r) λ _. chain (jwt_auth r.authorization) handler

-- The group `rbacGroup`, for the route whose pattern is `full_path`
unfoldable pub checked_route : {B : Type 0} → Request → String → (Session → Handled B) → Handled B
unfolding chain sign jwt_auth rbac
checked_route r full_path handler = chain (sign r) λ _.
    chain (jwt_auth r.authorization)
      λ s. chain (rbac (some s.claims) r.method full_path) λ _. handler s
