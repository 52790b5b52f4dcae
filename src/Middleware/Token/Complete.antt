-- ===== src/Middleware/Token/Complete.antt =====
-- The JWTAuth middleware (internal/middleware/rbac.go) where Redis answers: what a live token finds.
use clip_sync_admin.Prelude.{
  String, ◌≡◌, ◌≢◌, true, none, some, inl, inr, refl, arith, eq_iff, Bool-cases,
}
use clip_sync_admin.Reply.{ok}
use clip_sync_admin.World.{Env, World, Claims}
use clip_sync_admin.World.Inversion.{Outcome-cases}
use clip_sync_admin.World.Laws.{IsRedis, NoFault}
use clip_sync_admin.Auth.{parse, claims}
use clip_sync_admin.Session.{is_token_active, refresh_token, reissue}
use clip_sync_admin.Session.Tokens.{has_token, is_token_active_lem}
use clip_sync_admin.Middleware.Header.{strip_bearer}
use clip_sync_admin.Middleware.Signature.{pass}
use clip_sync_admin.Middleware.Token.Correct.{refresh_token-runs}
use clip_sync_admin.Middleware.Token.{
  Session, is_renewable, renew, after_active, after_parse, jwt_auth,
}

-- A renewal that fails lets the old token stand: a session always comes out.
renew-runs :
    (env : Env) (w : World) (c : Claims) (token : String)
    → (s : Session) × ((renew c token env w).0 ≡ ok s) × (s.claims ≡ c)
unfolding renew
renew-runs env w c token = elim (Bool-cases (is_renewable env w.now c)) [
  | inr e ↦ (record { claims = c; token = token; refreshed = none }, ground (arith, e), refl)
  | inl e ↦ elim (Outcome-cases (reissue c.admin_id c.account c.id env w).0) [
    | inl (tok, r) ↦
        (record { claims = c; token = tok; refreshed = some tok }, ground (arith, e, r), refl)
    | inr (x, r) ↦
        (record { claims = c; token = token; refreshed = none }, ground (arith, e, r), refl)
  ]
]

-- Where Redis answers and keeps its laws, a token that is there, parses, and is on the white list
-- passes JWTAuth, with the claims that it carries.
pub jwt_auth_complete :
    (env : Env) (w : World) (header : String) (c : Claims)
    → IsRedis env.redis
    → NoFault env
    → strip_bearer header env.cfg.jwt.scheme ≢ ""
    → parse env w.now (strip_bearer header env.cfg.jwt.scheme) ≡ claims c
    → has_token w c.id ≡ true
    → (s : Session) × ((jwt_auth header env w).0 ≡ ok (pass s)) × (s.claims ≡ c)
unfolding jwt_auth after_parse after_active
jwt_auth_complete env w header c laws up present valid live =
    let token = strip_bearer header env.cfg.jwt.scheme in
    let w1 = (is_token_active c.id env w).1 in
    let w2 = (refresh_token c.id env w1).1 in
    let active = is_token_active_lem env w c.id laws (up w.calls) in
    let runs = (refresh_token-runs env w1 c.id).0 in
    let (s, made, same) = renew-runs env w2 c token in
    (s, ground (arith, active, runs, made, valid, live, eq_iff token ""), same)
