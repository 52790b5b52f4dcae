-- ===== src/Middleware/Token.antt =====
-- internal/middleware/rbac.go: `JWTAuth`.
pub mod Complete
pub mod Correct
use clip_sync_admin.Prelude.{
  ℕ, ◌/◌, ◌-◌, String, Bool, ◌&&◌, Option, none, some, ltb, ◌==◌, string_eq, if◌then◌else◌,
}
use clip_sync_admin.Config.{ttl_duration}
use clip_sync_admin.Reply.{
  Outcome, ok, err, message_of, code_unauthorized, code_jwt_expired, code_jwt_invalid,
  code_cache_error,
}
use clip_sync_admin.World.{Env, M, Claims, attempt, pure, ◌>>=◌, ◌>>◌}
use clip_sync_admin.Auth.{parse, Parsed, claims, token_expired, token_invalid}
use clip_sync_admin.Session.{is_token_active, refresh_token, reissue}
use clip_sync_admin.Middleware.Header.{strip_bearer}
use clip_sync_admin.Middleware.Signature.{Verdict, pass, abort_with}

-- What the handlers find in the context: the claims (`ContextAdminKey`), the token, and the token
-- of the response header `X-Refresh-Token`, if one was issued.
pub record Session : Type 0 where
  pub claims : Claims
  pub token : String
  pub refreshed : Option String

abbrev session : Claims → String → Outcome String → Session
session c token (err _) = record { claims = c; token = token; refreshed = none }
session c token (ok new_tok) = record { claims = c; token = new_tok; refreshed = some new_tok }

-- Whether the token has less than half of its life left, and some.
unfoldable pub is_renewable : Env → ℕ → Claims → Bool
is_renewable env now c =
    env.cfg.jwt.refresh_on_access
    && ltb now c.expires_at
    && ltb (c.expires_at - now) (ttl_duration env.cfg.jwt / 2)

unfoldable pub renew : Claims → String → M Session
unfolding is_renewable reissue
renew c token env w =
    if is_renewable env w.now c
    then (do r ← attempt (reissue c.admin_id c.account c.id); pure (session c token r)) env w
    else (ok (record { claims = c; token = token; refreshed = none }), w)

unfoldable pub after_active : Claims → String → Outcome Bool → M (Verdict Session)
unfolding refresh_token renew message_of
after_active c token (err _) env w = (ok (abort_with code_cache_error), w)
after_active c token (ok active) env w =
    if active
    then (do refresh_token c.id; s ← renew c token; pure (pass s)) env w
    else (ok (abort_with code_jwt_expired), w)

unfoldable pub after_parse : String → Parsed → M (Verdict Session)
unfolding is_token_active after_active message_of
after_parse token token_expired env w = (ok (abort_with code_jwt_expired), w)
after_parse token token_invalid env w = (ok (abort_with code_jwt_invalid), w)
after_parse token (claims c) env w =
    (do active ← attempt (is_token_active c.id); after_active c token active) env w

-- `JWTAuth`, at the header that `cfg.Header` names.
unfoldable pub jwt_auth : String → M (Verdict Session)
unfolding after_parse parse strip_bearer message_of
jwt_auth header env w =
    let token = strip_bearer header env.cfg.jwt.scheme in
    if token == ""
    then (ok (abort_with code_unauthorized), w)
    else after_parse token (parse env w.now token) env w
