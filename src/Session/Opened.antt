-- ===== src/Session/Opened.antt =====
-- `AuthService.Login` (internal/service/auth_service.go): the token that it signs, and the runs that
-- succeed.
use clip_sync_admin.Prelude.{
  ℕ, ◌+◌, ◌<◌, String, ◌≡◌, ◌≢◌, ◌⊎◌, refl, true, some, arith, eq_iff, string_eq,
}
use clip_sync_admin.Text.{trim_space}
use clip_sync_admin.Reply.{ok}
use clip_sync_admin.Config.{ttl_duration}
use clip_sync_admin.Model.{RbacAdmin}
use clip_sync_admin.World.{Env, World, Claims, Value, tick, touch, admin_base}
use clip_sync_admin.World.Laws.{NoFault, is_live, deadline_after}
use clip_sync_admin.Auth.{check_password, generate, numeric_date, gen_sign_secret}
use clip_sync_admin.Session.{login, login_found, login_accepted, counter_value, issue_sign_secret}
use clip_sync_admin.Session.Keys.{login_err_key}
use clip_sync_admin.Session.Login.{IsAccepted, login-eq-accepted}

-- The claims of the token that a login signs: its id is drawn by the fourth call.
abbrev pub claims_of : Env → World → RbacAdmin → Claims
claims_of env w a = record {
  admin_id = a.id;
  account = a.account;
  id = env.uuid (w.calls + 1 + 1 + 1);
  issued_at = numeric_date w.now;
  expires_at = numeric_date (w.now + ttl_duration env.cfg.jwt);
}

login_accepted_signs :
    (env : Env) (w : World) (account tok secret : String) (found a : RbacAdmin)
    → (login_accepted account found env (tick (tick w))).0 ≡ ok (tok, a, secret)
    → env.sign_token (claims_of env w a) ≡ ok tok
unfolding login_accepted generate
login_accepted_signs env w account tok secret found a h = ground arith

pub login_signs :
    (env : Env) (w : World) (account password tok secret : String) (a : RbacAdmin)
    → (login account password env w).0 ≡ ok (tok, a, secret)
    → env.sign_token (claims_of env w a) ≡ ok tok
login_signs env w account password tok secret a h =
    let (found, row, same) = login-eq-accepted env w account password (tok, a, secret) h in
    login_accepted_signs env w (trim_space account) tok secret found a (rw same at h)

-- A key that lives as long as a token is there for as long as the token is valid.
pub live_before_expiry :
    (env : Env) (w : World) (a : RbacAdmin) (v : Value) (now : ℕ)
    → now < (claims_of env w a).expires_at
    → is_live now
        (some (record { value = v; deadline = deadline_after w.now (ttl_duration env.cfg.jwt) }))
      ≡ true
live_before_expiry env w a v now h = ground arith

-- The number of the call that draws the secret of a login.
abbrev pub secret_call : World → ℕ
secret_call w = w.calls + 1 + 1 + 1 + 1 + 1 + 1

login_accepted_succeeds :
    (env : Env) (w : World) (account tok secret : String) (a : RbacAdmin)
    → NoFault env
    → env.sign_token (claims_of env w a) ≡ ok tok
    → env.random_hex (secret_call w) ≡ ok secret
    → (a' : RbacAdmin) × ((login_accepted account a env (tick (tick w))).0 ≡ ok (tok, a', secret))
      × (a'.id ≡ a.id)
unfolding login_accepted generate issue_sign_secret gen_sign_secret
login_accepted_succeeds env w account tok secret a up signs draws = (
  touch w.now (record a { last_login_time = some w.now }),
  ground (
    arith,
    up (w.calls + 1 + 1),
    up (w.calls + 1 + 1 + 1 + 1),
    up (w.calls + 1 + 1 + 1 + 1 + 1),
    up (w.calls + 1 + 1 + 1 + 1 + 1 + 1 + 1),
  ),
  refl,
)

-- Where every call is answered, a token can be signed and a secret drawn, the counter is below the
-- limit or none is set, and the row of the account is neither disabled nor locked, a login with the
-- row's password succeeds, for this row.
pub login_succeeds :
    (env : Env) (w : World) (account password tok secret : String) (a : RbacAdmin)
    → NoFault env
    → trim_space account ≢ ""
    → password ≢ ""
    → (env.cfg.security.login_error_limit ≡ 0)
      ⊎ (counter_value (env.redis.get w.now (login_err_key (trim_space account)) w.redis)
          < env.cfg.security.login_error_limit)
    → IsAccepted env w (trim_space account) password a
    → env.sign_token (claims_of env w a) ≡ ok tok
    → env.random_hex (secret_call w) ≡ ok secret
    → (a' : RbacAdmin) × ((login account password env w).0 ≡ ok (tok, a', secret)) × (a'.id ≡ a.id)
unfolding login login_found check_password
login_succeeds env w account password tok secret a up named given limit accepted signs draws =
    let (a', done, same) =
      login_accepted_succeeds env w (trim_space account) tok secret a up signs draws in
    let found = accepted.found in
    let enabled = accepted.enabled in
    let unlocked = accepted.unlocked in
    let matched = accepted.matched in
    (
      a',
      ground (
        arith,
        done,
        found,
        enabled,
        unlocked,
        matched,
        up w.calls,
        up (w.calls + 1),
        eq_iff (trim_space account) "",
        eq_iff password "",
      ),
      same,
    )
