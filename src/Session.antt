-- ===== src/Session.antt =====
-- internal/service/auth_service.go: logging in and out, and the tokens, session secrets and nonces
-- that Redis keeps for the administrators.
pub mod Attempts
pub mod Lockout
pub mod Keys
pub mod Login
pub mod Opened
pub mod Tokens
use clip_sync_admin.Prelude.{
  ℕ, ◌*◌, String, Bool, ◌&&◌, ◌||◌, Option, none, some, ltb, leb, ◌==◌, nat_eq, string_eq,
  if◌then◌else◌,
}
use clip_sync_admin.Text.{trim_space}
use clip_sync_admin.Reply.{
  biz, raw, ok, err, error_text, message_of, code_param_error, code_login_error_limit,
  code_auth_fail, code_account_disable, code_account_locked, code_internal_error, code_cache_error,
}
use clip_sync_admin.Config.{second, minute, ttl_duration}
use clip_sync_admin.Model.{RbacAdmin}
use clip_sync_admin.World.{
  Env, M, Value, num, text, pure, raise, ignore, or_zero, fail_if, asks, gets, ◌>>=◌, ◌>>◌, first,
  update, db_error, admins, admin_base, touch, not_del, cache_get, cache_exists, cache_set,
  cache_set_nx, cache_del, cache_incr, cache_expire,
}
use clip_sync_admin.Auth.{generate, check_password, gen_sign_secret}
use clip_sync_admin.Session.Keys.{token_key, login_err_key, sign_secret_key}

-- `rdb.Get(...).Int()` with its error dropped; the counters are written by INCR alone.
abbrev pub counter_value : Option Value → ℕ
counter_value none = 0
counter_value (some (num n)) = n
counter_value (some (text _)) = 0

-- The default of 15 minutes holds where the setting is 0.
abbrev pub login_error_ttl : Env → ℕ
login_error_ttl env =
    if env.cfg.security.login_error_ttl == 0
    then 15 * minute
    else env.cfg.security.login_error_ttl * second

-- `m`, with its error turned into a `bizError` of a code.
abbrev pub wrap_error : {A : Type 0} → ℕ → M A → M A
wrap_error code m env w =
    let (r, w') = m env w in (elim r [ ok a ↦ ok a | err e ↦ err (biz code (error_text e)) ], w')

-- `bumpLoginErr`
unfoldable pub bump_login_err : String → M (Unit {0})
bump_login_err account = do
  ttl ← asks login_error_ttl
  n ← or_zero 0 (cache_incr (login_err_key account))
  if n == 1 then ignore (cache_expire (login_err_key account) ttl) else pure tt

-- `IssueSignSecret`
unfoldable pub issue_sign_secret : ℕ → M String
unfolding gen_sign_secret
issue_sign_secret admin_id = do
  secret ← gen_sign_secret
  ttl ← asks (λ env. ttl_duration env.cfg.jwt)
  cache_set (sign_secret_key admin_id) (text secret) ttl
  pure secret

-- `GetSignSecret`; the error is `redis.Nil` where there is no secret.
unfoldable pub get_sign_secret : ℕ → M String
get_sign_secret admin_id = do
  v ← cache_get (sign_secret_key admin_id)
  elim v [ some (text s) ↦ pure s | _ ↦ raise (raw "redis: nil") ]

-- `ClearSignSecret`
unfoldable pub clear_sign_secret : ℕ → M (Unit {0})
clear_sign_secret admin_id = cache_del (sign_secret_key admin_id)

-- `SetNXNonce`
unfoldable pub set_nx_nonce : String → ℕ → M Bool
set_nx_nonce key ttl = cache_set_nx key (num 1) ttl

-- What `Login` does once the password has been accepted.
unfoldable pub login_accepted : String → RbacAdmin → M (String × RbacAdmin × String)
unfolding generate issue_sign_secret
login_accepted account admin = do
  ignore (cache_del (login_err_key account))
  (tok, claims) ← wrap_error code_internal_error (generate admin.id admin.account)
  ttl ← asks (λ env. ttl_duration env.cfg.jwt)
  wrap_error code_cache_error (cache_set (token_key claims.id) (num admin.id) ttl)
  now ← gets (λ w. w.now)
  ignore (
      update admins db_error (λ a. a.id == admin.id)
        (λ a. touch now (record a { last_login_time = some now })))
  sign_secret ← wrap_error code_cache_error (issue_sign_secret admin.id)
  pure (tok, touch now (record admin { last_login_time = some now }), sign_secret)

-- What `Login` does with the account's row.
unfoldable pub login_found : String → String → Option RbacAdmin → M (String × RbacAdmin × String)
login_found account password none = do
  bump_login_err account
  raise (biz code_auth_fail (message_of code_auth_fail))
login_found account password (some admin) = do
  fail_if (admin.status == 1) (biz code_account_disable (message_of code_account_disable))
  fail_if (admin.is_lock == 1) (biz code_account_locked (message_of code_account_locked))
  matches ← asks (λ env. check_password env password admin.password)
  if matches
      then login_accepted account admin
      else do bump_login_err account; raise (biz code_auth_fail (message_of code_auth_fail))

-- `Login`
unfoldable pub login : String → String → M (String × RbacAdmin × String)
login account password = do
  let account = trim_space account
  fail_if (account == "" || password == "") (biz code_param_error "账号或密码为空")
  counter ← or_zero none (cache_get (login_err_key account))
  limit ← asks (λ env. env.cfg.security.login_error_limit)
  fail_if (ltb 0 limit && leb limit (counter_value counter))
      (biz code_login_error_limit (message_of code_login_error_limit))
  found ← first admins db_error (λ a. a.account == account && not_del a)
  login_found account password found

-- `Logout`
unfoldable pub logout : String → ℕ → M (Unit {0})
unfolding clear_sign_secret
logout jti admin_id = do ignore (clear_sign_secret admin_id); cache_del (token_key jti)

-- `IsTokenActive`
unfoldable pub is_token_active : String → M Bool
is_token_active jti = cache_exists (token_key jti)

-- `RefreshToken`
unfoldable pub refresh_token : String → M (Unit {0})
refresh_token jti = do
  on ← asks (λ env. env.cfg.jwt.refresh_on_access)
  ttl ← asks (λ env. ttl_duration env.cfg.jwt)
  if on then ignore (cache_expire (token_key jti) ttl) else pure tt

-- `Reissue`
unfoldable pub reissue : ℕ → String → String → M String
unfolding generate
reissue admin_id account old_jti = do
  (new_tok, new_claims) ← generate admin_id account
  ttl ← asks (λ env. ttl_duration env.cfg.jwt)
  cache_set (token_key new_claims.id) (num admin_id) ttl
  if old_jti == "" then pure tt else ignore (cache_del (token_key old_jti))
  pure new_tok
