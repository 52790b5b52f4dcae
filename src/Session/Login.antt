-- ===== src/Session/Login.antt =====
-- `AuthService.Login` (internal/service/auth_service.go): who is let in, what a login leaves behind,
-- and the limit on failed attempts.
use clip_sync_admin.Prelude.{
  ℕ, ◌+◌, ◌≤◌, ◌<◌, String, ◌≡◌, ◌≢◌, true, Option, none, some, arith, eq_iff, inl, inr,
  Option-cases, ◌==◌, string_eq, nat_eq, ◌&&◌, head?, filter,
}
use clip_sync_admin.Text.{trim_space}
use clip_sync_admin.Reply.{ok, err, biz, message_of, code_login_error_limit}
use clip_sync_admin.Config.{ttl_duration}
use clip_sync_admin.Model.{RbacAdmin}
use clip_sync_admin.World.{Env, World, num, text, tick, admin_base, not_del}
use clip_sync_admin.World.Laws.{IsRedis, live_value, deadline_after, set_self, set_ne}
use clip_sync_admin.Auth.{check_password}
use clip_sync_admin.Session.{login, login_found, login_accepted, counter_value}
use clip_sync_admin.Session.Keys.{
  token_key, sign_secret_key, login_err_key, token_key-ne-sign_secret_key,
}

-- The row that `Login` reads for an account.
abbrev pub row_of : World → String → Option RbacAdmin
row_of w account = head? (filter (λ a. a.account == account && not_del a) w.db.admins)

-- Where a limit is set, Redis answers the first call, and the counter of an account has reached
-- the limit, a login with a password that is not empty is refused with `CodeLoginErrorLimit`,
-- whatever the password, and changes nothing.
pub login_locked :
    (env : Env) (w : World) (account password : String) (n : ℕ)
    → IsRedis env.redis
    → trim_space account ≢ ""
    → password ≢ ""
    → env.fault w.calls ≡ none
    → live_value w.now (w.redis (login_err_key (trim_space account))) ≡ some (num n)
    → 0 < env.cfg.security.login_error_limit
    → env.cfg.security.login_error_limit ≤ n
    → login account password env w
      ≡ (err (biz code_login_error_limit (message_of code_login_error_limit)), tick w)
unfolding login
login_locked env w account password n laws named given up counted limited reached =
    let k = login_err_key (trim_space account) in
    ground
      (arith, eq_iff (trim_space account) "", eq_iff password "", laws.get_live w.now k w.redis)

-- The row that a login has accepted, and why.
pub record IsAccepted (env : Env) (w : World) (account password : String) (a : RbacAdmin)
    : Type 0 where
  pub found : row_of w account ≡ some a
  pub enabled : a.status ≢ 1
  pub unlocked : a.is_lock ≢ 1
  pub matched : env.bcrypt_matches password a.password ≡ true

login_checks :
    (env : Env) (w : World) (account password : String) (r : String × RbacAdmin × String)
    → (login account password env w).0 ≡ ok r
    → ((a : RbacAdmin) × IsAccepted env w (trim_space account) password a)
      × (env.fault w.calls ≡ none
          → 0 < env.cfg.security.login_error_limit
          → counter_value (env.redis.get w.now (login_err_key (trim_space account)) w.redis)
            < env.cfg.security.login_error_limit)
unfolding login login_found check_password
login_checks env w account password r h = elim (Option-cases (row_of w (trim_space account))) [
  | inl unknown ↦ absurd (ground arith)
  | inr (a, found) ↦ (
    (
      a,
      record {
        found = found;
        enabled = ground arith;
        unlocked = ground arith;
        matched = ground arith;
      },
    ),
    λ up limited. ground arith,
  )
]

-- The part of a successful login after the password.
login_accepted_opens :
    (env : Env) (w : World) (account tok secret : String) (found a : RbacAdmin)
    → IsRedis env.redis
    → (login_accepted account found env w).0 ≡ ok (tok, a, secret)
    → let w' = (login_accepted account found env w).1 in
      let ttl = ttl_duration env.cfg.jwt in
      (a.id ≡ found.id)
      × (w'.redis (sign_secret_key found.id)
          ≡ some (record { value = text secret; deadline = deadline_after w.now ttl }))
      × (w'.redis (token_key (env.uuid (w.calls + 1)))
          ≡ some (record { value = num found.id; deadline = deadline_after w.now ttl }))
unfolding login_accepted
login_accepted_opens env w account tok secret found a laws h =
    let jti = env.uuid (w.calls + 1) in
    let ttl = ttl_duration env.cfg.jwt in
    let kt = token_key jti in
    let ks = sign_secret_key found.id in
    let c1 = env.redis.del (login_err_key account) w.redis in
    ground (
      arith,
      set_self env.redis laws w.now ks (text secret) ttl
          (env.redis.set w.now kt (num found.id) ttl w.redis),
      set_self env.redis laws w.now ks (text secret) ttl
          (env.redis.set w.now kt (num found.id) ttl c1),
      set_ne env.redis laws w.now ks kt (text secret) ttl
          (env.redis.set w.now kt (num found.id) ttl w.redis),
      set_ne env.redis laws w.now ks kt (text secret) ttl
          (env.redis.set w.now kt (num found.id) ttl c1),
      set_self env.redis laws w.now kt (num found.id) ttl w.redis,
      set_self env.redis laws w.now kt (num found.id) ttl c1,
      token_key-ne-sign_secret_key jti found.id,
    )

pub login-eq-accepted :
    (env : Env) (w : World) (account password : String) (r : String × RbacAdmin × String)
    → (login account password env w).0 ≡ ok r
    → (a : RbacAdmin) × (row_of w (trim_space account) ≡ some a)
      × (login account password env w ≡ login_accepted (trim_space account) a env (tick (tick w)))
unfolding login login_found
login-eq-accepted env w account password r h = elim (Option-cases (row_of w (trim_space account))) [
  | inl unknown ↦ absurd (ground arith)
  | inr (a, found) ↦ (a, found, ground arith)
]

-- What a successful login leaves, if Redis keeps the laws of its commands: the new token's id,
-- which the fourth call draws, on the white list, and the secret of the session under the
-- administrator's id, both for the life of a token.
pub login_opens_session :
    (env : Env) (w : World) (account password tok secret : String) (a : RbacAdmin)
    → IsRedis env.redis
    → (login account password env w).0 ≡ ok (tok, a, secret)
    → let w' = (login account password env w).1 in
      let ttl = ttl_duration env.cfg.jwt in
      (w'.redis (sign_secret_key a.id)
        ≡ some (record { value = text secret; deadline = deadline_after w.now ttl }))
      × (w'.redis (token_key (env.uuid (w.calls + 1 + 1 + 1)))
          ≡ some (record { value = num a.id; deadline = deadline_after w.now ttl }))
login_opens_session env w account password tok secret a laws h =
    let (found, row, same) = login-eq-accepted env w account password (tok, a, secret) h in
    let (ids, s, t) =
      login_accepted_opens env (tick (tick w)) (trim_space account) tok secret found a laws
        (rw same at h) in
    rw (same, ids) (s, t)

-- A login succeeds only for the row of the account, which is not deleted, not disabled and not
-- locked, and with the row's password.
pub login_sound :
    (env : Env) (w : World) (account password : String) (r : String × RbacAdmin × String)
    → (login account password env w).0 ≡ ok r
    → (a : RbacAdmin) × IsAccepted env w (trim_space account) password a
login_sound env w account password r h = (login_checks env w account password r h).0
