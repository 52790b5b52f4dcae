-- ===== src/Session/Attempts.antt =====
-- Failed attempts to log in (`bumpLoginErr` and `Login` of internal/service/auth_service.go).
use clip_sync_admin.Prelude.{
  ℕ, suc, ◌+◌, ◌<◌, String, ◌≡◌, ◌≢◌, ◌⊎◌, true, false, Option, none, some, arith, eq_iff,
}
use clip_sync_admin.Text.{trim_space}
use clip_sync_admin.Reply.{ok, err, biz, message_of, code_auth_fail}
use clip_sync_admin.Model.{RbacAdmin}
use clip_sync_admin.World.{Env, World, num, tick}
use clip_sync_admin.World.Laws.{IsRedis, is_live, live_value}
use clip_sync_admin.Auth.{check_password}
use clip_sync_admin.Session.{login, login_found, bump_login_err, counter_value, login_error_ttl}
use clip_sync_admin.Session.Keys.{login_err_key}
use clip_sync_admin.Session.Login.{row_of}

bump_login_err_counts :
    (env : Env) (w : World) (account : String)
    → IsRedis env.redis
    → env.fault w.calls ≡ none
    → env.fault (w.calls + 1) ≡ none
    → 0 < login_error_ttl env
    → let k = login_err_key account in
      let w' = (bump_login_err account env w).1 in
      (live_value w.now (w.redis k) ≡ none
        → w'.redis k
          ≡ some (record { value = num 1; deadline = some (w.now + login_error_ttl env) }))
      × ((n : ℕ) (t : Option ℕ)
          → w.redis k ≡ some (record { value = num (suc n); deadline = t })
          → is_live w.now (w.redis k) ≡ true
          → w'.redis k ≡ some (record { value = num (suc (suc n)); deadline = t }))
unfolding bump_login_err
bump_login_err_counts env w account laws up up' long =
    let k = login_err_key account in
    let c = (env.redis.incr w.now k w.redis).1 in
    (
      λ gone. ground (
        arith,
        eq_iff k k,
        laws.incr_fresh w.now k w.redis gone,
        laws.expire_at w.now k (login_error_ttl env) c k,
      ),
      λ n t there live. ground (arith, laws.incr_next w.now k w.redis (suc n) t there live),
    )

bump_login_err-ok :
    (env : Env) (w : World) (account : String) → (bump_login_err account env w).0 ≡ ok tt
unfolding bump_login_err
bump_login_err-ok env w account = ground arith

-- Where the two reads are answered, the counter is below the limit or none is set, and the
-- account's row is neither disabled nor locked, a login with a wrong password that is not empty
-- answers `CodeAuthFail`, and leaves what `bumpLoginErr` leaves after the two reads.
pub login_wrong_password :
    (env : Env) (w : World) (account password : String) (a : RbacAdmin)
    → trim_space account ≢ ""
    → password ≢ ""
    → (env.cfg.security.login_error_limit ≡ 0)
      ⊎ (counter_value (env.redis.get w.now (login_err_key (trim_space account)) w.redis)
          < env.cfg.security.login_error_limit)
    → env.fault w.calls ≡ none
    → env.fault (w.calls + 1) ≡ none
    → row_of w (trim_space account) ≡ some a
    → a.status ≢ 1
    → a.is_lock ≢ 1
    → env.bcrypt_matches password a.password ≡ false
    → login account password env w ≡ (
      err (biz code_auth_fail (message_of code_auth_fail)),
      (bump_login_err (trim_space account) env (tick (tick w))).1,
    )
unfolding login login_found check_password
login_wrong_password env w account password a named given limit up up' found enabled unlocked
      wrong =
    ground (
      arith,
      eq_iff (trim_space account) "",
      eq_iff password "",
      bump_login_err-ok env (tick (tick w)) (trim_space account),
    )

-- Where both calls of Redis are answered and the account has no live counter, a failed attempt
-- sets it to 1, and starts the time, if that is not 0, after which the counter is forgotten.
pub bump_login_err_starts :
    (env : Env) (w : World) (account : String)
    → IsRedis env.redis
    → env.fault w.calls ≡ none
    → env.fault (w.calls + 1) ≡ none
    → 0 < login_error_ttl env
    → live_value w.now (w.redis (login_err_key account)) ≡ none
    → (bump_login_err account env w).1.redis (login_err_key account)
      ≡ some (record { value = num 1; deadline = some (w.now + login_error_ttl env) })
bump_login_err_starts env w account laws up up' long =
    (bump_login_err_counts env w account laws up up' long).0

-- Where both calls of Redis are answered and the account has a live counter of at least 1, a
-- failed attempt adds one to it, and neither puts off nor shortens the time, if that is not 0,
-- after which it is forgotten.
pub bump_login_err_goes_on :
    (env : Env) (w : World) (account : String) (n : ℕ) (t : Option ℕ)
    → IsRedis env.redis
    → env.fault w.calls ≡ none
    → env.fault (w.calls + 1) ≡ none
    → 0 < login_error_ttl env
    → w.redis (login_err_key account) ≡ some (record { value = num (suc n); deadline = t })
    → is_live w.now (w.redis (login_err_key account)) ≡ true
    → (bump_login_err account env w).1.redis (login_err_key account)
      ≡ some (record { value = num (suc (suc n)); deadline = t })
bump_login_err_goes_on env w account n t laws up up' long =
    (bump_login_err_counts env w account laws up up' long).1 n t
