-- ===== src/Session/Tokens.antt =====
-- Tokens and session secrets in Redis: logging out, refreshing and reissuing
-- (internal/service/auth_service.go).
use clip_sync_admin.Prelude.{ℕ, ◌+◌, ◌<◌, String, ◌≡◌, ◌≢◌, Bool, true, false, none, arith, eq_iff}
use clip_sync_admin.Reply.{ok}
use clip_sync_admin.Config.{ttl_duration}
use clip_sync_admin.World.{Env, World, num}
use clip_sync_admin.World.Laws.{IsRedis, is_live, del_self, del_ne, set_self, set_ne}
use clip_sync_admin.Session.{logout, is_token_active, reissue}
use clip_sync_admin.Session.Keys.{
  token_key, sign_secret_key, token_key-ne-sign_secret_key, token_key_injective,
}

-- Whether a token is on the white list at a time: what `IsTokenActive` answers without a failure.
abbrev pub has_token : World → String → Bool
has_token w jti = is_live w.now (w.redis (token_key jti))

-- `IsTokenActive` answers whether the token's key is live.
pub is_token_active_lem :
    (env : Env) (w : World) (jti : String)
    → IsRedis env.redis
    → env.fault w.calls ≡ none
    → (is_token_active jti env w).0 ≡ ok (has_token w jti)
unfolding is_token_active
is_token_active_lem env w jti laws up = ground (arith, laws.get_live w.now (token_key jti) w.redis)

-- A logout in which Redis answers takes the token off the white list, and removes the secret of the
-- session, so that no request of the session is signed or let in any more.
pub logout_revokes :
    (env : Env) (w : World) (jti : String) (id : ℕ)
    → IsRedis env.redis
    → env.fault w.calls ≡ none
    → env.fault (w.calls + 1) ≡ none
    → let (r, w') = logout jti id env w in
      (r ≡ ok tt)
      × (w'.redis (token_key jti) ≡ none)
      × (w'.redis (sign_secret_key id) ≡ none)
      × (w'.db ≡ w.db)
unfolding logout
logout_revokes env w jti id laws up up' =
    let c = env.redis.del (sign_secret_key id) w.redis in
    let kept = token_key-ne-sign_secret_key jti id in
    ground (
      arith,
      del_self env.redis laws (token_key jti) c,
      del_self env.redis laws (sign_secret_key id) w.redis,
      del_ne env.redis laws (token_key jti) (sign_secret_key id) c kept,
    )

-- After a renewal in which Redis answers, the new token is on the white list and the old one is
-- not, if the random id of the new one differs from the old; a session secret stays as it was.
pub reissue_replaces :
    (env : Env) (w : World) (id : ℕ) (account old tok : String)
    → IsRedis env.redis
    → (env.fault (w.calls + 1) ≡ none) × (env.fault (w.calls + 1 + 1) ≡ none)
    → old ≢ ""
    → env.uuid w.calls ≢ old
    → 0 < ttl_duration env.cfg.jwt
    → (reissue id account old env w).0 ≡ ok tok
    → let w' = (reissue id account old env w).1 in
      (has_token w' (env.uuid w.calls) ≡ true)
      × (has_token w' old ≡ false)
      × (w'.redis (sign_secret_key id) ≡ w.redis (sign_secret_key id))
unfolding reissue
reissue_replaces env w id account old tok laws up real fresh long h =
    let new = env.uuid w.calls in
    let ttl = ttl_duration env.cfg.jwt in
    let c = env.redis.set w.now (token_key new) (num id) ttl w.redis in
    ground (
      arith,
      eq_iff old "",
      set_self env.redis laws w.now (token_key new) (num id) ttl w.redis,
      set_ne env.redis laws w.now (token_key new) (sign_secret_key id) (num id) ttl w.redis,
      del_self env.redis laws (token_key old) c,
      del_ne env.redis laws (token_key old) (token_key new) c,
      del_ne env.redis laws (token_key old) (sign_secret_key id) c,
      token_key-ne-sign_secret_key old id,
      token_key-ne-sign_secret_key new id,
      token_key_injective old new,
    )
