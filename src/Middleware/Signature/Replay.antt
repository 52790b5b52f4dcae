-- ===== src/Middleware/Signature/Replay.antt =====
-- Replays against the Sign middleware (internal/middleware/sign.go): what becomes of the nonce.
use clip_sync_admin.Prelude.{
  ℕ, ◌+◌, ◌<◌, ◌≡◌, ◌≢◌, some, arith, eq_iff, Option-cases, inl, inr, refl,
}
use clip_sync_admin.Reply.{ok}
use clip_sync_admin.World.{Env, World, Entry, num}
use clip_sync_admin.World.Laws.{IsRedis}
use clip_sync_admin.Auth.{parse, Parsed, claims, token_expired, token_invalid}
use clip_sync_admin.Session.{set_nx_nonce, get_sign_secret}
use clip_sync_admin.Middleware.Header.{strip_bearer}
use clip_sync_admin.Middleware.Signature.{
  Request, pass, nonce_key, nonce_ttl, after_nonce, after_time, sign, session_secret,
  signing_secret, check_secret,
}
use clip_sync_admin.Middleware.Signature.Correct.{sign_sound}

session_secret-redis :
    (p : Parsed) (env : Env) (w : World) → (session_secret p env w).1.redis ≡ w.redis
unfolding session_secret get_sign_secret
session_secret-redis token_expired env w = refl
session_secret-redis token_invalid env w = refl
session_secret-redis (claims c) env w = elim (Option-cases (env.fault w.calls)) [
  | inl up ↦ ground (arith, up)
  | inr (x, down) ↦ ground (arith, down)
]

check_secret-redis :
    (r : Request) (env : Env) (w : World) → (check_secret r env w).1.redis ≡ w.redis
unfolding check_secret signing_secret
check_secret-redis r env w =
    let token = strip_bearer r.authorization env.cfg.jwt.scheme in
    ground (arith, session_secret-redis (parse env w.now token) env w)

-- What stands under the nonce's key after a request that has passed.
abbrev used_at : ℕ → Entry
used_at now = record { value = num 1; deadline = some (now + nonce_ttl) }

nonce_kept :
    (r : Request) (env : Env) (w : World)
    → IsRedis env.redis
    → (sign r env w).0 ≡ ok (pass tt)
    → (sign r env w).1.redis (nonce_key r.nonce) ≡ some (used_at w.now)
unfolding sign after_time after_nonce set_nx_nonce
nonce_kept r env w laws h =
    let k = nonce_key r.nonce in
    let w' = (set_nx_nonce k nonce_ttl env w).1 in
    ground (
      arith,
      eq_iff k k,
      check_secret-redis r env w',
      laws.set_nx_at w.now k (num 1) nonce_ttl w.redis k,
      laws.set_nx_fresh w.now k (num 1) nonce_ttl w.redis,
    )

-- After a request has passed, no request with its nonce passes before the five minutes of the nonce
-- are over, as long as nothing else changes the nonce's key in Redis.
pub replay_refused :
    (r again : Request) (env : Env) (w later : World)
    → IsRedis env.redis
    → (sign r env w).0 ≡ ok (pass tt)
    → again.nonce ≡ r.nonce
    → later.redis (nonce_key r.nonce) ≡ (sign r env w).1.redis (nonce_key r.nonce)
    → later.now < w.now + nonce_ttl
    → (sign again env later).0 ≢ ok (pass tt)
replay_refused r again env w later laws passed same kept soon twice =
    let fresh = (sign_sound again env later laws twice).fresh in
    ground (arith, fresh, kept, same, nonce_kept r env w laws passed)
