-- ===== src/Middleware/Signature/Complete.antt =====
-- The Sign middleware (internal/middleware/sign.go) where Redis answers: what a signed request finds.
use clip_sync_admin.Prelude.{String, ◌≡◌, ◌≢◌, ◌∙◌, ap, inl, inr, some, arith, eq_iff}
use clip_sync_admin.Prelude.Int.{ℤ}
use clip_sync_admin.Reply.{ok}
use clip_sync_admin.World.{Env, World, num}
use clip_sync_admin.World.Laws.{IsRedis, NoFault}
use clip_sync_admin.Session.{set_nx_nonce, get_sign_secret}
use clip_sync_admin.Session.Keys.{sign_secret_key}
use clip_sync_admin.Middleware.Header.{strip_bearer, parse_int}
use clip_sync_admin.Middleware.Signature.{
  Request, pass, nonce_key, nonce_ttl, session_secret, signing_secret, expected_sign, compare_sign,
  check_secret, after_nonce, after_time, sign,
}
use clip_sync_admin.Middleware.Signature.Correct.{IsSigned, IsKeyOf, nonce_key-ne-sign_secret_key}

-- What a step leaves that touches no key of Redis but one.
abbrev pub KeepsBut : String → World → World → Type 0
KeepsBut k w w' = (w'.now ≡ w.now) × ((j : String) → k ≢ j → w'.redis j ≡ w.redis j)

parse_int-some : (s : String) (n : ℤ) → parse_int s ≡ some n → s ≢ ""
unfolding parse_int
parse_int-some s n h e = cc (rw e at h)

module _ (env : Env) (laws : IsRedis env.redis) (up : NoFault env) where
  signing_secret-runs :
      (w : World) (r : Request) (secret : String)
      → IsKeyOf env w r secret
      → let got = signing_secret (strip_bearer r.authorization env.cfg.jwt.scheme) env w in
        (got.0 ≡ ok secret) × (got.1.now ≡ w.now) × (got.1.redis ≡ w.redis)
  unfolding signing_secret session_secret get_sign_secret
  signing_secret-runs w r secret (inl static) =
      let token = strip_bearer r.authorization env.cfg.jwt.scheme in ground (arith, eq_iff token "")
  signing_secret-runs w r secret (inr (ne, (c, valid, live))) =
      let token = strip_bearer r.authorization env.cfg.jwt.scheme in
      ground (
        arith,
        eq_iff token "",
        up w.calls,
        valid,
        laws.get_live w.now (sign_secret_key c.admin_id) w.redis,
      )

  check_secret-runs :
      (w : World) (r : Request) (secret body : String)
      → IsKeyOf env w r secret
      → secret ≢ ""
      → r.body ≡ some body
      → r.signature ≡ expected_sign env r body secret
      → let got = check_secret r env w in
        (got.0 ≡ ok (pass tt)) × (got.1.now ≡ w.now) × (got.1.redis ≡ w.redis)
  unfolding check_secret compare_sign
  check_secret-runs w r secret body keyed ne readable signed =
      let (found, time, kept) = signing_secret-runs w r secret keyed in
      ground (
        arith,
        found,
        time,
        kept,
        readable,
        signed,
        eq_iff secret "",
        eq_iff (expected_sign env r body secret) r.signature,
      )

  set_nx_nonce-runs :
      (w : World) (nonce : String)
      → let w' = (set_nx_nonce (nonce_key nonce) nonce_ttl env w).1 in
        ((set_nx_nonce (nonce_key nonce) nonce_ttl env w).0
          ≡ ok (env.redis.set_nx w.now (nonce_key nonce) (num 1) nonce_ttl w.redis).0)
        × KeepsBut (nonce_key nonce) w w'
  unfolding set_nx_nonce
  set_nx_nonce-runs w nonce =
      let k = nonce_key nonce in
      (
        ground (arith, up w.calls),
        (
          ground (arith, up w.calls),
          λ j ne.
              ground
                (arith, up w.calls, laws.set_nx_at w.now k (num 1) nonce_ttl w.redis j, eq_iff k j),
        ),
      )

  IsKeyOf-kept :
      (w w' : World) (r : Request) (secret : String)
      → KeepsBut (nonce_key r.nonce) w w'
      → IsKeyOf env w r secret
      → IsKeyOf env w' r secret
  IsKeyOf-kept w w' r secret kept (inl static) = inl static
  IsKeyOf-kept w w' r secret (time, kept) (inr (ne, (c, valid, live))) =
      let same =
        kept (sign_secret_key c.admin_id) (nonce_key-ne-sign_secret_key r.nonce c.admin_id) in
      inr (ne, (c, rw time valid, rw (time, same) live))

  -- Where Redis answers and keeps its laws, a request with a nonce and a signature passes Sign if it
  -- is signed as `IsSigned` says; its nonce is then the only key that has changed.
  pub sign_complete :
      (r : Request) (w : World)
      → r.nonce ≢ ""
      → r.signature ≢ ""
      → IsSigned env w r
      → ((sign r env w).0 ≡ ok (pass tt)) × KeepsBut (nonce_key r.nonce) w (sign r env w).1
  unfolding sign after_time after_nonce
  sign_complete r w nonced signed s =
      let k = nonce_key r.nonce in
      let w1 = (set_nx_nonce k nonce_ttl env w).1 in
      let (answer, (time, kept)) = set_nx_nonce-runs w r.nonce in
      let fresh = laws.set_nx_fresh w.now k (num 1) nonce_ttl w.redis in
      let keyed = IsKeyOf-kept w w1 r s.secret (time, kept) s.keyed in
      let (passes, time', kept') =
        check_secret-runs w1 r s.secret s.body keyed s.secret_set s.readable s.signed in
      let same : sign r env w ≡ check_secret r env w1 = ground (
        arith,
        answer,
        fresh,
        eq_iff r.nonce "",
        eq_iff r.signature "",
        eq_iff r.timestamp "",
        parse_int-some r.timestamp s.ms s.timed,
      ) in
      rw same (passes, (time' ∙ time, λ j ne. ap (λ c. c j) kept' ∙ kept j ne))
