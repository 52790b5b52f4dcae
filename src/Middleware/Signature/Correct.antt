-- ===== src/Middleware/Signature/Correct.antt =====
-- The Sign middleware (internal/middleware/sign.go): what a request that passes has shown.
use clip_sync_admin.Prelude.{
  ℕ, String, ◌≡◌, ◌⊎◌, ◌≢◌, inl, inr, refl, true, false, Option, none, some, arith, eq_iff, ◌==◌,
  string_eq, Bool-cases, Option-cases,
}
use clip_sync_admin.Prelude.Int.{ℤ}
use clip_sync_admin.Text.{decimal}
use clip_sync_admin.Reply.{ok}
use clip_sync_admin.World.{Env, World, Claims, text, num}
use clip_sync_admin.World.Inversion.{Outcome-cases}
use clip_sync_admin.World.Laws.{IsRedis, is_live, live_value}
use clip_sync_admin.Auth.{parse, Parsed, claims, token_expired, token_invalid}
use clip_sync_admin.Session.{set_nx_nonce, get_sign_secret}
use clip_sync_admin.Session.Keys.{sign_secret_key, apart}
use clip_sync_admin.Middleware.Header.{strip_bearer, parse_int}
use clip_sync_admin.Middleware.Signature.{
  Request, pass, is_stale, nonce_key, nonce_ttl, session_secret, signing_secret, expected_sign,
  compare_sign, check_secret, after_nonce, after_time, sign,
}

pub nonce_key-ne-sign_secret_key : (nonce : String) (id : ℕ) → nonce_key nonce ≢ sign_secret_key id
unfolding sign_secret_key
nonce_key-ne-sign_secret_key nonce id =
    apart "admin:sign_n" "admin:sign_s" "once:" "ecret:" nonce (decimal id)
      (ground (arith, eq_iff "admin:sign_n" "admin:sign_s")) refl

-- The key of a request: the static one without a token, and otherwise the live secret of the session
-- of the token's administrator.
abbrev pub IsKeyOf : Env → World → Request → String → Type 0
IsKeyOf env w r secret =
    let token = strip_bearer r.authorization env.cfg.jwt.scheme in
    ((token ≡ "") × (secret ≡ env.cfg.security.sign_static_secret))
    ⊎ ((token ≢ "")
        × ((c : Claims) × (parse env w.now token ≡ claims c)
            × (live_value w.now (w.redis (sign_secret_key c.admin_id)) ≡ some (text secret))))

-- What a signed request shows: a time in the window, a nonce not seen, a body that can be read, and
-- the signature of all its parts by its key.
pub record IsSigned (env : Env) (w : World) (r : Request) : Type 0 where
  pub ms : ℤ
  pub body : String
  pub secret : String
  pub timed : parse_int r.timestamp ≡ some ms
  pub recent : is_stale w.now ms ≡ false
  pub fresh : is_live w.now (w.redis (nonce_key r.nonce)) ≡ false
  pub readable : r.body ≡ some body
  pub secret_set : secret ≢ ""
  pub keyed : IsKeyOf env w r secret
  pub signed : r.signature ≡ expected_sign env r body secret

compare_sign-pass :
    (env : Env) (r : Request) (secret : String) (b : Option String)
    → compare_sign env r secret b ≡ pass tt
    → (body : String) × (b ≡ some body) × (r.signature ≡ expected_sign env r body secret)
unfolding compare_sign
compare_sign-pass env r secret none h = absurd (ground arith)
compare_sign-pass env r secret (some body) h =
    (body, refl, ground (arith, eq_iff (expected_sign env r body secret) r.signature))

session_secret-some :
    (env : Env) (w : World) (p : Parsed) (secret : String)
    → IsRedis env.redis
    → (session_secret p env w).0 ≡ ok secret
    → secret ≢ ""
    → (c : Claims) × (p ≡ claims c)
      × (live_value w.now (w.redis (sign_secret_key c.admin_id)) ≡ some (text secret))
unfolding session_secret get_sign_secret
session_secret-some env w token_expired secret laws h ne = absurd (ground arith)
session_secret-some env w token_invalid secret laws h ne = absurd (ground arith)
session_secret-some env w (claims c) secret laws h ne =
    (c, refl, ground (arith, laws.get_live w.now (sign_secret_key c.admin_id) w.redis))

signing_secret-some :
    (env : Env) (w : World) (r : Request) (secret : String)
    → IsRedis env.redis
    → (signing_secret (strip_bearer r.authorization env.cfg.jwt.scheme) env w).0 ≡ ok secret
    → secret ≢ ""
    → IsKeyOf env w r secret
unfolding signing_secret
signing_secret-some env w r secret laws h ne =
    let token = strip_bearer r.authorization env.cfg.jwt.scheme in
    elim (Bool-cases (token == "")) [
      | inl e ↦ inl (ground (arith, eq_iff token "", h, e))
      | inr e ↦ inr (
        ground (arith, eq_iff token ""),
        session_secret-some env w (parse env w.now token) secret laws (ground (arith, h, e)) ne,
      )
    ]

check_secret-pass :
    (r : Request) (env : Env) (w : World)
    → IsRedis env.redis
    → (check_secret r env w).0 ≡ ok (pass tt)
    → (secret : String) × (body : String) × IsKeyOf env w r secret
      × (secret ≢ "")
      × (r.body ≡ some body)
      × (r.signature ≡ expected_sign env r body secret)
unfolding check_secret
check_secret-pass r env w laws h =
    let got = signing_secret (strip_bearer r.authorization env.cfg.jwt.scheme) env w in
    elim (Outcome-cases got.0) [
      | inl (secret, e) ↦
          let (body, readable, signed) =
            compare_sign-pass env r secret r.body (ground (arith, h, e)) in
          let ne : secret ≢ "" = ground (arith, h, e, eq_iff secret "") in
          (secret, body, signing_secret-some env w r secret laws e ne, ne, readable, signed)
      | inr (x, e) ↦ absurd (ground (arith, h, e))
    ]

keyed_before :
    (env : Env) (w : World) (r : Request) (secret : String)
    → IsRedis env.redis
    → env.fault w.calls ≡ none
    → IsKeyOf env (set_nx_nonce (nonce_key r.nonce) nonce_ttl env w).1 r secret
    → IsKeyOf env w r secret
unfolding set_nx_nonce
keyed_before env w r secret laws up (inl static) = inl static
keyed_before env w r secret laws up (inr (ne, (c, valid, live))) =
    let k = nonce_key r.nonce in
    let j = sign_secret_key c.admin_id in
    let at = laws.set_nx_at w.now k (num 1) nonce_ttl w.redis j in
    inr (
      ne,
      (
        c,
        ground (arith, valid, up),
        ground (arith, live, up, at, eq_iff k j, nonce_key-ne-sign_secret_key r.nonce c.admin_id),
      ),
    )

after_time-pass :
    (r : Request) (ms : Option ℤ) (env : Env) (w : World)
    → (after_time r ms env w).0 ≡ ok (pass tt)
    → (m : ℤ) × (ms ≡ some m)
      × (is_stale w.now m ≡ false)
      × (env.fault w.calls ≡ none)
      × ((env.redis.set_nx w.now (nonce_key r.nonce) (num 1) nonce_ttl w.redis).0 ≡ true)
      × ((check_secret r env (set_nx_nonce (nonce_key r.nonce) nonce_ttl env w).1).0 ≡ ok (pass tt))
unfolding after_time after_nonce set_nx_nonce
after_time-pass r none env w h = absurd (ground arith)
after_time-pass r (some m) env w h = elim (Option-cases (env.fault w.calls)) [
  | inl up ↦ (m, refl, ground (arith, h, up), up, ground (arith, h, up), ground (arith, h, up))
  | inr (x, down) ↦ absurd (ground (arith, h, down))
]

-- A request passes the Sign middleware only as `IsSigned` says, with Redis as it stood before it,
-- if Redis keeps the laws of its commands; also where some calls fail.
pub sign_sound :
    (r : Request) (env : Env) (w : World)
    → IsRedis env.redis
    → (sign r env w).0 ≡ ok (pass tt)
    → IsSigned env w r
unfolding sign
sign_sound r env w laws h =
    let (m, timed, recent, up, fresh, rest) =
      after_time-pass r (parse_int r.timestamp) env w (ground arith) in
    let w' = (set_nx_nonce (nonce_key r.nonce) nonce_ttl env w).1 in
    let (secret, body, keyed, secret_set, readable, signed) =
      check_secret-pass r env w' laws rest in
    record {
      ms = m;
      body = body;
      secret = secret;
      timed = timed;
      recent = recent;
      fresh =
          ground
            (arith, fresh, laws.set_nx_fresh w.now (nonce_key r.nonce) (num 1) nonce_ttl w.redis);
      readable = readable;
      secret_set = secret_set;
      keyed = keyed_before env w r secret laws up keyed;
      signed = signed;
    }
