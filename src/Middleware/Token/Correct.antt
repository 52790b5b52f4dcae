-- ===== src/Middleware/Token/Correct.antt =====
-- The JWTAuth middleware (internal/middleware/rbac.go): what a request that passes has shown.
use clip_sync_admin.Prelude.{
  String, ◌≡◌, ◌≢◌, ◌⊎◌, Bool, true, false, some, none, arith, eq_iff, ◌==◌, string_eq, Bool-cases,
  Option-cases, inl, inr, refl,
}
use clip_sync_admin.Reply.{Outcome, ok, err}
use clip_sync_admin.World.{Env, World, Claims}
use clip_sync_admin.World.Inversion.{Outcome-cases}
use clip_sync_admin.World.Laws.{IsRedis}
use clip_sync_admin.Auth.{parse, Parsed, claims, token_expired, token_invalid}
use clip_sync_admin.Session.{is_token_active, refresh_token, reissue}
use clip_sync_admin.Session.Tokens.{has_token, is_token_active_lem}
use clip_sync_admin.Middleware.Header.{strip_bearer}
use clip_sync_admin.Middleware.Signature.{pass}
use clip_sync_admin.Middleware.Token.{
  Session, is_renewable, renew, after_active, after_parse, jwt_auth,
}

-- What a session of a request rests on: a token that parses, and is on the white list.
pub record IsAuthenticated (env : Env) (w : World) (header : String) (s : Session) : Type 0 where
  pub present : strip_bearer header env.cfg.jwt.scheme ≢ ""
  pub valid : parse env w.now (strip_bearer header env.cfg.jwt.scheme) ≡ claims s.claims
  pub active : has_token w s.claims.id ≡ true
  pub kept :
      (s.refreshed ≡ none × s.token ≡ strip_bearer header env.cfg.jwt.scheme)
      ⊎ ((is_renewable env w.now s.claims ≡ true) × s.refreshed ≡ some s.token)

is_token_active-up :
    (env : Env) (w : World) (jti : String)
    → (is_token_active jti env w).0 ≡ ok true
    → (env.fault w.calls ≡ none)
unfolding is_token_active
is_token_active-up env w jti h = elim (Option-cases (env.fault w.calls)) [
  | inl up ↦ up
  | inr (x, down) ↦ absurd (ground (arith, h, down))
]

is_token_active-time :
    (env : Env) (w : World) (jti : String) → (is_token_active jti env w).1.now ≡ w.now
unfolding is_token_active
is_token_active-time env w jti = elim (Option-cases (env.fault w.calls)) [
  | inl up ↦ ground (arith, up)
  | inr (x, down) ↦ ground (arith, down)
]

pub refresh_token-runs :
    (env : Env) (w : World) (jti : String)
    → ((refresh_token jti env w).0 ≡ ok tt) × ((refresh_token jti env w).1.now ≡ w.now)
unfolding refresh_token
refresh_token-runs env w jti = ground arith

renew_kept :
    (env : Env) (w : World) (c : Claims) (token : String) (s : Session)
    → (renew c token env w).0 ≡ ok s
    → (s.claims ≡ c)
      × ((s.refreshed ≡ none × s.token ≡ token)
          ⊎ ((is_renewable env w.now c ≡ true) × s.refreshed ≡ some s.token))
unfolding renew
renew_kept env w c token s h =
    let got = reissue c.admin_id c.account c.id env w in
    elim (Bool-cases (is_renewable env w.now c)) [
      | inl e ↦ elim (Outcome-cases got.0) [
        | inl (tok, r) ↦ (ground (arith, h, e, r), inr (e, ground (arith, h, e, r)))
        | inr (x, r) ↦
            (ground (arith, h, e, r), inl (ground (arith, h, e, r), ground (arith, h, e, r)))
      ]
      | inr e ↦ (ground (arith, h, e), inl (ground (arith, h, e), ground (arith, h, e)))
    ]

after_active-pass :
    (env : Env) (w : World) (c : Claims) (token : String) (r : Outcome Bool) (s : Session)
    → (after_active c token r env w).0 ≡ ok (pass s)
    → (r ≡ ok true) × ((renew c token env (refresh_token c.id env w).1).0 ≡ ok s)
unfolding after_active
after_active-pass env w c token (err x) s h = absurd (ground arith)
after_active-pass env w c token (ok false) s h = absurd (ground arith)
after_active-pass env w c token (ok true) s h =
    let runs = (refresh_token-runs env w c.id).0 in
    let w' = (refresh_token c.id env w).1 in
    elim (Outcome-cases (renew c token env w').0) [
      | inl (t, e) ↦ (refl, ground (arith, h, e, runs))
      | inr (x, e) ↦ absurd (ground (arith, h, e, runs))
    ]

after_parse-pass :
    (env : Env) (w : World) (token : String) (p : Parsed) (s : Session)
    → IsRedis env.redis
    → (after_parse token p env w).0 ≡ ok (pass s)
    → (p ≡ claims s.claims)
      × (has_token w s.claims.id ≡ true)
      × ((s.refreshed ≡ none × s.token ≡ token)
          ⊎ ((is_renewable env w.now s.claims ≡ true) × s.refreshed ≡ some s.token))
unfolding after_parse
after_parse-pass env w token token_expired s laws h = absurd (ground arith)
after_parse-pass env w token token_invalid s laws h = absurd (ground arith)
after_parse-pass env w token (claims c) s laws h =
    let (r, w1) = is_token_active c.id env w in
    let (active, renewed) = after_active-pass env w1 c token r s h in
    let w2 = (refresh_token c.id env w1).1 in
    let (same, kept) = renew_kept env w2 c token s renewed in
    let time = (refresh_token-runs env w1 c.id).1 in
    let time' = is_token_active-time env w c.id in
    let up = is_token_active-up env w c.id active in
    let live = is_token_active_lem env w c.id laws up in
    (
      rw same,
      ground (arith, same, active, live),
      elim kept [
        | inl old ↦ inl old
        | inr (half, new) ↦ inr (ground (arith, half, same, time, time'), new)
      ],
    )

-- A request passes JWTAuth only with a token that parses to the claims of the session, and is on the
-- white list of Redis; the session goes on with this token, or with a new one, in the response's
-- header, where the old one is in the last half of its life.
pub jwt_auth_sound :
    (env : Env) (w : World) (header : String) (s : Session)
    → IsRedis env.redis
    → (jwt_auth header env w).0 ≡ ok (pass s)
    → IsAuthenticated env w header s
unfolding jwt_auth
jwt_auth_sound env w header s laws h =
    let token = strip_bearer header env.cfg.jwt.scheme in
    elim (Bool-cases (token == "")) [
      | inl e ↦ absurd (ground (arith, h, e))
      | inr e ↦
          let (valid, active, kept) =
            after_parse-pass env w token (parse env w.now token) s laws (ground (arith, h, e)) in
          record {
            present = ground (arith, e, eq_iff token "");
            valid = valid;
            active = active;
            kept = kept;
          }
    ]
