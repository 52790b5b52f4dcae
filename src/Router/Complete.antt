-- ===== src/Router/Complete.antt =====
-- The chain of internal/router/router.go before a checked route, where every call is answered: the
-- requests that reach their handler.
use clip_sync_admin.Prelude.{String, ◌≡◌, ◌≢◌, ◌∙◌, ◌⊎◌, true, some, arith, eq_iff, refl}
use clip_sync_admin.Reply.{ok}
use clip_sync_admin.World.{Env, World, M, Claims}
use clip_sync_admin.World.Laws.{IsRedis, NoFault}
use clip_sync_admin.Access.{method_code}
use clip_sync_admin.Access.Spec.{HasSuperRole, Granted}
use clip_sync_admin.Auth.{parse, claims}
use clip_sync_admin.Session.Keys.{token_key, apart}
use clip_sync_admin.Session.Tokens.{has_token}
use clip_sync_admin.Middleware.Header.{strip_bearer}
use clip_sync_admin.Middleware.Signature.{Request, Verdict, pass, nonce_key, sign}
use clip_sync_admin.Middleware.Signature.Correct.{IsSigned}
use clip_sync_admin.Middleware.Signature.Complete.{sign_complete}
use clip_sync_admin.Middleware.Token.{Session, jwt_auth}
use clip_sync_admin.Middleware.Token.Complete.{jwt_auth_complete}
use clip_sync_admin.Middleware.Permission.{rbac}
use clip_sync_admin.Middleware.Permission.Complete.{rbac_complete}
use clip_sync_admin.Handler.Respond.{Handled}
use clip_sync_admin.Router.{chain, checked_route}
use clip_sync_admin.Router.Quiet.{sign-Quiet, jwt_auth-Quiet, rbac-Quiet}

nonce_key-ne-token_key : (nonce jti : String) → nonce_key nonce ≢ token_key jti
unfolding token_key
nonce_key-ne-token_key nonce jti =
    apart "admin:s" "admin:t" "ign_nonce:" "oken:" nonce jti
      (ground (arith, eq_iff "admin:s" "admin:t")) refl

chain-pass :
    {A B : Type 0} (check : M (Verdict A)) (next : A → Handled B) (env : Env) (w : World) (a : A)
    → (check env w).0 ≡ ok (pass a)
    → chain check next env w ≡ next a env (check env w).1
unfolding chain
chain-pass check next env w a e = rw (e, chain)

-- What a request shows that a session of the administrator's own may send: the three headers of a
-- signature, the signature, and a token on the white list for the claims.
pub record IsOfSession (env : Env) (w : World) (r : Request) (c : Claims) : Type 0 where
  pub nonced : r.nonce ≢ ""
  pub with_signature : r.signature ≢ ""
  pub signed : IsSigned env w r
  pub present : strip_bearer r.authorization env.cfg.jwt.scheme ≢ ""
  pub valid : parse env w.now (strip_bearer r.authorization env.cfg.jwt.scheme) ≡ claims c
  pub active : has_token w c.id ≡ true

-- Where every call is answered and Redis keeps its laws, a signed request of a live session reaches
-- the handler of a checked route that its administrator may use, with the claims of its token and the
-- database as it stood.
pub checked_route_serves :
    {B : Type 0} (r : Request) (path : String) (handler : Session → Handled B) (env : Env)
    (w : World) (c : Claims)
    → IsRedis env.redis
    → NoFault env
    → IsOfSession env w r c
    → HasSuperRole w.db c.admin_id ⊎ Granted w.db c.admin_id (method_code r.method) path
    → (s : Session) × (w' : World) × (s.claims ≡ c)
      × (w'.db ≡ w.db)
      × (checked_route r path handler env w ≡ handler s env w')
unfolding checked_route
checked_route_serves r path handler env w c laws up o granted =
    let last = λ (s : Session). chain (rbac (some s.claims) r.method path) λ _. handler s in
    let second = λ (_ : Unit {0}). chain (jwt_auth r.authorization) last in
    let w1 = (sign r env w).1 in
    let w2 = (jwt_auth r.authorization env w1).1 in
    let (passed, (time, kept)) = sign_complete env laws up r w o.nonced o.with_signature o.signed in
    let listed = kept (token_key c.id) (nonce_key-ne-token_key r.nonce c.id) in
    let (s, let_in, same) =
      jwt_auth_complete env w1 r.authorization c laws up o.present (rw time o.valid)
        (rw (time, listed) o.active) in
    let db1 = sign-Quiet r env w in
    let db2 = jwt_auth-Quiet r.authorization env w1 ∙ db1 in
    let check = rbac (some s.claims) r.method path in
    let allowed = rbac_complete env w2 s.claims r.method path up (rw (db2, same) granted) in
    (
      s,
      (check env w2).1,
      same,
      rbac-Quiet (some s.claims) r.method path env w2 ∙ db2,
      chain-pass (sign r) second env w tt passed
          ∙ chain-pass (jwt_auth r.authorization) last env w1 s let_in
          ∙ chain-pass check (λ _. handler s) env w2 tt allowed,
    )
