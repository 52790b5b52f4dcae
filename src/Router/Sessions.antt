-- ===== src/Router/Sessions.antt =====
-- From a login (internal/service/auth_service.go) to the handlers behind the chains of
-- internal/router/router.go: what a client reaches that signs with the secret of its session.
use clip_sync_admin.Prelude.{ℕ, ◌<◌, String, ◌≡◌, ◌≢◌, ◌⊎◌, false, true, some, inr, refl, ap, arith}
use clip_sync_admin.Prelude.Int.{ℤ}
use clip_sync_admin.Reply.{ok}
use clip_sync_admin.Model.{RbacAdmin}
use clip_sync_admin.World.{Env, World, Claims, Entry, parsed, num, text}
use clip_sync_admin.World.Laws.{IsRedis, NoFault, is_live, live_value}
use clip_sync_admin.Access.{method_code}
use clip_sync_admin.Access.Spec.{HasSuperRole, Granted}
use clip_sync_admin.Auth.{parse, claims}
use clip_sync_admin.Session.{login}
use clip_sync_admin.Session.Keys.{token_key, sign_secret_key}
use clip_sync_admin.Session.Login.{login_opens_session}
use clip_sync_admin.Session.Opened.{claims_of, login_signs, live_before_expiry}
use clip_sync_admin.Middleware.Header.{strip_bearer, parse_int}
use clip_sync_admin.Middleware.Signature.{Request, is_stale, nonce_key, expected_sign}
use clip_sync_admin.Middleware.Token.{Session}
use clip_sync_admin.Handler.Respond.{Handled}
use clip_sync_admin.Router.{checked_route}
use clip_sync_admin.Router.Complete.{IsOfSession, checked_route_serves}

-- A request that a client makes of a token and a secret: with the token in its header, a time near
-- that of the server, a new nonce, and the signature of its parts.
pub record IsMadeWith (env : Env) (w : World) (r : Request) (tok secret : String) : Type 0 where
  pub token_set : tok ≢ ""
  pub secret_set : secret ≢ ""
  pub carries : strip_bearer r.authorization env.cfg.jwt.scheme ≡ tok
  pub ms : ℤ
  pub timed : parse_int r.timestamp ≡ some ms
  pub recent : is_stale w.now ms ≡ false
  pub nonced : r.nonce ≢ ""
  pub fresh : is_live w.now (w.redis (nonce_key r.nonce)) ≡ false
  pub body : String
  pub readable : r.body ≡ some body
  pub with_signature : r.signature ≢ ""
  pub signed : r.signature ≡ expected_sign env r body secret

-- The keys of the session stand as the login has left them, at a time before the token expires.
pub record IsOpen (env : Env) (before after w : World) (a : RbacAdmin) : Type 0 where
  pub token_kept :
      w.redis (token_key (claims_of env before a).id)
      ≡ after.redis (token_key (claims_of env before a).id)
  pub secret_kept : w.redis (sign_secret_key a.id) ≡ after.redis (sign_secret_key a.id)
  pub in_time : w.now < (claims_of env before a).expires_at

-- What the token library promises: a token that it has signed parses to its claims until they expire.
abbrev pub Parses : Env → Claims → String → ℕ → Type 0
Parses env c tok now =
    env.sign_token c ≡ ok tok → now < c.expires_at → env.parse_token now tok ≡ parsed c true

live_value-some :
    (now : ℕ) (e : Entry) → is_live now (some e) ≡ true → live_value now (some e) ≡ some e.value
live_value-some now e h = ground arith

-- After a successful login, every request made with its token and its secret while the session is
-- open is one of the session.
IsOfSession-login :
    (env : Env) (w : World) (account password tok secret : String) (a : RbacAdmin) (w' : World)
    (r : Request)
    → IsRedis env.redis
    → Parses env (claims_of env w a) tok w'.now
    → (login account password env w).0 ≡ ok (tok, a, secret)
    → IsOpen env w (login account password env w).1 w' a
    → IsMadeWith env w' r tok secret
    → IsOfSession env w' r (claims_of env w a)
unfolding parse
IsOfSession-login env w account password tok secret a w' r laws opens h o m =
    let c = claims_of env w a in
    let (stored, listed) = login_opens_session env w account password tok secret a laws h in
    let parsed_now = opens (login_signs env w account password tok secret a h) o.in_time in
    let valid : parse env w'.now (strip_bearer r.authorization env.cfg.jwt.scheme) ≡ claims c =
      rw (m.carries, parsed_now) refl in
    record {
      nonced = m.nonced;
      with_signature = m.with_signature;
      signed = record {
        ms = m.ms;
        body = m.body;
        secret = secret;
        timed = m.timed;
        recent = m.recent;
        fresh = m.fresh;
        readable = m.readable;
        secret_set = m.secret_set;
        keyed = inr (
          rw m.carries m.token_set,
          (
            c,
            valid,
            rw (o.secret_kept, stored)
                (live_value-some w'.now _
                  (live_before_expiry env w a (text secret) w'.now o.in_time)),
          ),
        );
        signed = m.signed;
      };
      present = rw m.carries m.token_set;
      valid = valid;
      active = rw (o.token_kept, listed) (live_before_expiry env w a (num a.id) w'.now o.in_time);
    }

-- After a successful login, where every call is answered and Redis keeps its laws, a request made with
-- the token and the secret while the session is open reaches the handler of every checked route that
-- the administrator may use, with the administrator's id and the database as it stood.
pub login_lets_in :
    {B : Type 0} (env : Env) (w : World) (account password tok secret : String) (a : RbacAdmin)
    (w' : World) (r : Request) (path : String) (handler : Session → Handled B)
    → IsRedis env.redis
    → Parses env (claims_of env w a) tok w'.now
    → NoFault env
    → (login account password env w).0 ≡ ok (tok, a, secret)
    → IsOpen env w (login account password env w).1 w' a
    → IsMadeWith env w' r tok secret
    → HasSuperRole w'.db a.id ⊎ Granted w'.db a.id (method_code r.method) path
    → (s : Session) × (w2 : World) × (s.claims.admin_id ≡ a.id)
      × (w2.db ≡ w'.db)
      × (checked_route r path handler env w' ≡ handler s env w2)
login_lets_in env w account password tok secret a w' r path handler laws opens up h o m granted =
    let of_session = IsOfSession-login env w account password tok secret a w' r laws opens h o m in
    let (s, w2, same, kept, runs) =
      checked_route_serves r path handler env w' (claims_of env w a) laws up of_session granted in
    (s, w2, ap (λ (c : Claims). c.admin_id) same, kept, runs)
