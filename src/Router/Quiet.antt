-- ===== src/Router/Quiet.antt =====
-- The middlewares of internal/middleware write no row of the database.
use clip_sync_admin.Prelude.{
  ℕ, String, ◌≡◌, ◌∙◌, Bool, true, false, Option, some, none, List, [], ◌∷◌, arith, Option-cases,
  inl, inr, refl,
}
use clip_sync_admin.Prelude.Int.{ℤ}
use clip_sync_admin.Reply.{Outcome, ok, err}
use clip_sync_admin.World.{Env, World, M, Claims}
use clip_sync_admin.Auth.{parse, Parsed, claims, token_expired, token_invalid, generate}
use clip_sync_admin.Session.{is_token_active, refresh_token, reissue, set_nx_nonce, get_sign_secret}
use clip_sync_admin.Middleware.Header.{strip_bearer, parse_int}
use clip_sync_admin.Middleware.Signature.{
  Request, Verdict, session_secret, signing_secret, check_secret, after_nonce, after_time,
  nonce_key, nonce_ttl, sign,
}
use clip_sync_admin.World.Inversion.{Outcome-cases}
use clip_sync_admin.Access.{
  user_role_ids, is_super, perm_ids_of_roles, menu_ids_of_roles, perm_ids_of_menus, check_route,
  route_verdict,
}
use clip_sync_admin.Middleware.Permission.{
  or_db_error, check_permission, after_super, after_roles, rbac,
}
use clip_sync_admin.Middleware.Token.{renew, after_active, after_parse, jwt_auth}

-- An action that leaves the database as it was.
abbrev pub Quiet : {A : Type 0} → M A → Type 0
Quiet m = (env : Env) (w : World) → (m env w).1.db ≡ w.db

session_secret-Quiet : (p : Parsed) → Quiet (session_secret p)
unfolding session_secret get_sign_secret
session_secret-Quiet token_expired env w = refl
session_secret-Quiet token_invalid env w = refl
session_secret-Quiet (claims c) env w = elim (Option-cases (env.fault w.calls)) [
  | inl up ↦ ground (arith, up)
  | inr (x, down) ↦ ground (arith, down)
]

check_secret-Quiet : (r : Request) → Quiet (check_secret r)
unfolding check_secret signing_secret
check_secret-Quiet r env w =
    let token = strip_bearer r.authorization env.cfg.jwt.scheme in
    ground (arith, session_secret-Quiet (parse env w.now token) env w)

set_nx_nonce-Quiet : (k : String) (ttl : ℕ) → Quiet (set_nx_nonce k ttl)
unfolding set_nx_nonce
set_nx_nonce-Quiet k ttl env w = ground arith

after_nonce-Quiet : (r : Request) (fresh : Outcome Bool) → Quiet (after_nonce r fresh)
unfolding after_nonce
after_nonce-Quiet r (err e) env w = refl
after_nonce-Quiet r (ok true) env w = check_secret-Quiet r env w
after_nonce-Quiet r (ok false) env w = refl

after_time-Quiet : (r : Request) (ms : Option ℤ) → Quiet (after_time r ms)
unfolding after_time
after_time-Quiet r none env w = refl
after_time-Quiet r (some m) env w =
    let nonced = set_nx_nonce (nonce_key r.nonce) nonce_ttl env w in
    ground (
      arith,
      set_nx_nonce-Quiet (nonce_key r.nonce) nonce_ttl env w,
      after_nonce-Quiet r nonced.0 env nonced.1,
    )

pub sign-Quiet : (r : Request) → Quiet (sign r)
unfolding sign
sign-Quiet r env w = ground (arith, after_time-Quiet r (parse_int r.timestamp) env w)

is_token_active-Quiet : (jti : String) → Quiet (is_token_active jti)
unfolding is_token_active
is_token_active-Quiet jti env w = ground arith

refresh_token-Quiet : (jti : String) → Quiet (refresh_token jti)
unfolding refresh_token
refresh_token-Quiet jti env w = ground arith

reissue-Quiet : (id : ℕ) (account old : String) → Quiet (reissue id account old)
unfolding reissue generate
reissue-Quiet id account old env w = ground arith

renew-Quiet : (c : Claims) (token : String) → Quiet (renew c token)
unfolding renew
renew-Quiet c token env w = ground (arith, reissue-Quiet c.admin_id c.account c.id env w)

after_active-Quiet :
    (c : Claims) (token : String) (r : Outcome Bool) → Quiet (after_active c token r)
unfolding after_active
after_active-Quiet c token (err e) env w = refl
after_active-Quiet c token (ok false) env w = refl
after_active-Quiet c token (ok true) env w =
    let w' = (refresh_token c.id env w).1 in
    ground (arith, refresh_token-Quiet c.id env w, renew-Quiet c token env w')

after_parse-Quiet : (token : String) (p : Parsed) → Quiet (after_parse token p)
unfolding after_parse
after_parse-Quiet token token_expired env w = refl
after_parse-Quiet token token_invalid env w = refl
after_parse-Quiet token (claims c) env w =
    let active = is_token_active c.id env w in
    ground
      (arith, is_token_active-Quiet c.id env w, after_active-Quiet c token active.0 env active.1)

pub jwt_auth-Quiet : (header : String) → Quiet (jwt_auth header)
unfolding jwt_auth
jwt_auth-Quiet header env w =
    let token = strip_bearer header env.cfg.jwt.scheme in
    ground (arith, after_parse-Quiet token (parse env w.now token) env w)

user_role_ids-Quiet : (id : ℕ) → Quiet (user_role_ids id)
unfolding user_role_ids
user_role_ids-Quiet id env w = ground arith

is_super-Quiet : (ids : List ℕ) → Quiet (is_super ids)
unfolding is_super
is_super-Quiet [] env w = refl
is_super-Quiet (i ∷ ids) env w = ground arith

menu_ids_of_roles-Quiet : (ids : List ℕ) → Quiet (menu_ids_of_roles ids)
unfolding menu_ids_of_roles
menu_ids_of_roles-Quiet ids env w = ground arith

perm_ids_of_menus-Quiet : (ids : List ℕ) → Quiet (perm_ids_of_menus ids)
unfolding perm_ids_of_menus
perm_ids_of_menus-Quiet ids env w = ground arith

perm_ids_of_roles-Quiet : (ids : List ℕ) → Quiet (perm_ids_of_roles ids)
unfolding perm_ids_of_roles
perm_ids_of_roles-Quiet [] env w = refl
perm_ids_of_roles-Quiet (i ∷ ids) env w =
    let (r, w') = menu_ids_of_roles (i ∷ ids) env w in
    elim (Outcome-cases r) [
      | inl (ms, e) ↦
          ground
            (arith, e, menu_ids_of_roles-Quiet (i ∷ ids) env w, perm_ids_of_menus-Quiet ms env w')
      | inr (x, e) ↦ ground (arith, e, menu_ids_of_roles-Quiet (i ∷ ids) env w)
    ]

check_permission-Quiet :
    (method path : String) (ids : List ℕ) → Quiet (check_permission method path ids)
unfolding check_permission check_route route_verdict
check_permission-Quiet method path ids env w = ground arith

or_db_error-Quiet :
    {A : Type 0} (m : M A) (k : A → M (Verdict (Unit {0})))
    → Quiet m
    → ((a : A) → Quiet (k a))
    → Quiet (or_db_error m k)
or_db_error-Quiet m k quiet rest env w = elim (Outcome-cases (m env w).0) [
  | inl (a, e) ↦ rw (e, or_db_error) (rest a env (m env w).1 ∙ quiet env w)
  | inr (x, e) ↦ rw (e, or_db_error) (quiet env w)
]

after_super-Quiet :
    (method path : String) (ids : List ℕ) (b : Bool) → Quiet (after_super method path ids b)
unfolding after_super
after_super-Quiet method path ids true env w = refl
after_super-Quiet method path ids false env w =
    or_db_error-Quiet (perm_ids_of_roles ids) (check_permission method path)
      (perm_ids_of_roles-Quiet ids) (check_permission-Quiet method path) env w

after_roles-Quiet : (method path : String) (ids : List ℕ) → Quiet (after_roles method path ids)
unfolding after_roles
after_roles-Quiet method path ids =
    or_db_error-Quiet (is_super ids) (after_super method path ids) (is_super-Quiet ids)
      (after_super-Quiet method path ids)

pub rbac-Quiet : (c : Option Claims) (method path : String) → Quiet (rbac c method path)
unfolding rbac
rbac-Quiet none method path env w = refl
rbac-Quiet (some c) method path env w =
    or_db_error-Quiet (user_role_ids c.admin_id) (after_roles method path)
      (user_role_ids-Quiet c.admin_id) (after_roles-Quiet method path) env w
