-- ===== src/Router/Correct.antt =====
-- The chains of internal/router/router.go: what stands between a request and a handler.
use clip_sync_admin.Prelude.{ℕ, String, ◌≡◌, ◌∙◌, ◌⊎◌, inl, inr, refl, ap, some}
use clip_sync_admin.Reply.{Response, fail_with, Outcome, ok, err, error_text, code_internal_error}
use clip_sync_admin.World.{Env, World, M}
use clip_sync_admin.World.Laws.{IsRedis}
use clip_sync_admin.Access.{method_code}
use clip_sync_admin.Access.Spec.{HasSuperRole, Granted}
use clip_sync_admin.Middleware.Signature.{Request, Verdict, pass, abort, sign}
use clip_sync_admin.Middleware.Signature.Correct.{IsSigned, sign_sound}
use clip_sync_admin.Middleware.Token.{Session, jwt_auth}
use clip_sync_admin.Middleware.Token.Correct.{IsAuthenticated, jwt_auth_sound}
use clip_sync_admin.Middleware.Permission.{rbac}
use clip_sync_admin.Middleware.Permission.Correct.{rbac_sound}
use clip_sync_admin.Handler.Respond.{Handled}
use clip_sync_admin.Router.{chain, checked_route}
use clip_sync_admin.Router.Quiet.{sign-Quiet, jwt_auth-Quiet, rbac-Quiet}

-- A response that is a failure, and the database unchanged.
abbrev pub IsRefused : {B : Type 0} → Response B × World → World → Type 0
IsRefused out w =
    (code : ℕ) × (message : String) × (out.0 ≡ fail_with code message) × (out.1.db ≡ w.db)

IsRefused-from :
    {B : Type 0} {out out' : Response B × World} (w w' : World)
    → out ≡ out'
    → w'.db ≡ w.db
    → IsRefused out' w'
    → IsRefused out w
IsRefused-from w w' e same (code, message, failed, kept) =
    (code, message, ap (λ o. o.0) e ∙ failed, ap (λ o. o.1.db) e ∙ kept ∙ same)

chain-cases :
    {A B : Type 0} (check : M (Verdict A)) (next : A → Handled B) (env : Env) (w : World)
    → (check env w).1.db ≡ w.db
    → ((a : A) × ((check env w).0 ≡ ok (pass a))
        × (chain check next env w ≡ next a env (check env w).1))
      ⊎ IsRefused (chain check next env w) w
unfolding chain
chain-cases check next env w same = go (check env w).0 refl
  where
    go :
        (v : Outcome (Verdict _))
        → (check env w).0 ≡ v
        → ((a : _) × ((check env w).0 ≡ ok (pass a))
            × (chain check next env w ≡ next a env (check env w).1))
          ⊎ IsRefused (chain check next env w) w
    go (ok (pass a)) e = inl (a, e, rw (e, chain))
    go (ok (abort code message)) e = inr (code, message, rw (e, chain), rw (e, chain) same)
    go (err x) e = inr (code_internal_error, error_text x, rw (e, chain), rw (e, chain) same)

-- A handler behind the whole chain runs only for a request that is signed, of a session with a live
-- token, and of an administrator to whom the route is granted or who has a super role, with the
-- database as it stood before the request; any other request is refused, and no row is written.
pub checked_route_guards :
    {B : Type 0} (r : Request) (path : String) (handler : Session → Handled B) (env : Env)
    (w : World)
    → IsRedis env.redis
    → ((s : Session) × (w' : World) × IsSigned env w r
        × IsAuthenticated env (sign r env w).1 r.authorization s
        × (HasSuperRole w.db s.claims.admin_id
            ⊎ Granted w.db s.claims.admin_id (method_code r.method) path)
        × (w'.db ≡ w.db)
        × (checked_route r path handler env w ≡ handler s env w'))
      ⊎ IsRefused (checked_route r path handler env w) w
unfolding checked_route
checked_route_guards r path handler env w laws =
    let last = λ (s : Session). chain (rbac (some s.claims) r.method path) λ _. handler s in
    let second = λ (_ : Unit {0}). chain (jwt_auth r.authorization) last in
    let w1 = (sign r env w).1 in
    let w2 = (jwt_auth r.authorization env w1).1 in
    let db1 = sign-Quiet r env w in
    let db2 = jwt_auth-Quiet r.authorization env w1 ∙ db1 in
    elim (chain-cases (sign r) second env w db1) [
      | inr out ↦ inr out
      | inl (_, signed, eq1) ↦
          elim (chain-cases (jwt_auth r.authorization) last env w1
            (jwt_auth-Quiet r.authorization env w1)) [
              | inr out ↦ inr (IsRefused-from w w1 eq1 db1 out)
              | inl (s, active, eq2) ↦
                  let check = rbac (some s.claims) r.method path in
                  let db3 = rbac-Quiet (some s.claims) r.method path env w2 in
                  elim (chain-cases check (λ _. handler s) env w2 db3) [
                    | inr out ↦ inr (IsRefused-from w w2 (eq1 ∙ eq2) db2 out)
                    | inl (_, allowed, eq3) ↦ inl (
                      s,
                      (check env w2).1,
                      sign_sound r env w laws signed,
                      jwt_auth_sound env w1 r.authorization s laws active,
                      rw (← db2) (rbac_sound env w2 s.claims r.method path allowed),
                      db3 ∙ db2,
                      eq1 ∙ eq2 ∙ eq3,
                    )
                  ]
            ]
    ]
