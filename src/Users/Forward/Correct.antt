-- ===== src/Users/Forward/Correct.antt =====
-- What `CreateUser` of internal/service/data_service.go sends to the Server, and when.
use Prim.Native.String
use Prim.Native.String.{◌++◌}
use clip_sync_admin.Prelude.{
  ℕ, ◌≤◌, ◌<◌, ◌≡◌, ◌≢◌, ◌∙◌, sym, ap, refl, String, ◌||◌, inl, inr, Option, some, none, [], ◌∷◌,
  ltb, arith, Bool-cases, eq_iff, ◌==◌, string_eq, nat_eq,
}
use mathlib.Core.Path.{subst}
use clip_sync_admin.Text.{trim_space}
use clip_sync_admin.Reply.{Outcome, ok}
use clip_sync_admin.Model.{CreatedUser}
use clip_sync_admin.World.{
  Env, World, Message, requested, HttpAnswer, unbuilt, unreachable, answered, cut, send,
}
use clip_sync_admin.World.Inversion.{Outcome-cases}
use clip_sync_admin.Notifier.{ServerNotifier, status_of}
use clip_sync_admin.Notifier.Server.{body_verdict, body_answer, server_create_user}
use clip_sync_admin.Users.Forward.{user_verdict, forward_user, create_user}

-- The request for a new user.
abbrev pub user_request : ServerNotifier → String → String → String → Message
user_request n username nickname password =
    requested "POST" (n.cfg.addr ++ "/server-admin/users") n.cfg.http_admin_token
      (("username", username) ∷ ("nickname", nickname) ∷ ("password", password) ∷ [])

body_answer-ok :
    (special : ℕ) (refusal body : String) (a : HttpAnswer)
    → body_answer (some (special, refusal)) a ≡ ok body
    → (status : ℕ) × (status_of a ≡ some status) × (status ≢ special) × (status < 400)
unfolding body_answer body_verdict
body_answer-ok special refusal body (unbuilt e) h = cc
body_answer-ok special refusal body (unreachable e) h = cc
body_answer-ok special refusal body (answered status b) h =
    (status, refl, ground (arith, h), ground (arith, h))
body_answer-ok special refusal body (cut status b e) h =
    (status, refl, ground (arith, h), ground (arith, h))

-- A user that the Server has created: the request has left, and the Server took it.
pub record IsTaken (n : ServerNotifier) (username nickname password : String) (env : Env)
    (w w' : World) : Type 0 where
  pub addressed : n.cfg.addr ≢ ""
  pub status : ℕ
  pub answer :
      status_of (env.http_do w.calls (user_request n username nickname password)) ≡ some status
  pub taken : (status ≢ 409) × (status < 400)
  pub sent : w'.sent ≡ (send (user_request n username nickname password) w).sent
  pub kept : w'.db ≡ w.db

server_create_user-ok :
    (n : ServerNotifier) (username nickname password : String) (env : Env) (w : World)
    (u : CreatedUser)
    → (server_create_user n username nickname password env w).0 ≡ ok u
    → IsTaken n username nickname password env w
        (server_create_user n username nickname password env w).1
unfolding server_create_user
server_create_user-ok n username nickname password env w u h =
    let m = user_request n username nickname password in
    let a = env.http_do w.calls m in
    elim (Bool-cases (n.cfg.addr == "")) [
      | inl no_address ↦ absurd (ground (arith, h, no_address))
      | inr address ↦ elim (Outcome-cases (body_answer (some (409, "用户名已存在")) a)) [
        | inr (x, refused) ↦ absurd (ground (arith, h, address, refused))
        | inl (body, taken) ↦
            let (status, got, fresh, low) = body_answer-ok 409 "用户名已存在" body a taken in
            record {
              addressed = ground (arith, address, eq_iff n.cfg.addr "");
              status = status;
              answer = got;
              taken = (fresh, low);
              sent = ground (arith, address, taken, got);
              kept = ground (arith, address, taken, got);
            }
      ]
    ]

forward_user-ok :
    (kick : Option ServerNotifier) (username nickname password : String) (env : Env) (w : World)
    (id : ℕ)
    → (forward_user kick username nickname password env w).0 ≡ ok id
    → (out : Outcome ℕ × World) → forward_user kick username nickname password env w ≡ out
    → (n : ServerNotifier) × (kick ≡ some n) × IsTaken n username nickname password env w out.1
unfolding forward_user user_verdict
forward_user-ok none username nickname password env w id h out e = cc
forward_user-ok (some n) username nickname password env w id h out e =
    let m = server_create_user n username nickname password in
    elim (Outcome-cases (m env w).0) [
      | inr (x, bad) ↦ absurd (ground (arith, h, bad))
      | inl (u, good) ↦ (
        n,
        refl,
        subst (IsTaken n username nickname password env w) (ground (arith, good) ∙ ap (λ o. o.1) e)
            (server_create_user-ok n username nickname password env w u good),
      )
    ]

-- `CreateUser` succeeds only with a name of 3 to 32 characters and a nickname of at most 32, spaces
-- around them not counted, and a password of at least 6 bytes; and only where there is a link to the
-- Server and the Server took the request for these names and this password. It writes no row itself.
pub create_user-accepts :
    (env : Env) (w : World) (kick : Option ServerNotifier) (username nickname password : String)
    (id : ℕ)
    → (create_user kick username nickname password env w).0 ≡ ok id
    → (3 ≤ String.count (trim_space username))
      × (String.count (trim_space username) ≤ 32)
      × (String.count (trim_space nickname) ≤ 32)
      × (6 ≤ String.len password)
      × ((n : ServerNotifier) × (kick ≡ some n)
          × IsTaken n
              (trim_space username)
              (trim_space nickname)
              password
              env
              w
              (create_user kick username nickname password env w).1)
unfolding create_user
create_user-accepts env w kick username nickname password id h =
    let name = trim_space username in
    let nick = trim_space nickname in
    elim (Bool-cases (ltb (String.count name) 3 || ltb 32 (String.count name))) [
      | inl bad ↦ absurd (ground (arith, h, bad))
      | inr good ↦ elim (Bool-cases (ltb 32 (String.count nick))) [
        | inl bad ↦ absurd (ground (arith, h, good, bad))
        | inr short ↦ elim (Bool-cases (ltb (String.len password) 6)) [
          | inl bad ↦ absurd (ground (arith, h, good, short, bad))
          | inr strong ↦
              let e : create_user kick username nickname password env w
                  ≡ forward_user kick name nick password env w =
                ground (arith, good, short, strong) in
              (
                ground (arith, good),
                ground (arith, good),
                ground (arith, short),
                ground (arith, strong),
                forward_user-ok kick name nick password env w id (ap (λ o. o.0) (sym e) ∙ h) _
                    (sym e),
              )
        ]
      ]
    ]
