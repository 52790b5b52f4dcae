-- ===== src/Tests/Sessions.antt =====
-- Sessions at concrete inputs: a login, and requests of its session.
use clip_sync_admin.Prelude.{
  ◌≡◌, refl, inr, some, true, arith, eq_iff, ◌==◌, string_eq, if◌then◌else◌,
}
use clip_sync_admin.Prelude.Int.{pos}
use clip_sync_admin.Text.{trim_space}
use clip_sync_admin.Reply.{ok}
use clip_sync_admin.Model.{RbacAdmin}
use clip_sync_admin.World.{Env, World, parsed, refused, admin_base, touch}
use clip_sync_admin.Auth.{parse, check_password}
use clip_sync_admin.Session.{login, login_found, login_accepted}
use clip_sync_admin.Session.Keys.{token_key, sign_secret_key, login_err_key}
use clip_sync_admin.Session.Login.{IsAccepted}
use clip_sync_admin.Session.Opened.{claims_of, login_succeeds}
use clip_sync_admin.Middleware.Header.{parse_int, strip_bearer}
use clip_sync_admin.Middleware.Signature.{Request, expected_sign, is_stale}
use clip_sync_admin.Middleware.Signature.Correct.{sign_sound}
use clip_sync_admin.Middleware.Token.{Session}
use clip_sync_admin.Router.{checked_route}
use clip_sync_admin.Router.Complete.{IsOfSession, checked_route_serves}
use clip_sync_admin.Router.Sessions.{IsMadeWith, IsOpen, login_lets_in}
use clip_sync_admin.Tests.Redis.{memory-IsRedis}
use clip_sync_admin.Tests.Sample.{env, world, op, admin_claims}
use clip_sync_admin.Tests.Witness.{request, handler, users-Granted, signed}

of_session : IsOfSession env world request (admin_claims 2)
unfolding parse strip_bearer token_key
of_session = record {
  nonced = ground (arith, eq_iff "n1" "");
  with_signature = ground (arith, eq_iff request.signature "");
  signed = sign_sound request env world memory-IsRedis signed;
  present = ground (arith, eq_iff "jwt:op" "");
  valid = refl;
  active = refl;
}

checked_route_serves_example :
    (s : Session) × (w' : World) × (s.claims ≡ admin_claims 2)
    × (w'.db ≡ world.db)
    × (checked_route request "/api/admin/users" handler env world ≡ handler s env w')
checked_route_serves_example =
    checked_route_serves request "/api/admin/users" handler env world (admin_claims 2)
      memory-IsRedis (λ n. refl) of_session (inr users-Granted)

-- An environment in which the token of the next login parses.
abbrev opened : Env
opened = record env {
  parse_token =
      λ now token. if token == "jwt:new" then parsed (claims_of env world op) true else refused;
}

op-IsAccepted : IsAccepted opened world (trim_space "op") "pw" op
unfolding trim_space
op-IsAccepted = record {
  found = refl;
  enabled = omega arith;
  unlocked = omega arith;
  matched = refl;
}

login_succeeds_example :
    (a' : RbacAdmin) × ((login "op" "pw" opened world).0 ≡ ok ("jwt:new", a', "secret"))
    × (a'.id ≡ op.id)
unfolding trim_space login_err_key
login_succeeds_example =
    login_succeeds opened world "op" "pw" "jwt:new" "secret" op (λ n. refl)
      (ground (arith, eq_iff "op" "")) (ground (arith, eq_iff "pw" "")) (inr (omega arith))
      op-IsAccepted refl refl

abbrev op_in : RbacAdmin
op_in = touch world.now (record op { last_login_time = some world.now })

logged_in : (login "op" "pw" opened world).0 ≡ ok ("jwt:new", op_in, "secret")
unfolding login trim_space login_err_key login_found check_password login_accepted
logged_in = refl

-- The world of the login, with the keys that it has left.
abbrev inside : World
inside = record world { redis = (login "op" "pw" opened world).1.redis }

abbrev made : Request
made = record request { authorization = "Bearer jwt:new" }

IsOpen-session : IsOpen opened world (login "op" "pw" opened world).1 inside op_in
IsOpen-session = record { token_kept = refl; secret_kept = refl; in_time = omega arith }

made_with : IsMadeWith opened inside made "jwt:new" "secret"
unfolding strip_bearer parse_int is_stale expected_sign login login_found login_accepted
    check_password trim_space login_err_key token_key sign_secret_key
made_with = record {
  token_set = ground (arith, eq_iff "jwt:new" "");
  secret_set = ground (arith, eq_iff "secret" "");
  carries = refl;
  ms = pos 1200000;
  timed = refl;
  recent = refl;
  nonced = ground (arith, eq_iff "n1" "");
  fresh = refl;
  body = "";
  readable = refl;
  with_signature = ground (arith, eq_iff request.signature "");
  signed = refl;
}

login_lets_in_example :
    (s : Session) × (w2 : World) × (s.claims.admin_id ≡ 2)
    × (w2.db ≡ world.db)
    × (checked_route made "/api/admin/users" handler opened inside ≡ handler s opened w2)
login_lets_in_example =
    login_lets_in opened world "op" "pw" "jwt:new" "secret" op_in inside made "/api/admin/users"
      handler memory-IsRedis (λ _ _. refl) (λ n. refl) logged_in IsOpen-session made_with
      (inr users-Granted)
