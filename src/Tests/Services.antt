-- ===== src/Tests/Services.antt =====
-- The theorems on the services and their pages at concrete inputs.
use clip_sync_admin.Prelude.{
  ℕ, String, List, [], ◌∷◌, ◌≡◌, ◌≢◌, refl, true, false, some, none, arith, eq_iff,
}
use clip_sync_admin.Text.{trim_space}
use clip_sync_admin.Reply.{biz, ok, err, message_of, code_login_error_limit}
use clip_sync_admin.Config.{second}
use clip_sync_admin.Model.{RbacAdmin}
use clip_sync_admin.World.{World, tick}
use clip_sync_admin.Auth.{check_password}
use clip_sync_admin.World.Laws.{live_value}
use clip_sync_admin.Session.{login_found, login_accepted, login, logout, reissue}
use clip_sync_admin.Session.Keys.{token_key, sign_secret_key, login_err_key}
use clip_sync_admin.Session.Lockout.{later, attempts, IsGuessed, login_locks_out}
use clip_sync_admin.Session.Login.{IsAccepted, row_of, login_sound}
use clip_sync_admin.Session.Tokens.{has_token, logout_revokes, reissue_replaces}
use clip_sync_admin.Tests.Redis.{memory-IsRedis}
use clip_sync_admin.Tests.Sample.{env, world, op}

abbrev logged_in : RbacAdmin
logged_in = record op {
  last_login_time = some world.now;
  base = record op.base { updated_at = world.now };
}

logs_in : (login "op" "pw" env world).0 ≡ ok ("jwt:new", logged_in, "secret")
unfolding login login_err_key trim_space login_found check_password login_accepted
logs_in = refl

login_sound_example : (a : RbacAdmin) × IsAccepted env world (trim_space "op") "pw" a
login_sound_example = login_sound env world "op" "pw" ("jwt:new", logged_in, "secret") logs_in

op_named : trim_space "op" ≢ ""
unfolding trim_space
op_named = ground (arith, eq_iff "op" "")

op_found : row_of world (trim_space "op") ≡ some op
unfolding trim_space
op_found = refl

-- Five wrong passwords, each a second after the one before, and then the right one.
abbrev guesses : List (ℕ × String)
guesses = (second, "a") ∷ (second, "b") ∷ (second, "c") ∷ (second, "d") ∷ (second, "e") ∷ []

-- No key is set, and so no attempt has been counted.
abbrev no_keys : World
no_keys = record world { redis = λ _. none }

guesses-IsGuessed : IsGuessed env no_keys (trim_space "op") op guesses
guesses-IsGuessed = record {
  found = op_found;
  enabled = omega arith;
  unlocked = omega arith;
  wrong = (
    (ground (arith, eq_iff "a" ""), refl),
    (
      (ground (arith, eq_iff "b" ""), refl),
      (
        (ground (arith, eq_iff "c" ""), refl),
        ((ground (arith, eq_iff "d" ""), refl), ((ground (arith, eq_iff "e" ""), refl), tt)),
      ),
    ),
  );
}

op_uncounted : live_value no_keys.now (no_keys.redis (login_err_key (trim_space "op"))) ≡ none
unfolding trim_space login_err_key
op_uncounted = refl

login_locks_out_example :
    let w' = later second (attempts "op" guesses env no_keys) in
    (login "op" "pw" env w'
      ≡ (err (biz code_login_error_limit (message_of code_login_error_limit)), tick w'))
    × (w'.db ≡ no_keys.db)
login_locks_out_example =
    login_locks_out env no_keys "op" "pw" op guesses second memory-IsRedis (λ n. refl) op_named
      (ground (arith, eq_iff "pw" "")) (omega arith) (omega arith) op_uncounted guesses-IsGuessed
      (omega arith)

logout_revokes_example :
    let (r, w') = logout "jti" 2 env world in
    (r ≡ ok tt)
    × (w'.redis (token_key "jti") ≡ none)
    × (w'.redis (sign_secret_key 2) ≡ none)
    × (w'.db ≡ world.db)
logout_revokes_example = logout_revokes env world "jti" 2 memory-IsRedis refl refl

reissued : (reissue 2 "op" "jti" env world).0 ≡ ok "jwt:new"
unfolding reissue
reissued = refl

reissue_replaces_example :
    let w' = (reissue 2 "op" "jti" env world).1 in
    (has_token w' "new" ≡ true)
    × (has_token w' "jti" ≡ false)
    × (w'.redis (sign_secret_key 2) ≡ world.redis (sign_secret_key 2))
reissue_replaces_example =
    reissue_replaces env world 2 "op" "jti" "jwt:new" memory-IsRedis (refl, refl)
      (ground (arith, eq_iff "jti" "")) (ground (arith, eq_iff "new" "jti")) (omega arith) reissued
