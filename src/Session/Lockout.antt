-- ===== src/Session/Lockout.antt =====
-- The limit on failed attempts (`Login` of internal/service/auth_service.go) over a sequence of
-- attempts.
use clip_sync_admin.Prelude.{
  ℕ, suc, ◌+◌, ◌<◌, ◌≤◌, String, ◌≡◌, ◌≢◌, ◌⊎◌, ◌∙◌, inl, inr, refl, true, false, Option, none,
  some, List, [], ◌∷◌, All, length, leb, Bool-cases, arith,
}
use clip_sync_admin.Text.{trim_space}
use clip_sync_admin.Reply.{err, biz, message_of, code_login_error_limit}
use clip_sync_admin.Model.{RbacAdmin}
use clip_sync_admin.World.{Env, World, Entry, num, tick}
use clip_sync_admin.World.Laws.{IsRedis, NoFault, is_live, live_value}
use clip_sync_admin.Session.{login, counter_value, bump_login_err, login_error_ttl}
use clip_sync_admin.Session.Keys.{login_err_key}
use clip_sync_admin.Session.Login.{row_of, login_locked}
use clip_sync_admin.Session.Attempts.{
  login_wrong_password, bump_login_err_starts, bump_login_err_goes_on,
}

abbrev pub later : ℕ → World → World
later d w = record w { now = w.now + d }

-- Attempts to log in with an account, each some time after the one before.
abbrev pub attempts : String → List (ℕ × String) → Env → World → World
attempts account [] env w = w
attempts account ((d, password) ∷ rest) env w =
    attempts account rest env (login account password env (later d w)).1

abbrev pub elapsed : List (ℕ × String) → ℕ
elapsed [] = 0
elapsed ((d, _) ∷ rest) = d + elapsed rest

-- The row that the attempts are for, which none of them opens.
pub record IsGuessed (env : Env) (w : World) (account : String) (a : RbacAdmin)
    (guesses : List (ℕ × String)) : Type 0 where
  pub found : row_of w account ≡ some a
  pub enabled : a.status ≢ 1
  pub unlocked : a.is_lock ≢ 1
  pub wrong : All (λ g. (g.1 ≢ "") × (env.bcrypt_matches g.1 a.password ≡ false)) guesses

bump_login_err-frame :
    (env : Env) (w : World) (account : String)
    → ((bump_login_err account env w).1.now ≡ w.now) × ((bump_login_err account env w).1.db ≡ w.db)
unfolding bump_login_err
bump_login_err-frame env w account = ground arith

login_error_ttl_pos : (env : Env) → 0 < login_error_ttl env
login_error_ttl_pos env = ground arith

module _ (env : Env) (account : String) (a : RbacAdmin) (t : ℕ) where
  -- The counter of the account is live until a time, at some number of at least 1.
  abbrev Counts : ℕ → World → Type 0
  Counts n w =
      (w.redis (login_err_key (trim_space account))
        ≡ some (record { value = num (suc n); deadline = some t }))

  -- An attempt with a wrong password, before the counter is forgotten, is counted, unless the counter
  -- has reached the limit.
  wrong_attempt-Counts :
      (w : World) (password : String) (n : ℕ)
      → IsRedis env.redis
      → NoFault env
      → trim_space account ≢ ""
      → password ≢ ""
      → 0 < env.cfg.security.login_error_limit
      → row_of w (trim_space account) ≡ some a
      → a.status ≢ 1
      → a.is_lock ≢ 1
      → env.bcrypt_matches password a.password ≡ false
      → Counts n w
      → w.now < t
      → (m : ℕ) × Counts m (login account password env w).1
        × (n ≤ m)
        × ((env.cfg.security.login_error_limit ≤ suc m) ⊎ (suc n ≤ m))
        × ((login account password env w).1.now ≡ w.now)
        × ((login account password env w).1.db ≡ w.db)
  wrong_attempt-Counts w password n laws up named given limited found enabled unlocked wrong c
        time =
      let k = login_err_key (trim_space account) in
      let value : live_value w.now (w.redis k) ≡ some (num (suc n)) = rw c (ground (arith, time)) in
      elim (Bool-cases (leb env.cfg.security.login_error_limit (suc n))) [
        | inl reached ↦
            let refused =
              login_locked env w account password (suc n) laws named given (up w.calls) value
                limited (ground (arith, reached)) in
            rw refused (n, c, omega arith, inl (ground (arith, reached)), refl, refl)
        | inr below ↦
            let v = tick (tick w) in
            let read : counter_value (env.redis.get w.now k w.redis)
                < env.cfg.security.login_error_limit =
              rw (laws.get_live w.now k w.redis, value) (ground (arith, below)) in
            let whole =
              login_wrong_password env w account password a named given (inr read) (up w.calls)
                (up (w.calls + 1)) found enabled unlocked wrong in
            let live : is_live w.now (w.redis k) ≡ true = rw c (ground (arith, time)) in
            let next =
              bump_login_err_goes_on env v (trim_space account) n (some t) laws (up v.calls)
                (up (v.calls + 1)) (login_error_ttl_pos env) c live in
            let (now, db) = bump_login_err-frame env v (trim_space account) in
            rw whole (suc n, next, omega arith, inr (omega arith), now, db)
      ]

  -- After some attempts with wrong passwords the counter has reached the limit or counts them all.
  attempts-Counts :
      (w : World) (guesses : List (ℕ × String)) (n : ℕ)
      → IsRedis env.redis
      → NoFault env
      → trim_space account ≢ ""
      → 0 < env.cfg.security.login_error_limit
      → IsGuessed env w (trim_space account) a guesses
      → Counts n w
      → w.now + elapsed guesses < t
      → (m : ℕ) × Counts m (attempts account guesses env w)
        × (n ≤ m)
        × ((env.cfg.security.login_error_limit ≤ suc m) ⊎ (n + length guesses ≤ m))
        × ((attempts account guesses env w).now ≡ w.now + elapsed guesses)
        × ((attempts account guesses env w).db ≡ w.db)
  attempts-Counts w [] n laws up named limited g c time =
      (n, c, omega arith, inr (omega arith), omega arith, refl)
  attempts-Counts w ((d, password) ∷ rest) n laws up named limited g c time =
      let (given, wrong) = g.wrong.0 in
      let (n1, c1, more, done, now, db) =
        wrong_attempt-Counts (later d w) password n laws up named given limited g.found g.enabled
          g.unlocked wrong c (omega (arith, time)) in
      let w1 = (login account password env (later d w)).1 in
      let g1 : IsGuessed env w1 (trim_space account) a rest = record {
        found = rw db g.found;
        enabled = g.enabled;
        unlocked = g.unlocked;
        wrong = g.wrong.1;
      } in
      let (m, c2, more', done', now', db') =
        attempts-Counts w1 rest n1 laws up named limited g1 c1 (rw now (omega (arith, time))) in
      (
        m,
        c2,
        omega (arith, more, more'),
        ground (arith, more, more', done, done'),
        now' ∙ rw now (omega arith),
        db' ∙ db,
      )

gone_later :
    (now d : ℕ) (e : Option Entry) → live_value now e ≡ none → live_value (now + d) e ≡ none
gone_later now d none h = refl
gone_later now d (some e) h = ground arith

-- The first wrong attempt, where no counter is live.
first_attempt-Counts :
    (env : Env) (w : World) (account password : String) (a : RbacAdmin)
    → IsRedis env.redis
    → NoFault env
    → trim_space account ≢ ""
    → 0 < env.cfg.security.login_error_limit
    → live_value w.now (w.redis (login_err_key (trim_space account))) ≡ none
    → IsGuessed env w (trim_space account) a ((0, password) ∷ [])
    → Counts env account a (w.now + login_error_ttl env) 0 (login account password env w).1
      × ((login account password env w).1.now ≡ w.now)
      × ((login account password env w).1.db ≡ w.db)
first_attempt-Counts env w account password a laws up named limited gone g =
    let k = login_err_key (trim_space account) in
    let v = tick (tick w) in
    let (given, wrong) = g.wrong.0 in
    let read : counter_value (env.redis.get w.now k w.redis) < env.cfg.security.login_error_limit =
      rw (laws.get_live w.now k w.redis, gone) limited in
    let whole =
      login_wrong_password env w account password a named given (inr read) (up w.calls)
        (up (w.calls + 1)) g.found g.enabled g.unlocked wrong in
    let next =
      bump_login_err_starts env v (trim_space account) laws (up v.calls) (up (v.calls + 1))
        (login_error_ttl_pos env) gone in
    let (now, db) = bump_login_err-frame env v (trim_space account) in rw whole (next, now, db)

-- Where every call is answered, Redis keeps its laws, a limit is set and no counter is live, then
-- after at least as many attempts as the limit with wrong passwords that are not empty, on an account
-- that is not empty and whose row is neither disabled nor locked, every further login with a password
-- that is not empty, the right one included, is refused with `CodeLoginErrorLimit` and changes
-- nothing, as long as all of it takes less than the time of the counter; the attempts have left the
-- database as it was.
pub login_locks_out :
    (env : Env) (w : World) (account password : String) (a : RbacAdmin)
    (guesses : List (ℕ × String)) (d : ℕ)
    → IsRedis env.redis
    → NoFault env
    → trim_space account ≢ ""
    → password ≢ ""
    → 0 < env.cfg.security.login_error_limit
    → env.cfg.security.login_error_limit ≤ length guesses
    → live_value w.now (w.redis (login_err_key (trim_space account))) ≡ none
    → IsGuessed env w (trim_space account) a guesses
    → elapsed guesses + d < login_error_ttl env
    → let w' = later d (attempts account guesses env w) in
      (login account password env w'
        ≡ (err (biz code_login_error_limit (message_of code_login_error_limit)), tick w'))
      × (w'.db ≡ w.db)
login_locks_out env w account password a [] d laws up named given limited enough gone g time =
    absurd (omega (arith, limited, enough))
login_locks_out env w account password a ((d0, p0) ∷ rest) d laws up named given limited enough gone
      g time =
    let k = login_err_key (trim_space account) in
    let v = later d0 w in
    let t = v.now + login_error_ttl env in
    let one : IsGuessed env v (trim_space account) a ((0, p0) ∷ []) = record {
      found = g.found;
      enabled = g.enabled;
      unlocked = g.unlocked;
      wrong = (g.wrong.0, tt);
    } in
    let (c, now, db) =
      first_attempt-Counts env v account p0 a laws up named limited
        (gone_later w.now d0 (w.redis k) gone) one in
    let w1 = (login account p0 env v).1 in
    let g1 : IsGuessed env w1 (trim_space account) a rest = record {
      found = rw db g.found;
      enabled = g.enabled;
      unlocked = g.unlocked;
      wrong = g.wrong.1;
    } in
    let (m, c2, _, done, now2, db2) =
      attempts-Counts env account a t w1 rest 0 laws up named limited g1 c
        (rw now (omega (arith, time))) in
    let w2 = attempts account rest env w1 in
    let at : w2.now ≡ v.now + elapsed rest = rw (now2, now) refl in
    let value : live_value (w2.now + d) (w2.redis k) ≡ some (num (suc m)) =
      rw (c2, at) (ground (arith, time)) in
    (
      login_locked env (later d w2) account password (suc m) laws named given (up w2.calls) value
          limited (ground (arith, done, enough)),
      db2 ∙ db,
    )
