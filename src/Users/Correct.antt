-- ===== src/Users/Correct.antt =====
-- Users who are disabled (internal/service/data_service.go): whose sessions the Server ends.
use clip_sync_admin.Prelude.{
  ℕ, String, ◌≡◌, ◌≢◌, refl, sym, inl, inr, true, false, some, none, List, [], ◌∷◌, ◌++◌, All,
  map_where, filter, length, ap, arith, ◌==◌, nat_eq, Bool-cases,
}
use mathlib.Core.Path.{subst}
use clip_sync_admin.Reply.{ok}
use clip_sync_admin.Model.{User}
use clip_sync_admin.World.{Env, World, tick, send, kick_user, AdminCommand, published}
use clip_sync_admin.World.Laws.{NoFault}
use clip_sync_admin.Notifier.{
  ServerNotifier, channel, notify_kick_user, send_command, reason_user_disabled,
}
use clip_sync_admin.Users.{update_user, update_user_status, kick_if_linked}

-- The command to end all sessions of a user who is disabled.
abbrev pub kick_disabled : ℕ → AdminCommand
kick_disabled id = record {
  action = kick_user;
  user_id = id;
  device_id = "";
  reason = reason_user_disabled;
}

-- A user with a new status.
abbrev marked : ℕ → ℕ → User → User
marked disabled now u = record u { disabled = disabled; updated_at = now }

-- The rows of a user after the UPDATE.
abbrev marked_rows : ℕ → ℕ → ℕ → List User → List User
marked_rows id disabled now us =
    filter (λ u. u.id == id) (map_where (λ u. u.id == id) (marked disabled now) us)

marked_rows-hit :
    (id disabled now : ℕ) (u : User) (us : List User)
    → (u.id == id) ≡ true
    → marked_rows id disabled now (u ∷ us) ≡ marked disabled now u ∷ marked_rows id disabled now us
marked_rows-hit id disabled now u us hit = ground (arith, hit)

marked_rows-miss :
    (id disabled now : ℕ) (u : User) (us : List User)
    → (u.id == id) ≡ false
    → marked_rows id disabled now (u ∷ us) ≡ marked_rows id disabled now us
marked_rows-miss id disabled now u us miss = ground (arith, miss)

All-marked :
    (id disabled now : ℕ) (us : List User)
    → All (λ u. u.disabled ≡ disabled) (marked_rows id disabled now us)
All-marked id disabled now [] = tt
All-marked id disabled now (u ∷ us) =
    let rest = All-marked id disabled now us in
    elim (Bool-cases (u.id == id)) [
      | inl hit ↦
          subst (All (λ u. u.disabled ≡ disabled)) (sym (marked_rows-hit id disabled now u us hit))
            (refl, rest)
      | inr miss ↦
          subst (All (λ u. u.disabled ≡ disabled))
            (sym (marked_rows-miss id disabled now u us miss)) rest
    ]

-- The world after the UPDATE.
abbrev set_disabled : ℕ → ℕ → World → World
set_disabled id disabled w = record (tick w) {
  db = record w.db {
    users =
        map_where (λ u. u.id == id) (λ u. record u { disabled = disabled; updated_at = w.now })
          w.db.users;
  };
}

kick_published :
    (env : Env) (w : World) (n : ServerNotifier) (id : ℕ)
    → env.fault w.calls ≡ none
    → n.has_rdb ≡ true
    → (kick_if_linked (some n) id reason_user_disabled env w).1
      ≡ send (published (channel n) (kick_disabled id)) (tick w)
unfolding kick_if_linked notify_kick_user send_command
kick_published env w n id up on = ground (arith, up, on)

-- Where `UpdateUserStatus` disables a user with success, with Redis there, the user's rows have the
-- new status, and the command to end the user's sessions is published after all that was sent.
pub update_user_status_kicks :
    (env : Env) (w : World) (n : ServerNotifier) (id disabled : ℕ)
    → NoFault env
    → n.has_rdb ≡ true
    → disabled ≢ 0
    → (update_user_status (some n) id disabled env w).0 ≡ ok tt
    → let w' = (update_user_status (some n) id disabled env w).1 in
      (w'.sent ≡ w.sent ++ published (channel n) (kick_disabled id) ∷ [])
      × All (λ u. u.disabled ≡ disabled) (filter (λ u. u.id == id) w'.db.users)
unfolding update_user_status
update_user_status_kicks env w n id disabled up on real h =
    let changed = All-marked id disabled w.now w.db.users in
    let up0 = up w.calls in
    let kicked = kick_published env (set_disabled id disabled w) n id (up _) on in
    elim (Bool-cases (env.affected w.calls (length (filter (λ u. u.id == id) w.db.users)) == 0)) [
      | inl e ↦ absurd (ground (arith, up0, h, e))
      | inr e ↦ (
        ground (arith, up0, e, real, ap (λ v. v.sent) kicked),
        subst
            (λ (us : List User).
              All (λ (u : User). u.disabled ≡ disabled) (filter (λ u. u.id == id) us))
            (sym (ground (arith, up0, e, real, ap (λ v. v.db.users) kicked))) changed,
      )
    ]

-- `UpdateUser` sends nothing, whatever it changes: a user whom it disables keeps the open sessions.
update_user_silent :
    (env : Env) (w : World) (id disabled : ℕ) (username nickname : String)
    → ((update_user id username nickname disabled env w).1.sent ≡ w.sent)
unfolding update_user
update_user_silent env w id disabled username nickname = ground arith
