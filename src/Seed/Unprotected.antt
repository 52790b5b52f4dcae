-- ===== src/Seed/Unprotected.antt =====
-- The super administrator of a program whose configuration leaves `super_admin_account` empty:
-- internal/bootstrap/bootstrap.go fills in an account for itself, and
-- internal/service/rbac_service.go does not.
use mathlib.Core.Path.{subst}
use clip_sync_admin.Prelude.{
  ℕ, String, ◌≡◌, ◌≢◌, ◌∙◌, sym, refl, Bool, true, not, ◌||◌, ◌&&◌, some, none, List, [], ◌∷◌, all,
  any, head?, filter, map_where, arith, eq_iff, any-map_where, any-at_head, test-of_head,
  head-of_any, &&-left, ◌==◌, nat_eq, string_eq,
}
use clip_sync_admin.Reply.{ok}
use clip_sync_admin.Model.{RbacAdmin}
use clip_sync_admin.World.{Env, World, tick, admin_base, not_del, soft_delete_by}
use clip_sync_admin.Rbac.Admins.{delete_admin, guarded_target}
use clip_sync_admin.Seed.{has_account, account_of, seed_super_admin}
use clip_sync_admin.Seed.Lost.{seed_super_admin-deleted, seed_super_admin-spares}

-- No row but those of one id has the account.
abbrev pub only_of : String → ℕ → RbacAdmin → Bool
only_of account id x = not (x.account == account) || x.id == id

deleted :
    (now operator id : ℕ) (account : String) (rows : List RbacAdmin)
    → all (only_of account id) rows ≡ true
    → head? (
        filter
          (has_account account)
          (map_where (λ a. a.id == id) (soft_delete_by now operator) rows))
      ≡ none
deleted now operator id account [] h = refl
deleted now operator id account (x ∷ rows) h =
    ground (arith, h, deleted now operator id account rows)

module _ (env : Env) (w : World) (a : RbacAdmin) (operator : ℕ)
    (open_account : env.cfg.bootstrap.super_admin_account ≡ "") (up : (n : ℕ) → env.fault n ≡ none)
    (found : head? (filter (has_account "admin") w.db.admins) ≡ some a) (other : a.id ≢ operator)
    (real : a.id ≢ 0) where
  guarded_target-passes : (refusal : String) → guarded_target a.id refusal env w ≡ (ok tt, tick w)
  unfolding guarded_target
  guarded_target-passes refusal =
      let live = test-of_head (has_account "admin") w.db.admins a found in
      let q = λ (x : RbacAdmin). x.id == a.id && not_del x in
      let (t, there) =
        head-of_any q w.db.admins
          (any-at_head (has_account "admin") q w.db.admins a found (ground (arith, live))) in
      ground
        (arith, there, up w.calls, open_account, eq_iff env.cfg.bootstrap.super_admin_account "")

  delete_admin-passes :
      ((delete_admin a.id operator env w).0 ≡ ok tt)
      × ((delete_admin a.id operator env w).1.db.admins
          ≡ map_where (λ x. x.id == a.id) (soft_delete_by w.now operator) w.db.admins)
  unfolding delete_admin
  delete_admin-passes =
      let c2 = up (tick w).calls in
      let c3 = up (tick (tick w)).calls in
      let c4 = up (tick (tick (tick w))).calls in
      let c5 = up (tick (tick (tick (tick w)))).calls in
      let pass = guarded_target-passes "内置超级管理员不可删除" in
      (ground (arith, pass, c2, c3, c4, c5), ground (arith, pass, c2, c3, c4, c5))

-- Where the configuration leaves the account of the super administrator empty, and the calls are
-- answered, `DeleteAdmin` by any other operator deletes the seeded administrator "admin", whose id is
-- not 0 and whose row is the only one with this account; and in any world whose rows of administrators
-- are the ones that it has left, whatever else has changed, `SeedSuperAdmin` fails and leaves these
-- rows as they are.
pub super_admin_lost :
    (env later : Env) (w w' : World) (a : RbacAdmin) (operator cost : ℕ)
    → env.cfg.bootstrap.super_admin_account ≡ ""
    → ((n : ℕ) → env.fault n ≡ none)
    → head? (filter (has_account "admin") w.db.admins) ≡ some a
    → all (only_of "admin" a.id) w.db.admins ≡ true
    → a.id ≢ operator
    → a.id ≢ 0
    → w'.db.admins ≡ (delete_admin a.id operator env w).1.db.admins
    → ((delete_admin a.id operator env w).0 ≡ ok tt)
      × ((seed_super_admin env.cfg.bootstrap cost later w').0 ≢ ok tt)
      × ((seed_super_admin env.cfg.bootstrap cost later w').1.db.admins ≡ w'.db.admins)
super_admin_lost env later w w' a operator cost open_account up found only other real same =
    let (done, rows) = delete_admin-passes env w a operator open_account up found other real in
    let c = env.cfg.bootstrap in
    let name : account_of c ≡ "admin" =
      ground (arith, open_account, eq_iff c.super_admin_account "") in
    let now_rows : w'.db.admins
        ≡ map_where (λ x. x.id == a.id) (soft_delete_by w.now operator) w.db.admins =
      same ∙ rows in
    let there : any (λ x. x.account == "admin") w'.db.admins ≡ true =
      subst (λ xs. any (λ x. x.account == "admin") xs ≡ true) (sym now_rows)
        (any-map_where (λ x. x.account == "admin") (λ x. x.id == a.id)
          (soft_delete_by w.now operator) w.db.admins (λ x h. h)
          (any-at_head (has_account "admin") (λ x. x.account == "admin") w.db.admins a found
            (&&-left _ _ (test-of_head (has_account "admin") w.db.admins a found)))) in
    let gone : head? (filter (has_account "admin") w'.db.admins) ≡ none =
      subst (λ xs. head? (filter (has_account "admin") xs) ≡ none) (sym now_rows)
        (deleted w.now operator a.id "admin" w.db.admins only) in
    let used = subst (λ s. any (λ x. x.account == s) w'.db.admins ≡ true) (sym name) there in
    let none_left =
      subst (λ s. head? (filter (has_account s) w'.db.admins) ≡ none) (sym name) gone in
    (
      done,
      seed_super_admin-deleted later w' c cost used none_left,
      seed_super_admin-spares later w' c cost used none_left,
    )
