-- ===== src/Seed/Lost.antt =====
-- `SeedSuperAdmin` (internal/bootstrap/bootstrap.go) once every row with its account is deleted.
use clip_sync_admin.Prelude.{
  refl, ℕ, ◌+◌, map, String, ◌≡◌, ◌≢◌, ◌∙◌, sym, ap, true, ◌||◌, none, List, [], ◌∷◌, any, head?,
  filter, arith, inl, inr, ◌==◌, nat_eq, string_eq,
}
use clip_sync_admin.Reply.{ok}
use clip_sync_admin.Config.{BootstrapConfig}
use clip_sync_admin.Model.{RbacAdmin, Db}
use clip_sync_admin.World.{
  Env, World, ◌>>=◌, admins, roles, admin_base, role_base, admin_role_base, tick,
}
use clip_sync_admin.Seed.Menus.Stays.{>>=-Stays}
use clip_sync_admin.World.Inversion.{>>=-ok}
use clip_sync_admin.Auth.{hash_password}
use clip_sync_admin.Seed.{
  first_or, account_of, name_of, is_super_role, has_account, create_super_role, create_super_admin,
  bind_super, seed_super_admin,
}
use clip_sync_admin.Seed.Super.{first_or-ok}

any-clash :
    (n : ℕ) (account : String) (rows : List RbacAdmin)
    → any (λ a. a.account == account) rows ≡ true
    → any (λ x. x.id == n || x.account == account) rows ≡ true
any-clash n account [] h = h
any-clash n account (x ∷ rows) h = ground (arith, h, any-clash n account rows)

create_super_admin-clash :
    (env : Env) (w : World) (c : BootstrapConfig) (cost : ℕ) (a : RbacAdmin)
    → any (λ x. x.account == account_of c) w.db.admins ≡ true
    → (create_super_admin c cost env w).0 ≢ ok a
unfolding create_super_admin hash_password
create_super_admin-clash env w c cost a used h =
    let n = env.auto_id (w.calls + 1) (map (λ x. x.id) w.db.admins) in
    ground (arith, h, any-clash n (account_of c) w.db.admins used)

create_super_role-spares :
    (env : Env) (w : World) (name : String)
    → (first_or roles is_super_role (create_super_role name) env w).1.db.admins ≡ w.db.admins
unfolding create_super_role
create_super_role-spares env w name = ground arith

create_super_admin-spares :
    (env : Env) (w : World) (c : BootstrapConfig) (cost : ℕ)
    → any (λ x. x.account == account_of c) w.db.admins ≡ true
    → (create_super_admin c cost env w).1.db.admins ≡ w.db.admins
unfolding create_super_admin hash_password
create_super_admin-spares env w c cost used =
    let n = env.auto_id (w.calls + 1) (map (λ x. x.id) w.db.admins) in
    ground (arith, any-clash n (account_of c) w.db.admins used)

-- Once every row with the account is deleted, `SeedSuperAdmin` fails, and the program does not
-- start: the account is not found among the rows that are not deleted, and the row that is to be
-- created in its place clashes with a deleted one.
pub seed_super_admin-deleted :
    (env : Env) (w : World) (c : BootstrapConfig) (cost : ℕ)
    → any (λ a. a.account == account_of c) w.db.admins ≡ true
    → head? (filter (has_account (account_of c)) w.db.admins) ≡ none
    → (seed_super_admin c cost env w).0 ≢ ok tt
unfolding seed_super_admin create_super_admin create_super_role
seed_super_admin-deleted env w c cost used gone h =
    let test = has_account (account_of c) in
    let m1 = first_or roles is_super_role (create_super_role (name_of c)) in
    let m2 = first_or admins test (create_super_admin c cost) in
    let (role, e1, whole1) =
      >>=-ok m1 (λ role. m2 >>= λ admin. bind_super admin.id role.id) env w h in
    let w1 = (m1 env w).1 in
    let kept : w1.db.admins ≡ w.db.admins = ground (arith, e1) in
    let (admin, e2, whole2) =
      >>=-ok m2 (λ admin. bind_super admin.id role.id) env w1 (ap (λ o. o.0) (sym whole1) ∙ h) in
    elim (first_or-ok admins test (create_super_admin c cost) env w1 admin e2) [
      | inl (found, same) ↦ cc (ap (λ (as' : List RbacAdmin). head? (filter test as')) kept)
      | inr (fresh, made, same) ↦
          create_super_admin-clash env (tick w1) c cost admin (rw kept used) made
    ]

second-spares :
    (env : Env) (w : World) (c : BootstrapConfig) (cost : ℕ)
    → any (λ x. x.account == account_of c) w.db.admins ≡ true
    → (first_or admins (has_account (account_of c)) (create_super_admin c cost) env w).1.db.admins
      ≡ w.db.admins
second-spares env w c cost used = ground (arith, create_super_admin-spares env (tick w) c cost used)

bind_super-spares :
    (env : Env) (w : World) (admin_id role_id : ℕ)
    → (bind_super admin_id role_id env w).1.db.admins ≡ w.db.admins
unfolding bind_super
bind_super-spares env w admin_id role_id = ground arith

-- That failure leaves the rows of administrators as they are.
pub seed_super_admin-spares :
    (env : Env) (w : World) (c : BootstrapConfig) (cost : ℕ)
    → any (λ a. a.account == account_of c) w.db.admins ≡ true
    → head? (filter (has_account (account_of c)) w.db.admins) ≡ none
    → (seed_super_admin c cost env w).1.db.admins ≡ w.db.admins
unfolding seed_super_admin
seed_super_admin-spares env w c cost used gone =
    let P = λ (db : Db). db.admins ≡ w.db.admins in
    let m1 = first_or roles is_super_role (create_super_role (name_of c)) in
    let m2 = first_or admins (has_account (account_of c)) (create_super_admin c cost) in
    >>=-Stays P m1 (λ role. m2 >>= λ admin. bind_super admin.id role.id)
      (λ e v h. create_super_role-spares e v (name_of c) ∙ h)
      (λ role.
        >>=-Stays P m2 (λ admin. bind_super admin.id role.id)
          (λ e v h. second-spares e v c cost (rw h used) ∙ h)
          (λ admin e v h. bind_super-spares e v admin.id role.id ∙ h))
      env w refl
