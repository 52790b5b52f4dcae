-- ===== src/Seed/Super.antt =====
-- The super administrator of internal/bootstrap/bootstrap.go: what a start makes sure of, and what a
-- further start changes.
use clip_sync_admin.Prelude.{
  ℕ, ◌<◌, String, ◌≡◌, ◌∙◌, sym, ap, ◌⊎◌, Bool, some, none, List, head?, filter, length, arith, inl,
  inr, Option-cases, head?-filter_snoc, length-filter_snoc, eq_iff, nat_eq, string_eq,
}
use mathlib.Core.Path.{subst}
use clip_sync_admin.Reply.{Outcome, ok}
use clip_sync_admin.Config.{BootstrapConfig}
use clip_sync_admin.Model.{RbacAdmin, RbacRole, Db}
use clip_sync_admin.World.{
  Env, World, M, Table, ◌>>=◌, admins, roles, admin_roles, admin_base, role_base, admin_role_base,
  assigned, tick, created_by,
}
use clip_sync_admin.World.Inversion.{>>=-ok}
use clip_sync_admin.Auth.{hash_password}
use clip_sync_admin.Seed.{
  first_or, account_of, name_of, is_super_role, has_account, binds, create_super_role,
  create_super_admin, new_binding, bind_super, seed_super_admin,
}

-- The rows of the super administrator: the first role of type 1 that is not deleted, the row of the
-- account, and a binding of the two, none of them deleted.
pub record IsSeeded (account : String) (db : Db) : Type 0 where
  pub role : RbacRole
  pub admin : RbacAdmin
  pub role_found : head? (filter is_super_role db.roles) ≡ some role
  pub admin_found : head? (filter (has_account account) db.admins) ≡ some admin
  pub bound : 0 < length (filter (binds admin.id role.id) db.admin_roles)

module _ (env : Env) (w : World) where
  create_super_role-ok :
      (name : String) (role : RbacRole)
      → head? (filter is_super_role w.db.roles) ≡ none
      → (create_super_role name env w).0 ≡ ok role
      → head? (filter is_super_role (create_super_role name env w).1.db.roles) ≡ some role
  unfolding create_super_role
  create_super_role-ok name role fresh h =
      ground (arith, h, head?-filter_snoc is_super_role w.db.roles role fresh)

  create_super_admin-ok :
      (c : BootstrapConfig) (cost : ℕ) (a : RbacAdmin)
      → head? (filter (has_account (account_of c)) w.db.admins) ≡ none
      → (create_super_admin c cost env w).0 ≡ ok a
      → (head? (filter (has_account (account_of c)) (create_super_admin c cost env w).1.db.admins)
          ≡ some a)
        × ((create_super_admin c cost env w).1.db.roles ≡ w.db.roles)
  unfolding create_super_admin hash_password
  create_super_admin-ok c cost a fresh h = (
    ground (
      arith,
      h,
      eq_iff (account_of c) (account_of c),
      head?-filter_snoc (has_account (account_of c)) w.db.admins a fresh,
    ),
    ground (arith, h),
  )

  bind_super-ok :
      (admin_id role_id : ℕ)
      → (bind_super admin_id role_id env w).0 ≡ ok tt
      → let db = (bind_super admin_id role_id env w).1.db in
        (0 < length (filter (binds admin_id role_id) db.admin_roles))
        × (db.roles ≡ w.db.roles)
        × (db.admins ≡ w.db.admins)
  unfolding bind_super
  bind_super-ok admin_id role_id h =
      let new =
        assigned admin_roles (created_by w.now 0 (new_binding admin_id role_id)) env (tick w) in
      (
        ground (arith, h, length-filter_snoc (binds admin_id role_id) w.db.admin_roles new),
        ground (arith, h),
        ground (arith, h),
      )

-- A row that is looked for and else created is one of the two.
pub first_or-ok :
    {Row : Type 0} (t : Table Row) (p : Row → Bool) (make : M Row) (env : Env) (w : World) (a : Row)
    → (first_or t p make env w).0 ≡ ok a
    → ((head? (filter p (t.rows w.db)) ≡ some a) × ((first_or t p make env w).1 ≡ tick w))
      ⊎ ((head? (filter p (t.rows w.db)) ≡ none)
          × ((make env (tick w)).0 ≡ ok a)
          × ((first_or t p make env w).1 ≡ (make env (tick w)).1))
first_or-ok t p make env w a h = elim (Option-cases (env.fault w.calls)) [
  | inr (x, down) ↦ absurd (ground (arith, down, h))
  | inl up ↦ elim (Option-cases (head? (filter p (t.rows w.db)))) [
    | inl fresh ↦ inr (fresh, ground (arith, up, fresh, h), ground (arith, up, fresh))
    | inr (b, found) ↦ inl (ground (arith, up, found, h), ground (arith, up, found))
  ]
]

module _ (env : Env) (w : World) (c : BootstrapConfig) (cost : ℕ) where
  super_role-found :
      (role : RbacRole)
      → (first_or roles is_super_role (create_super_role (name_of c)) env w).0 ≡ ok role
      → head? (
          filter is_super_role
            (first_or roles is_super_role (create_super_role (name_of c)) env w).1.db.roles)
        ≡ some role
  super_role-found role h =
      elim (first_or-ok roles is_super_role (create_super_role (name_of c)) env w role h) [
        | inl (found, same) ↦ ap (λ v. head? (filter is_super_role v.db.roles)) same ∙ found
        | inr (fresh, made, same) ↦
            ap (λ v. head? (filter is_super_role v.db.roles)) same
            ∙ create_super_role-ok env (tick w) (name_of c) role fresh made
      ]

  super_admin-found :
      (a : RbacAdmin)
      → let m = first_or admins (has_account (account_of c)) (create_super_admin c cost) in
        (m env w).0 ≡ ok a
        → let m = first_or admins (has_account (account_of c)) (create_super_admin c cost) in
          (head? (filter (has_account (account_of c)) (m env w).1.db.admins) ≡ some a)
          × ((m env w).1.db.roles ≡ w.db.roles)
  super_admin-found a h =
      let test = has_account (account_of c) in
      let find = λ (v : World). head? (filter test v.db.admins) in
      elim (first_or-ok admins test (create_super_admin c cost) env w a h) [
        | inl (found, same) ↦ (ap find same ∙ found, ap (λ v. v.db.roles) same)
        | inr (fresh, made, same) ↦
            let (found, kept) = create_super_admin-ok env (tick w) c cost a fresh made in
            (ap find same ∙ found, ap (λ v. v.db.roles) same ∙ kept)
      ]

module _ (env : Env) (w : World) (c : BootstrapConfig) (cost : ℕ) where
  -- After `SeedSuperAdmin` has succeeded, there is a role of type 1, an administrator with the
  -- configured account, and a binding of this administrator to this role, none of them deleted.
  pub seed_super_admin-IsSeeded :
      (seed_super_admin c cost env w).0 ≡ ok tt
      → IsSeeded (account_of c) (seed_super_admin c cost env w).1.db
  unfolding seed_super_admin
  seed_super_admin-IsSeeded h =
      let test = has_account (account_of c) in
      let m1 = first_or roles is_super_role (create_super_role (name_of c)) in
      let m2 = first_or admins test (create_super_admin c cost) in
      let k1 = λ (role : RbacRole). m2 >>= λ admin. bind_super admin.id role.id in
      let (role, e1, whole1) = >>=-ok m1 k1 env w h in
      let w1 = (m1 env w).1 in
      let h1 = ap (λ o. o.0) (sym whole1) ∙ h in
      let k2 = λ (admin : RbacAdmin). bind_super admin.id role.id in
      let (admin, e2, whole2) = >>=-ok m2 k2 env w1 h1 in
      let w2 = (m2 env w1).1 in
      let (bound, roles3, admins3) =
        bind_super-ok env w2 admin.id role.id (ap (λ o. o.0) (sym whole2) ∙ h1) in
      let (admin_there, roles2) = super_admin-found env w1 c cost admin e2 in
      subst (λ (o : Outcome (Unit {0}) × World). IsSeeded (account_of c) o.1.db)
        (sym (whole1 ∙ whole2))
        (record {
          role = role;
          admin = admin;
          role_found =
              ap (λ (rs : List RbacRole). head? (filter is_super_role rs)) (roles3 ∙ roles2)
              ∙ super_role-found env w c cost role e1;
          admin_found =
              ap (λ (as' : List RbacAdmin). head? (filter test as')) admins3 ∙ admin_there;
          bound = bound;
        })

seeded-Quiet :
    (env : Env) (w : World) (c : BootstrapConfig) (cost : ℕ)
    → IsSeeded (account_of c) w.db
    → (seed_super_admin c cost env w).1.db ≡ w.db
unfolding seed_super_admin bind_super
seeded-Quiet env w c cost s = ground (arith, s.role_found, s.admin_found, s.bound)

-- A further start finds what a successful `SeedSuperAdmin` has left: it leaves the database as it
-- is, at any time and whichever of its calls fail, as long as no row has changed in between.
pub seed_super_admin-again :
    (env later : Env) (w w' : World) (c : BootstrapConfig) (cost : ℕ)
    → (seed_super_admin c cost env w).0 ≡ ok tt
    → w'.db ≡ (seed_super_admin c cost env w).1.db
    → (seed_super_admin c cost later w').1.db ≡ (seed_super_admin c cost env w).1.db
seed_super_admin-again env later w w' c cost h same =
    seeded-Quiet later w' c cost
      (subst (IsSeeded (account_of c)) (sym same) (seed_super_admin-IsSeeded env w c cost h))
    ∙ same
