-- ===== src/Rbac/Admins/Deletion.antt =====
-- The deletion of an administrator (internal/service/rbac_service.go).
use clip_sync_admin.Prelude.{
  ℕ, String, ◌≡◌, ◌≢◌, ◌⊎◌, ◌∙◌, refl, sym, ap, inl, inr, false, some, List, [], ◌∷◌, filter, head?,
  map_where, arith, ◌&&◌, ◌==◌, nat_eq, string_eq, Bool-cases, Option-cases, eq_iff,
}
use clip_sync_admin.Reply.{ok}
use clip_sync_admin.Model.{RbacAdmin, RbacAdminRole, Db}
use clip_sync_admin.World.{
  Env, World, M, tick, transaction, pure, ◌>>◌, update, db_error, admins, admin_roles, admin_base,
  admin_role_base, not_del, soft_delete, soft_delete_by,
}
use clip_sync_admin.World.Inversion.{Outcome-cases, transaction-ok}
use clip_sync_admin.Rbac.Admins.{delete_admin, guarded_target}

-- The rows of an administrator that are not deleted, and those of the bindings to roles.
abbrev pub rows_of : Db → ℕ → List RbacAdmin
rows_of db id = filter (λ a. a.id == id && not_del a) db.admins

abbrev pub bindings_of : Db → ℕ → List RbacAdminRole
bindings_of db id = filter (λ r. r.admin_id == id && not_del r) db.admin_roles

admins_gone :
    (now operator id : ℕ) (rows : List RbacAdmin)
    → filter
        (λ a. a.id == id && not_del a)
        (map_where (λ a. a.id == id) (soft_delete_by now operator) rows)
      ≡ []
admins_gone now operator id [] = refl
admins_gone now operator id (a ∷ rows) =
    let rest = admins_gone now operator id rows in
    elim (Bool-cases (a.id == id)) [
      | inl hit ↦ ground (arith, hit, rest)
      | inr miss ↦ ground (arith, miss, rest)
    ]

bindings_gone :
    (now id : ℕ) (rows : List RbacAdminRole)
    → filter
        (λ r. r.admin_id == id && not_del r)
        (map_where (λ r. r.admin_id == id) (soft_delete now) rows)
      ≡ []
bindings_gone now id [] = refl
bindings_gone now id (r ∷ rows) =
    let rest = bindings_gone now id rows in
    elim (Bool-cases (r.admin_id == id)) [
      | inl hit ↦ ground (arith, hit, rest)
      | inr miss ↦ ground (arith, miss, rest)
    ]

-- The transaction of `DeleteAdmin`.
abbrev deletion : ℕ → ℕ → ℕ → M (Unit {0})
deletion now id operator =
    update admins db_error (λ a. a.id == id) (soft_delete_by now operator)
    >> (update admin_roles db_error (λ r. r.admin_id == id) (soft_delete now) >> pure tt)

deletion-ok :
    (env : Env) (w : World) (now id operator : ℕ)
    → (deletion now id operator env w).0 ≡ ok tt
    → ((deletion now id operator env w).1.db.admins
        ≡ map_where (λ a. a.id == id) (soft_delete_by now operator) w.db.admins)
      × ((deletion now id operator env w).1.db.admin_roles
          ≡ map_where (λ r. r.admin_id == id) (soft_delete now) w.db.admin_roles)
deletion-ok env w now id operator h = (ground arith, ground arith)

pub guarded_target-ok :
    (env : Env) (w : World) (id : ℕ) (message : String)
    → (guarded_target id message env w).0 ≡ ok tt
    → ((guarded_target id message env w).1.db ≡ w.db)
      × ((a : RbacAdmin) × (head? (rows_of w.db id) ≡ some a)
          × ((env.cfg.bootstrap.super_admin_account ≡ "")
              ⊎ (a.account ≢ env.cfg.bootstrap.super_admin_account)))
unfolding guarded_target
guarded_target-ok env w id message h = elim (Option-cases (head? (rows_of w.db id))) [
  | inl none_there ↦ absurd (ground (arith, h, none_there))
  | inr (a, found) ↦ (
    ground arith,
    (
      a,
      found,
      elim (Bool-cases (env.cfg.bootstrap.super_admin_account == "")) [
        | inl unset ↦ inl (ground (arith, unset, eq_iff env.cfg.bootstrap.super_admin_account ""))
        | inr set_there ↦ inr (λ same. ground (
          arith,
          h,
          found,
          set_there,
          same,
          eq_iff a.account env.cfg.bootstrap.super_admin_account,
        ))
      ],
    ),
  )
]

-- Where `DeleteAdmin` succeeds, the caller is not the administrator that is deleted, there was a row
-- of the administrator that is not the built-in super administrator's, and afterwards there is no
-- row of the administrator that is not deleted, and no such binding of the administrator to a role.
pub delete_admin_removes :
    (env : Env) (w : World) (id operator : ℕ)
    → (delete_admin id operator env w).0 ≡ ok tt
    → let w' = (delete_admin id operator env w).1 in
      (id ≢ operator)
      × ((a : RbacAdmin) × (head? (rows_of w.db id) ≡ some a)
          × ((env.cfg.bootstrap.super_admin_account ≡ "")
              ⊎ (a.account ≢ env.cfg.bootstrap.super_admin_account)))
      × (rows_of w'.db id ≡ [])
      × (bindings_of w'.db id ≡ [])
unfolding delete_admin
delete_admin_removes env w id operator h =
    let message : String = "内置超级管理员不可删除" in
    let (r, w1) = guarded_target id message env w in
    let nz : (id == 0) ≡ false = ground (arith, h) in
    let other : (id == operator) ≡ false = ground (arith, h, nz) in
    elim (Outcome-cases r) [
      | inr (x, e) ↦ absurd (ground (arith, h, nz, other, e))
      | inl (_, e) ↦
          let (same, target) = guarded_target-ok env w id message e in
          let run : delete_admin id operator env w
              ≡ transaction (deletion w1.now id operator) env w1 =
            ground (arith, nz, other, e) in
          let (done, db) =
            transaction-ok (deletion w1.now id operator) env w1 tt (ap (λ o. o.0) (sym run) ∙ h) in
          let (gone, unbound) = deletion-ok env (tick w1) w1.now id operator done in
          let db' = ap (λ o. o.1.db) run ∙ db in
          (
            λ self. ground (arith, other, self),
            target,
            ap (λ d. rows_of d id) db'
                ∙ ap (filter (λ (a : RbacAdmin). a.id == id && not_del a)) gone
                ∙ admins_gone w1.now operator id w1.db.admins,
            ap (λ d. bindings_of d id) db'
                ∙ ap (filter (λ (r : RbacAdminRole). r.admin_id == id && not_del r)) unbound
                ∙ bindings_gone w1.now id w1.db.admin_roles,
          )
    ]
