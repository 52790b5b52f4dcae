-- ===== src/Rbac/Admins/Protection.antt =====
-- The protection of the built-in super administrator (internal/service/rbac_service.go).
use clip_sync_admin.Prelude.{
  ℕ, ◌+◌, String, ◌≡◌, ◌≢◌, inl, inr, refl, sym, ap, ◌∙◌, ◌⊎◌, Option, some, none, List, [], ◌∷◌,
  head?, filter, map_where, arith, eq_iff, ◌&&◌, ◌==◌, nat_eq, string_eq, Bool-cases,
}
use clip_sync_admin.Reply.{Error, ok, err, Outcome}
use clip_sync_admin.Model.{RbacAdmin, Db}
use clip_sync_admin.World.{
  Env, World, M, tick, ◌>>◌, update, transaction, db_error, admins, admin_roles, admin_base,
  admin_role_base, not_del, soft_delete,
}
use clip_sync_admin.World.Inversion.{Outcome-cases, >>=-ok, transaction-ok, transaction-err}
use clip_sync_admin.Rbac.Bindings.{bind_roles}
use clip_sync_admin.Seed.Menus.Stays.{>>=-Stays}
use clip_sync_admin.World.Laws.{NoFault}
use clip_sync_admin.Service.Frame.{SparesAdmins, bind_roles-SparesAdmins}
use clip_sync_admin.Rbac.Admins.{
  update_admin, replace_roles, guarded_target, delete_admin, update_admin_status,
}

-- The row that is looked up by an id.
abbrev target_in : List RbacAdmin → ℕ → Option RbacAdmin
target_in rows id = head? (filter (λ a. a.id == id && not_del a) rows)

abbrev pub target_of : Db → ℕ → Option RbacAdmin
target_of db id = target_in db.admins id

guarded_target-protects :
    (env : Env) (w : World) (id : ℕ) (a : RbacAdmin) (message : String)
    → target_of w.db id ≡ some a
    → a.account ≡ env.cfg.bootstrap.super_admin_account
    → a.account ≢ ""
    → ((guarded_target id message env w).0 ≢ ok tt)
      × ((guarded_target id message env w).1.db ≡ w.db)
unfolding guarded_target
guarded_target-protects env w id a message found built_in named =
    let same = eq_iff a.account env.cfg.bootstrap.super_admin_account in
    let ne = eq_iff env.cfg.bootstrap.super_admin_account "" in
    (λ h. ground (arith, h, found, built_in, named, same, ne), ground (arith, found))

refused_as : (r : Outcome (Unit {0})) → r ≢ ok tt → (x : Error) × (r ≡ err x)
refused_as (ok tt) ne = absurd (ne refl)
refused_as (err x) ne = (x, refl)

-- Neither `DeleteAdmin` nor `UpdateAdminStatus` succeeds on the row of the built-in super
-- administrator, whoever calls it, and neither changes the database then.
pub builtin_admin_protected :
    (env : Env) (w : World) (id operator status : ℕ) (a : RbacAdmin)
    → target_of w.db id ≡ some a
    → a.account ≡ env.cfg.bootstrap.super_admin_account
    → a.account ≢ ""
    → ((delete_admin id operator env w).0 ≢ ok tt)
      × ((delete_admin id operator env w).1.db ≡ w.db)
      × ((update_admin_status id status operator env w).0 ≢ ok tt)
      × ((update_admin_status id status operator env w).1.db ≡ w.db)
unfolding delete_admin update_admin_status
builtin_admin_protected env w id operator status a found built_in named =
    let (refuses, same) = guarded_target-protects env w id a "内置超级管理员不可删除" found built_in named in
    let (refuses', same') =
      guarded_target-protects env w id a "内置超级管理员状态不可变更" found built_in named in
    let (x, e) = refused_as (guarded_target id "内置超级管理员不可删除" env w).0 refuses in
    let (x', e') = refused_as (guarded_target id "内置超级管理员状态不可变更" env w).0 refuses' in
    (
      λ h. ground (arith, h, e),
      ground (arith, e, same),
      λ h. ground (arith, h, e'),
      ground (arith, e', same'),
    )

-- The row that `UpdateAdmin` leaves.
abbrev edited : ℕ → ℕ → RbacAdmin → RbacAdmin → RbacAdmin
edited now operator in_row a = record a {
  name = in_row.name;
  avatar = in_row.avatar;
  is_lock = in_row.is_lock;
  base = record a.base {
    status = in_row.status;
    remark = in_row.remark;
    u_by = operator;
    updated_at = now;
  };
}

-- An update that keeps the id and the deletion mark of a row keeps its place in a search.
head-map_where :
    (id : ℕ) (f : RbacAdmin → RbacAdmin)
    → ((x : RbacAdmin) → (f x).id ≡ x.id)
    → ((x : RbacAdmin) → (f x).is_del ≡ x.is_del)
    → (rows : List RbacAdmin) (a : RbacAdmin) → target_in rows id ≡ some a
    → target_in (map_where (λ x. x.id == id && not_del x) f rows) id ≡ some (f a)
head-map_where id f same kept [] a h = absurd (ground arith)
head-map_where id f same kept (x ∷ rows) a h = elim (Bool-cases (x.id == id && not_del x)) [
  | inl hit ↦ ground (arith, h, hit, same x, kept x)
  | inr miss ↦
      ground (arith, h, miss, head-map_where id f same kept rows a (ground (arith, h, miss)))
]

replace_roles-SparesAdmins :
    (id operator : ℕ) (role_ids : Option (List ℕ))
    → SparesAdmins (replace_roles id operator role_ids)
unfolding replace_roles
replace_roles-SparesAdmins id operator none env w = refl
replace_roles-SparesAdmins id operator (some ids) env w =
    >>=-Stays (λ db. db.admins ≡ w.db.admins)
      (update admin_roles db_error (λ r. r.admin_id == id) (soft_delete w.now))
      (λ _. bind_roles id operator ids) (λ e v h. ground (arith, h))
      (λ _ e v h. bind_roles-SparesAdmins id operator ids e v ∙ h) env w refl

module _ (env : Env) (w : World) (id operator : ℕ) (in_row : RbacAdmin) (role_ids : Option (List ℕ))
    (real : id ≢ 0) where
  -- The statement on the administrator's row, and the whole body of the transaction.
  abbrev edit : M ℕ
  edit =
      update admins db_error (λ a. a.id == id && not_del a)
        (λ a. record a {
          name = in_row.name;
          avatar = in_row.avatar;
          is_lock = in_row.is_lock;
          base = record a.base {
            status = in_row.status;
            remark = in_row.remark;
            u_by = operator;
            updated_at = w.now;
          };
        })

  update_admin-runs :
      update_admin id in_row role_ids operator env w
      ≡ transaction (edit >> replace_roles id operator role_ids) env w
  unfolding update_admin
  update_admin-runs = ground (arith, real)

  -- What a successful `UpdateAdmin` leaves of the rows of administrators, with any roles.
  update_admin-rows :
      (update_admin id in_row role_ids operator env w).0 ≡ ok tt
      → (update_admin id in_row role_ids operator env w).1.db.admins
        ≡ map_where (λ a. a.id == id && not_del a) (edited w.now operator in_row) w.db.admins
  update_admin-rows h =
      let rest = replace_roles id operator role_ids in
      let (done, same) =
        transaction-ok (edit >> rest) env w tt (ap (λ o. o.0) (sym update_admin-runs) ∙ h) in
      let (n, e, whole) = >>=-ok edit (λ _. rest) env (tick w) done in
      let rows : (edit env (tick w)).1.db.admins
          ≡ map_where (λ a. a.id == id && not_del a) (edited w.now operator in_row) w.db.admins =
        ground (arith, e) in
      ap (λ o. o.1.db.admins) update_admin-runs
      ∙ ap (λ (db : Db). db.admins) same
      ∙ ap (λ o. o.1.db.admins) whole
      ∙ replace_roles-SparesAdmins id operator role_ids env (edit env (tick w)).1
      ∙ rows

  update_admin-rollback :
      (x : Error)
      → (update_admin id in_row role_ids operator env w).0 ≡ err x
      → (update_admin id in_row role_ids operator env w).1.db ≡ w.db
  update_admin-rollback x h =
      ap (λ o. o.1.db) update_admin-runs
      ∙ transaction-err (edit >> replace_roles id operator role_ids) env w x
          (ap (λ o. o.0) (sym update_admin-runs) ∙ h)

update_admin-plain :
    (env : Env) (w : World) (id operator : ℕ) (in_row : RbacAdmin)
    → NoFault env
    → id ≢ 0
    → (update_admin id in_row none operator env w).0 ≡ ok tt
unfolding update_admin replace_roles
update_admin-plain env w id operator in_row up real =
    ground (arith, up w.calls, up (w.calls + 1), up (w.calls + 1 + 1), real)

-- What `UpdateAdmin` has done to a row: the status and the lock are those of the input, the account
-- and the password are kept, and the row is found by its id as before.
pub record IsEdited (new : Db) (id : ℕ) (a in_row : RbacAdmin) : Type 0 where
  pub row : RbacAdmin
  pub found : target_of new id ≡ some row
  pub account_kept : row.account ≡ a.account
  pub password_kept : row.password ≡ a.password
  pub status_set : row.status ≡ in_row.status
  pub lock_set : row.is_lock ≡ in_row.is_lock

-- `UpdateAdmin` has no such protection. With every call answered, for an id that is not 0 and for any
-- administrator, the built-in super administrator included, and for any roles in the request: either
-- it succeeds, and the row has the status and the lock of the input, with its account and password
-- kept; or the request brings roles, an error is answered, and the database stays as it was.
pub update_admin_unprotected :
    (env : Env) (w : World) (id operator : ℕ) (a in_row : RbacAdmin) (role_ids : Option (List ℕ))
    → NoFault env
    → id ≢ 0
    → target_of w.db id ≡ some a
    → let (r, w') = update_admin id in_row role_ids operator env w in
      ((r ≡ ok tt) × IsEdited w'.db id a in_row)
      ⊎ ((role_ids ≢ none) × (r ≢ ok tt) × (w'.db ≡ w.db))
update_admin_unprotected env w id operator a in_row role_ids up real found =
    let f = edited w.now operator in_row in
    let found' = head-map_where id f (λ x. refl) (λ x. refl) w.db.admins a found in
    elim (Outcome-cases (update_admin id in_row role_ids operator env w).0) [
      | inl (_, e) ↦ inl (
        e,
        record {
          row = f a;
          found =
              ap (λ rows. target_in rows id)
                (update_admin-rows env w id operator in_row role_ids real e)
              ∙ found';
          account_kept = refl;
          password_kept = refl;
          status_set = refl;
          lock_set = refl;
        },
      )
      | inr (x, e) ↦ inr (
        λ same.
            let plain = update_admin-plain env w id operator in_row up real in
            let clash =
              sym plain
              ∙ ap (λ ids. (update_admin id in_row ids operator env w).0) (sym same)
              ∙ e in
            ground (arith, clash),
        λ good. let clash = sym good ∙ e in ground (arith, clash),
        update_admin-rollback env w id operator in_row role_ids real x e,
      )
    ]
