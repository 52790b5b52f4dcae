-- ===== src/Service/Admins.antt =====
-- The operations of RBACService (internal/service/rbac_service.go) that write rows of administrators:
-- each keeps the account behind an id.
use clip_sync_admin.Prelude.{
  ℕ, String, ◌≡◌, ◌≢◌, ◌∙◌, refl, Option, some, none, List, arith, inl, inr, ◌==◌, nat_eq,
  string_eq, ◌&&◌, ◌||◌, ltb,
}
use clip_sync_admin.Reply.{
  ok, biz, message_of, code_param_error, code_account_exists, code_internal_error,
}
use clip_sync_admin.Model.{RbacAdmin}
use clip_sync_admin.World.{
  Env, World, pure, asks, fail_if, count, ◌>>=◌, ◌>>◌, create, update, db_error, admins,
  admin_roles, admin_base, admin_role_base, not_del, soft_delete, soft_delete_by, created_by,
}
use clip_sync_admin.World.Inversion.{Outcome-cases}
use clip_sync_admin.Auth.{hash_password}
use clip_sync_admin.Session.{wrap_error}
use clip_sync_admin.Rbac.Admins.{
  create_admin, insert_admin, update_admin, replace_roles, reset_admin_password, delete_admin,
  guarded_target, update_admin_status,
}
use clip_sync_admin.Rbac.Admins.Deletion.{guarded_target-ok}
use clip_sync_admin.Rbac.Bindings.{bind_roles}
use clip_sync_admin.Service.Frame.{SparesAdmins, bind_roles-SparesAdmins}
use clip_sync_admin.Service.Accounts.{
  account_at-map_where, account_at-soft_delete_by, account_at-head?, Holds, Keeps,
  Keeps-SparesAdmins, >>=-Keeps, transaction-Keeps, update-Keeps, create-Keeps,
}

guarded_target-SparesAdmins : (id : ℕ) (message : String) → SparesAdmins (guarded_target id message)
unfolding guarded_target
guarded_target-SparesAdmins id message env w = ground arith

module _ (env : Env) (id : ℕ) (s : String) where
  pub reset_admin_password-Keeps :
      (admin_id : ℕ) (plain : String) (operator : ℕ)
      → Keeps env id s (reset_admin_password admin_id plain operator)
  unfolding reset_admin_password hash_password
  reset_admin_password-Keeps admin_id plain operator w h =
      elim (Outcome-cases (hash_password plain env.cfg.security.bcrypt_cost env w).0) [
        | inr (x, e) ↦ ground (arith, h, e)
        | inl (hash, e) ↦ ground (
          arith,
          h,
          e,
          account_at-map_where (λ a. a.id == admin_id && not_del a)
              (λ a. record a {
                password = hash;
                base = record a.base { u_by = operator; updated_at = w.now };
              })
              w.db.admins id (λ x. refl) (λ x. refl) (λ x. refl),
        )
      ]

  replace_roles-Keeps :
      (admin_id operator : ℕ) (ids : Option (List ℕ))
      → Keeps env id s (replace_roles admin_id operator ids)
  unfolding replace_roles
  replace_roles-Keeps admin_id operator none w h = h
  replace_roles-Keeps admin_id operator (some ids) w h =
      >>=-Keeps env id s
        (update admin_roles db_error (λ r. r.admin_id == admin_id) (soft_delete w.now))
        (λ _. bind_roles admin_id operator ids) (λ w h. ground (arith, h))
        (λ _.
          Keeps-SparesAdmins env id s (bind_roles admin_id operator ids)
            (bind_roles-SparesAdmins admin_id operator ids))
        w h

  pub update_admin-Keeps :
      (admin_id : ℕ) (a : RbacAdmin) (ids : Option (List ℕ)) (operator : ℕ)
      → Keeps env id s (update_admin admin_id a ids operator)
  unfolding update_admin
  update_admin-Keeps admin_id a ids operator w h =
      let edit =
        update admins db_error (λ x. x.id == admin_id && not_del x)
          (λ x. record x {
            name = a.name;
            avatar = a.avatar;
            is_lock = a.is_lock;
            base = record x.base {
              status = a.status;
              remark = a.remark;
              u_by = operator;
              updated_at = w.now;
            };
          }) in
      let body = edit >> replace_roles admin_id operator ids in
      let kept = transaction-Keeps env id s body (
        >>=-Keeps env id s edit (λ _. replace_roles admin_id operator ids)
          (update-Keeps env id s _ _ (λ x. refl) (λ x. refl) (λ x. refl))
          (λ _. replace_roles-Keeps admin_id operator ids)) in
      ground (arith, h, kept w h)

  insert_admin-Keeps :
      (a : RbacAdmin) (hash : String) (ids : List ℕ) (operator : ℕ)
      → Keeps env id s (insert_admin a hash ids operator)
  unfolding insert_admin
  insert_admin-Keeps a hash ids operator w h =
      let row = created_by w.now operator (record a { password = hash }) in
      let rest = λ (new : RbacAdmin). bind_roles new.id operator ids >> pure new in
      transaction-Keeps env id s (create admins db_error row >>= rest)
        (>>=-Keeps env id s (create admins db_error row) rest (create-Keeps env id s row) (λ new.
          >>=-Keeps env id s (bind_roles new.id operator ids) (λ _. pure new)
            (Keeps-SparesAdmins env id s (bind_roles new.id operator ids)
              (bind_roles-SparesAdmins new.id operator ids))
            (λ _ w h. h)))
        w h

  pub create_admin-Keeps :
      (a : RbacAdmin) (plain : String) (ids : List ℕ) (operator : ℕ)
      → Keeps env id s (create_admin a plain ids operator)
  unfolding create_admin hash_password
  create_admin-Keeps a plain ids operator =
      let insert = λ (hash : String). insert_admin a hash ids operator in
      let hashed = λ (cost : ℕ). wrap_error code_internal_error (hash_password plain cost) in
      let costed = asks (λ env. env.cfg.security.bcrypt_cost) in
      let counted = count admins db_error (λ x. not_del x && x.account == a.account) in
      let free = λ (cnt : ℕ).
        fail_if (ltb 0 cnt) (biz code_account_exists (message_of code_account_exists)) in
      let given = fail_if (a.account == "" || plain == "") (biz code_param_error "账号或密码不能为空") in
      let from_cost = λ (cost : ℕ). hashed cost >>= insert in
      let from_count = λ (cnt : ℕ). free cnt >> (costed >>= from_cost) in
      >>=-Keeps env id s given (λ _. counted >>= from_count) (λ w h. h)
        (λ _.
          >>=-Keeps env id s counted from_count (λ w h. ground (arith, h))
            (λ cnt.
              >>=-Keeps env id s (free cnt) (λ _. costed >>= from_cost) (λ w h. h)
                (λ _.
                  >>=-Keeps env id s costed from_cost (λ w h. h)
                    (λ cost.
                      >>=-Keeps env id s (hashed cost) insert (λ w h. h)
                        (λ hash. insert_admin-Keeps a hash ids operator)))))

  -- A successful look-up of the guarded row is not of the account.
  guarded_target-ne :
      (target : ℕ) (message : String) (w : World)
      → s ≡ env.cfg.bootstrap.super_admin_account
      → s ≢ ""
      → Holds env id s w
      → (guarded_target target message env w).0 ≡ ok tt
      → target ≢ id
  guarded_target-ne target message w built_in named holds h =
      let (same, (a, found, other)) = guarded_target-ok env w target message h in
      λ e. elim other [
        | inl unset ↦ named (built_in ∙ unset)
        | inr ne ↦
            let here = account_at-head? w.db.admins target a found in
            ne (ground (arith, here, e, holds) ∙ built_in)
      ]

  pub delete_admin-Keeps :
      (target operator : ℕ)
      → s ≡ env.cfg.bootstrap.super_admin_account
      → s ≢ ""
      → Keeps env id s (delete_admin target operator)
  unfolding delete_admin
  delete_admin-Keeps target operator built_in named w h =
      let message : String = "内置超级管理员不可删除" in
      let w1 = (guarded_target target message env w).1 in
      let spared = guarded_target-SparesAdmins target message env w in
      let h1 =
        Keeps-SparesAdmins env id s (guarded_target target message)
          (guarded_target-SparesAdmins target message) w h in
      elim (Outcome-cases (guarded_target target message env w).0) [
        | inr (x, e) ↦ ground (arith, h, e, h1)
        | inl (_, e) ↦
            let ne = guarded_target-ne target message w built_in named h e in
            let body =
              update admins db_error (λ a. a.id == target) (soft_delete_by w1.now operator)
              >> (update admin_roles db_error (λ r. r.admin_id == target) (soft_delete w1.now)
                  >> pure tt) in
            let kept =
              transaction-Keeps env id s body
                (λ u k.
                  ground
                    (arith, k, account_at-soft_delete_by w1.now operator target id u.db.admins ne))
                w1 h1 in
            ground (arith, h, e, kept)
      ]

  pub update_admin_status-Keeps :
      (target status operator : ℕ) → Keeps env id s (update_admin_status target status operator)
  unfolding update_admin_status
  update_admin_status-Keeps target status operator w h =
      let w1 = (guarded_target target "内置超级管理员状态不可变更" env w).1 in
      ground (
        arith,
        h,
        guarded_target-SparesAdmins target "内置超级管理员状态不可变更" env w,
        account_at-map_where (λ a. a.id == target)
            (λ a. record a {
              base = record a.base { status = status; u_by = operator; updated_at = w1.now };
            })
            w1.db.admins id (λ x. refl) (λ x. refl) (λ x. refl),
      )
