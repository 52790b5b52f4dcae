-- ===== src/Rbac/Admins/Creation.antt =====
-- The accounts that `CreateAdmin` accepts (internal/service/rbac_service.go).
use clip_sync_admin.Prelude.{
  ℕ, String, ◌≡◌, ◌≢◌, ◌∙◌, refl, sym, ap, inl, inr, Bool, false, List, [], ◌∷◌, ◌++◌, any, arith,
  ◌||◌, ◌==◌, nat_eq, string_eq, Bool-cases, eq_iff,
}
use clip_sync_admin.Reply.{Outcome, ok, err}
use clip_sync_admin.Model.{RbacAdmin, Db}
use clip_sync_admin.World.{
  Env, World, tick, create, assigned, pure, ◌>>=◌, ◌>>◌, db_error, admins, admin_base, created_by,
}
use clip_sync_admin.World.Inversion.{Outcome-cases, >>=-ok, transaction-ok}
use clip_sync_admin.Auth.{hash_password}
use clip_sync_admin.Rbac.Bindings.{bind_roles}
use clip_sync_admin.Rbac.Admins.{insert_admin, create_admin}

-- Whether a row, deleted or not, has an account.
abbrev pub taken : Db → String → Bool
taken db account = any (λ a. a.account == account) db.admins

untaken :
    (new : RbacAdmin) (account : String) (rows : List RbacAdmin)
    → new.account ≡ account
    → any (λ x. x.id == new.id || x.account == new.account) rows ≡ false
    → any (λ a. a.account == account) rows ≡ false
untaken new account [] e h = refl
untaken new account (x ∷ rows) e h =
    ground (arith, h, e, untaken new account rows e (ground (arith, h)))

create-fresh :
    (env : Env) (w : World) (r new : RbacAdmin)
    → (create admins db_error r env w).0 ≡ ok new
    → (taken w.db r.account ≡ false)
      × (new.account ≡ r.account)
      × (new.password ≡ r.password)
      × ((create admins db_error r env w).1.db.admins ≡ w.db.admins ++ new ∷ [])
create-fresh env w r new h =
    let n = assigned admins r env w in
    elim (Bool-cases (any (λ x. x.id == n.id || x.account == n.account) w.db.admins)) [
      | inl clash ↦ absurd (ground (arith, h, clash))
      | inr free ↦ (
        untaken n r.account w.db.admins (ground arith) free,
        ground arith,
        ground arith,
        ground arith,
      )
    ]

hash_password-Quiet :
    (plain : String) (cost : ℕ) (env : Env) (w : World)
    → (hash_password plain cost env w).1.db ≡ w.db
unfolding hash_password
hash_password-Quiet plain cost env w = refl

ok_injective : (none_there a b : RbacAdmin) → ok a ≡ ok b → a ≡ b
ok_injective none_there a b e =
    ap (λ (o : Outcome RbacAdmin). elim o [ ok x ↦ x | err _ ↦ none_there ]) e

insert_admin-ok :
    (env : Env) (w : World) (in_row new : RbacAdmin) (hash : String) (role_ids : List ℕ)
    (operator : ℕ)
    → (insert_admin in_row hash role_ids operator env w).0 ≡ ok new
    → (taken w.db in_row.account ≡ false) × (new.account ≡ in_row.account) × (new.password ≡ hash)
unfolding insert_admin
insert_admin-ok env w in_row new hash role_ids operator h =
    let row = created_by w.now operator (record in_row { password = hash }) in
    let bind = λ (made : RbacAdmin). bind_roles made.id operator role_ids >> pure made in
    let body = create admins db_error row >>= bind in
    let (done, db) = transaction-ok body env w new h in
    let (made, e, rest) = >>=-ok (create admins db_error row) bind env (tick w) done in
    let (free, account, kept, rows) = create-fresh env (tick w) row made e in
    let w1 = (create admins db_error row env (tick w)).1 in
    let (_, bound, last) =
      >>=-ok (bind_roles made.id operator role_ids) (λ _. pure made) env w1
        (ap (λ o. o.0) (sym rest) ∙ done) in
    let same = ap (λ o. o.0) (sym last) ∙ ap (λ o. o.0) (sym rest) ∙ done in
    let result = ok_injective new made new same in
    (
      free,
      ap (λ (a : RbacAdmin). a.account) (sym result) ∙ account,
      ap (λ (a : RbacAdmin). a.password) (sym result) ∙ kept,
    )

-- `CreateAdmin` succeeds only with an account and a password that are not empty, and only where no
-- row of the table has the account, a row that is deleted included: the account of a deleted
-- administrator is never free again.
pub create_admin-account :
    (env : Env) (w : World) (in_row new : RbacAdmin) (plain : String) (role_ids : List ℕ)
    (operator : ℕ)
    → (create_admin in_row plain role_ids operator env w).0 ≡ ok new
    → (in_row.account ≢ "")
      × (plain ≢ "")
      × (taken w.db in_row.account ≡ false)
      × (new.account ≡ in_row.account)
unfolding create_admin
create_admin-account env w in_row new plain role_ids operator h =
    let cost = env.cfg.security.bcrypt_cost in
    let hashed = hash_password plain cost env (tick w) in
    let quiet = hash_password-Quiet plain cost env (tick w) in
    let named = eq_iff in_row.account "" in
    let given = eq_iff plain "" in
    elim (Outcome-cases hashed.0) [
      | inr (x, e) ↦ absurd (ground (arith, h, e))
      | inl (hash, e) ↦
          let made : (insert_admin in_row hash role_ids operator env hashed.1).0 ≡ ok new =
            ground (arith, h, e) in
          let (free, account, kept) =
            insert_admin-ok env hashed.1 in_row new hash role_ids operator made in
          (
            ground (arith, h, named),
            ground (arith, h, given),
            ap (λ d. taken d in_row.account) (sym quiet) ∙ free,
            account,
          )
    ]
