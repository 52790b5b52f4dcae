-- ===== src/Service/Accounts.antt =====
-- The account behind an administrator's id, under the statements on the rows of administrators.
use clip_sync_admin.Prelude.{
  ℕ, String, ◌≡◌, ◌≢◌, ◌∙◌, refl, ap, Bool, Option, some, none, List, [], ◌∷◌, ◌++◌, head?, filter,
  map_where, arith, Option-cases, inl, inr, ◌==◌, nat_eq, string_eq, ◌&&◌, if◌then◌else◌,
}
use clip_sync_admin.Model.{RbacAdmin}
use clip_sync_admin.World.{
  Env, World, M, tick, ◌>>=◌, create, assigned, update, transaction, db_error, admins, admin_base,
  not_del, soft_delete_by,
}
use clip_sync_admin.World.Inversion.{Outcome-cases}
use clip_sync_admin.Service.Frame.{SparesAdmins}

-- The account of the row that the services find for an id.
abbrev pub account_at : List RbacAdmin → ℕ → Option String
account_at [] id = none
account_at (a ∷ rows) id = if a.id == id && not_del a then some a.account else account_at rows id

-- A change of rows that keeps ids, accounts and marks of deletion.
pub account_at-map_where :
    (p : RbacAdmin → Bool) (f : RbacAdmin → RbacAdmin) (rows : List RbacAdmin) (id : ℕ)
    → ((a : RbacAdmin) → (f a).id ≡ a.id)
    → ((a : RbacAdmin) → (f a).account ≡ a.account)
    → ((a : RbacAdmin) → (f a).is_del ≡ a.is_del)
    → account_at (map_where p f rows) id ≡ account_at rows id
account_at-map_where p f [] id same kept marked = refl
account_at-map_where p f (a ∷ rows) id same kept marked =
    ground (arith, same a, kept a, marked a, account_at-map_where p f rows id same kept marked)

account_at_snoc :
    (rows : List RbacAdmin) (new : RbacAdmin) (id : ℕ) (s : String)
    → account_at rows id ≡ some s
    → account_at (rows ++ new ∷ []) id ≡ some s
account_at_snoc [] new id s h = absurd (ground arith)
account_at_snoc (a ∷ rows) new id s h = ground (arith, h, account_at_snoc rows new id s)

pub account_at-soft_delete_by :
    (now operator gone id : ℕ) (rows : List RbacAdmin)
    → gone ≢ id
    → account_at (map_where (λ a. a.id == gone) (soft_delete_by now operator) rows) id
      ≡ account_at rows id
account_at-soft_delete_by now operator gone id [] ne = refl
account_at-soft_delete_by now operator gone id (a ∷ rows) ne =
    ground (arith, account_at-soft_delete_by now operator gone id rows ne)

pub account_at-head? :
    (rows : List RbacAdmin) (id : ℕ) (a : RbacAdmin)
    → head? (filter (λ a. a.id == id && not_del a) rows) ≡ some a
    → account_at rows id ≡ some a.account
account_at-head? [] id a h = absurd (ground arith)
account_at-head? (x ∷ rows) id a h = ground (arith, h, account_at-head? rows id a)

module _ (env : Env) (id : ℕ) (s : String) where
  -- The id stands for the account, in a row that is not deleted.
  abbrev pub Holds : World → Type 0
  Holds w = account_at w.db.admins id ≡ some s

  abbrev pub Keeps : {A : Type 0} → M A → Type 0
  Keeps m = (w : World) → Holds w → Holds (m env w).1

  pub Keeps-SparesAdmins : {A : Type 0} (m : M A) → SparesAdmins m → Keeps m
  Keeps-SparesAdmins m spares w h = ap (λ rows. account_at rows id) (spares env w) ∙ h

  pub >>=-Keeps :
      {A B : Type 0} (m : M A) (f : A → M B) → Keeps m → ((a : A) → Keeps (f a)) → Keeps (m >>= f)
  >>=-Keeps m f hm hf w h = elim (Outcome-cases (m env w).0) [
    | inl (a, e) ↦ rw (e, ◌>>=◌) (hf a (m env w).1 (hm w h))
    | inr (x, e) ↦ rw (e, ◌>>=◌) (hm w h)
  ]

  pub transaction-Keeps : {A : Type 0} (m : M A) → Keeps m → Keeps (transaction m)
  transaction-Keeps m k w h = elim (Option-cases (env.fault w.calls)) [
    | inr (x, down) ↦ ground (arith, down, h)
    | inl up ↦ elim (Outcome-cases (m env (tick w)).0) [
      | inr (x, failed) ↦ ground (arith, up, failed, h)
      | inl (a, done) ↦ ground (arith, up, done, h, k (tick w) h)
    ]
  ]

  pub update-Keeps :
      (p : RbacAdmin → Bool) (f : RbacAdmin → RbacAdmin)
      → ((a : RbacAdmin) → (f a).id ≡ a.id)
      → ((a : RbacAdmin) → (f a).account ≡ a.account)
      → ((a : RbacAdmin) → (f a).is_del ≡ a.is_del)
      → Keeps (update admins db_error p f)
  update-Keeps p f same kept marked w h =
      ground (arith, h, account_at-map_where p f w.db.admins id same kept marked)

  pub create-Keeps : (a : RbacAdmin) → Keeps (create admins db_error a)
  create-Keeps a w h =
      ground (arith, h, account_at_snoc w.db.admins (assigned admins a env w) id s h)
