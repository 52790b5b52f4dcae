-- ===== src/Start/Protected.antt =====
-- What a start (main.go) leaves to the operations of internal/service: the built-in super
-- administrator.
use mathlib.Core.List.{Memᴰ}
use mathlib.Core.List.Memᴰ
use mathlib.Core.Path.{subst}
use clip_sync_admin.Prelude.{
  ℕ, String, ◌≡◌, ◌≢◌, refl, true, ap, sym, ◌∙◌, some, List, [], ◌∷◌, Bool-cases, inl, inr, head?,
  filter, arith, eq_iff, ◌&&◌, ◌==◌, nat_eq, string_eq,
}
use clip_sync_admin.Prelude.Members.{mem-of_filter}
use clip_sync_admin.Model.{RbacAdmin}
use clip_sync_admin.Config.{Config, BootstrapConfig}
use clip_sync_admin.World.{World, admin_base, not_del}
use clip_sync_admin.Seed.{account_of, has_account}
use clip_sync_admin.Service.{Reach}
use clip_sync_admin.Service.Accounts.{account_at, Holds}
use clip_sync_admin.Service.Builtin.{Reach-Holds}
use clip_sync_admin.Start.{Drivers, serving, start}
use clip_sync_admin.Start.Ready.{start_ready}

-- Ids are a primary key.
abbrev pub KeyedById : List RbacAdmin → Type 0
KeyedById rows = (a b : RbacAdmin) → Memᴰ a rows → Memᴰ b rows → a.id ≡ b.id → a ≡ b

account_at-mem :
    (a : RbacAdmin) (rows : List RbacAdmin)
    → KeyedById rows
    → Memᴰ a rows
    → not_del a ≡ true
    → account_at rows a.id ≡ some a.account
account_at-mem a [] keyed m here = absurd (Memᴰ.not-nil m)
account_at-mem a (b ∷ rows) keyed m here = elim (Bool-cases (b.id == a.id && not_del b)) [
  | inl e ↦
      let same : b.account ≡ a.account =
        ap (λ (r : RbacAdmin). r.account) (keyed b a (Memᴰ.head refl) m (ground (arith, e))) in
      ground (arith, e, same)
  | inr e ↦ elim (Memᴰ.cases_cons m) [
    | inl same ↦
        let same_id = ap (λ (r : RbacAdmin). r.id) same in
        let kept : not_del b ≡ true = ap (λ (r : RbacAdmin). not_del r) (sym same) ∙ here in
        absurd (ground (arith, e, same_id, kept))
    | inr t ↦
        let later =
          account_at-mem a rows (λ x y mx my. keyed x y (Memᴰ.tail mx) (Memᴰ.tail my)) t here in
        ground (arith, e, later)
  ]
]

account_of-set :
    (c : BootstrapConfig) → c.super_admin_account ≢ "" → account_of c ≡ c.super_admin_account
account_of-set c named = ground (arith, named, eq_iff c.super_admin_account "")

has_account-parts :
    (s : String) (a : RbacAdmin) → has_account s a ≡ true → (a.account ≡ s) × (not_del a ≡ true)
has_account-parts s a h = (ground (arith, h, eq_iff a.account s), ground (arith, h))

head?-mem : (rows : List RbacAdmin) (a : RbacAdmin) → head? rows ≡ some a → Memᴰ a rows
head?-mem [] a h = cc
head?-mem (b ∷ rows) a h = Memᴰ.head (ground (arith, h))

-- Where the program comes to serve, the configuration names an account, the services find it, and ids
-- of administrators are a primary key, then an id stands for that account in a row that is not deleted,
-- in every world that any sequence of operations of AuthService and RBACService reaches, with failed
-- calls and with other steps between them that write no row of an administrator.
pub start-Holds :
    (d : Drivers) (path : String) (w w' : World) (cfg : Config)
    → (start d path w).0 ≡ serving cfg
    → cfg.bootstrap.super_admin_account ≢ ""
    → (d.connected cfg).cfg ≡ cfg
    → KeyedById (start d path w).1.db.admins
    → Reach (d.connected cfg) (start d path w).1 w'
    → (id : ℕ) × Holds (d.connected cfg) id cfg.bootstrap.super_admin_account w'
start-Holds d path w w' cfg h named same keyed steps =
    let (_, super, _) = start_ready d path w cfg "" h in
    let a = super.admin in
    let rows = (start d path w).1.db.admins in
    let found =
      head?-mem (filter (has_account (account_of cfg.bootstrap)) rows) a super.admin_found in
    let (listed, tested) = mem-of_filter (has_account (account_of cfg.bootstrap)) rows found in
    let (own, live) = has_account-parts (account_of cfg.bootstrap) a tested in
    let its = own ∙ account_of-set cfg.bootstrap named in
    let first = account_at-mem a rows keyed listed live ∙ ap some its in
    (
      a.id,
      subst (λ s. s ≢ "" → account_at rows a.id ≡ some s → account_at w'.db.admins a.id ≡ some s)
          (ap (λ (c : Config). c.bootstrap.super_admin_account) same)
          (λ n found. Reach-Holds (d.connected cfg) a.id (start d path w).1 w' n found steps) named
          first,
    )
