-- ===== src/Start/Ready.antt =====
-- A start of the program (main.go) that comes to serve requests: what it has made sure of.
use clip_sync_admin.Prelude.{
  ℕ, String, ◌≡◌, ◌∙◌, refl, sym, ap, contains, inl, inr, arith, string_eq,
}
use mathlib.Core.Path.{subst}
use clip_sync_admin.Reply.{Outcome, ok, err}
use clip_sync_admin.Model.{Db}
use clip_sync_admin.Config.{Config}
use clip_sync_admin.World.{Env, World, M, ◌>>◌}
use clip_sync_admin.World.Inversion.{Outcome-cases, >>=-ok}
use clip_sync_admin.Seed.{seed_super_admin, account_of}
use clip_sync_admin.Seed.Super.{IsSeeded, seed_super_admin-IsSeeded}
use clip_sync_admin.Seed.Tree.{PermSeed, MenuFields, MenuSeeds, collect_codes, rbac_menu_tree}
use clip_sync_admin.Seed.Menus.{
  upsert_row, upsert_perm_and_bind, upsert_menus, clean_menus, seed_tree, seed_menus_and_perms,
}
use clip_sync_admin.Seed.Menus.Stays.{Stays, upsert_menus-Stays, >>=-Stays}
use clip_sync_admin.Seed.Menus.Codes.{has_menu, seed_tree-menus}
use clip_sync_admin.Start.{
  Drivers, Startup, fatal, serving, at_stage, after_seeding, after_prepare, prepare,
  migrate_and_seed, start,
}
use clip_sync_admin.Start.Connected.{IsConnected, prepare-IsConnected}

-- The rows of the super administrator stand as in another database.
abbrev KeepsSuper : Db → Db → Type 0
KeepsSuper old db =
    (db.roles ≡ old.roles) × (db.admins ≡ old.admins) × (db.admin_roles ≡ old.admin_roles)

upsert_row-KeepsSuper :
    (old : Db) (parent_id : ℕ) (f : MenuFields) → Stays (KeepsSuper old) (upsert_row parent_id f)
unfolding upsert_row
upsert_row-KeepsSuper old parent_id f env w h = ground (arith, h)

upsert_perm_and_bind-KeepsSuper :
    (old : Db) (menu_id : ℕ) (s : PermSeed)
    → Stays (KeepsSuper old) (upsert_perm_and_bind menu_id s)
unfolding upsert_perm_and_bind
upsert_perm_and_bind-KeepsSuper old menu_id s env w h = ground (arith, h)

seed_tree-KeepsSuper : (old : Db) (tree : MenuSeeds) → Stays (KeepsSuper old) (seed_tree tree)
unfolding seed_tree clean_menus
seed_tree-KeepsSuper old tree =
    >>=-Stays (KeepsSuper old) (upsert_menus 0 tree) (λ _. clean_menus (collect_codes tree))
      (upsert_menus-Stays (KeepsSuper old) (upsert_row-KeepsSuper old)
        (upsert_perm_and_bind-KeepsSuper old) 0 tree)
      (λ _ env w h. ground (arith, h))

IsSeeded-kept :
    (account : String) (old db : Db)
    → KeepsSuper old db
    → IsSeeded account old
    → IsSeeded account db
IsSeeded-kept account old db (same_roles, same_admins, same_bindings) s = record {
  role = s.role;
  admin = s.admin;
  role_found = rw same_roles s.role_found;
  admin_found = rw same_admins s.admin_found;
  bound = rw same_bindings s.bound;
}

at_stage-ok :
    (stage : String) (m : M (Unit {0})) (env : Env) (w : World)
    → (at_stage stage m env w).0 ≡ ok tt
    → ((m env w).0 ≡ ok tt) × ((at_stage stage m env w).1 ≡ (m env w).1)
at_stage-ok stage m env w h = elim (Outcome-cases (m env w).0) [
  | inl (_, e) ↦ (e, refl)
  | inr (x, e) ↦ absurd (ground (arith, h, e))
]

-- What the steps on the database have left, where they have all succeeded.
migrate_and_seed-ok :
    (d : Drivers) (cfg : Config) (env : Env) (w : World) (code : String)
    → (migrate_and_seed d cfg env w).0 ≡ ok tt
    → let db = (migrate_and_seed d cfg env w).1.db in
      IsSeeded (account_of cfg.bootstrap) db
      × (has_menu db code ≡ contains code (collect_codes rbac_menu_tree))
unfolding migrate_and_seed seed_menus_and_perms
migrate_and_seed-ok d cfg env w code h =
    let migrate = at_stage "auto migrate rbac tables" d.auto_migrate in
    let seed = seed_super_admin cfg.bootstrap cfg.security.bcrypt_cost in
    let seeding = at_stage "seed super admin" seed in
    let menus = at_stage "seed menus & perms" (seed_tree rbac_menu_tree) in
    let (_, _, whole1) = >>=-ok migrate (λ _. seeding >> menus) env w h in
    let w1 = (migrate env w).1 in
    let h1 = ap (λ o. o.0) (sym whole1) ∙ h in
    let (_, seeded, whole2) = >>=-ok seeding (λ _. menus) env w1 h1 in
    let w2 = (seeding env w1).1 in
    let h2 = ap (λ o. o.0) (sym whole2) ∙ h1 in
    let (made, same) = at_stage-ok "seed super admin" seed env w1 seeded in
    let (stored, same') = at_stage-ok "seed menus & perms" (seed_tree rbac_menu_tree) env w2 h2 in
    let super = seed_super_admin-IsSeeded env w1 cfg.bootstrap cfg.security.bcrypt_cost made in
    let super2 : IsSeeded (account_of cfg.bootstrap) w2.db =
      subst (λ (v : World). IsSeeded (account_of cfg.bootstrap) v.db) (sym same) super in
    let kept = seed_tree-KeepsSuper w2.db rbac_menu_tree env w2 (refl, refl, refl) in
    let last = (seed_tree rbac_menu_tree env w2).1 in
    let whole : (migrate_and_seed d cfg env w).1 ≡ last = ap (λ o. o.1) (whole1 ∙ whole2) ∙ same' in
    subst
      (λ (v : World).
        IsSeeded (account_of cfg.bootstrap) v.db
        × (has_menu v.db code ≡ contains code (collect_codes rbac_menu_tree)))
      (sym whole)
      (
        IsSeeded-kept (account_of cfg.bootstrap) w2.db last.db kept super2,
        seed_tree-menus env w2 rbac_menu_tree code stored,
      )

abbrev config_in : Config → Startup → Config
config_in c (fatal _) = c
config_in c (serving cfg) = cfg

after_seeding-ok :
    (cfg : Config) (out : Outcome (Unit {0}) × World)
    → out.0 ≡ ok tt
    → ((after_seeding cfg out).0 ≡ serving cfg) × ((after_seeding cfg out).1 ≡ out.1)
after_seeding-ok cfg (ok _, w) h = (refl, refl)
after_seeding-ok cfg (err e, w) h = absurd (ground (arith, h))

after_prepare-serving :
    (d : Drivers) (r : Outcome Config) (w : World) (cfg : Config)
    → (after_prepare d r w).0 ≡ serving cfg
    → (r ≡ ok cfg)
      × ((migrate_and_seed d cfg (d.connected cfg) w).0 ≡ ok tt)
      × ((after_prepare d r w).1 ≡ (migrate_and_seed d cfg (d.connected cfg) w).1)
after_prepare-serving d (err e) w cfg h = absurd (ground (arith, h))
after_prepare-serving d (ok c) w cfg h =
    elim (Outcome-cases (migrate_and_seed d c (d.connected c) w).0) [
      | inr (x, e) ↦ absurd (ground (arith, h, e))
      | inl (_, e) ↦
          let (served, left) = after_seeding-ok c (migrate_and_seed d c (d.connected c) w) e in
          let same : c ≡ cfg = ap (config_in c) (sym served ∙ h) in
          subst
            (λ (k : Config).
              (ok c ≡ ok k)
              × ((migrate_and_seed d k (d.connected k) w).0 ≡ ok tt)
              × ((after_prepare d (ok c) w).1 ≡ (migrate_and_seed d k (d.connected k) w).1))
            same (refl, e, left)
    ]

-- The program serves only where its configuration was read from its file, the logger was built, and
-- MySQL and Redis answered with the settings of this configuration; then the super administrator's rows
-- are there, and a code has a menu that is not deleted exactly where the tree of seed_rbac.go has the
-- code, whatever the database held before.
pub start_ready :
    (d : Drivers) (path : String) (w : World) (cfg : Config) (code : String)
    → (start d path w).0 ≡ serving cfg
    → let db = (start d path w).1.db in
      IsConnected d path cfg
      × IsSeeded (account_of cfg.bootstrap) db
      × (has_menu db code ≡ contains code (collect_codes rbac_menu_tree))
unfolding start
start_ready d path w cfg code h =
    let (prepared, done, same) = after_prepare-serving d (prepare d path) w cfg h in
    let (super, menus) = migrate_and_seed-ok d cfg (d.connected cfg) w code done in
    rw same (prepare-IsConnected d path cfg prepared, super, menus)
