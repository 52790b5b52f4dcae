-- ===== src/Seed/Menus/Intercept.antt =====
-- The permissions of internal/bootstrap/seed_rbac.go that are meant to be opened to all.
use clip_sync_admin.Prelude.{
  ℕ, ◌≡◌, ◌≢◌, ◌∙◌, refl, sym, ap, Option, some, none, List, head?, filter, arith,
  head?-filter_snoc, head?-filter-map_where, eq_iff, ◌==◌, nat_eq,
}
use clip_sync_admin.Reply.{raw, ok}
use clip_sync_admin.Model.{RbacPerm, Db}
use clip_sync_admin.World.{
  Env, World, ◌>>=◌, perms, perm_base, assigned, touch, first, tick, created_by,
}
use clip_sync_admin.World.Inversion.{>>=-ok, first-ok}
use clip_sync_admin.Rbac.Perms.{with_defaults}
use clip_sync_admin.Seed.Tree.{PermSeed}
use clip_sync_admin.Seed.Menus.{
  serves, new_perm, rewritten_perm, store_perm, upsert_perm, bind_perm, upsert_perm_and_bind,
}

-- The permission that a seed finds.
abbrev pub stored : PermSeed → Db → Option RbacPerm
stored s db = head? (filter (serves s) db.perms)

store_perm-new :
    (env : Env) (w : World) (s : PermSeed) (id : ℕ)
    → s.is_intercept ≡ 0
    → s.method ≢ 0
    → stored s w.db ≡ none
    → (store_perm s none env w).0 ≡ ok id
    → (p : RbacPerm) × (stored s (store_perm s none env w).1.db ≡ some p) × (p.is_intercept ≡ 1)
unfolding store_perm new_perm with_defaults
store_perm-new env w s id opened nonzero fresh h =
    let new = assigned perms (with_defaults (created_by w.now 0 (new_perm s))) env w in
    (
      new,
      ground (
        arith,
        h,
        nonzero,
        eq_iff s.route s.route,
        head?-filter_snoc (serves s) w.db.perms new fresh,
      ),
      ground (arith, opened),
    )

store_perm-old :
    (env : Env) (w : World) (s : PermSeed) (p : RbacPerm) (id : ℕ)
    → s.is_intercept ≡ 0
    → stored s w.db ≡ some p
    → (store_perm s (some p) env w).0 ≡ ok id
    → (q : RbacPerm) × (stored s (store_perm s (some p) env w).1.db ≡ some q) × (q.is_intercept ≡ 0)
unfolding store_perm rewritten_perm
store_perm-old env w s p id opened found h =
    let change = λ (q : RbacPerm). touch w.now (rewritten_perm s q) in
    (
      change p,
      ground (
        arith,
        h,
        head?-filter-map_where (serves s) (λ q. q.id == p.id) change w.db.perms p (λ y. refl) found,
      ),
      opened,
    )

bind_perm-perms :
    (menu_id perm_id : ℕ) (env : Env) (w : World)
    → (bind_perm menu_id perm_id env w).1.db.perms ≡ w.db.perms
unfolding bind_perm
bind_perm-perms menu_id perm_id env w = ground arith

-- What a successful call has done to the permissions: stored the one that was looked for.
upsert-stores :
    (env : Env) (w : World) (s : PermSeed) (menu_id : ℕ)
    → (upsert_perm_and_bind menu_id s env w).0 ≡ ok tt
    → (id : ℕ) × ((store_perm s (stored s w.db) env (tick w)).0 ≡ ok id)
      × ((upsert_perm_and_bind menu_id s env w).1.db.perms
          ≡ (store_perm s (stored s w.db) env (tick w)).1.db.perms)
unfolding upsert_perm_and_bind upsert_perm
upsert-stores env w s menu_id h =
    let (id, e, whole) = >>=-ok (upsert_perm s) (bind_perm menu_id) env w h in
    let look = first perms raw (serves s) in
    let (found, e', whole') = >>=-ok look (store_perm s) env w e in
    let (row, same) = first-ok perms (serves s) env w raw found e' in
    let stores : (look >>= store_perm s) env w ≡ store_perm s (stored s w.db) env (tick w) =
      whole'
      ∙ ap (λ v. store_perm s found env v) same
      ∙ ap (λ o. store_perm s o env (tick w)) (sym row) in
    (
      id,
      ap (λ o. o.0) (sym stores) ∙ e,
      ap (λ o. o.1.db.perms) whole
          ∙ bind_perm-perms menu_id id env (upsert_perm s env w).1
          ∙ ap (λ o. o.1.db.perms) stores,
    )

stored-upsert_new :
    (env : Env) (w : World) (s : PermSeed) (menu_id : ℕ)
    → s.is_intercept ≡ 0
    → s.method ≢ 0
    → stored s w.db ≡ none
    → (upsert_perm_and_bind menu_id s env w).0 ≡ ok tt
    → (p : RbacPerm) × (stored s (upsert_perm_and_bind menu_id s env w).1.db ≡ some p)
      × (p.is_intercept ≡ 1)
stored-upsert_new env w s menu_id opened nonzero fresh h =
    let (id, e, rows) = upsert-stores env w s menu_id h in
    let (p, found, closed) =
      store_perm-new env (tick w) s id opened nonzero fresh (rw fresh at e) in
    (
      p,
      ap (λ (ps : List RbacPerm). head? (filter (serves s) ps))
            (rows ∙ ap (λ o. (store_perm s o env (tick w)).1.db.perms) fresh)
          ∙ found,
      closed,
    )

stored-upsert_old :
    (env : Env) (w : World) (s : PermSeed) (p : RbacPerm) (menu_id : ℕ)
    → s.is_intercept ≡ 0
    → stored s w.db ≡ some p
    → (upsert_perm_and_bind menu_id s env w).0 ≡ ok tt
    → (q : RbacPerm) × (stored s (upsert_perm_and_bind menu_id s env w).1.db ≡ some q)
      × (q.is_intercept ≡ 0)
stored-upsert_old env w s p menu_id opened found h =
    let (id, e, rows) = upsert-stores env w s menu_id h in
    let (q, there, free) = store_perm-old env (tick w) s p id opened found (rw found at e) in
    (
      q,
      ap (λ (ps : List RbacPerm). head? (filter (serves s) ps))
            (rows ∙ ap (λ o. (store_perm s o env (tick w)).1.db.perms) found)
          ∙ there,
      free,
    )

-- For a seed that is open to all and not for every method, and that finds no permission: a call of
-- upsertPermAndBind that succeeds stores a permission that is intercepted, and a later call for the
-- same seed that succeeds opens it, where the seed still finds that permission, whatever other rows
-- have changed in between.
pub upsert_perm_and_bind-opens_late :
    (env later : Env) (w w' : World) (s : PermSeed) (menu_id menu_id' : ℕ)
    → s.is_intercept ≡ 0
    → s.method ≢ 0
    → stored s w.db ≡ none
    → (upsert_perm_and_bind menu_id s env w).0 ≡ ok tt
    → stored s w'.db ≡ stored s (upsert_perm_and_bind menu_id s env w).1.db
    → (upsert_perm_and_bind menu_id' s later w').0 ≡ ok tt
    → ((p : RbacPerm) × (stored s (upsert_perm_and_bind menu_id s env w).1.db ≡ some p)
        × (p.is_intercept ≡ 1))
      × ((q : RbacPerm) × (stored s (upsert_perm_and_bind menu_id' s later w').1.db ≡ some q)
          × (q.is_intercept ≡ 0))
upsert_perm_and_bind-opens_late env later w w' s menu_id menu_id' opened nonzero fresh h same h' =
    let (p, found, closed) = stored-upsert_new env w s menu_id opened nonzero fresh h in
    ((p, found, closed), stored-upsert_old later w' s p menu_id' opened (same ∙ found) h')
