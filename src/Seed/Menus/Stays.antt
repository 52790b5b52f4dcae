-- ===== src/Seed/Menus/Stays.antt =====
-- What the seeding of internal/bootstrap/seed_rbac.go keeps, also where it fails, and what it makes
-- sure of, for any tree of menus.
use clip_sync_admin.Prelude.{
  ℕ, ◌≡◌, ◌∙◌, sym, ap, Bool, true, false, ◌||◌, List, [], ◌∷◌, inl, inr, Bool-cases, Option-cases,
}
use clip_sync_admin.Reply.{raw, ok}
use clip_sync_admin.Model.{Db}
use clip_sync_admin.World.{Env, World, M, ◌>>=◌, ◌>>◌, pure, Table, first, count}
use clip_sync_admin.World.Inversion.{Outcome-cases, >>=-ok}
use clip_sync_admin.Seed.Tree.{PermSeed, MenuFields, MenuSeed, menu, MenuSeeds, nil, cons}
use clip_sync_admin.Seed.Menus.{
  upsert_row, upsert_perms, upsert_perm_and_bind, upsert_node, upsert_menu, upsert_menus,
}

-- An action that keeps a property of the database, whether it succeeds or fails.
abbrev pub Stays : (Db → Type 0) → {A : Type 0} → M A → Type 0
Stays P m = (env : Env) (w : World) → P w.db → P (m env w).1.db

-- An action that succeeds only with a property of the database.
abbrev pub Ensures : (Db → Type 0) → {A : Type 0} → M A → Type 0
Ensures P {A} m = (env : Env) (w : World) (a : A) → (m env w).0 ≡ ok a → P (m env w).1.db

module _ (P : Db → Type 0) where
  pub >>=-Stays :
      {A B : Type 0} (m : M A) (f : A → M B)
      → Stays P m
      → ((a : A) → Stays P (f a))
      → Stays P (m >>= f)
  >>=-Stays m f first rest env w h = elim (Outcome-cases (m env w).0) [
    | inl (a, e) ↦ rw (e, ◌>>=◌) (rest a env (m env w).1 (first env w h))
    | inr (x, e) ↦ rw (e, ◌>>=◌) (first env w h)
  ]

  pub first-Stays : {Row : Type 0} (t : Table Row) (p : Row → Bool) → Stays P (first t raw p)
  first-Stays t p env w h = elim (Option-cases (env.fault w.calls)) [
    | inl up ↦ rw (up, first) h
    | inr (x, down) ↦ rw (down, first) h
  ]

  pub count-Stays : {Row : Type 0} (t : Table Row) (p : Row → Bool) → Stays P (count t raw p)
  count-Stays t p env w h = elim (Option-cases (env.fault w.calls)) [
    | inl up ↦ rw (up, count) h
    | inr (x, down) ↦ rw (down, count) h
  ]

  -- The second part of a composed action makes sure of a property.
  pub >>=-Ensures :
      {A B : Type 0} (m : M A) (f : A → M B) → ((a : A) → Ensures P (f a)) → Ensures P (m >>= f)
  >>=-Ensures m f rest env w b h =
      let (a, e, whole) = >>=-ok m f env w h in
      rw whole (rest a env (m env w).1 b (ap (λ o. o.0) (sym whole) ∙ h))

  -- The first part makes sure of it, and the second keeps it.
  pub >>=-Ensures_first :
      {A B : Type 0} (m : M A) (f : A → M B)
      → Ensures P m
      → ((a : A) → Stays P (f a))
      → Ensures P (m >>= f)
  >>=-Ensures_first m f first rest env w b h =
      let (a, e, whole) = >>=-ok m f env w h in rw whole (rest a env (m env w).1 (first env w a e))

-- Whether a test holds of a node of a tree.
unfoldable mutual
  pub any_menu : (MenuFields → List PermSeed → Bool) → MenuSeed → Bool
  any_menu test (menu f ps children) = test f ps || any_menus test children

  pub any_menus : (MenuFields → List PermSeed → Bool) → MenuSeeds → Bool
  any_menus test nil = false
  any_menus test (cons s tree) = any_menu test s || any_menus test tree

module _ (P : Db → Type 0)
    (row : (parent_id : ℕ) (f : MenuFields) → Stays P (upsert_row parent_id f))
    (perm : (menu_id : ℕ) (s : PermSeed) → Stays P (upsert_perm_and_bind menu_id s)) where
  pub upsert_perms-Stays : (menu_id : ℕ) (ps : List PermSeed) → Stays P (upsert_perms menu_id ps)
  unfolding upsert_perms
  upsert_perms-Stays menu_id [] = λ env w h. h
  upsert_perms-Stays menu_id (s ∷ ps) =
      >>=-Stays P (upsert_perm_and_bind menu_id s) (λ _. upsert_perms menu_id ps) (perm menu_id s)
        (λ _. upsert_perms-Stays menu_id ps)

  pub upsert_node-Stays :
      (parent_id : ℕ) (f : MenuFields) (ps : List PermSeed) → Stays P (upsert_node parent_id f ps)
  unfolding upsert_node
  upsert_node-Stays parent_id f ps =
      >>=-Stays P (upsert_row parent_id f) (λ id. upsert_perms id ps >> pure id) (row parent_id f)
        λ id.
          >>=-Stays P (upsert_perms id ps) (λ _. pure id) (upsert_perms-Stays id ps)
            (λ _ env w h. h)

  mutual
    unfolding upsert_menu

    pub upsert_menu-Stays : (parent_id : ℕ) (s : MenuSeed) → Stays P (upsert_menu parent_id s)
    upsert_menu-Stays parent_id (menu f ps children) =
        >>=-Stays P (upsert_node parent_id f ps) (λ id. upsert_menus id children)
          (upsert_node-Stays parent_id f ps) (λ id. upsert_menus-Stays id children)

    pub upsert_menus-Stays :
        (parent_id : ℕ) (tree : MenuSeeds) → Stays P (upsert_menus parent_id tree)
    upsert_menus-Stays parent_id nil = λ env w h. h
    upsert_menus-Stays parent_id (cons s tree) =
        >>=-Stays P (upsert_menu parent_id s) (λ _. upsert_menus parent_id tree)
          (upsert_menu-Stays parent_id s) (λ _. upsert_menus-Stays parent_id tree)

  -- What each node of some kind makes sure of, a tree with such a node makes sure of.
  module _ (test : MenuFields → List PermSeed → Bool)
      (node : (parent_id : ℕ) (f : MenuFields) (ps : List PermSeed)
        → test f ps ≡ true
        → Ensures P (upsert_node parent_id f ps)) where
    mutual
      unfolding upsert_menu any_menu

      pub upsert_menu-Ensures :
          (parent_id : ℕ) (s : MenuSeed)
          → any_menu test s ≡ true
          → Ensures P (upsert_menu parent_id s)
      upsert_menu-Ensures parent_id (menu f ps children) found =
          let m = upsert_node parent_id f ps in
          let k = λ (id : ℕ). upsert_menus id children in
          elim (Bool-cases (test f ps)) [
            | inl here ↦
                >>=-Ensures_first P m k (node parent_id f ps here)
                  (λ id. upsert_menus-Stays id children)
            | inr there ↦
                >>=-Ensures P m k (λ id. upsert_menus-Ensures id children (rw there at found))
          ]

      pub upsert_menus-Ensures :
          (parent_id : ℕ) (tree : MenuSeeds)
          → any_menus test tree ≡ true
          → Ensures P (upsert_menus parent_id tree)
      upsert_menus-Ensures parent_id nil found = λ env w a h. cc
      upsert_menus-Ensures parent_id (cons s tree) found =
          let m = upsert_menu parent_id s in
          let k = λ (_ : Unit {0}). upsert_menus parent_id tree in
          elim (Bool-cases (any_menu test s)) [
            | inl here ↦
                >>=-Ensures_first P m k (upsert_menu-Ensures parent_id s here)
                  (λ _. upsert_menus-Stays parent_id tree)
            | inr there ↦
                >>=-Ensures P m k (λ _. upsert_menus-Ensures parent_id tree (rw there at found))
          ]
