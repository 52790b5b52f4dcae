-- ===== src/Seed/Menus/Codes.antt =====
-- The menus that internal/bootstrap/seed_rbac.go leaves: those of its tree.
use clip_sync_admin.Prelude.{
  ℕ, String, ◌≡◌, ◌∙◌, sym, refl, ap, Bool, true, ◌||◌, ◌&&◌, Option, some, none, List, [], ◌∷◌,
  ◌++◌, any, head?, filter, map_where, contains, arith, inl, inr, Bool-cases, Option-cases,
  any-append, any-map_where, any-of_head, eq_iff, ◌==◌, nat_eq, string_eq,
}
use clip_sync_admin.Reply.{raw, ok}
use clip_sync_admin.Model.{RbacMenu, Db}
use clip_sync_admin.World.{
  Env, World, ◌>>◌, pure, menus, menu_base, create, assigned, update, first, created_by, touch,
  soft_delete,
}
use clip_sync_admin.World.Inversion.{>>=-ok, first-ok}
use clip_sync_admin.Seed.Tree.{
  PermSeed, MenuFields, MenuSeed, menu, MenuSeeds, nil, cons, codes_of, collect_codes,
}
use clip_sync_admin.Seed.Menus.{
  has_code, store_row, upsert_row, upsert_perms, upsert_perm_and_bind, upsert_node, upsert_menus,
  is_foreign, clean_menus, seed_tree, rewritten_menu, new_menu, bind_perm, upsert_perm, store_perm,
}
use clip_sync_admin.Seed.Menus.Stays.{
  Stays, Ensures, >>=-Stays, >>=-Ensures_first, any_menu, any_menus, upsert_menus-Ensures,
  first-Stays, upsert_perms-Stays,
}

-- Whether a menu that is not deleted has a code.
abbrev pub has_menu : Db → String → Bool
has_menu db code = any (has_code code) db.menus

abbrev Present : String → Db → Type 0
Present code db = has_menu db code ≡ true

create-Stays : (code : String) (r : RbacMenu) → Stays (Present code) (create menus raw r)
create-Stays code r env w h =
    ground (arith, h, any-append (has_code code) w.db.menus (assigned menus r env w ∷ []))

create-Ensures :
    (code : String) (r : RbacMenu)
    → has_code code r ≡ true
    → Ensures (Present code) (create menus raw r)
create-Ensures code r fits env w a h =
    ground (arith, h, fits, any-append (has_code code) w.db.menus (assigned menus r env w ∷ []))

rewrite-has_code :
    (code : String) (now parent_id : ℕ) (f : MenuFields) (m : RbacMenu)
    → has_code code m ≡ true
    → has_code code (touch now (rewritten_menu parent_id f m)) ≡ true
unfolding rewritten_menu
rewrite-has_code code now parent_id f m h = ground arith

rewrite-Stays :
    (code : String) (id now parent_id : ℕ) (f : MenuFields)
    → Stays
        (Present code)
        (update menus raw (λ n. n.id == id) (λ n. touch now (rewritten_menu parent_id f n)))
rewrite-Stays code id now parent_id f env w h =
    let change = λ (n : RbacMenu). touch now (rewritten_menu parent_id f n) in
    ground (
      arith,
      h,
      any-map_where (has_code code) (λ n. n.id == id) change w.db.menus
          (rewrite-has_code code now parent_id f) h,
    )

store_row-Stays :
    (code : String) (parent_id : ℕ) (f : MenuFields) (found : Option RbacMenu)
    → Stays (Present code) (store_row parent_id f found)
unfolding store_row
store_row-Stays code parent_id f none env w h =
    >>=-Stays (Present code) (create menus raw (created_by w.now 0 (new_menu parent_id f)))
      (λ m. pure m.id) (create-Stays code (created_by w.now 0 (new_menu parent_id f)))
      (λ _ _ _ k. k) env w h
store_row-Stays code parent_id f (some m) env w h =
    >>=-Stays (Present code)
      (update menus raw (λ n. n.id == m.id) (λ n. touch w.now (rewritten_menu parent_id f n)))
      (λ _. pure m.id) (rewrite-Stays code m.id w.now parent_id f) (λ _ _ _ k. k) env w h

upsert_row-Stays :
    (code : String) (parent_id : ℕ) (f : MenuFields) → Stays (Present code) (upsert_row parent_id f)
unfolding upsert_row
upsert_row-Stays code parent_id f =
    >>=-Stays (Present code) (first menus raw (has_code f.code)) (store_row parent_id f)
      (first-Stays (Present code) menus (has_code f.code)) (store_row-Stays code parent_id f)

-- The statements on the other tables leave the menus as they are.
upsert_perm_and_bind-Stays :
    (code : String) (menu_id : ℕ) (s : PermSeed)
    → Stays (Present code) (upsert_perm_and_bind menu_id s)
unfolding upsert_perm_and_bind upsert_perm bind_perm store_perm
upsert_perm_and_bind-Stays code menu_id s env w h = ground (arith, h)

-- The menu of a code is there once its row is stored, found or not.
store_row-Ensures :
    (parent_id : ℕ) (f : MenuFields) (found : Option RbacMenu) (env : Env) (w : World) (id : ℕ)
    → head? (filter (has_code f.code) w.db.menus) ≡ found
    → (store_row parent_id f found env w).0 ≡ ok id
    → Present f.code (store_row parent_id f found env w).1.db
unfolding store_row new_menu
store_row-Ensures parent_id f none env w id e h =
    let new = created_by w.now 0 (new_menu parent_id f) in
    >>=-Ensures_first (Present f.code) (create menus raw new) (λ m. pure m.id)
      (create-Ensures f.code new (ground (arith, eq_iff f.code f.code))) (λ _ _ _ k. k) env w id h
store_row-Ensures parent_id f (some m) env w id e h =
    store_row-Stays f.code parent_id f (some m) env w (any-of_head (has_code f.code) w.db.menus m e)

upsert_row-Ensures :
    (parent_id : ℕ) (f : MenuFields) → Ensures (Present f.code) (upsert_row parent_id f)
unfolding upsert_row
upsert_row-Ensures parent_id f env w id h =
    let look = first menus raw (has_code f.code) in
    let (found, e, whole) = >>=-ok look (store_row parent_id f) env w h in
    let (row, same) = first-ok menus (has_code f.code) env w raw found e in
    let rows : head? (filter (has_code f.code) (look env w).1.db.menus) ≡ found =
      ap (λ v. head? (filter (has_code f.code) v.db.menus)) same ∙ row in
    rw whole (
      store_row-Ensures parent_id f found env (look env w).1 id rows
        (ap (λ o. o.0) (sym whole) ∙ h))

-- Whether a node is the menu of a code.
of_code : String → MenuFields → List PermSeed → Bool
of_code code f ps = code == f.code

upsert_node-Ensures :
    (code : String) (parent_id : ℕ) (f : MenuFields) (ps : List PermSeed)
    → of_code code f ps ≡ true
    → Ensures (Present code) (upsert_node parent_id f ps)
unfolding upsert_node of_code
upsert_node-Ensures code parent_id f ps here =
    let same : code ≡ f.code = (eq_iff code f.code).0 here in
    rw same (
      >>=-Ensures_first (Present f.code) (upsert_row parent_id f)
        (λ id. upsert_perms id ps >> pure id) (upsert_row-Ensures parent_id f)
        λ id.
          >>=-Stays (Present f.code) (upsert_perms id ps) (λ _. pure id)
            (upsert_perms-Stays (Present f.code) (upsert_row-Stays f.code)
              (upsert_perm_and_bind-Stays f.code) id ps)
            (λ _ _ _ k. k))

contains-append :
    (c : String) (xs ys : List String) → contains c (xs ++ ys) ≡ (contains c xs || contains c ys)
contains-append c [] ys = refl
contains-append c (x ∷ xs) ys = ground (arith, contains-append c xs ys)

mutual
  unfolding any_menu codes_of of_code

  any_menu-of_code : (c : String) (s : MenuSeed) → contains c (codes_of s) ≡ any_menu (of_code c) s
  any_menu-of_code c (menu f ps children) =
      ap (λ b. (c == f.code) || b) (any_menus-of_code c children)

  any_menus-of_code :
      (c : String) (tree : MenuSeeds) → contains c (collect_codes tree) ≡ any_menus (of_code c) tree
  any_menus-of_code c nil = refl
  any_menus-of_code c (cons s tree) = ground (
    arith,
    contains-append c (codes_of s) (collect_codes tree),
    any_menu-of_code c s,
    any_menus-of_code c tree,
  )

upsert_menus-Present :
    (code : String) (parent_id : ℕ) (tree : MenuSeeds)
    → contains code (collect_codes tree) ≡ true
    → Ensures (Present code) (upsert_menus parent_id tree)
upsert_menus-Present code parent_id tree listed =
    upsert_menus-Ensures (Present code) (upsert_row-Stays code) (upsert_perm_and_bind-Stays code)
      (of_code code) (upsert_node-Ensures code) parent_id tree
      (sym (any_menus-of_code code tree) ∙ listed)

-- The rows after the clean-up: those of the tree, of those that were there.
cleaned :
    (code : String) (codes : List String) (now : ℕ) (rows : List RbacMenu)
    → any (has_code code) (map_where (is_foreign codes) (soft_delete now) rows)
      ≡ (any (has_code code) rows && contains code codes)
cleaned code codes now [] = refl
cleaned code codes now (m ∷ rows) = elim (Bool-cases (m.code == code)) [
  | inl same ↦
      let e : m.code ≡ code = (eq_iff m.code code).0 same in
      ground (arith, same, ap (λ c. contains c codes) e, cleaned code codes now rows)
  | inr other ↦ ground (arith, other, cleaned code codes now rows)
]

pub seed_tree-menus :
    (env : Env) (w : World) (tree : MenuSeeds) (code : String)
    → (seed_tree tree env w).0 ≡ ok tt
    → has_menu (seed_tree tree env w).1.db code ≡ contains code (collect_codes tree)
unfolding seed_tree clean_menus
seed_tree-menus env w tree code h =
    let codes = collect_codes tree in
    let (_, done, whole) = >>=-ok (upsert_menus 0 tree) (λ _. clean_menus codes) env w h in
    let w1 = (upsert_menus 0 tree env w).1 in
    elim (Option-cases (env.fault w1.calls)) [
      | inr (x, down) ↦ absurd (ground (arith, down, whole, h))
      | inl up ↦ elim (Bool-cases (contains code codes)) [
        | inl listed ↦ ground (
          arith,
          up,
          whole,
          listed,
          cleaned code codes w1.now w1.db.menus,
          upsert_menus-Present code 0 tree listed env w tt done,
        )
        | inr foreign ↦ ground (arith, up, whole, foreign, cleaned code codes w1.now w1.db.menus)
      ]
    ]
