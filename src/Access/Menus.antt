-- ===== src/Access/Menus.antt =====
-- `MenusForAdmin` (internal/service/auth_service.go), in terms of the rows of the database.
use mathlib.Core.List.{Memᴰ}
use mathlib.Core.List.Memᴰ
use mathlib.Core.Path.{subst}
use clip_sync_admin.Prelude.{
  ℕ, ◌≡◌, ◌↔◌, inl, inr, refl, ap, ◌∙◌, Bool, true, false, ◌&&◌, ◌||◌, List, [], ◌∷◌, filter,
  length, contains, ltb, arith, nat_eq, Bool-cases, sort_by, if◌then◌else◌,
}
use clip_sync_admin.Prelude.Members.{
  mem-of_filter, mem-filter_of, mem-of_contains, contains_of_mem, mem-of_distinct, mem-distinct_of,
  mem-sort_by_iff, IsOrdered, sort_by-IsOrdered,
}
use clip_sync_admin.Reply.{ok}
use clip_sync_admin.Model.{RbacMenu, Db}
use clip_sync_admin.World.{Env, World, ◌>>=◌, tick, scope_active, menu_base, role_menu_base}
use clip_sync_admin.World.Inversion.{>>=-runs}
use clip_sync_admin.World.Laws.{NoFault}
use clip_sync_admin.Access.{
  user_role_ids, is_super, menu_ids_of_roles, before_menu, list_menus_where, menus_in,
  menus_of_roles, menus_for_admin,
}
use clip_sync_admin.Access.Spec.{ReachesMenu, IsMenuFor}
use clip_sync_admin.Access.Queries.{
  roles_of, roles_of_iff, super_rows, is_super_iff, menus_reached, and_parts, and_of,
}
use clip_sync_admin.Access.Answers.{super_rows_nil, menus_reached_nil, filter_none}

menus_reached_iff :
    (db : Db) (id menu : ℕ) → Memᴰ menu (menus_reached db (roles_of db id)) ↔ ReachesMenu db id menu
menus_reached_iff db id menu = (
  λ m.
      let (r, mr, e) = Memᴰ.of_map (λ r. r.menu_id) _ (mem-of_distinct _ m) in
      let (listed, t) = mem-of_filter _ db.role_menus mr in
      let (active, in_roles) = and_parts t in
      record {
        role_menu = r;
        listed = listed;
        active = active;
        bound = (roles_of_iff db id r.role_id).0 (mem-of_contains _ _ in_roles);
        to_menu = e;
      },
  λ h.
      let in_roles = contains_of_mem _ _ ((roles_of_iff db id h.role_menu.role_id).1 h.bound) in
      rw (← h.to_menu) (
        mem-distinct_of _ (
          Memᴰ.map (λ r. r.menu_id)
            (mem-filter_of _ db.role_menus h.listed (and_of h.active in_roles)))),
)

-- Whether an administrator with these roles is shown a menu.
abbrev shown : Db → List ℕ → RbacMenu → Bool
shown db roles m =
    scope_active m
    && (ltb 0 (length (super_rows db roles)) || contains m.id (menus_reached db roles))

IsMenuFor-iff :
    (db : Db) (id : ℕ) (m : RbacMenu)
    → Memᴰ m (filter (shown db (roles_of db id)) db.menus) ↔ IsMenuFor db id m
IsMenuFor-iff db id m = (
  λ h.
      let (listed, t) = mem-of_filter (shown db (roles_of db id)) db.menus h in
      let (active, rest) = and_parts t in
      record {
        listed = listed;
        active = active;
        allowed = elim (Bool-cases (ltb 0 (length (super_rows db (roles_of db id))))) [
          | inl e ↦ inl ((is_super_iff db id).0 e)
          | inr e ↦ inr ((menus_reached_iff db id m.id).0 (mem-of_contains _ _ (rw e at rest)))
        ];
      },
  λ g.
      let allowed : (ltb 0 (length (super_rows db (roles_of db id)))
            || contains m.id (menus_reached db (roles_of db id)))
          ≡ true =
        elim g.allowed [
          | inl s ↦ rw ((is_super_iff db id).1 s) refl
          | inr r ↦
              let c = contains_of_mem _ _ ((menus_reached_iff db id m.id).1 r) in ground (arith, c)
        ] in
      mem-filter_of (shown db (roles_of db id)) db.menus g.listed (and_of g.active allowed),
)

before_menu_asym : (x y : RbacMenu) → before_menu x y ≡ true → before_menu y x ≡ false
unfolding before_menu
before_menu_asym x y h = ground (arith, h)

filter_same {ℓ} :
    {A : Type ℓ} (p q : A → Bool) (xs : List A) → ((x : A) → p x ≡ q x) → filter p xs ≡ filter q xs
filter_same p q [] same = refl
filter_same p q (x ∷ xs) same = rw (same x, filter_same p q xs same)

-- The active menus that pass a test, in their order.
abbrev active_menus : World → (RbacMenu → Bool) → List RbacMenu
active_menus w p = sort_by before_menu (filter (λ m. scope_active m && p m) w.db.menus)

module _ (env : Env) (up : NoFault env) where
  user_role_ids-answers :
      (w : World) (id : ℕ) → user_role_ids id env w ≡ (ok (roles_of w.db id), tick w)
  unfolding user_role_ids
  user_role_ids-answers w id = ground (arith, up w.calls)

  menu_ids_of_roles-answers :
      (w : World) (ids : List ℕ)
      → menu_ids_of_roles ids env w ≡ (ok (menus_reached w.db ids), tick w)
  unfolding menu_ids_of_roles
  menu_ids_of_roles-answers w ids = ground (arith, up w.calls)

  list_menus_where-answers :
      (w : World) (p : RbacMenu → Bool)
      → list_menus_where p env w
        ≡ (ok (sort_by before_menu (filter (λ m. scope_active m && p m) w.db.menus)), tick w)
  unfolding list_menus_where
  list_menus_where-answers w p = ground (arith, up w.calls)

  is_super-answers :
      (w : World) (ids : List ℕ)
      → ((is_super ids env w).0 ≡ ok (ltb 0 (length (super_rows w.db ids))))
        × ((is_super ids env w).1.db ≡ w.db)
  unfolding is_super
  is_super-answers w [] = rw super_rows_nil (ground arith)
  is_super-answers w (i ∷ ids) = ground (arith, up w.calls)

  menus_in-answers :
      (w : World) (ids : List ℕ)
      → ((menus_in ids env w).0 ≡ ok (active_menus w (λ m. contains m.id ids)))
        × ((menus_in ids env w).1.db ≡ w.db)
  unfolding menus_in
  menus_in-answers w [] = (
    rw (filter_none (λ m. scope_active m && contains m.id []) w.db.menus (λ m. ground arith)) refl,
    refl,
  )
  menus_in-answers w (i ∷ ids) =
      rw (list_menus_where-answers w (λ m. contains m.id (i ∷ ids))) (refl, refl)

  menus_of_roles-answers :
      (w : World) (ids : List ℕ)
      → ((menus_of_roles ids env w).0
          ≡ ok (active_menus w (λ m. contains m.id (menus_reached w.db ids))))
        × ((menus_of_roles ids env w).1.db ≡ w.db)
  unfolding menus_of_roles
  menus_of_roles-answers w [] = rw (menus_reached_nil w.db) (menus_in-answers w [])
  menus_of_roles-answers w (i ∷ ids) =
      let reached = menus_reached w.db (i ∷ ids) in
      rw
        (>>=-runs (menu_ids_of_roles (i ∷ ids)) menus_in env w (tick w) reached
          (menu_ids_of_roles-answers w (i ∷ ids)))
        (menus_in-answers (tick w) reached)

  -- What the query of the menus answers for these roles, a super administrator's among them or not.
  by_roles-answers :
      (w : World) (super : Bool) (ids : List ℕ)
      → let m = if super then list_menus_where (λ m. true) else menus_of_roles ids in
        ((m env w).0 ≡ ok (active_menus w (λ m. super || contains m.id (menus_reached w.db ids))))
        × ((m env w).1.db ≡ w.db)
  by_roles-answers w true ids = rw (list_menus_where-answers w (λ m. true)) (refl, refl)
  by_roles-answers w false ids = menus_of_roles-answers w ids

  menus_for_admin-answers :
      (w : World) (id : ℕ)
      → ((menus_for_admin id env w).0
          ≡ ok (sort_by before_menu (filter (shown w.db (roles_of w.db id)) w.db.menus)))
        × ((menus_for_admin id env w).1.db ≡ w.db)
  unfolding menus_for_admin
  menus_for_admin-answers w id =
      let roles = roles_of w.db id in
      let flag = ltb 0 (length (super_rows w.db roles)) in
      let (super, same) = is_super-answers (tick w) roles in
      let w2 = (is_super roles env (tick w)).1 in
      let rest =
        λ (super : Bool). if super then list_menus_where (λ m. true) else menus_of_roles roles in
      let second : (is_super roles >>= rest) env (tick w) ≡ rest flag env w2 =
        >>=-runs (is_super roles) rest env (tick w) w2 flag (ap (λ r. (r, w2)) super) in
      let first =
        >>=-runs (user_role_ids id)
          (λ ids. is_super ids >>= λ super.
            if super then list_menus_where (λ m. true) else menus_of_roles ids)
          env w (tick w) roles (user_role_ids-answers w id) in
      let (answered, kept) = by_roles-answers w2 flag roles in
      rw (first, second)
        (
          subst
              (λ (db : Db).
                (rest flag env w2).0
                ≡ ok (
                    sort_by before_menu (
                      filter
                        (λ m. scope_active m && (flag || contains m.id (menus_reached db roles)))
                        db.menus)))
              same answered,
          kept ∙ same,
        )

-- Where the database answers, MenusForAdmin gives the active menus that are for the administrator,
-- those of a super administrator or those that a role leads to, and no others, by their numbers and
-- ids, and leaves the database as it was.
pub menus_for_admin_shows :
    (env : Env) (w : World) (id : ℕ)
    → NoFault env
    → (ms : List RbacMenu) × ((menus_for_admin id env w).0 ≡ ok ms)
      × ((m : RbacMenu) → Memᴰ m ms ↔ IsMenuFor w.db id m)
      × IsOrdered before_menu ms
      × ((menus_for_admin id env w).1.db ≡ w.db)
menus_for_admin_shows env w id up =
    let (answered, kept) = menus_for_admin-answers env up w id in
    let rows = filter (shown w.db (roles_of w.db id)) w.db.menus in
    (
      sort_by before_menu rows,
      answered,
      λ m.
          let sorted = mem-sort_by_iff before_menu {x = m} rows in
          let meant = IsMenuFor-iff w.db id m in
          (λ h. meant.0 (sorted.0 h), λ g. sorted.1 (meant.1 g)),
      sort_by-IsOrdered before_menu rows before_menu_asym,
      kept,
    )
