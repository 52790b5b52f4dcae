-- ===== src/Rbac/Bindings/Correct.antt =====
-- The bindings of roles to menus (internal/service/rbac_service.go): replacement as a whole.
use clip_sync_admin.Prelude.{
  ℕ, ◌≡◌, ◌≢◌, ◌∙◌, inl, inr, refl, ap, sym, Bool, not, none, List, [], ◌∷◌, ◌++◌, map, filter,
  map_where, arith, ◌&&◌, ◌==◌, nat_eq, Bool-cases,
}
use mathlib.Core.List.{append-nil, append_assoc}
use clip_sync_admin.Reply.{ok, err, Error}
use clip_sync_admin.Model.{RbacRoleMenu, Db}
use clip_sync_admin.World.{
  Env, World, tick, ◌>>◌, create, update, db_error, role_menus, not_del, role_menu_base, no_base,
  soft_delete, created_by,
}
use clip_sync_admin.World.Inversion.{Outcome-cases, >>=-ok, transaction-ok, transaction-err}
use clip_sync_admin.Rbac.Bindings.{bind_menus, assign_role_menus, role_menu_ids}

abbrev bound_in : List RbacRoleMenu → ℕ → List ℕ
bound_in rows role_id = map (λ r. r.menu_id) (filter (λ r. not_del r && r.role_id == role_id) rows)

-- The menus that a role is bound to, by bindings that are not deleted.
abbrev pub menus_bound : Db → ℕ → List ℕ
menus_bound db role_id = bound_in db.role_menus role_id

-- The ids of a request that are not zero.
abbrev pub nonzero : List ℕ → List ℕ
nonzero ids = filter (λ i. not (i == 0)) ids

-- The row that the loop creates.
abbrev made : ℕ → ℕ → ℕ → ℕ → RbacRoleMenu
made now operator role_id i =
    created_by now operator (record { id = 0; role_id = role_id; menu_id = i; base = no_base })

create-ok :
    (env : Env) (w : World) (r new : RbacRoleMenu)
    → (create role_menus db_error r env w).0 ≡ ok new
    → ((create role_menus db_error r env w).1.db.role_menus ≡ w.db.role_menus ++ new ∷ [])
      × (new.role_id ≡ r.role_id)
      × (new.menu_id ≡ r.menu_id)
      × (new.base ≡ r.base)
create-ok env w r new h = ground arith

bound-made :
    (now operator role_id other i : ℕ) (new : RbacRoleMenu) (rows : List RbacRoleMenu)
    → new.role_id ≡ role_id
    → new.menu_id ≡ i
    → new.base ≡ (made now operator role_id i).base
    → (bound_in (rows ++ new ∷ []) role_id ≡ bound_in rows role_id ++ i ∷ [])
      × (other ≢ role_id → bound_in (rows ++ new ∷ []) other ≡ bound_in rows other)
bound-made now operator role_id other i new [] e1 e2 e3 = (ground arith, λ ne. ground arith)
bound-made now operator role_id other i new (r ∷ rows) e1 e2 e3 =
    let (here, there) = bound-made now operator role_id other i new rows e1 e2 e3 in
    (ground (arith, here), λ ne. ground (arith, there ne))

-- What the loop does where it succeeds.
bind_menus-ok :
    (role_id operator other : ℕ) (ids : List ℕ) (env : Env) (w : World)
    → (bind_menus role_id operator ids env w).0 ≡ ok tt
    → let w' = (bind_menus role_id operator ids env w).1 in
      (menus_bound w'.db role_id ≡ menus_bound w.db role_id ++ nonzero ids)
      × (other ≢ role_id → menus_bound w'.db other ≡ menus_bound w.db other)
unfolding bind_menus
bind_menus-ok role_id operator other [] env w h = (sym (append-nil _), λ ne. refl)
bind_menus-ok role_id operator other (i ∷ ids) env w h = elim (Bool-cases (i == 0)) [
  | inl z ↦
      let (here, there) = bind_menus-ok role_id operator other ids env w (ground (arith, h, z)) in
      (ground (arith, here, z), λ ne. ground (arith, there ne, z))
  | inr nz ↦
      let row = made w.now operator role_id i in
      let w1 = (create role_menus db_error row env w).1 in
      elim (Outcome-cases (create role_menus db_error row env w).0) [
        | inl (new, e) ↦
            let (rows, e1, e2, e3) = create-ok env w row new e in
            let (here, there) =
              bound-made w.now operator role_id other i new w.db.role_menus e1 e2 e3 in
            let (here', there') =
              bind_menus-ok role_id operator other ids env w1 (ground (arith, h, e, nz)) in
            let bound = bound_in w.db.role_menus role_id in
            (
              ground (arith, here', here, rows, e, nz, append_assoc bound (i ∷ []) (nonzero ids)),
              λ ne. ground (arith, there' ne, there ne, rows, e, nz),
            )
        | inr (x, e) ↦ absurd (ground (arith, h, e, nz))
      ]
]

deleted-bound :
    (now role_id other : ℕ) (rows : List RbacRoleMenu)
    → let rows' = map_where (λ r. r.role_id == role_id) (soft_delete now) rows in
      (bound_in rows' role_id ≡ []) × (other ≢ role_id → bound_in rows' other ≡ bound_in rows other)
deleted-bound now role_id other [] = (refl, λ ne. refl)
deleted-bound now role_id other (r ∷ rows) =
    let (here, there) = deleted-bound now role_id other rows in
    (ground (arith, here), λ ne. ground (arith, there ne))

update-ok :
    (env : Env) (w : World) (p : RbacRoleMenu → Bool) (f : RbacRoleMenu → RbacRoleMenu) (n : ℕ)
    → (update role_menus db_error p f env w).0 ≡ ok n
    → (update role_menus db_error p f env w).1.db.role_menus ≡ map_where p f w.db.role_menus
update-ok env w p f n h = ground arith

replace_menus-ok :
    (env : Env) (w : World) (role_id operator other : ℕ) (ids : List ℕ)
    → (assign_role_menus role_id ids operator env w).0 ≡ ok tt
    → let w' = (assign_role_menus role_id ids operator env w).1 in
      (menus_bound w'.db role_id ≡ nonzero ids)
      × (other ≢ role_id → menus_bound w'.db other ≡ menus_bound w.db other)
unfolding assign_role_menus
replace_menus-ok env w role_id operator other ids h =
    let p = λ (r : RbacRoleMenu). r.role_id == role_id in
    let f = soft_delete w.now in
    let deleted = update role_menus db_error p f in
    let (done, db) = transaction-ok (deleted >> bind_menus role_id operator ids) env w tt h in
    let (n, e, rest) = >>=-ok deleted (λ _. bind_menus role_id operator ids) env (tick w) done in
    let w1 = (deleted env (tick w)).1 in
    let rows = update-ok env (tick w) p f n e in
    let (here, there) =
      bind_menus-ok role_id operator other ids env w1 (ap (λ o. o.0) (sym rest) ∙ done) in
    let (here', there') = deleted-bound w.now role_id other w.db.role_menus in
    let db' = db ∙ ap (λ o. o.1.db) rest in
    (
      ap (λ d. menus_bound d role_id) db'
          ∙ here
          ∙ ap (λ ms. ms ++ nonzero ids) (ap (λ rs. bound_in rs role_id) rows ∙ here'),
      λ ne.
          ap (λ d. menus_bound d other) db'
          ∙ there ne
          ∙ ap (λ rs. bound_in rs other) rows
          ∙ there' ne,
    )

-- Where `AssignRoleMenus` succeeds, the role is bound to the ids of the request that are not zero, in
-- their order, and to no other menu, and any other role keeps its menus.
pub assign_role_menus_replaces :
    (env : Env) (w : World) (role_id operator other : ℕ) (ids : List ℕ)
    → other ≢ role_id
    → (assign_role_menus role_id ids operator env w).0 ≡ ok tt
    → let w' = (assign_role_menus role_id ids operator env w).1 in
      (menus_bound w'.db role_id ≡ nonzero ids) × (menus_bound w'.db other ≡ menus_bound w.db other)
assign_role_menus_replaces env w role_id operator other ids ne h =
    let (here, there) = replace_menus-ok env w role_id operator other ids h in (here, there ne)

-- Where `AssignRoleMenus` fails, at any of its statements, the database is as it was.
pub assign_role_menus_atomic :
    (env : Env) (w : World) (role_id operator : ℕ) (ids : List ℕ) (e : Error)
    → (assign_role_menus role_id ids operator env w).0 ≡ err e
    → (assign_role_menus role_id ids operator env w).1.db ≡ w.db
unfolding assign_role_menus
assign_role_menus_atomic env w role_id operator ids e h =
    transaction-err
      (update role_menus db_error (λ r. r.role_id == role_id) (soft_delete w.now)
        >> bind_menus role_id operator ids)
      env w e h

-- What `RoleMenuIDs` reads, where the database answers, is what the role is bound to; so it reads back
-- what `AssignRoleMenus` has written.
role_menu_ids-assign :
    (env : Env) (w : World) (role_id operator : ℕ) (ids : List ℕ)
    → (assign_role_menus role_id ids operator env w).0 ≡ ok tt
    → env.fault (assign_role_menus role_id ids operator env w).1.calls ≡ none
    → (role_menu_ids role_id env (assign_role_menus role_id ids operator env w).1).0
      ≡ ok (nonzero ids)
unfolding role_menu_ids
role_menu_ids-assign env w role_id operator ids h up =
    let bound = (replace_menus-ok env w role_id operator 0 ids h).0 in ground (arith, up, bound)
