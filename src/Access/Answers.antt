-- ===== src/Access/Answers.antt =====
-- The queries of internal/service/auth_service.go, where they are answered: each gives what its
-- definition in Access/Queries says.
use clip_sync_admin.Prelude.{
  ℕ, String, ◌≡◌, refl, ◌∙◌, Bool, true, false, ◌&&◌, List, [], ◌∷◌, filter, length, contains, ltb,
  arith, nat_eq, string_eq,
}
use clip_sync_admin.Reply.{ok}
use clip_sync_admin.Model.{Db}
use clip_sync_admin.World.Inversion.{>>=-ok}
use clip_sync_admin.World.{
  Env, World, scope_active, role_base, admin_role_base, perm_base, role_menu_base, menu_perm_base,
}
use clip_sync_admin.Access.{
  user_role_ids, is_super, menu_ids_of_roles, perm_ids_of_menus, perm_ids_of_roles, allows,
  method_code, matches_route, route_verdict, check_route,
}
use clip_sync_admin.Access.Queries.{roles_of, super_rows, menus_reached, perms_reached}

pub filter_none {ℓ} :
    {A : Type ℓ} (p : A → Bool) (xs : List A) → ((x : A) → p x ≡ false) → filter p xs ≡ []
filter_none p [] h = refl
filter_none p (x ∷ xs) h = rw (h x) (filter_none p xs h)

pub super_rows_nil : (db : Db) → super_rows db [] ≡ []
super_rows_nil db = filter_none _ db.roles (λ r. ground arith)

pub perms_reached_nil : (db : Db) → perms_reached db [] ≡ []
perms_reached_nil db =
    rw
      (filter_none (λ r. scope_active r && contains r.menu_id []) db.menu_perms (λ r. ground arith))

pub menus_reached_nil : (db : Db) → menus_reached db [] ≡ []
menus_reached_nil db =
    rw
      (filter_none (λ r. scope_active r && contains r.role_id []) db.role_menus (λ r. ground arith))

-- Each query that answers gives what its definition above says, and leaves the database as it was.
pub user_role_ids-ok :
    (env : Env) (w : World) (id : ℕ) (ids : List ℕ)
    → (user_role_ids id env w).0 ≡ ok ids
    → (ids ≡ roles_of w.db id) × ((user_role_ids id env w).1.db ≡ w.db)
unfolding user_role_ids
user_role_ids-ok env w id ids h = ground arith

pub is_super-ok :
    (env : Env) (w : World) (ids : List ℕ) (b : Bool)
    → (is_super ids env w).0 ≡ ok b
    → (b ≡ ltb 0 (length (super_rows w.db ids))) × ((is_super ids env w).1.db ≡ w.db)
unfolding is_super
is_super-ok env w [] b h = rw super_rows_nil (ground arith)
is_super-ok env w (i ∷ ids) b h = ground arith

menu_ids_of_roles-ok :
    (env : Env) (w : World) (ids ms : List ℕ)
    → (menu_ids_of_roles ids env w).0 ≡ ok ms
    → (ms ≡ menus_reached w.db ids) × ((menu_ids_of_roles ids env w).1.db ≡ w.db)
unfolding menu_ids_of_roles
menu_ids_of_roles-ok env w ids ms h = ground arith

perm_ids_of_menus-ok :
    (env : Env) (w : World) (ms ps : List ℕ)
    → (perm_ids_of_menus ms env w).0 ≡ ok ps
    → (ps ≡ perms_reached w.db ms) × ((perm_ids_of_menus ms env w).1.db ≡ w.db)
unfolding perm_ids_of_menus
perm_ids_of_menus-ok env w [] ps h = rw perms_reached_nil (ground arith)
perm_ids_of_menus-ok env w (m ∷ ms) ps h = ground arith

pub perm_ids_of_roles-ok :
    (env : Env) (w : World) (ids ps : List ℕ)
    → (perm_ids_of_roles ids env w).0 ≡ ok ps
    → (ps ≡ perms_reached w.db (menus_reached w.db ids))
      × ((perm_ids_of_roles ids env w).1.db ≡ w.db)
unfolding perm_ids_of_roles
perm_ids_of_roles-ok env w [] ps h =
    rw (menus_reached_nil w.db, perms_reached_nil w.db) (ground arith)
perm_ids_of_roles-ok env w (i ∷ ids) ps h =
    let (ms, got, same) = >>=-ok (menu_ids_of_roles (i ∷ ids)) perm_ids_of_menus env w h in
    let (eq, db) = menu_ids_of_roles-ok env w (i ∷ ids) ms got in
    let w' = (menu_ids_of_roles (i ∷ ids) env w).1 in
    let (eq', db') = perm_ids_of_menus-ok env w' ms ps (rw same at h) in (cc, rw same (db' ∙ db))

-- `CheckRoute` answers exactly if its rows allow the route.
pub check_route-ok :
    (env : Env) (w : World) (method path : String) (ids : List ℕ)
    → (check_route method path ids env w).0 ≡ ok tt
    → allows ids (filter (matches_route (method_code method) path) w.db.perms) ≡ true
unfolding check_route route_verdict
check_route-ok env w method path ids h = ground arith
