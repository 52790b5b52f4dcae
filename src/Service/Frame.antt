-- ===== src/Service/Frame.antt =====
-- The operations of internal/service that write no row of an administrator.
use clip_sync_admin.Prelude.{
  ℕ, String, ◌≡◌, ◌∙◌, refl, List, [], ◌∷◌, ◌++◌, arith, if◌then◌else◌, Bool-cases, inl, inr, ◌==◌,
  nat_eq,
}
use clip_sync_admin.Model.{Field, Db, RbacRole, RbacMenu, RbacPerm}
use clip_sync_admin.World.{
  Env, World, M, ◌>>=◌, ◌>>◌, Table, gets, create, assigned, db_error, created_by, no_base,
  admin_roles, role_menus, menu_perms, admin_role_base, role_menu_base, menu_perm_base,
}
use clip_sync_admin.World.Inversion.{Outcome-cases}
use clip_sync_admin.Auth.{generate}
use clip_sync_admin.Session.{logout, refresh_token, reissue, bump_login_err}
use clip_sync_admin.Rbac.Bindings.{
  bind_roles, bind_menus, bind_perms, assign_role_menus, assign_menu_perms,
}
use clip_sync_admin.Rbac.Roles.{create_role, update_role, delete_role}
use clip_sync_admin.Rbac.Menus.{create_menu, update_menu, delete_menu}
use clip_sync_admin.Rbac.Perms.{create_perm, update_perm, delete_perm}

-- An action that leaves the rows of the administrators as they were, also where it fails.
abbrev pub SparesAdmins : {A : Type 0} → M A → Type 0
SparesAdmins m = (env : Env) (w : World) → (m env w).1.db.admins ≡ w.db.admins

pub logout-SparesAdmins : (jti : String) (id : ℕ) → SparesAdmins (logout jti id)
unfolding logout
logout-SparesAdmins jti id env w = ground arith

pub refresh_token-SparesAdmins : (jti : String) → SparesAdmins (refresh_token jti)
unfolding refresh_token
refresh_token-SparesAdmins jti env w = ground arith

pub reissue-SparesAdmins : (id : ℕ) (account old : String) → SparesAdmins (reissue id account old)
unfolding reissue generate
reissue-SparesAdmins id account old env w = ground arith

pub bump_login_err-SparesAdmins : (account : String) → SparesAdmins (bump_login_err account)
unfolding bump_login_err
bump_login_err-SparesAdmins account env w = ground arith

pub create_role-SparesAdmins : (r : RbacRole) (operator : ℕ) → SparesAdmins (create_role r operator)
unfolding create_role
create_role-SparesAdmins r operator env w = ground arith

pub update_role-SparesAdmins :
    (id : ℕ) (r : RbacRole) (operator : ℕ) → SparesAdmins (update_role id r operator)
unfolding update_role
update_role-SparesAdmins id r operator env w = ground arith

pub delete_role-SparesAdmins : (id operator : ℕ) → SparesAdmins (delete_role id operator)
unfolding delete_role
delete_role-SparesAdmins id operator env w = ground arith

pub create_menu-SparesAdmins : (m : RbacMenu) (operator : ℕ) → SparesAdmins (create_menu m operator)
unfolding create_menu
create_menu-SparesAdmins m operator env w = ground arith

pub update_menu-SparesAdmins :
    (id : ℕ) (body : List (String × Field)) (operator : ℕ)
    → SparesAdmins (update_menu id body operator)
unfolding update_menu
update_menu-SparesAdmins id body operator env w = ground arith

pub delete_menu-SparesAdmins : (id operator : ℕ) → SparesAdmins (delete_menu id operator)
unfolding delete_menu
delete_menu-SparesAdmins id operator env w = ground arith

pub create_perm-SparesAdmins : (p : RbacPerm) (operator : ℕ) → SparesAdmins (create_perm p operator)
unfolding create_perm
create_perm-SparesAdmins p operator env w = ground arith

pub update_perm-SparesAdmins :
    (id : ℕ) (p : RbacPerm) (operator : ℕ) → SparesAdmins (update_perm id p operator)
unfolding update_perm
update_perm-SparesAdmins id p operator env w = ground arith

pub delete_perm-SparesAdmins : (id operator : ℕ) → SparesAdmins (delete_perm id operator)
unfolding delete_perm
delete_perm-SparesAdmins id operator env w = ground arith

pub >>=-SparesAdmins :
    {A B : Type 0} (m : M A) (f : A → M B)
    → SparesAdmins m
    → ((a : A) → SparesAdmins (f a))
    → SparesAdmins (m >>= f)
>>=-SparesAdmins m f hm hf env w = elim (Outcome-cases (m env w).0) [
  | inl (a, e) ↦ rw (e, ◌>>=◌) (hf a env (m env w).1 ∙ hm env w)
  | inr (x, e) ↦ rw (e, ◌>>=◌) (hm env w)
]

create-SparesAdmins :
    {Row : Type 0} (t : Table Row) (r : Row)
    → ((xs : List Row) (db : Db) → (t.put xs db).admins ≡ db.admins)
    → SparesAdmins (create t db_error r)
create-SparesAdmins t r other env w =
    ground (arith, other (t.rows w.db ++ assigned t r env w ∷ []) w.db)

-- One round of the loops that bind: an id of zero is passed over, and any other gives a new row.
bind-SparesAdmins :
    {Row : Type 0} (t : Table Row) (row : ℕ → Row) (id : ℕ) (rest : M (Unit {0}))
    → ((xs : List Row) (db : Db) → (t.put xs db).admins ≡ db.admins)
    → SparesAdmins rest
    → SparesAdmins
        (if id == 0 then rest else do now ← gets (λ w. w.now); create t db_error (row now); rest)
bind-SparesAdmins t row id rest other spares env w = elim (Bool-cases (id == 0)) [
  | inl skipped ↦ rw skipped (spares env w)
  | inr made ↦ rw made (
      >>=-SparesAdmins (create t db_error (row w.now)) (λ _. rest)
        (create-SparesAdmins t (row w.now) other) (λ _. spares) env w)
]

pub bind_roles-SparesAdmins :
    (id operator : ℕ) (ids : List ℕ) → SparesAdmins (bind_roles id operator ids)
unfolding bind_roles
bind_roles-SparesAdmins id operator [] = λ env w. refl
bind_roles-SparesAdmins id operator (rid ∷ rids) =
    bind-SparesAdmins admin_roles
      (λ now.
        created_by now operator (record { id = 0; admin_id = id; role_id = rid; base = no_base }))
      rid _ (λ xs db. refl) (bind_roles-SparesAdmins id operator rids)

bind_menus-SparesAdmins :
    (id operator : ℕ) (ids : List ℕ) → SparesAdmins (bind_menus id operator ids)
unfolding bind_menus
bind_menus-SparesAdmins id operator [] = λ env w. refl
bind_menus-SparesAdmins id operator (mid ∷ mids) =
    bind-SparesAdmins role_menus
      (λ now.
        created_by now operator (record { id = 0; role_id = id; menu_id = mid; base = no_base }))
      mid _ (λ xs db. refl) (bind_menus-SparesAdmins id operator mids)

bind_perms-SparesAdmins :
    (id operator : ℕ) (ids : List ℕ) → SparesAdmins (bind_perms id operator ids)
unfolding bind_perms
bind_perms-SparesAdmins id operator [] = λ env w. refl
bind_perms-SparesAdmins id operator (pid ∷ pids) =
    bind-SparesAdmins menu_perms
      (λ now.
        created_by now operator (record { id = 0; menu_id = id; perm_id = pid; base = no_base }))
      pid _ (λ xs db. refl) (bind_perms-SparesAdmins id operator pids)

pub assign_role_menus-SparesAdmins :
    (id : ℕ) (ids : List ℕ) (operator : ℕ) → SparesAdmins (assign_role_menus id ids operator)
unfolding assign_role_menus
assign_role_menus-SparesAdmins id ids operator env w =
    grind (arith, bind_menus-SparesAdmins id operator ids)

pub assign_menu_perms-SparesAdmins :
    (id : ℕ) (ids : List ℕ) (operator : ℕ) → SparesAdmins (assign_menu_perms id ids operator)
unfolding assign_menu_perms
assign_menu_perms-SparesAdmins id ids operator env w =
    grind (arith, bind_perms-SparesAdmins id operator ids)
