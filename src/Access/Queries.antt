-- ===== src/Access/Queries.antt =====
-- What the queries of internal/service/auth_service.go find in a database, and what these rows mean.
use mathlib.Core.List.{Memᴰ}
use mathlib.Core.List.Memᴰ
use mathlib.Core.Path.{subst}
use clip_sync_admin.Prelude.{
  ℕ, String, ◌≡◌, ◌↔◌, ◌⊎◌, inl, inr, refl, sym, Bool, true, ◌&&◌, List, [], ◌∷◌, map, filter,
  length, contains, distinct, ltb, arith, ◌==◌, nat_eq, string_eq, Bool-cases, nat_beq_iff, eq_iff,
}
use clip_sync_admin.Prelude.Members.{
  mem-of_filter, mem-filter_of, head_of_length, length_pos_of_mem, mem-of_contains, contains_of_mem,
  mem-of_distinct, mem-distinct_of,
}
use clip_sync_admin.Model.{RbacRole, RbacPerm, Db}
use clip_sync_admin.World.{
  scope_active, role_base, admin_role_base, perm_base, role_menu_base, menu_perm_base,
}
use clip_sync_admin.Access.{allows, matches_route}
use clip_sync_admin.Access.Spec.{HasRole, HasSuperRole, Reaches, Granted}

-- What each query answers.
abbrev pub roles_of : Db → ℕ → List ℕ
roles_of db id =
    map (λ r. r.role_id) (filter (λ r. scope_active r && r.admin_id == id) db.admin_roles)

abbrev pub super_rows : Db → List ℕ → List RbacRole
super_rows db ids = filter (λ r. scope_active r && contains r.id ids && r.type == 1) db.roles

abbrev pub menus_reached : Db → List ℕ → List ℕ
menus_reached db ids =
    distinct
      (map (λ r. r.menu_id) (filter (λ r. scope_active r && contains r.role_id ids) db.role_menus))

abbrev pub perms_reached : Db → List ℕ → List ℕ
perms_reached db ids =
    distinct
      (map (λ r. r.perm_id) (filter (λ r. scope_active r && contains r.menu_id ids) db.menu_perms))

pub and_parts : {a b : Bool} → (a && b) ≡ true → (a ≡ true) × (b ≡ true)
and_parts {a} {b} h = ground arith

pub and_of : {a b : Bool} → a ≡ true → b ≡ true → (a && b) ≡ true
and_of p q = ground (arith, p, q)

-- The roles that the query finds are those that the administrator has.
pub roles_of_iff : (db : Db) (id role : ℕ) → Memᴰ role (roles_of db id) ↔ HasRole db id role
roles_of_iff db id role = (
  λ m.
      let (b, mb, e) = Memᴰ.of_map (λ r. r.role_id) _ m in
      let (listed, h) = mem-of_filter _ db.admin_roles mb in
      let (active, own) = and_parts h in
      record {
        binding = b;
        listed = listed;
        active = active;
        of_admin = (nat_beq_iff _ _).0 own;
        to_role = e;
      },
  λ h. rw (← h.to_role) (
      Memᴰ.map (λ r. r.role_id)
        (mem-filter_of _ db.admin_roles h.listed
          (and_of h.active ((nat_beq_iff _ _).1 h.of_admin)))),
)

pub is_super_iff :
    (db : Db) (id : ℕ)
    → (ltb 0 (length (super_rows db (roles_of db id))) ≡ true) ↔ HasSuperRole db id
is_super_iff db id = (
  λ h.
      let (r, m) = head_of_length (super_rows db (roles_of db id)) (ground arith) in
      let (listed, t) = mem-of_filter _ db.roles m in
      let (t', super) = and_parts t in
      let (active, bound) = and_parts t' in
      record {
        role = r;
        listed = listed;
        active = active;
        super = (nat_beq_iff _ _).0 super;
        bound = (roles_of_iff db id r.id).0 (mem-of_contains _ _ bound);
      },
  λ s.
      let m = length_pos_of_mem (super_rows db (roles_of db id)) (
        mem-filter_of _ db.roles s.listed (
          and_of (and_of s.active (contains_of_mem _ _ ((roles_of_iff db id s.role.id).1 s.bound)))
            ((nat_beq_iff _ _).1 s.super))) in
      ground (arith, m),
)

pub perms_reached_iff :
    (db : Db) (id perm : ℕ)
    → Memᴰ perm (perms_reached db (menus_reached db (roles_of db id))) ↔ Reaches db id perm
perms_reached_iff db id perm = (
  λ m.
      let (mp, mm, e) = Memᴰ.of_map (λ r. r.perm_id) _ (mem-of_distinct _ m) in
      let (listed, t) = mem-of_filter _ db.menu_perms mm in
      let (active, in_menus) = and_parts t in
      let (rm, mr, e') =
        Memᴰ.of_map (λ r. r.menu_id) _ (mem-of_distinct _ (mem-of_contains _ _ in_menus)) in
      let (listed', t') = mem-of_filter _ db.role_menus mr in
      let (active', in_roles) = and_parts t' in
      record {
        role_menu = rm;
        menu_perm = mp;
        role_listed = listed';
        perm_listed = listed;
        role_active = active';
        perm_active = active;
        bound = (roles_of_iff db id rm.role_id).0 (mem-of_contains _ _ in_roles);
        same_menu = sym e';
        to_perm = e;
      },
  λ h.
      let in_roles = contains_of_mem _ _ ((roles_of_iff db id h.role_menu.role_id).1 h.bound) in
      let menu = mem-distinct_of _ (
        Memᴰ.map (λ r. r.menu_id)
          (mem-filter_of (λ r. scope_active r && contains r.role_id (roles_of db id)) db.role_menus
            h.role_listed (and_of h.role_active in_roles))) in
      let in_menus =
        contains_of_mem h.menu_perm.menu_id (menus_reached db (roles_of db id))
          (rw h.same_menu menu) in
      rw (← h.to_perm) (
        mem-distinct_of _ (
          Memᴰ.map (λ r. r.perm_id)
            (mem-filter_of _ db.menu_perms h.perm_listed (and_of h.perm_active in_menus)))),
)

-- The loop of `CheckRoute` finds a permission that is open to all or that is among the ids.
pub allows_iff :
    (ids : List ℕ) (ps : List RbacPerm)
    → (allows ids ps ≡ true) ↔ ((p : RbacPerm) × Memᴰ p ps × ((p.is_intercept ≡ 0) ⊎ Memᴰ p.id ids))
unfolding allows
allows_iff ids [] = (λ h. cc, λ (p, m, a). absurd (Memᴰ.not-nil m))
allows_iff ids (p ∷ ps) = (
  λ h. elim (Bool-cases (p.is_intercept == 0)) [
    | inl e ↦ (p, Memᴰ.head refl, inl ((nat_beq_iff _ _).0 e))
    | inr e ↦ elim (Bool-cases (contains p.id ids)) [
      | inl c ↦ (p, Memᴰ.head refl, inr (mem-of_contains _ _ c))
      | inr c ↦ let (q, m, a) = (allows_iff ids ps).0 (ground arith) in (q, Memᴰ.tail m, a)
    ]
  ],
  λ (q, m, a). elim (Memᴰ.cases_cons m) [
    | inl e ↦ elim a [
      | inl z ↦
          let z' : p.is_intercept ≡ 0 = subst (λ r. r.is_intercept ≡ 0) e z in ground (arith, z')
      | inr c ↦
          let c' = contains_of_mem p.id ids (subst (λ r. Memᴰ r.id ids) e c) in ground (arith, c')
    ]
    | inr t ↦ let later = (allows_iff ids ps).1 (q, t, a) in ground (arith, later)
  ],
)

-- The rows of `CheckRoute` allow a route exactly if it is granted.
pub Granted-iff :
    (db : Db) (id method : ℕ) (path : String)
    → (allows
          (perms_reached db (menus_reached db (roles_of db id)))
          (filter (matches_route method path) db.perms)
        ≡ true)
      ↔ Granted db id method path
unfolding matches_route
Granted-iff db id method path = (
  λ h.
      let (p, m, a) = (allows_iff _ _).0 h in
      let (listed, t) = mem-of_filter (matches_route method path) db.perms m in
      let (t', meth) = and_parts t in
      let (active, route) = and_parts t' in
      record {
        perm = p;
        listed = listed;
        active = active;
        same_route = (eq_iff _ _).0 route;
        same_method = ground arith;
        allowed = elim a [ inl z ↦ inl z | inr c ↦ inr ((perms_reached_iff db id p.id).0 c) ];
      },
  λ g.
      let p = g.perm in
      let tested : (matches_route method path p ≡ true) =
        and_of (and_of g.active ((eq_iff _ _).1 g.same_route)) (ground (arith, g.same_method)) in
      (allows_iff _ _).1 (
        p,
        mem-filter_of (matches_route method path) db.perms g.listed tested,
        elim g.allowed [ inl z ↦ inl z | inr r ↦ inr ((perms_reached_iff db id p.id).1 r) ],
      ),
)
