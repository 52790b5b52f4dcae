-- ===== src/Users/Lists/Correct.antt =====
-- The list of users of internal/service/data_service.go: the rows that it shows and their counts.
use mathlib.Core.Path.{subst}
use mathlib.Core.List.{Memᴰ}
use mathlib.Core.List.Memᴰ
use clip_sync_admin.Prelude.{
  ℕ, ◌+◌, ◌≡◌, ◌∙◌, refl, ap, String, true, none, List, [], ◌∷◌, map, filter, length, contains,
  sort_by, arith, inl, inr, Bool-cases, ◌==◌, nat_eq, nat_beq_iff,
}
use clip_sync_admin.Prelude.Int.{ℤ}
use clip_sync_admin.Reply.{ok}
use clip_sync_admin.Model.{User, Device}
use clip_sync_admin.World.{Env, World, tick}
use clip_sync_admin.World.Inversion.{Outcome-cases}
use clip_sync_admin.Paging.{Page, normalize, page_rows}
use clip_sync_admin.Users.Lists.{
  DataService, UserListVo, listed_user, newer_user, devices_of, online_count, user_rows,
  list_users_page, list_users,
}

-- The number of the devices of a user.
abbrev pub owned_by : List Device → ℕ → ℕ
owned_by ds id = length (filter (λ d. d.user_id == id) ds)

-- What the devices of some users are, counted for one of them.
owned_by-filter :
    (ids : List ℕ) (id : ℕ) (ds : List Device)
    → contains id ids ≡ true
    → owned_by (filter (λ d. contains d.user_id ids) ds) id ≡ owned_by ds id
owned_by-filter ids id [] h = refl
owned_by-filter ids id (d ∷ ds) h = elim (Bool-cases (d.user_id == id)) [
  | inl same ↦
      let e : d.user_id ≡ id = (nat_beq_iff d.user_id id).0 same in
      ground (arith, same, h, ap (λ k. contains k ids) e, owned_by-filter ids id ds h)
  | inr other ↦ ground (arith, other, owned_by-filter ids id ds h)
]

-- The rows of the list show their users in order, each with the count of its devices.
abbrev pub Shows : (User → ℕ) → List User → List UserListVo → Type 0
Shows f us vs =
    (map (λ v. v.id) vs ≡ map (λ u. u.id) us) × (map (λ v. v.device_count) vs ≡ map f us)

user_rows-ok :
    (s : DataService) (ds : List Device) (us : List User) (env : Env) (w : World)
    (vs : List UserListVo)
    → (user_rows s ds us env w).0 ≡ ok vs
    → Shows (λ u. owned_by ds u.id) us vs
unfolding user_rows
user_rows-ok s ds [] env w vs h = (ground (arith, h), ground (arith, h))
user_rows-ok s ds (u ∷ us) env w vs h =
    let counted = online_count s u.id env w in
    elim (Outcome-cases counted.0) [
      | inr (x, bad) ↦ absurd (ground (arith, h, bad))
      | inl (online, e) ↦ elim (Outcome-cases (user_rows s ds us env counted.1).0) [
        | inr (x, bad) ↦ absurd (ground (arith, h, e, bad))
        | inl (rest, good) ↦
            let (ids, counts) = user_rows-ok s ds us env counted.1 rest good in
            (ground (arith, h, e, good, ids), ground (arith, h, e, good, counts))
      ]
    ]

contains-ids : (u : User) (us : List User) → Memᴰ u us → contains u.id (map (λ v. v.id) us) ≡ true
contains-ids u [] m = absurd (Memᴰ.not-nil m)
contains-ids u (v ∷ us) m = elim (Memᴰ.cases_cons m) [
  | inl e ↦ ground (arith, ap (λ (x : User). x.id) e)
  | inr t ↦ ground (arith, contains-ids u us t)
]

counts_agree :
    (ids : List ℕ) (ds : List Device) (us : List User)
    → ((u : User) → Memᴰ u us → contains u.id ids ≡ true)
    → map (λ u. owned_by (filter (λ d. contains d.user_id ids) ds) u.id) us
      ≡ map (λ u. owned_by ds u.id) us
counts_agree ids ds [] all = refl
counts_agree ids ds (u ∷ us) all = ground (
  arith,
  owned_by-filter ids u.id ds (all u (Memᴰ.head refl)),
  counts_agree ids ds us (λ v m. all v (Memᴰ.tail m)),
)

devices_of-ok :
    (ids : List ℕ) (env : Env) (w : World) (ds : List Device)
    → ((n : ℕ) → env.fault n ≡ none)
    → (devices_of ids env w).0 ≡ ok ds
    → (us : List User) → map (λ u. u.id) us ≡ ids
    → map (λ u. owned_by ds u.id) us ≡ map (λ u. owned_by w.db.devices u.id) us
unfolding devices_of
devices_of-ok ids env w ds up h [] e = refl
devices_of-ok [] env w ds up h (u ∷ us) e = cc
devices_of-ok (i ∷ ids) env w ds up h (u ∷ us) e =
    let got : filter (λ d. contains d.user_id (i ∷ ids)) w.db.devices ≡ ds =
      ground (arith, up w.calls, h) in
    subst
      (λ xs. map (λ v. owned_by xs v.id) (u ∷ us) ≡ map (λ v. owned_by w.db.devices v.id) (u ∷ us))
      got
      (counts_agree (i ∷ ids) w.db.devices (u ∷ us)
        (λ v m. subst (λ k. contains v.id k ≡ true) e (contains-ids v (u ∷ us) m)))

list_users_page-Shows :
    (env : Env) (w : World) (s : DataService) (keyword : String) (disabled : ℤ) (page size : ℕ)
    (p : Page UserListVo)
    → ((n : ℕ) → env.fault n ≡ none)
    → (list_users_page s keyword disabled page size env w).0 ≡ ok p
    → let found = filter (listed_user env keyword disabled) w.db.users in
      (p.total ≡ length found)
      × Shows
          (λ u. owned_by w.db.devices u.id)
          (page_rows page size (sort_by newer_user found))
          p.list
unfolding list_users_page
list_users_page-Shows env w s keyword disabled page size p up h =
    let found = filter (listed_user env keyword disabled) w.db.users in
    let shown = page_rows page size (sort_by newer_user found) in
    let w2 = tick (tick w) in
    let owned = devices_of (map (λ u. u.id) shown) env w2 in
    elim (Outcome-cases owned.0) [
      | inr (x, bad) ↦ absurd (ground (arith, h, up w.calls, up (w.calls + 1), bad))
      | inl (ds, e) ↦ elim (Outcome-cases (user_rows s ds shown env owned.1).0) [
        | inr (x, bad) ↦ absurd (ground (arith, h, up w.calls, up (w.calls + 1), e, bad))
        | inl (vs, good) ↦
            let (ids, counts) = user_rows-ok s ds shown env owned.1 vs good in
            let exact = devices_of-ok (map (λ u. u.id) shown) env w2 ds up e shown refl in
            let same : ok
                  (record { list = vs; total = length found; page = page; page_size = size })
                ≡ ok p =
              ground (arith, h, up w.calls, up (w.calls + 1), e, good) in
            let rows : p.list ≡ vs = ground (arith, same) in
            (
              ground (arith, same),
              (
                ap (map (λ v. v.id)) rows ∙ ids,
                ap (map (λ v. v.device_count)) rows ∙ counts ∙ exact,
              ),
            )
      ]
    ]

-- Where the database answers, `ListUsers` shows the page of the users that the keyword and the status
-- select, by falling ids, each with the number of its devices, and tells how many there are in all;
-- Redis may fail.
pub list_users-Shows :
    (env : Env) (w : World) (s : DataService) (keyword : String) (disabled page0 size0 : ℤ)
    (p : Page UserListVo)
    → ((n : ℕ) → env.fault n ≡ none)
    → (list_users s keyword disabled page0 size0 env w).0 ≡ ok p
    → let (page, size) = normalize page0 size0 in
      let found = filter (listed_user env keyword disabled) w.db.users in
      (p.total ≡ length found)
      × Shows
          (λ u. owned_by w.db.devices u.id)
          (page_rows page size (sort_by newer_user found))
          p.list
unfolding list_users
list_users-Shows env w s keyword disabled page0 size0 p up h =
    let (page, size) = normalize page0 size0 in
    list_users_page-Shows env w s keyword disabled page size p up h
