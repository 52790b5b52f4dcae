-- ===== src/Users/Devices/Correct.antt =====
-- The list of all devices of internal/service/data_service.go where the Server does not answer.
use clip_sync_admin.Prelude.{
  ℕ, ◌≡◌, refl, ap, String, Bool, false, Option, some, List, [], ◌∷◌, map, All, filter, length,
  sort_by, arith, inl, inr, Option-cases,
}
use mathlib.Core.Path.{subst}
use clip_sync_admin.Prelude.Int.{ℤ}
use clip_sync_admin.Reply.{Error, ok, err}
use clip_sync_admin.Model.{Device, Db}
use clip_sync_admin.World.{Env, World, tick}
use clip_sync_admin.Paging.{Page, normalize, page_rows}
use clip_sync_admin.Notifier.{ServerNotifier}
use clip_sync_admin.Notifier.Server.{fetch_all_devices, get_json}
use clip_sync_admin.Users.Lists.{DataService}
use clip_sync_admin.Users.Devices.{
  DeviceView, seen_later, listed_device, owner_name, list_all_db, disabled_param, after_fetch_all,
  list_all_with, list_all_devices,
}

-- A query of the Server leaves the database as it is.
fetch_all_devices-Quiet :
    (n : ServerNotifier) (keyword : String) (disabled online : Option Bool) (user_id page size : ℕ)
    (env : Env) (w : World)
    → (fetch_all_devices n keyword disabled online user_id page size env w).1.db ≡ w.db
unfolding fetch_all_devices get_json
fetch_all_devices-Quiet n keyword disabled online user_id page size env w = ground arith

module _ (name : Device → String) where
  view : Device → DeviceView
  view d = record { device = d; username = name d; online = false }

  view-device : (ds : List Device) → map (λ v. v.device) (map view ds) ≡ ds
  unfolding view
  view-device [] = refl
  view-device (d ∷ ds) = ap (λ xs. d ∷ xs) (view-device ds)

  view-offline : (ds : List Device) → All (λ v. v.online ≡ false) (map view ds)
  unfolding view
  view-offline [] = tt
  view-offline (d ∷ ds) = (refl, view-offline ds)

-- What a page of the database shows: the rows of the query, all of them offline.
pub record IsDbPage (rows : List Device) (page size : ℕ) (p : Page DeviceView) : Type 0 where
  pub total : p.total ≡ length rows
  pub shown : map (λ v. v.device) p.list ≡ page_rows page size (sort_by seen_later rows)
  pub offline : All (λ v. v.online ≡ false) p.list

abbrev db_page : Db → List Device → ℕ → ℕ → Page DeviceView
db_page db rows page size = record {
  list =
      map (λ d. record { device = d; username = owner_name db d; online = false })
        (page_rows page size (sort_by seen_later rows));
  total = length rows;
  page = page;
  page_size = size;
}

db_page-IsDbPage :
    (db : Db) (rows : List Device) (page size : ℕ)
    → IsDbPage rows page size (db_page db rows page size)
unfolding view
db_page-IsDbPage db rows page size =
    let ds = page_rows page size (sort_by seen_later rows) in
    record {
      total = refl;
      shown = view-device (owner_name db) ds;
      offline = view-offline (owner_name db) ds;
    }

list_all_db-IsDbPage :
    (keyword : String) (disabled : ℤ) (user_id page size : ℕ) (env : Env) (w : World)
    (p : Page DeviceView)
    → (list_all_db keyword disabled user_id page size env w).0 ≡ ok p
    → IsDbPage (filter (listed_device env w.db keyword disabled user_id) w.db.devices) page size p
unfolding list_all_db
list_all_db-IsDbPage keyword disabled user_id page size env w p h =
    let rows = filter (listed_device env w.db keyword disabled user_id) w.db.devices in
    elim (Option-cases (env.fault w.calls)) [
      | inr (x, down) ↦ absurd (ground (arith, h, down))
      | inl up ↦ elim (Option-cases (env.fault (tick w).calls)) [
        | inr (x, down) ↦ absurd (ground (arith, h, up, down))
        | inl up' ↦
            subst (IsDbPage rows page size) (ground (arith, h, up, up'))
              (db_page-IsDbPage w.db rows page size)
      ]
    ]

-- Where the Server is linked and its answer is an error, a list that `ListAllDevices` gives is the
-- page of the database's devices that the keyword, the status and the user select, in the order of
-- the time when they were seen. The filter on `online` has no part in it, and every device of the
-- list is shown as offline.
pub list_all_devices-fallback :
    (env : Env) (w : World) (s : DataService) (n : ServerNotifier) (keyword : String)
    (disabled page0 size0 : ℤ) (online : Option Bool) (user_id : ℕ) (x : Error)
    (p : Page DeviceView)
    → s.kick ≡ some n
    → let (page, size) = normalize page0 size0 in
      (fetch_all_devices n keyword (disabled_param disabled) online user_id page size env w).0
        ≡ err x
      → (list_all_devices s keyword disabled online user_id page0 size0 env w).0 ≡ ok p
      → let (page, size) = normalize page0 size0 in
        IsDbPage (filter (listed_device env w.db keyword disabled user_id) w.db.devices) page size p
unfolding list_all_devices list_all_with after_fetch_all
list_all_devices-fallback env w s n keyword disabled page0 size0 online user_id x p linked down h =
    let (page, size) = normalize page0 size0 in
    let fetch = fetch_all_devices n keyword (disabled_param disabled) online user_id page size in
    let w1 = (fetch env w).1 in
    let quiet =
      fetch_all_devices-Quiet n keyword (disabled_param disabled) online user_id page size env w in
    let e : (list_all_db keyword disabled user_id page size env w1).0 ≡ ok p =
      ground (arith, h, linked, down) in
    subst
      (λ db.
        IsDbPage (filter (listed_device env db keyword disabled user_id) db.devices) page size p)
      quiet (list_all_db-IsDbPage keyword disabled user_id page size env w1 p e)
