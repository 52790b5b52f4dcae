-- ===== src/Users/Devices.antt =====
-- internal/service/data_service.go: the lists of devices. The Server is asked first, and the database
-- where it is not linked or its answer is an error. A time that is not parsed is 0.
pub mod Correct
use Prim.Native.String.{◌++◌}
use clip_sync_admin.Prelude.{
  ℕ, String, Bool, true, false, not, ◌&&◌, ◌||◌, Option, none, some, List, [], map, filter, any,
  head?, ltb, sort_by, ◌==◌, nat_eq, string_eq, if◌then◌else◌,
}
use clip_sync_admin.Prelude.Int.{ℤ, pos, negsuc}
use clip_sync_admin.Text.{trim_space}
use clip_sync_admin.Reply.{Outcome, ok, err}
use clip_sync_admin.Model.{User, Device, ServerDevice, Db}
use clip_sync_admin.World.{
  Env, M, pure, asks, gets, or_zero, attempt, ◌>>=◌, ◌>>◌, select, count, db_error, devices,
}
use clip_sync_admin.Paging.{Page, normalize, page_rows}
use clip_sync_admin.Notifier.{ServerNotifier}
use clip_sync_admin.Notifier.Server.{fetch_devices, fetch_all_devices}
use clip_sync_admin.Users.Lists.{DataService, online_key, h_get_all}

-- A `Device` of the source with its fields that are no columns.
pub record DeviceView : Type 0 where
  pub device : Device
  pub username : String
  pub online : Bool

abbrev or_no_time : Option ℕ → ℕ
or_no_time none = 0
or_no_time (some t) = t

abbrev bool_of : Option Bool → Bool → Bool
bool_of none d = d
bool_of (some b) d = b

unfoldable pub of_server : (String → Option ℕ) → ServerDevice → DeviceView
of_server parse_time d = record {
  device = record {
    user_id = d.user_id;
    device_id = d.device_id;
    role = d.role;
    platform = d.platform;
    name = d.name;
    last_ip = d.last_ip;
    disabled = d.disabled;
    last_seen_at = or_no_time (parse_time d.last_seen_at);
    created_at = or_no_time (parse_time d.created_at);
  };
  username = d.username;
  online = d.online;
}

abbrev pub seen_later : Device → Device → Bool
seen_later a b = ltb b.last_seen_at a.last_seen_at

-- `getOnlineDeviceIDs`: no ids where Redis is not there or fails.
unfoldable pub get_online_device_ids : DataService → ℕ → M (List String)
unfolding online_key
get_online_device_ids s user_id =
    if s.has_rdb
    then or_zero [] (do m ← h_get_all (online_key s user_id); pure (map (λ p. p.0) m))
    else pure []

-- `ListDevices` from the database.
unfoldable pub list_devices_db : DataService → ℕ → M (List DeviceView)
unfolding get_online_device_ids
list_devices_db s user_id = do
  rows ← select devices db_error (λ d. d.user_id == user_id)
  online ← get_online_device_ids s user_id
  pure (
      map (λ d. record { device = d; username = ""; online = any (λ k. k == d.device_id) online })
        (sort_by seen_later rows))

-- `ListDevices`, from what the Server has answered.
unfoldable pub after_fetch : DataService → ℕ → Outcome (List ServerDevice) → M (List DeviceView)
unfolding of_server list_devices_db
after_fetch s user_id (ok list) = do
  parse ← asks (λ env. env.parse_time)
  pure (map (of_server parse) list)
after_fetch s user_id (err e) = list_devices_db s user_id

unfoldable pub list_devices_with : DataService → Option ServerNotifier → ℕ → M (List DeviceView)
unfolding after_fetch fetch_devices list_devices_db
list_devices_with s none user_id = list_devices_db s user_id
list_devices_with s (some n) user_id = attempt (fetch_devices n user_id) >>= after_fetch s user_id

-- `ListDevices`
unfoldable pub list_devices : DataService → ℕ → M (List DeviceView)
unfolding list_devices_with
list_devices s user_id = list_devices_with s s.kick user_id

-- The user name of a device, by the LEFT JOIN; no user is the empty text.
abbrev pub owner_name : Db → Device → String
owner_name db d = elim (head? (filter (λ (u : User). u.id == d.user_id) db.users)) [
  | some u ↦ u.username
  | none ↦ ""
]

-- A LIKE on the user name, which is NULL and so not true for a device without a user.
abbrev owner_like : Env → Db → String → Device → Bool
owner_like env db pattern d = elim (head? (filter (λ (u : User). u.id == d.user_id) db.users)) [
  | some u ↦ env.like pattern u.username
  | none ↦ false
]

abbrev pub matches_keyword : Env → Db → String → Device → Bool
matches_keyword env db keyword d =
    let kw = trim_space keyword in
    let pattern = "%" ++ (kw ++ "%") in
    if kw == ""
    then true
    else owner_like env db pattern d
      || env.like pattern d.device_id
      || env.like pattern d.name
      || env.like pattern d.last_ip

abbrev pub has_status : ℤ → Device → Bool
has_status (pos n) d = if d.disabled then n == 1 else n == 0
has_status (negsuc n) d = true

-- The condition of `ListAllDevices` on the database: `online` is not part of it.
abbrev pub listed_device : Env → Db → String → ℤ → ℕ → Device → Bool
listed_device env db keyword disabled user_id d =
    matches_keyword env db keyword d
    && has_status disabled d
    && (if ltb 0 user_id then d.user_id == user_id else true)

-- `ListAllDevices` from the database, with a page and a size that are normal.
unfoldable pub list_all_db : String → ℤ → ℕ → ℕ → ℕ → M (Page DeviceView)
unfolding page_rows trim_space
list_all_db keyword disabled user_id page size = do
  db ← gets (λ w. w.db)
  p ← asks (λ env. listed_device env db keyword disabled user_id)
  total ← count devices db_error p
  rows ← select devices db_error p
  pure (record {
    list =
        map (λ d. record { device = d; username = owner_name db d; online = false })
          (page_rows page size (sort_by seen_later rows));
    total = total;
    page = page;
    page_size = size;
  })

abbrev pub disabled_param : ℤ → Option Bool
disabled_param (pos n) = some (not (n == 0))
disabled_param (negsuc n) = none

unfoldable pub after_fetch_all :
    (keyword : String)
    → (disabled : ℤ) → (user_id page size : ℕ) → Outcome (List ServerDevice × ℕ)
    → M (Page DeviceView)
unfolding of_server list_all_db
after_fetch_all keyword disabled user_id page size (ok (list, total)) = do
  parse ← asks (λ env. env.parse_time)
  pure (record { list = map (of_server parse) list; total = total; page = page; page_size = size })
after_fetch_all keyword disabled user_id page size (err e) =
    list_all_db keyword disabled user_id page size

unfoldable pub list_all_with :
    Option ServerNotifier → String → ℤ → Option Bool → ℕ → ℕ → ℕ → M (Page DeviceView)
unfolding after_fetch_all fetch_all_devices list_all_db
list_all_with none keyword disabled online user_id page size =
    list_all_db keyword disabled user_id page size
list_all_with (some n) keyword disabled online user_id page size =
    attempt (fetch_all_devices n keyword (disabled_param disabled) online user_id page size)
    >>= after_fetch_all keyword disabled user_id page size

-- `ListAllDevices`
unfoldable pub list_all_devices :
    DataService → String → ℤ → Option Bool → ℕ → ℤ → ℤ → M (Page DeviceView)
unfolding list_all_with normalize
list_all_devices s keyword disabled online user_id page0 size0 =
    let (page, size) = normalize page0 size0 in
    list_all_with s.kick keyword disabled online user_id page size
