-- ===== src/Users/Lists.antt =====
-- internal/service/data_service.go: the lists of users and devices that the administrators see. What
-- MySQL leaves open, the order of rows that are equal in ORDER BY, is the order of the table here.
pub mod Correct
use Prim.Native.Char.{code}
use Prim.Native.String.{◌++◌}
use Prim.Native.String
use clip_sync_admin.Prelude.{
  ℕ, String, Bool, true, not, ◌&&◌, ◌||◌, Option, List, [], ◌∷◌, map, filter, length, contains, ltb,
  sort_by, ◌==◌, nat_eq, string_eq, if◌then◌else◌,
}
use clip_sync_admin.Prelude.Int.{ℤ, pos, negsuc}
use clip_sync_admin.Text.{decimal, lower, begins}
use clip_sync_admin.Reply.{raw}
use clip_sync_admin.Model.{User, Device}
use clip_sync_admin.World.{
  Env, M, tick, pure, asks, or_zero, ◌>>=◌, ◌>>◌, select, count, db_error, users, devices,
}
use clip_sync_admin.Paging.{Page, normalize, page_rows}
use clip_sync_admin.Notifier.{ServerNotifier}
use clip_sync_admin.Users.{get_user}

-- `AdminDataService`, without its database.
pub record DataService : Type 0 where
  pub has_rdb : Bool
  pub prefix : String
  pub kick : Option ServerNotifier

-- `NewAdminDataService`
unfoldable pub new_data_service : Bool → String → Option ServerNotifier → DataService
new_data_service has_rdb key_prefix kick = record {
  has_rdb = has_rdb;
  prefix = if key_prefix == "" then "clipsync:" else key_prefix;
  kick = kick;
}

-- `onlineKey`
unfoldable pub online_key : DataService → ℕ → String
unfolding decimal
online_key s user_id = s.prefix ++ ("online:" ++ decimal user_id)

-- `rdb.HGetAll`
abbrev pub h_get_all : String → M (List (String × String))
h_get_all key env w = (env.hget_all w.calls key, tick w)

-- `isWindowsGUID`; a position counts bytes.
abbrev is_dash : String → ℕ → Bool
is_dash id i = code (String.char_at id i) == b'-'

unfoldable pub is_windows_guid : String → Bool
is_windows_guid id =
    String.len id == 36 && is_dash id 8 && is_dash id 13 && is_dash id 18 && is_dash id 23

-- `platformFromDeviceID`
unfoldable pub platform_from_device_id : String → String
unfolding lower begins is_windows_guid
platform_from_device_id id =
    let low = lower id in
    if begins low "mac-" || begins low "imac" || begins low "macbook"
    then "mac"
    else if begins low "win-" || begins low "desktop" || is_windows_guid id
    then "windows"
    else if begins low "android-"
        || begins low "samsung"
        || begins low "xiaomi"
        || begins low "huawei"
    then "android"
    else if begins low "ios-" || begins low "iphone" || begins low "ipad"
    then "ios"
    else "unknown"

pub record OnlineDevice : Type 0 where
  pub device_id : String
  pub role : String
  pub platform : String

abbrev online_device : String × String → OnlineDevice
online_device (id, role) = record {
  device_id = id;
  role = role;
  platform = platform_from_device_id id;
}

-- `GetOnlineDevices`: no list where Redis is not there or fails.
unfoldable pub get_online_devices : DataService → ℕ → M (List OnlineDevice)
unfolding online_key platform_from_device_id
get_online_devices s user_id =
    if s.has_rdb
    then or_zero [] (do m ← h_get_all (online_key s user_id); pure (map online_device m))
    else pure []

pub record UserDetail : Type 0 where
  pub user : User
  pub online_devices : List OnlineDevice

-- `GetUserDetail`
unfoldable pub get_user_detail : DataService → ℕ → M UserDetail
unfolding get_user get_online_devices
get_user_detail s id = do
  u ← get_user id
  online ← get_online_devices s id
  pure (record { user = u; online_devices = online })

pub record UserListVo : Type 0 where
  pub id : ℕ
  pub username : String
  pub disabled : Bool
  pub created_at : String
  pub updated_at : String
  pub device_count : ℕ
  pub online_count : ℕ

-- The condition of `ListUsers`; a `disabled` below 0 does not filter.
abbrev pub listed_user : Env → String → ℤ → User → Bool
listed_user env keyword (pos n) u =
    (if keyword == "" then true else env.like ("%" ++ (keyword ++ "%")) u.username)
    && u.disabled == n
listed_user env keyword (negsuc n) u =
    if keyword == "" then true else env.like ("%" ++ (keyword ++ "%")) u.username

abbrev pub newer_user : User → User → Bool
newer_user a b = ltb b.id a.id

-- The devices of some users, for `COUNT(*) ... GROUP BY user_id`; an error leaves the counts at 0.
unfoldable pub devices_of : List ℕ → M (List Device)
devices_of [] = pure []
devices_of (id ∷ ids) = or_zero [] (select devices raw (λ d. contains d.user_id (id ∷ ids)))

unfoldable pub online_count : DataService → ℕ → M ℕ
unfolding online_key
online_count s user_id =
    if s.has_rdb
    then or_zero 0 (do m ← h_get_all (online_key s user_id); pure (length m))
    else pure 0

-- The loop that builds the rows of the list.
unfoldable pub user_rows : DataService → List Device → List User → M (List UserListVo)
unfolding online_count
user_rows s owned [] = pure []
user_rows s owned (u ∷ us) = do
  online ← online_count s u.id
  format ← asks (λ env. env.format_time)
  rest ← user_rows s owned us
  pure (
      record {
        id = u.id;
        username = u.username;
        disabled = not (u.disabled == 0);
        created_at = format u.created_at;
        updated_at = format u.updated_at;
        device_count = length (filter (λ d. d.user_id == u.id) owned);
        online_count = online;
      }
      ∷ rest)

-- `ListUsers`, with a page and a size that are normal.
unfoldable pub list_users_page : DataService → String → ℤ → ℕ → ℕ → M (Page UserListVo)
unfolding page_rows devices_of user_rows
list_users_page s keyword disabled page size = do
  p ← asks (λ env. listed_user env keyword disabled)
  total ← count users db_error p
  found ← select users db_error p
  let shown = page_rows page size (sort_by newer_user found)
  owned ← devices_of (map (λ u. u.id) shown)
  rows ← user_rows s owned shown
  pure (record { list = rows; total = total; page = page; page_size = size })

-- `ListUsers`
unfoldable pub list_users : DataService → String → ℤ → ℤ → ℤ → M (Page UserListVo)
unfolding normalize list_users_page
list_users s keyword disabled page0 size0 =
    let (page, size) = normalize page0 size0 in list_users_page s keyword disabled page size
