-- ===== src/Tests/Lists.antt =====
-- The theorems on the lists of users and devices, on what is forwarded to the Server, and on the
-- handlers' parameters and files, at concrete inputs.
use Prim.Native.String
use clip_sync_admin.Prelude.{
  ◌≡◌, ◌≤◌, ◌<◌, ◌^◌, refl, true, false, Option, some, none, [], ◌∷◌, arith, filter, length,
  sort_by,
}
use clip_sync_admin.Prelude.Int.{pos, negsuc}
use clip_sync_admin.Text.{trim_space, decimal}
use clip_sync_admin.Reply.{raw, ok, err, Outcome}
use clip_sync_admin.Model.{Device}
use clip_sync_admin.World.{Env, World, unreachable}
use clip_sync_admin.Paging.{Page, normalize, page_rows}
use clip_sync_admin.Notifier.{ServerNotifier}
use clip_sync_admin.Notifier.Server.{fetch_all_devices}
use clip_sync_admin.Users.Lists.{DataService, UserListVo, listed_user, newer_user, list_users}
use clip_sync_admin.Users.Lists.Correct.{owned_by, Shows, list_users-Shows}
use clip_sync_admin.Users.Devices.{DeviceView, listed_device, list_all_devices}
use clip_sync_admin.Users.Devices.Correct.{IsDbPage, list_all_devices-fallback}
use clip_sync_admin.Users.Forward.{create_user}
use clip_sync_admin.Users.Forward.Correct.{IsTaken, create_user-accepts}
use clip_sync_admin.Handler.Params.{uint_p}
use clip_sync_admin.Handler.Params.Correct.{uint_p-decimal}
use clip_sync_admin.Config.{UploadConfig}
use clip_sync_admin.Handler.Upload.{
  new_upload_handler, System, saved, cut_off as copy_fails, FileHeader, image,
}
use clip_sync_admin.Handler.Upload.Correct.{IsAnswered, image-stores}
use clip_sync_admin.Tests.Sample.{config, env, world}

abbrev link : ServerNotifier
link = record { cfg = config.server; has_rdb = true }

abbrev service : DataService
service = record { has_rdb = true; prefix = "clipsync:"; kick = some link }

abbrev laptop : Device
laptop = record {
  user_id = 3;
  device_id = "mac-1";
  role = "pc";
  platform = "mac";
  name = "laptop";
  last_ip = "";
  disabled = false;
  last_seen_at = 5;
  created_at = 0;
}

abbrev stocked : World
stocked = record world { db = record world.db { devices = laptop ∷ [] } }

-- The page that a result holds, if it holds one.
abbrev or_empty : {A : Type 0} → Outcome (Page A) → Page A
or_empty (ok p) = p
or_empty (err _) = record { list = []; total = 0; page = 0; page_size = 0 }

abbrev users_page : Page UserListVo
users_page = or_empty (list_users service "" (negsuc 0) (pos 1) (pos 20) env stocked).0

users_listed : (list_users service "" (negsuc 0) (pos 1) (pos 20) env stocked).0 ≡ ok users_page
unfolding list_users
users_listed = refl

list_users-Shows_example :
    let found = filter (listed_user env "" (negsuc 0)) stocked.db.users in
    (users_page.total ≡ length found)
    × Shows
        (λ u. owned_by stocked.db.devices u.id)
        (page_rows 1 20 (sort_by newer_user found))
        users_page.list
unfolding normalize
list_users-Shows_example =
    list_users-Shows env stocked service "" (negsuc 0) (pos 1) (pos 20) users_page (λ n. refl)
      users_listed

-- A Server that does not answer.
abbrev cut_off : Env
cut_off = record env { http_do = λ _ _. unreachable "refused" }

abbrev devices_page : Page DeviceView
devices_page =
    or_empty
      (list_all_devices service "" (negsuc 0) (some true) 0 (pos 1) (pos 20) cut_off stocked).0

no_answer :
    (fetch_all_devices link "" none (some true) 0 1 20 cut_off stocked).0
    ≡ err (raw "请求 Server 失败: refused")
unfolding fetch_all_devices
no_answer = refl

devices_listed :
    (list_all_devices service "" (negsuc 0) (some true) 0 (pos 1) (pos 20) cut_off stocked).0
    ≡ ok devices_page
unfolding list_all_devices
devices_listed = refl

list_all_devices-fallback_example :
    IsDbPage
      (filter (listed_device cut_off stocked.db "" (negsuc 0) 0) stocked.db.devices)
      1
      20
      devices_page
unfolding normalize
list_all_devices-fallback_example =
    list_all_devices-fallback cut_off stocked service link "" (negsuc 0) (pos 1) (pos 20)
      (some true) 0 (raw "请求 Server 失败: refused") devices_page refl no_answer devices_listed

ann_created : (create_user (some link) " ann " "" "secret" env world).0 ≡ ok 9
unfolding create_user
ann_created = refl

create_user-accepts_example :
    (3 ≤ String.count (trim_space " ann "))
    × (String.count (trim_space " ann ") ≤ 32)
    × (String.count (trim_space "") ≤ 32)
    × (6 ≤ String.len "secret")
    × ((n : ServerNotifier) × (some link ≡ some n)
        × IsTaken n
            (trim_space " ann ")
            (trim_space "")
            "secret"
            env
            world
            (create_user (some link) " ann " "" "secret" env world).1)
create_user-accepts_example =
    create_user-accepts env world (some link) " ann " "" "secret" 9 ann_created

uint_p-decimal_example : (uint_p (decimal 1205) ≡ 1205) × (uint_p "12x" < 2 ^ 64)
uint_p-decimal_example = uint_p-decimal 1205 "12x" (omega arith)

abbrev uploads : UploadConfig
uploads = record { dir = ""; url_prefix = "/files/"; max_size = pos 0; allow_ext = "PNG" ∷ [] }

abbrev system : System
system = record { mkdir = λ _. none; save = λ _. saved; date = λ _. (1970, 1, 1); quote = λ s. s }

abbrev picture : Option FileHeader
picture = some (record { filename = "a.b.Png"; size = pos 12 })

image-stores_example :
    IsAnswered
      (new_upload_handler uploads)
      system
      picture
      env
      world
      []
      (image (new_upload_handler uploads) system picture env world [])
image-stores_example = image-stores uploads system picture env world []

-- The file of the example is stored.
picture_stored :
    (image (new_upload_handler uploads) system picture env world []).1
    ≡ record { path = "1970/01/01/new.png"; whole = true } ∷ []
unfolding image new_upload_handler
picture_stored = refl

-- A disk that is full after the file was made.
abbrev full : System
full = record system { save = λ _. copy_fails "no space left on device" }

picture_cut :
    (image (new_upload_handler uploads) full picture env world []).1
    ≡ record { path = "1970/01/01/new.png"; whole = false } ∷ []
unfolding image new_upload_handler
picture_cut = refl
