-- ===== src/Handler/Data.antt =====
-- internal/handler/data_handler.go and apikey_handler.go: the handlers on users, devices and API
-- keys. `s` is the service, `id` is what `int64P` reads of the path, and not negative here; the
-- parameters of the query are texts.
use Prim.Native.String.{String}
use clip_sync_admin.Prelude.{
  ℕ, zero, suc, Bool, true, false, Option, none, some, List, length, ◌==◌, string_eq, if◌then◌else◌,
}
use clip_sync_admin.Prelude.Int.{ℤ, pos, negsuc}
use clip_sync_admin.Reply.{fail, code_param_error}
use clip_sync_admin.Model.{CreatedApiKey, ApiKeyView}
use clip_sync_admin.Middleware.Header.{parse_int}
use clip_sync_admin.Paging.{Page}
use clip_sync_admin.Users.{
  update_user, update_user_status, reset_user_password, delete_user, set_device_status,
  kick_device_now, delete_device_row, kick_user_now, DashboardStat, dashboard,
}
use clip_sync_admin.Users.Lists.{DataService, UserListVo, list_users, UserDetail, get_user_detail}
use clip_sync_admin.Users.Devices.{DeviceView, list_devices, list_all_devices}
use clip_sync_admin.Users.Forward.{
  create_user, rename_device, create_api_key, list_api_keys, revoke_api_key,
}
use clip_sync_admin.Handler.Respond.{Handled, respond, no_payload}
use clip_sync_admin.Handler.Params.{Bound, bind_or_fail, int_q}

-- `DataHandler.ListUsers`: `status` stands in for `disabled`, and -1 does not filter.
unfoldable pub list_users_handler :
    DataService → (keyword disabled status page size : String) → Handled (Page UserListVo)
unfolding list_users respond int_q
list_users_handler s keyword disabled status page size =
    respond
      (list_users s keyword (int_q status (int_q disabled (negsuc 0))) (int_q page (pos 1))
        (int_q size (pos 20)))
      some

-- `DataHandler.GetUser`
unfoldable pub get_user_handler : DataService → ℕ → Handled UserDetail
unfolding get_user_detail respond
get_user_handler s id = respond (get_user_detail s id) some

-- `updateUserReq`
pub record UpdateUserReq : Type 0 where
  pub username : String
  pub nickname : String
  pub status : ℕ

-- `DataHandler.UpdateUser`
unfoldable pub update_user_handler : ℕ → Bound UpdateUserReq → Handled (Unit {0})
unfolding bind_or_fail update_user respond
update_user_handler id body =
    bind_or_fail body
      λ req. respond (update_user id req.username req.nickname req.status) no_payload

-- `createUserReq`
pub record CreateUserReq : Type 0 where
  pub username : String
  pub nickname : String
  pub password : String

-- `DataHandler.CreateUser`
unfoldable pub create_user_handler : DataService → Bound CreateUserReq → Handled ℕ
unfolding bind_or_fail create_user respond
create_user_handler s body =
    bind_or_fail body
      λ req. respond (create_user s.kick req.username req.nickname req.password) some

-- `DataHandler.UpdateUserStatus`
unfoldable pub update_user_status_handler : DataService → ℕ → Bound ℕ → Handled (Unit {0})
unfolding bind_or_fail update_user_status respond
update_user_status_handler s id body =
    bind_or_fail body λ status. respond (update_user_status s.kick id status) no_payload

-- `DataHandler.ResetUserPassword`
unfoldable pub reset_user_password_handler : DataService → ℕ → Handled String
unfolding reset_user_password respond
reset_user_password_handler s id = respond (reset_user_password s.kick id) some

-- `DataHandler.DeleteUser`
unfoldable pub delete_user_handler : DataService → ℕ → Handled (Unit {0})
unfolding delete_user respond
delete_user_handler s id = respond (delete_user s.kick id) no_payload

-- `DataHandler.Dashboard`
unfoldable pub dashboard_handler : Handled DashboardStat
unfolding dashboard respond
dashboard_handler = respond dashboard some

-- `DataHandler.KickUserNow`
unfoldable pub kick_user_handler : DataService → ℕ → Handled (Unit {0})
unfolding kick_user_now respond
kick_user_handler s id = respond (kick_user_now s.kick id) no_payload

-- `DataHandler.ListDevices`
unfoldable pub list_devices_handler : DataService → ℕ → Handled (List DeviceView)
unfolding list_devices respond
list_devices_handler s id = respond (list_devices s id) some

unfoldable pub online_param : String → Option Bool
online_param s = if s == "true" then some true else if s == "false" then some false else none

abbrev or_zero_id : Option ℤ → ℕ
or_zero_id none = 0
or_zero_id (some (pos n)) = n
or_zero_id (some (negsuc n)) = 0

-- `user_id` of `ListAllDevices`: an id of 0 does not filter, and neither does a negative one.
unfoldable pub user_id_param : String → ℕ
unfolding parse_int
user_id_param s = if s == "" then 0 else or_zero_id (parse_int s)

-- `DataHandler.ListAllDevices`
unfoldable pub list_all_devices_handler :
    DataService → (keyword status online user_id page size : String) → Handled (Page DeviceView)
unfolding list_all_devices respond int_q online_param user_id_param
list_all_devices_handler s keyword status online user_id page size =
    respond
      (list_all_devices s keyword (int_q status (negsuc 0)) (online_param online)
        (user_id_param user_id) (int_q page (pos 1)) (int_q size (pos 20)))
      some

-- `if deviceID == "" { result.Fail(c, result.CodeParamError); return }`
unfoldable pub with_device : {B : Type 0} → String → Handled B → Handled B
unfolding fail
with_device did next env w = if did == "" then (fail code_param_error, w) else next env w

-- `DataHandler.SetDeviceStatus`
unfoldable pub set_device_status_handler :
    DataService → ℕ → String → Bound Bool → Handled (Unit {0})
unfolding bind_or_fail with_device set_device_status respond
set_device_status_handler s id did body =
    bind_or_fail body
      λ disabled. with_device did (respond (set_device_status s.kick id did disabled) no_payload)

-- `DataHandler.RenameDevice`
unfoldable pub rename_device_handler : DataService → ℕ → String → Bound String → Handled (Unit {0})
unfolding bind_or_fail with_device rename_device respond
rename_device_handler s id did body =
    bind_or_fail body
      λ name. with_device did (respond (rename_device s.kick id did name) no_payload)

-- `DataHandler.KickDevice`
unfoldable pub kick_device_handler : DataService → ℕ → String → Handled (Unit {0})
unfolding with_device kick_device_now respond
kick_device_handler s id did = with_device did (respond (kick_device_now s.kick id did) no_payload)

-- `DataHandler.DeleteDevice`
unfoldable pub delete_device_handler : DataService → ℕ → String → Handled (Unit {0})
unfolding with_device delete_device_row respond
delete_device_handler s id did =
    with_device did (respond (delete_device_row s.kick id did) no_payload)

-- `createAPIKeyReq`
pub record CreateApiKeyReq : Type 0 where
  pub name : String
  pub device_id : String
  pub expires_at : String

-- `DataHandler.CreateAPIKey`
unfoldable pub create_api_key_handler :
    DataService → ℕ → Bound CreateApiKeyReq → Handled CreatedApiKey
unfolding bind_or_fail create_api_key respond
create_api_key_handler s id body =
    bind_or_fail body
      λ req. respond (create_api_key s.kick id req.name req.device_id req.expires_at) some

pub record ApiKeyList : Type 0 where
  pub items : List ApiKeyView
  pub total : ℕ

abbrev key_list : List ApiKeyView → Option ApiKeyList
key_list items = some (record { items = items; total = length items })

-- `DataHandler.ListAPIKeys`, and `ListAllAPIKeys` for the id 0
unfoldable pub list_api_keys_handler : DataService → ℕ → Handled ApiKeyList
unfolding list_api_keys respond
list_api_keys_handler s id = respond (list_api_keys s.kick id) key_list

unfoldable pub list_all_api_keys_handler : DataService → Handled ApiKeyList
unfolding list_api_keys respond
list_all_api_keys_handler s = respond (list_api_keys s.kick 0) key_list

unfoldable pub revoke_parsed : DataService → Option ℤ → Handled (Unit {0})
unfolding revoke_api_key respond fail
revoke_parsed s (some (pos (suc n))) env w =
    respond (revoke_api_key s.kick (suc n)) no_payload env w
revoke_parsed s (some (pos zero)) env w = (fail code_param_error, w)
revoke_parsed s (some (negsuc n)) env w = (fail code_param_error, w)
revoke_parsed s none env w = (fail code_param_error, w)

-- `DataHandler.RevokeAPIKey`
unfoldable pub revoke_api_key_handler : DataService → String → Handled (Unit {0})
unfolding revoke_parsed parse_int
revoke_api_key_handler s key_id = revoke_parsed s (parse_int key_id)
