-- ===== src/Users/Forward.antt =====
-- internal/service/data_service.go: the operations that check their input and leave the rest to the
-- Server, on users, names of devices, and API keys.
pub mod Correct
use Prim.Native.String
use clip_sync_admin.Prelude.{
  ℕ, String, Option, none, some, ltb, ◌||◌, ◌==◌, string_eq, if◌then◌else◌, List,
}
use text.Mathlib.Text.{find?}
use clip_sync_admin.Text.{trim_space}
use clip_sync_admin.Reply.{error_text, biz, Outcome, ok, err, code_param_error, code_internal_error}
use clip_sync_admin.Model.{CreatedUser, CreatedApiKey, ApiKeyView}
use clip_sync_admin.World.{M, pure, raise, lift, fail_if, asks, attempt, ◌>>=◌, ◌>>◌}
use clip_sync_admin.Session.{wrap_error}
use clip_sync_admin.Notifier.{ServerNotifier}
use clip_sync_admin.Notifier.Server.{
  server_create_user, server_rename_device, server_create_api_key, server_list_api_keys,
  server_revoke_api_key,
}

-- What `CreateUser` makes of the Server's answer.
unfoldable pub user_verdict : Outcome CreatedUser → Outcome ℕ
user_verdict (ok u) = ok u.id
user_verdict (err e) = elim (find? (error_text e) "用户名已存在") [
  | some _ ↦ err (biz code_param_error "用户名已存在")
  | none ↦ err (biz code_internal_error (error_text e))
]

unfoldable pub forward_user : Option ServerNotifier → String → String → String → M ℕ
unfolding user_verdict server_create_user
forward_user none username nickname password =
    raise (biz code_internal_error "未配置 Server 联动，无法创建用户")
forward_user (some n) username nickname password =
    attempt (server_create_user n username nickname password) >>= λ r. lift (user_verdict r)

-- `CreateUser`: the lengths of the names are in code points, that of the password in bytes.
unfoldable pub create_user : Option ServerNotifier → String → String → String → M ℕ
unfolding forward_user trim_space
create_user kick username0 nickname0 password = do
  let username = trim_space username0
  let nickname = trim_space nickname0
  fail_if (ltb (String.count username) 3 || ltb 32 (String.count username))
      (biz code_param_error "用户名长度需为 3-32 个字符")
  fail_if (ltb 32 (String.count nickname)) (biz code_param_error "昵称不能超过 32 个字符")
  fail_if (ltb (String.len password) 6) (biz code_param_error "密码长度至少 6 位")
  forward_user kick username nickname password

unfoldable pub forward_name : Option ServerNotifier → ℕ → String → String → M (Unit {0})
unfolding server_rename_device
forward_name none user_id device_id name = raise (biz code_internal_error "未配置 Server 联动，无法重命名设备")
forward_name (some n) user_id device_id name =
    wrap_error code_internal_error (server_rename_device n user_id device_id name)

-- `RenameDevice`
unfoldable pub rename_device : Option ServerNotifier → ℕ → String → String → M (Unit {0})
unfolding forward_name trim_space
rename_device kick user_id device_id name0 = do
  let name = trim_space name0
  fail_if (name == "") (biz code_param_error "设备名称不能为空")
  fail_if (ltb 32 (String.count name)) (biz code_param_error "设备名称不能超过 32 个字符")
  forward_name kick user_id device_id name

abbrev check_expiry : String → M (Unit {0})
check_expiry expires_at = do
  parse ← asks (λ env. env.parse_time)
  if expires_at == "" then pure tt else elim (parse expires_at) [
    | some _ ↦ pure tt
    | none ↦ raise (biz code_param_error "过期时间需为 RFC3339 格式，或留空表示无限期")
  ]

-- `CreateAPIKey`
unfoldable pub create_api_key :
    Option ServerNotifier → ℕ → String → String → String → M CreatedApiKey
unfolding server_create_api_key trim_space
create_api_key none user_id name device_id expires_at =
    raise (biz code_internal_error "未配置 Server 联动，无法创建 API Key")
create_api_key (some n) user_id name device_id expires_at = do
  check_expiry (trim_space expires_at)
  wrap_error code_internal_error (
      server_create_api_key n user_id (trim_space name) (trim_space device_id)
        (trim_space expires_at))

-- `ListAPIKeys`
unfoldable pub list_api_keys : Option ServerNotifier → ℕ → M (List ApiKeyView)
unfolding server_list_api_keys
list_api_keys none user_id = raise (biz code_internal_error "未配置 Server 联动，无法获取 API Key 列表")
list_api_keys (some n) user_id = wrap_error code_internal_error (server_list_api_keys n user_id)

-- `RevokeAPIKey`
unfoldable pub revoke_api_key : Option ServerNotifier → ℕ → M (Unit {0})
unfolding server_revoke_api_key
revoke_api_key none key_id = raise (biz code_internal_error "未配置 Server 联动，无法吊销 API Key")
revoke_api_key (some n) key_id = wrap_error code_internal_error (server_revoke_api_key n key_id)
