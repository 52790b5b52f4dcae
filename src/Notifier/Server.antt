-- ===== src/Notifier/Server.antt =====
-- internal/service/server_notifier.go: the requests to the Server's own HTTP interface, for devices,
-- users and API keys.
use Prim.Native.String.{◌++◌}
use clip_sync_admin.Prelude.{
  ℕ, String, Bool, true, false, Option, none, some, List, [], ◌∷◌, ltb, leb, ◌==◌, nat_eq,
  string_eq, if◌then◌else◌,
}
use clip_sync_admin.Text.{decimal}
use clip_sync_admin.Reply.{Error, raw, Outcome, ok, err}
use clip_sync_admin.Model.{ServerDevice, CreatedUser, CreatedApiKey, ApiKeyView}
use clip_sync_admin.World.{
  M, requested, HttpAnswer, unbuilt, unreachable, answered, cut, pure, raise, lift, asks, ◌>>=◌,
  ◌>>◌,
}
use clip_sync_admin.Notifier.{ServerNotifier, http_request}

abbrev bad_status : ℕ → String → Error
bad_status status body = raw ("Server 返回错误 status=" ++ (decimal status ++ (" body=" ++ body)))

-- `json.Unmarshal` with the text that its error gets.
unfoldable pub decoded : {A : Type 0} → Outcome A → Outcome A
decoded (ok a) = ok a
decoded (err (raw e)) = err (raw ("解析 Server 响应失败: " ++ e))
decoded (err e) = err e

-- What `getJSON` makes of an answer: a body that is not read to its end is an error.
unfoldable pub json_answer : {A : Type 0} → (String → Outcome A) → HttpAnswer → Outcome A
unfolding decoded decimal
json_answer decode (unbuilt e) = err (raw e)
json_answer decode (unreachable e) = err (raw ("请求 Server 失败: " ++ e))
json_answer decode (answered status body) =
    if leb 400 status then err (bad_status status body) else decoded (decode body)
json_answer decode (cut status body e) = err (raw e)

unfoldable pub body_verdict : Option (ℕ × String) → ℕ → String → Outcome String
unfolding decimal
body_verdict none status body = if leb 400 status then err (bad_status status body) else ok body
body_verdict (some (special, refusal)) status body =
    if status == special
    then err (raw refusal)
    else if leb 400 status
    then err (bad_status status body)
    else ok body

-- What the other operations make of an answer, some of them with an error of their own for one
-- status: the error in reading the body is dropped.
unfoldable pub body_answer : Option (ℕ × String) → HttpAnswer → Outcome String
unfolding body_verdict
body_answer special (unbuilt e) = err (raw e)
body_answer special (unreachable e) = err (raw ("请求 Server 失败: " ++ e))
body_answer special (answered status body) = body_verdict special status body
body_answer special (cut status body e) = body_verdict special status body

-- `ServerNotifier.getJSON`
unfoldable pub get_json : {A : Type 0} → ServerNotifier → String → (String → Outcome A) → M A
unfolding json_answer
get_json n url decode = do
  a ← http_request (requested "GET" url n.cfg.http_admin_token [])
  lift (json_answer decode a)

abbrev pub need_address : ServerNotifier → String → M (Unit {0})
need_address n refusal = if n.cfg.addr == "" then raise (raw refusal) else pure tt

-- `ServerNotifier.FetchDevices`
unfoldable pub fetch_devices : ServerNotifier → ℕ → M (List ServerDevice)
unfolding get_json decimal
fetch_devices n user_id = do
  need_address n "server.addr 未配置，无法获取设备列表"
  decode ← asks (λ env. env.decode)
  get_json n (n.cfg.addr ++ ("/server-admin/users/" ++ (decimal user_id ++ "/devices")))
      decode.devices

abbrev bool_text : Bool → String
bool_text true = "true"
bool_text false = "false"

abbrev bool_param : String → Option Bool → String
bool_param key none = ""
bool_param key (some b) = "&" ++ (key ++ ("=" ++ bool_text b))

-- The address of `FetchAllDevices`.
unfoldable pub device_query :
    (addr : String)
    → (escape : String → String) → (keyword : String) → (disabled online : Option Bool)
    → (user_id page size : ℕ) → String
unfolding decimal
device_query addr escape keyword disabled online user_id page size =
    addr
    ++ ("/server-admin/devices?page="
        ++ (decimal page
            ++ ("&page_size="
                ++ (decimal size
                    ++ ((if ltb 0 user_id then "&user_id=" ++ decimal user_id else "")
                        ++ ((if keyword == "" then "" else "&keyword=" ++ escape keyword)
                            ++ (bool_param "disabled" disabled ++ bool_param "online" online)))))))

-- `ServerNotifier.FetchAllDevices`
unfoldable pub fetch_all_devices :
    ServerNotifier
    → (keyword : String) → (disabled online : Option Bool) → (user_id page size : ℕ)
    → M (List ServerDevice × ℕ)
unfolding get_json device_query
fetch_all_devices n keyword disabled online user_id page size = do
  need_address n "server.addr 未配置，无法获取设备列表"
  escape ← asks (λ env. env.query_escape)
  decode ← asks (λ env. env.decode)
  get_json n (device_query n.cfg.addr escape keyword disabled online user_id page size)
      decode.device_page

-- `ServerNotifier.RenameDevice`; no status has an error of its own.
unfoldable pub server_rename_device : ServerNotifier → ℕ → String → String → M (Unit {0})
unfolding body_answer decimal
server_rename_device n user_id device_id name = do
  need_address n "server.addr 未配置，无法重命名设备"
  escape ← asks (λ env. env.path_escape)
  a ← http_request (
      requested "PUT"
        (n.cfg.addr
          ++ ("/server-admin/users/"
              ++ (decimal user_id ++ ("/devices/" ++ (escape device_id ++ "/name")))))
        n.cfg.http_admin_token (("name", name) ∷ []))
  lift (body_answer none a)
  pure tt

-- `ServerNotifier.CreateUser`
unfoldable pub server_create_user : ServerNotifier → String → String → String → M CreatedUser
unfolding body_answer decoded
server_create_user n username nickname password = do
  need_address n "server.addr 未配置，无法创建用户"
  a ← http_request (
      requested "POST" (n.cfg.addr ++ "/server-admin/users") n.cfg.http_admin_token
        (("username", username) ∷ ("nickname", nickname) ∷ ("password", password) ∷ []))
  body ← lift (body_answer (some (409, "用户名已存在")) a)
  decode ← asks (λ env. env.decode)
  lift (decoded (decode.created_user body))

-- `ServerNotifier.CreateAPIKey`
unfoldable pub server_create_api_key :
    ServerNotifier → ℕ → String → String → String → M CreatedApiKey
unfolding body_answer decoded decimal
server_create_api_key n user_id name device_id expires_at = do
  need_address n "server.addr 未配置，无法创建 API Key"
  a ← http_request (
      requested "POST" (n.cfg.addr ++ ("/server-admin/users/" ++ (decimal user_id ++ "/api-keys")))
        n.cfg.http_admin_token
        (("name", name) ∷ ("device_id", device_id) ∷ ("expires_at", expires_at) ∷ []))
  body ← lift (body_answer none a)
  decode ← asks (λ env. env.decode)
  lift (decoded (decode.created_key body))

-- `ServerNotifier.ListAPIKeys`
unfoldable pub server_list_api_keys : ServerNotifier → ℕ → M (List ApiKeyView)
unfolding get_json decimal
server_list_api_keys n user_id = do
  need_address n "server.addr 未配置，无法获取 API Key 列表"
  decode ← asks (λ env. env.decode)
  get_json n
      (if ltb 0 user_id
        then n.cfg.addr ++ ("/server-admin/users/" ++ (decimal user_id ++ "/api-keys"))
        else n.cfg.addr ++ "/server-admin/api-keys")
      decode.api_keys

-- `ServerNotifier.RevokeAPIKey`
unfoldable pub server_revoke_api_key : ServerNotifier → ℕ → M (Unit {0})
unfolding body_answer decimal
server_revoke_api_key n key_id = do
  need_address n "server.addr 未配置，无法吊销 API Key"
  a ← http_request (
      requested "DELETE" (n.cfg.addr ++ ("/server-admin/api-keys/" ++ decimal key_id))
        n.cfg.http_admin_token [])
  lift (body_answer (some (404, "密钥不存在")) a)
  pure tt
