-- ===== src/Notifier.antt =====
-- internal/service/server_notifier.go: the control commands for the Server, over Redis Pub/Sub, or
-- over HTTP where Redis fails and an address is configured.
pub mod Correct
pub mod Server
use Prim.Native.String.{◌++◌}
use clip_sync_admin.Prelude.{
  ℕ, String, Bool, true, false, not, Option, none, some, leb, ◌==◌, nat_eq, string_eq,
  if◌then◌else◌,
}
use clip_sync_admin.Text.{trim_space, decimal}
use clip_sync_admin.Reply.{Error, raw, Outcome, ok, err}
use clip_sync_admin.Config.{ServerConfig}
use clip_sync_admin.World.{
  M, kick_user, kick_device, disable_device, enable_device, delete_device, AdminCommand, Message,
  published, posted, HttpAnswer, unbuilt, unreachable, answered, cut, tick, send, raise,
}

abbrev pub reason_password_reset : String
reason_password_reset = "password_reset"

abbrev pub reason_user_disabled : String
reason_user_disabled = "user_disabled"

abbrev pub reason_user_deleted : String
reason_user_deleted = "user_deleted"

abbrev pub reason_device_kicked : String
reason_device_kicked = "device_kicked"

abbrev pub reason_device_banned : String
reason_device_banned = "device_banned"

-- `ServerNotifier`: its settings, and whether it has a Redis client.
pub record ServerNotifier : Type 0 where
  pub cfg : ServerConfig
  pub has_rdb : Bool

unfoldable pub channel : ServerNotifier → String
channel n = (if n.cfg.key_prefix == "" then "clipsync:" else n.cfg.key_prefix) ++ "admin:kick_user"

-- `rdb.Publish`
abbrev pub publish : String → AdminCommand → M (Unit {0})
publish ch cmd env w = elim (env.fault w.calls) [
  | some e ↦ (err (raw e), tick w)
  | none ↦ (ok tt, send (published ch cmd) (tick w))
]

unfoldable pub kick_verdict : ℕ → String → Outcome (Unit {0})
unfolding trim_space decimal
kick_verdict status body =
    if status == 409
    then err (raw (trim_space body))
    else if leb 400 status
    then err (raw ("notify server via http: status=" ++ (decimal status ++ (" body=" ++ body))))
    else ok tt

-- What `commandViaHTTP` makes of the Server's answer; an error in reading the body is dropped.
unfoldable pub http_verdict : HttpAnswer → Outcome (Unit {0})
unfolding kick_verdict
http_verdict (unbuilt e) = err (raw e)
http_verdict (unreachable e) = err (raw ("notify server via http: " ++ e))
http_verdict (answered status body) = kick_verdict status body
http_verdict (cut status body e) = kick_verdict status body

-- The status of an answer of the Server, if there is one.
abbrev pub status_of : HttpAnswer → Option ℕ
status_of (unbuilt _) = none
status_of (unreachable _) = none
status_of (answered status _) = some status
status_of (cut status _ _) = some status

-- A request that the Server has answered has reached it.
abbrev pub reached : HttpAnswer → Bool
reached a = elim (status_of a) [ none ↦ false | some _ ↦ true ]

-- A request to the Server: `cli.Do`.
abbrev pub http_request : Message → M HttpAnswer
http_request m env w =
    let a = env.http_do w.calls m in (ok a, if reached a then send m (tick w) else tick w)

-- `commandViaHTTP`
unfoldable pub command_via_http : ServerNotifier → AdminCommand → M (Unit {0})
unfolding http_verdict
command_via_http n cmd env w =
    let m = posted (n.cfg.addr ++ "/server-admin/kick") n.cfg.http_admin_token cmd in
    let a = env.http_do w.calls m in (http_verdict a, if reached a then send m (tick w) else tick w)

abbrev no_address : Error
no_address = raw "notify server failed: redis down and server.addr not configured"

-- What `sendCommand` does where Redis is not there or has failed.
unfoldable pub send_over_http : ServerNotifier → AdminCommand → M (Unit {0})
unfolding command_via_http
send_over_http n cmd = if n.cfg.addr == "" then raise no_address else command_via_http n cmd

abbrev pub or_else : M (Unit {0}) → M (Unit {0}) → M (Unit {0})
or_else first second env w =
    let (r, w') = first env w in elim r [ ok a ↦ (ok a, w') | err _ ↦ second env w' ]

-- `sendCommand`
unfoldable pub send_command : ServerNotifier → AdminCommand → M (Unit {0})
unfolding channel send_over_http
send_command n cmd =
    if n.has_rdb
    then or_else (publish (channel n) cmd) (send_over_http n cmd)
    else send_over_http n cmd

abbrev or_default : String → String → String
or_default reason default = if reason == "" then default else reason

-- `ServerNotifier.KickUser`
unfoldable pub notify_kick_user : ServerNotifier → ℕ → String → M (Unit {0})
notify_kick_user n user_id reason = send_command n (record {
  action = kick_user;
  user_id = user_id;
  device_id = "";
  reason = or_default reason reason_password_reset;
})

-- `ServerNotifier.KickDevice`
unfoldable pub notify_kick_device : ServerNotifier → ℕ → String → String → M (Unit {0})
notify_kick_device n user_id device_id reason = send_command n (record {
  action = kick_device;
  user_id = user_id;
  device_id = device_id;
  reason = or_default reason reason_device_kicked;
})

-- `ServerNotifier.SetDeviceStatus`
unfoldable pub notify_device_status : ServerNotifier → ℕ → String → Bool → String → M (Unit {0})
notify_device_status n user_id device_id disabled reason = send_command n (record {
  action = if disabled then disable_device else enable_device;
  user_id = user_id;
  device_id = device_id;
  reason = if disabled then or_default reason reason_device_banned else reason;
})

-- `ServerNotifier.DeleteDevice`
unfoldable pub notify_delete_device : ServerNotifier → ℕ → String → M (Unit {0})
unfolding command_via_http
notify_delete_device n user_id device_id =
    if not (n.cfg.addr == "")
    then command_via_http n
        (record { action = delete_device; user_id = user_id; device_id = device_id; reason = "" })
    else send_command n (record {
      action = delete_device;
      user_id = user_id;
      device_id = device_id;
      reason = reason_device_banned;
    })
