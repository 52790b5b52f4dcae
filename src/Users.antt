-- ===== src/Users.antt =====
-- internal/service/data_service.go: the Server's users and devices as the administrators change
-- them. `kick` is `none` where the service has no notifier.
pub mod Correct
pub mod Lists
pub mod Devices
pub mod Forward
use Prim.Native.String.{◌++◌, slice}
use Prim.Native.String
use clip_sync_admin.Prelude.{
  ℕ, zero, suc, ◌+◌, String, Bool, true, ◌&&◌, Option, none, some, ◌==◌, nat_eq, string_eq,
  if◌then◌else◌,
}
use text.Mathlib.Text.{find?}
use clip_sync_admin.Reply.{
  Error, biz, raw, code_param_error, code_record_not_found, code_internal_error,
}
use clip_sync_admin.Model.{User}
use clip_sync_admin.Auth.Password.{hash_user_password}
use clip_sync_admin.World.{
  update_unique, M, tick, pure, raise, ignore, or_zero, fail_if, gets, ◌>>=◌, ◌>>◌, first, count,
  update, delete, db_error, users, devices, admins, roles, admin_base, role_base, not_del,
}
use clip_sync_admin.Session.{wrap_error}
use clip_sync_admin.Notifier.{
  ServerNotifier, notify_kick_user, notify_kick_device, notify_device_status, notify_delete_device,
  reason_password_reset, reason_user_disabled, reason_user_deleted, reason_device_kicked,
  reason_device_banned,
}

-- `if s.kick != nil { _ = s.kick.KickUser(...) }`
unfoldable pub kick_if_linked : Option ServerNotifier → ℕ → String → M (Unit {0})
unfolding notify_kick_user
kick_if_linked none id reason = pure tt
kick_if_linked (some n) id reason = ignore (notify_kick_user n id reason)

abbrev user_not_found : Error
user_not_found = biz code_record_not_found "用户不存在"

-- `GetUser`
unfoldable pub get_user : ℕ → M User
get_user id = do
  found ← first users db_error (λ u. u.id == id)
  elim found [ some u ↦ pure u | none ↦ raise user_not_found ]

-- MySQL's error for a text that is taken already.
abbrev pub update_error : String → Error
update_error message = elim (find? message "Duplicate entry") [
  | some _ ↦ biz code_param_error "用户名已存在"
  | none ↦ db_error message
]

-- `UpdateUser`
unfoldable pub update_user : ℕ → String → String → ℕ → M (Unit {0})
update_user id username nickname disabled = do
  now ← gets (λ w. w.now)
  n ←
      update_unique users update_error (λ u. u.id == id)
        (λ u. record u {
          username = username;
          nickname = nickname;
          disabled = disabled;
          updated_at = now;
        })
  fail_if (n == 0) user_not_found

-- `UpdateUserStatus`
unfoldable pub update_user_status : Option ServerNotifier → ℕ → ℕ → M (Unit {0})
unfolding kick_if_linked
update_user_status kick id disabled = do
  now ← gets (λ w. w.now)
  n ←
      update users db_error (λ u. u.id == id)
        (λ u. record u { disabled = disabled; updated_at = now })
  fail_if (n == 0) user_not_found
  if disabled == 0 then pure tt else kick_if_linked kick id reason_user_disabled

abbrev pub password_chars : String
password_chars = "abcdefghjkmnpqrstuvwxyzABCDEFGHJKMNPQRSTUVWXYZ23456789"

-- `rand.Int(rand.Reader, big.NewInt(n))`
abbrev random_index : ℕ → M ℕ
random_index n env w = (env.random_below w.calls n, tick w)

-- The loop of `ResetUserPassword`, over the characters still to draw.
unfoldable pub draw_password : ℕ → M String
draw_password zero = pure ""
draw_password (suc k) = do
  i ← wrap_error code_internal_error (random_index (String.len password_chars))
  rest ← draw_password k
  pure (slice password_chars i (i + 1) ++ rest)

-- `ResetUserPassword`
unfoldable pub reset_user_password : Option ServerNotifier → ℕ → M String
unfolding draw_password hash_user_password kick_if_linked
reset_user_password kick id = do
  plain ← draw_password 10
  hash ← wrap_error code_internal_error (hash_user_password plain)
  now ← gets (λ w. w.now)
  n ←
      update users db_error (λ u. u.id == id)
        (λ u. record u { password_hash = hash; updated_at = now })
  fail_if (n == 0) user_not_found
  kick_if_linked kick id reason_password_reset
  pure plain

-- `DeleteUser`
unfoldable pub delete_user : Option ServerNotifier → ℕ → M (Unit {0})
unfolding kick_if_linked
delete_user kick id = do
  n ← delete users db_error (λ u. u.id == id)
  fail_if (n == 0) user_not_found
  kick_if_linked kick id reason_user_deleted

-- `SetDeviceStatus` of the service; a notification that fails is only logged.
unfoldable pub set_device_status : Option ServerNotifier → ℕ → String → Bool → M (Unit {0})
unfolding notify_device_status
set_device_status kick user_id device_id disabled = do
  n ←
      update devices db_error (λ d. d.user_id == user_id && d.device_id == device_id)
        (λ d. record d { disabled = disabled })
  fail_if (n == 0) (biz code_record_not_found "设备不存在")
  elim kick [
    | none ↦ pure tt
    | some n ↦ ignore (notify_device_status n user_id device_id disabled reason_device_banned)
  ]

-- `KickDevice` of the service
unfoldable pub kick_device_now : Option ServerNotifier → ℕ → String → M (Unit {0})
unfolding notify_kick_device
kick_device_now none user_id device_id = raise (biz code_internal_error "未配置 Server 联动，无法踢设备")
kick_device_now (some n) user_id device_id =
    wrap_error code_internal_error (notify_kick_device n user_id device_id reason_device_kicked)

-- `DeleteDevice` of the service
unfoldable pub delete_device_row : Option ServerNotifier → ℕ → String → M (Unit {0})
unfolding notify_delete_device
delete_device_row none user_id device_id = raise (biz code_internal_error "未配置 Server 联动，无法删除设备")
delete_device_row (some n) user_id device_id =
    wrap_error code_internal_error (notify_delete_device n user_id device_id)

-- `KickUserNow`
unfoldable pub kick_user_now : Option ServerNotifier → ℕ → M (Unit {0})
unfolding notify_kick_user
kick_user_now none user_id = raise (biz code_internal_error "未配置 Server 联动，无法踢用户")
kick_user_now (some n) user_id =
    wrap_error code_internal_error (notify_kick_user n user_id reason_device_kicked)

pub record DashboardStat : Type 0 where
  pub user_total : ℕ
  pub user_active : ℕ
  pub admin_total : ℕ
  pub role_total : ℕ

-- `Dashboard`, with `countModel`: a count that fails is 0.
unfoldable pub dashboard : M DashboardStat
dashboard = do
  user_total ← or_zero 0 (count users raw (λ u. true))
  user_active ← or_zero 0 (count users raw (λ u. u.disabled == 0))
  admin_total ← or_zero 0 (count admins raw not_del)
  role_total ← or_zero 0 (count roles raw not_del)
  pure (record {
    user_total = user_total;
    user_active = user_active;
    admin_total = admin_total;
    role_total = role_total;
  })
