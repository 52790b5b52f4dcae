-- ===== src/Handler/Batch.antt =====
-- internal/handler/data_handler.go: the handlers that act on many devices, one after the other.
pub mod Correct
use clip_sync_admin.Prelude.{
  ℕ, ◌+◌, String, Bool, ◌||◌, Option, some, List, [], ◌∷◌, ◌++◌, length, ltb, ◌==◌, nat_eq,
  string_eq, if◌then◌else◌,
}
use clip_sync_admin.Reply.{success, fail, Outcome, ok, err, code_param_error}
use clip_sync_admin.World.{Env, World, M}
use clip_sync_admin.Notifier.{ServerNotifier}
use clip_sync_admin.Users.{set_device_status, delete_device_row}
use clip_sync_admin.Handler.Respond.{Handled}

-- `batchDeleteDeviceItem`
pub record Item : Type 0 where
  pub user_id : ℕ
  pub device_id : String

pub record BatchReply : Type 0 where
  pub success : ℕ
  pub failed : List String
  pub total : ℕ

-- An item that the loops pass over; user ids are not negative here.
abbrev pub skipped : Item → Bool
skipped it = it.user_id == 0 || it.device_id == ""

abbrev tally : Item → Outcome (Unit {0}) → ℕ × List String → ℕ × List String
tally it (ok _) (n, failed) = (n + 1, failed)
tally it (err _) (n, failed) = (n, failed ++ it.device_id ∷ [])

-- The loop of both handlers, with the service's operation on one device.
unfoldable pub run_items :
    (Item → M (Unit {0})) → List Item → ℕ × List String → Env → World → (ℕ × List String) × World
run_items op [] acc env w = (acc, w)
run_items op (it ∷ its) acc env w =
    let (r, w') = op it env w in
    let acted = run_items op its (tally it r acc) env w' in
    let passed_over = run_items op its acc env w in if skipped it then passed_over else acted

unfoldable pub run_batch : (Item → M (Unit {0})) → List Item → Handled BatchReply
unfolding run_items success fail
run_batch op items env w =
    if ltb 200 (length items)
    then (fail code_param_error, w)
    else let ((n, failed), w') = run_items op items (0, []) env w in
      (success (some (record { success = n; failed = failed; total = length items })), w')

-- `BatchDeleteDevices`
unfoldable pub batch_delete_devices : Option ServerNotifier → List Item → Handled BatchReply
unfolding run_batch delete_device_row
batch_delete_devices kick items =
    run_batch (λ it. delete_device_row kick it.user_id it.device_id) items

-- `BatchSetDeviceStatus`
unfoldable pub batch_set_device_status :
    Option ServerNotifier → Bool → List Item → Handled BatchReply
unfolding run_batch set_device_status
batch_set_device_status kick disabled items =
    run_batch (λ it. set_device_status kick it.user_id it.device_id disabled) items
