-- ===== src/Tests/Tables.antt =====
-- The theorems on the tables, on the commands for the Server and on pages, at concrete inputs.
use clip_sync_admin.Prelude.{
  false, String, ℕ, ◌≤◌, ◌≡◌, ◌≢◌, ◌⊎◌, List, Option, head?, refl, true, some, none, [], ◌∷◌, All,
  filter, length, arith, eq_iff, ◌==◌, nat_eq, if◌then◌else◌,
}
use clip_sync_admin.Prelude.Int.{pos}
use clip_sync_admin.Reply.{biz, ok, err}
use clip_sync_admin.Model.{RbacAdmin}
use clip_sync_admin.World.{Env, published, perm_base}
use clip_sync_admin.Rbac.Admins.{create_admin, delete_admin, update_admin_status, update_admin}
use clip_sync_admin.Rbac.Admins.Creation.{taken, create_admin-account}
use clip_sync_admin.Rbac.Admins.Deletion.{rows_of, bindings_of, delete_admin_removes}
use clip_sync_admin.Rbac.Admins.Protection.{
  builtin_admin_protected, IsEdited, update_admin_unprotected,
}
use clip_sync_admin.Rbac.Bindings.{assign_role_menus}
use clip_sync_admin.Rbac.Bindings.Correct.{
  menus_bound, assign_role_menus_replaces, assign_role_menus_atomic,
}
use clip_sync_admin.Notifier.{ServerNotifier, channel, send_command}
use clip_sync_admin.Notifier.Correct.{IsDelivered, send_command-delivers}
use clip_sync_admin.Users.{update_user_status}
use clip_sync_admin.Users.Correct.{kick_disabled, update_user_status_kicks}
use clip_sync_admin.Paging.{normalize, page_rows}
use clip_sync_admin.Paging.Correct.{IsPage, IsSize, normalize_bounds, pages_to, pages_cover}
use clip_sync_admin.Tests.Sample.{config, env, world, root}

builtin_admin_protected_example :
    ((delete_admin 1 2 env world).0 ≢ ok tt)
    × ((delete_admin 1 2 env world).1.db ≡ world.db)
    × ((update_admin_status 1 1 2 env world).0 ≢ ok tt)
    × ((update_admin_status 1 1 2 env world).1.db ≡ world.db)
builtin_admin_protected_example =
    builtin_admin_protected env world 1 2 1 root refl refl (ground (arith, eq_iff "root" ""))

-- The body of a request that disables the account.
abbrev disabling : RbacAdmin
disabling = record root { base = record root.base { status = 1 } }

abbrev roles_given : Option (List ℕ)
roles_given = some (2 ∷ 0 ∷ [])

update_admin_unprotected_example :
    let (r, w') = update_admin 1 disabling roles_given 2 env world in
    ((r ≡ ok tt) × IsEdited w'.db 1 root disabling)
    ⊎ ((roles_given ≢ none) × (r ≢ ok tt) × (w'.db ≡ world.db))
update_admin_unprotected_example =
    update_admin_unprotected env world 1 2 root disabling roles_given (λ n. refl) (omega arith) refl

-- The request of the example succeeds.
disabled_with_roles : (update_admin 1 disabling roles_given 2 env world).0 ≡ ok tt
unfolding update_admin
disabled_with_roles = refl

assigned : (assign_role_menus 2 (8 ∷ 0 ∷ 9 ∷ []) 1 env world).0 ≡ ok tt
unfolding assign_role_menus
assigned = refl

assign_role_menus_replaces_example :
    let w' = (assign_role_menus 2 (8 ∷ 0 ∷ 9 ∷ []) 1 env world).1 in
    (menus_bound w'.db 2 ≡ 8 ∷ 9 ∷ []) × (menus_bound w'.db 1 ≡ menus_bound world.db 1)
assign_role_menus_replaces_example =
    assign_role_menus_replaces env world 2 1 1 (8 ∷ 0 ∷ 9 ∷ []) (omega arith) assigned

-- A database that is gone after the third call.
abbrev failing : Env
failing = record env { fault = λ n. if n == 2 then some "gone" else none }

not_assigned : (assign_role_menus 2 (8 ∷ []) 1 failing world).0 ≡ err (biz 1510 "gone")
unfolding assign_role_menus
not_assigned = refl

assign_role_menus_atomic_example : (assign_role_menus 2 (8 ∷ []) 1 failing world).1.db ≡ world.db
assign_role_menus_atomic_example =
    assign_role_menus_atomic failing world 2 1 (8 ∷ []) (biz 1510 "gone") not_assigned

abbrev notifier : ServerNotifier
notifier = record { cfg = config.server; has_rdb = true }

sent_off : (send_command notifier (kick_disabled 3) env world).0 ≡ ok tt
unfolding send_command
sent_off = refl

send_command-delivers_example :
    IsDelivered notifier
      (kick_disabled 3)
      env
      world
      (send_command notifier (kick_disabled 3) env world).1
send_command-delivers_example = send_command-delivers notifier (kick_disabled 3) env world sent_off

user_disabled : (update_user_status (some notifier) 3 1 env world).0 ≡ ok tt
unfolding update_user_status
user_disabled = refl

update_user_status_kicks_example :
    ((update_user_status (some notifier) 3 1 env world).1.sent
      ≡ published (channel notifier) (kick_disabled 3) ∷ [])
    × All
        (λ u. u.disabled ≡ 1)
        (filter (λ u. u.id == 3) (update_user_status (some notifier) 3 1 env world).1.db.users)
update_user_status_kicks_example =
    update_user_status_kicks env world notifier 3 1 (λ n. refl) refl (omega arith) user_disabled

normalize_bounds_example :
    let (p, s) = normalize (pos 0) (pos 500) in
    (1 ≤ p) × (1 ≤ s) × (s ≤ 200) × IsPage (pos 0) p × IsSize (pos 500) s
normalize_bounds_example = normalize_bounds (pos 0) (pos 500)

pages_cover_example :
    (pages_to {A = ℕ} 2 2 (5 ∷ 6 ∷ 7 ∷ []) ≡ 5 ∷ 6 ∷ 7 ∷ [])
    × (length (page_rows {A = ℕ} 2 2 (5 ∷ 6 ∷ 7 ∷ [])) ≤ 2)
pages_cover_example = pages_cover 2 2 (5 ∷ 6 ∷ 7 ∷ []) (omega arith)

op_deleted : (delete_admin 2 1 env world).0 ≡ ok tt
unfolding delete_admin
op_deleted = refl

delete_admin_removes_example :
    let w' = (delete_admin 2 1 env world).1 in
    (¬ (◌≡◌ {A = ℕ} 2 1))
    × ((a : RbacAdmin) × (head? (rows_of world.db 2) ≡ some a)
        × ((env.cfg.bootstrap.super_admin_account ≡ "")
            ⊎ (a.account ≢ env.cfg.bootstrap.super_admin_account)))
    × (rows_of w'.db 2 ≡ [])
    × (bindings_of w'.db 2 ≡ [])
delete_admin_removes_example = delete_admin_removes env world 2 1 op_deleted

-- The row of a request, and the row that is created.
abbrev new_row : RbacAdmin
new_row = record root { id = 0; account = "eve"; password = "" }

abbrev created_row : RbacAdmin
created_row = record new_row {
  id = 3;
  password = "#pw";
  base = record new_row.base { c_by = 1; created_at = world.now; updated_at = world.now };
}

eve_created : (create_admin new_row "pw" (2 ∷ 0 ∷ []) 1 env world).0 ≡ ok created_row
unfolding create_admin
eve_created = refl

create_admin-account_example :
    (¬ (◌≡◌ {A = String} "eve" ""))
    × (¬ (◌≡◌ {A = String} "pw" ""))
    × (taken world.db "eve" ≡ false)
    × (created_row.account ≡ "eve")
create_admin-account_example =
    create_admin-account env world new_row created_row "pw" (2 ∷ 0 ∷ []) 1 eve_created
