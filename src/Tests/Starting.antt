-- ===== src/Tests/Starting.antt =====
-- A start, sequences of operations and sorted queries at concrete inputs.
use mathlib.Core.List.{Permᴰ}
use mathlib.Core.List.Memᴰ
use clip_sync_admin.Prelude.{
  ℕ, ◌≡◌, ◌∙◌, refl, sym, inl, inr, length, some, none, String, List, [], ◌∷◌, arith, eq_iff,
  contains, string_eq,
}
use clip_sync_admin.Reply.{ok}
use clip_sync_admin.Model.{RbacAdmin}
use clip_sync_admin.World.{World}
use clip_sync_admin.Auth.Query.{build_sorted_query, join, render, keys_of}
use clip_sync_admin.Auth.Query.Order.{one, more, build_sorted_query-perm}
use clip_sync_admin.Seed.Super.{IsSeeded}
use clip_sync_admin.Seed.Tree.{collect_codes, rbac_menu_tree}
use clip_sync_admin.Seed.Menus.{seed_menus_and_perms}
use clip_sync_admin.Seed.Menus.Codes.{has_menu}
use clip_sync_admin.Service.{run, Reach, here, next, operation, remove_admin, add_admin, log_in}
use clip_sync_admin.Service.Accounts.{Holds}
use clip_sync_admin.Service.Builtin.{Reach-Holds}
use clip_sync_admin.Start.{Drivers, serving, start}
use clip_sync_admin.Start.Connected.{IsConnected}
use clip_sync_admin.Start.Ready.{start_ready}
use clip_sync_admin.Start.Protected.{KeyedById, start-Holds}
use clip_sync_admin.Tests.Sample.{config, env, world, op}
use clip_sync_admin.Tests.Seeding.{fresh}

abbrev drivers : Drivers
drivers = record {
  read_in_config = λ _. none;
  unmarshal = λ _. ok config;
  parse_level = some;
  build_logger = λ _. none;
  open_mysql = λ _. none;
  sql_db = none;
  ping_mysql = none;
  ping_redis = λ _. none;
  auto_migrate = λ env w. (ok tt, w);
  connected = λ c. record env { cfg = c };
}

started : (start drivers "" fresh).0 ≡ serving config
unfolding start seed_menus_and_perms
started = refl

start_ready_example :
    IsConnected drivers "" config
    × IsSeeded "root" (start drivers "" fresh).1.db
    × (has_menu (start drivers "" fresh).1.db "old" ≡ contains "old" (collect_codes rbac_menu_tree))
start_ready_example = start_ready drivers "" fresh config "old" started

-- After the start, the first login, and an attempt to delete the administrator.
abbrev after_start : World
after_start = (start drivers "" fresh).1

abbrev served : World
served = run (remove_admin 1 5) env (run (log_in "root" "pw") env after_start)

KeyedById-length : (rows : List RbacAdmin) → length rows ≡ 1 → KeyedById rows
KeyedById-length [] h a b ma mb same = absurd (omega (arith, h))
KeyedById-length (x ∷ []) h a b ma mb same = elim (Memᴰ.cases_cons ma) [
  | inr t ↦ absurd (Memᴰ.not-nil t)
  | inl e ↦ elim (Memᴰ.cases_cons mb) [ inr t ↦ absurd (Memᴰ.not-nil t) | inl e' ↦ e ∙ sym e' ]
]
KeyedById-length (x ∷ y ∷ rows) h a b ma mb same = absurd (omega (arith, h))

one_admin : length after_start.db.admins ≡ 1
unfolding start seed_menus_and_perms
one_admin = refl

start-Holds_example : (id : ℕ) × Holds env id "root" served
start-Holds_example =
    start-Holds drivers "" fresh served config started (ground (arith, eq_iff "root" "")) refl
      (KeyedById-length after_start.db.admins one_admin)
      (next (next here (operation (log_in "root" "pw") refl)) (operation (remove_admin 1 5) refl))

-- Another administrator is deleted, a new one is added, and somebody fails to log in.
abbrev w1 : World
w1 = run (remove_admin 2 1) env world

abbrev w2 : World
w2 = run (add_admin op "pw" (1 ∷ []) 1) env w1

abbrev w3 : World
w3 = run (log_in "root" "guess") env w2

reached : Reach env world w3
reached =
    next
      (next (next here (operation (remove_admin 2 1) refl))
        (operation (add_admin op "pw" (1 ∷ []) 1) refl))
      (operation (log_in "root" "guess") refl)

Reach-Holds_example : Holds env 1 "root" w3
Reach-Holds_example = Reach-Holds env 1 world w3 (ground (arith, eq_iff "root" "")) refl reached

abbrev params : List (String × List String)
params = ("page", "1" ∷ []) ∷ ("keyword", "a" ∷ "b" ∷ []) ∷ ("none", []) ∷ []

abbrev turned : List (String × List String)
turned = ("keyword", "a" ∷ "b" ∷ []) ∷ ("page", "1" ∷ []) ∷ ("none", []) ∷ []

build_sorted_query-perm_example :
    build_sorted_query turned ≡ join "&" (render params ("keyword" ∷ "page" ∷ []))
unfolding keys_of
build_sorted_query-perm_example =
    build_sorted_query-perm params turned ("keyword" ∷ "page" ∷ [])
      (
        (ground (arith, eq_iff "keyword" "page"), (ground (arith, eq_iff "none" "page"), tt)),
        ((ground (arith, eq_iff "none" "keyword"), tt), (tt, tt)),
      )
      (Permᴰ.swap refl refl) (Permᴰ.swap refl refl) (more refl (one "page"))

query_of_params : build_sorted_query turned ≡ "keyword=a&page=1"
unfolding build_sorted_query
query_of_params = refl
