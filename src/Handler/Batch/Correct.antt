-- ===== src/Handler/Batch/Correct.antt =====
-- The batch handlers (internal/handler/data_handler.go): every item is counted once.
use clip_sync_admin.Prelude.{
  ℕ, ◌+◌, ◌≤◌, String, ◌≡◌, inl, inr, refl, some, List, [], ◌∷◌, ◌++◌, arith, length, length-append,
  filter, Bool-cases,
}
use clip_sync_admin.Reply.{success}
use clip_sync_admin.World.{Env, World, M}
use clip_sync_admin.World.Inversion.{Outcome-cases}
use clip_sync_admin.Handler.Batch.{Item, BatchReply, skipped, run_items, run_batch}

-- The items that the loop passes over.
abbrev pub passed_over : List Item → ℕ
passed_over items = length (filter skipped items)

run_items_tally :
    (op : Item → M (Unit {0})) (items : List Item) (acc : ℕ × List String) (env : Env) (w : World)
    → let out = (run_items op items acc env w).0 in
      out.0 + length out.1 + passed_over items ≡ acc.0 + length acc.1 + length items
unfolding run_items
run_items_tally op [] acc env w = omega arith
run_items_tally op (it ∷ its) (n, failed) env w =
    let w' = (op it env w).1 in
    let here = run_items_tally op its (n, failed) env w in
    let after_ok = run_items_tally op its (n + 1, failed) env w' in
    let after_err = run_items_tally op its (n, failed ++ it.device_id ∷ []) env w' in
    let longer = length-append failed (it.device_id ∷ []) in
    elim (Bool-cases (skipped it)) [
      | inl e ↦ ground (arith, e, here)
      | inr e ↦ elim (Outcome-cases (op it env w).0) [
        | inl (_, r) ↦ ground (arith, e, r, after_ok)
        | inr (_, r) ↦ ground (arith, e, r, after_err, longer)
      ]
    ]

-- The reply of a batch of at most 200 items counts every item once: the items that succeeded, those
-- that failed, and those that the loop passed over, which are neither, make up the total.
run_batch_counts :
    (op : Item → M (Unit {0})) (items : List Item) (env : Env) (w : World)
    → length items ≤ 200
    → (reply : BatchReply) × ((run_batch op items env w).0 ≡ success (some reply))
      × (reply.success + length reply.failed + passed_over items ≡ reply.total)
      × (reply.total ≡ length items)
unfolding run_batch
run_batch_counts op items env w few =
    let ((n, failed), w') = run_items op items (0, []) env w in
    (
      record { success = n; failed = failed; total = length items },
      ground arith,
      omega (arith, run_items_tally op items (0, []) env w),
      refl,
    )
