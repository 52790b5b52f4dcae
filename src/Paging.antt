-- ===== src/Paging.antt =====
-- The pages of internal/service/data_service.go: `Page` and `normalize`, and the rows that OFFSET
-- and LIMIT select. `int` has 64 bits.
pub mod Correct
use clip_sync_admin.Prelude.{ℕ, zero, suc, ◌-◌, ◌*◌, ◌%◌, ◌^◌, List, take, drop, ltb, if◌then◌else◌}
use clip_sync_admin.Prelude.Int.{ℤ, pos, negsuc}

pub record Page (A : Type 0) : Type 0 where
  pub list : List A
  pub total : ℕ
  pub page : ℕ
  pub page_size : ℕ

abbrev page_number : ℤ → ℕ
page_number (pos zero) = 1
page_number (pos (suc n)) = suc n
page_number (negsuc n) = 1

abbrev size_number : ℤ → ℕ
size_number (pos zero) = 20
size_number (pos (suc n)) = if ltb 200 (suc n) then 20 else suc n
size_number (negsuc n) = 20

unfoldable pub normalize : ℤ → ℤ → ℕ × ℕ
normalize page size = (page_number page, size_number size)

-- `(page - 1) * size` wraps; a negative OFFSET is left out of the query.
unfoldable pub offset : ℕ → ℕ → ℕ
offset page size = let v = (page - 1) * size % 2 ^ 64 in if ltb v (2 ^ 63) then v else 0

unfoldable pub page_rows {ℓ} : {A : Type ℓ} → ℕ → ℕ → List A → List A
unfolding offset
page_rows page size rows = take size (drop (offset page size) rows)
