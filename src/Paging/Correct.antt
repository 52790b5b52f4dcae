-- ===== src/Paging/Correct.antt =====
-- Pages (internal/service/data_service.go): their bounds, and what they cover together.
use clip_sync_admin.Prelude.{
  ℕ, zero, suc, ◌+◌, ◌*◌, ◌^◌, ◌<◌, ◌≤◌, ◌≡◌, ◌⊎◌, refl, sym, ap, List, [], ◌∷◌, ◌++◌, take, drop,
  length, ltb, arith, Bool-cases, inl, inr,
}
use Prim.Native.Nat.add
use Prim.Native.Nat.mul
use clip_sync_admin.Prelude.Int.{ℤ, pos, negsuc, ◌≤ℤ◌}
use clip_sync_admin.Paging.{page_number, size_number, normalize, offset, page_rows}

-- A page number of 1 or more is kept, any other becomes 1.
abbrev pub IsPage : ℤ → ℕ → Type 0
IsPage page p = ((page ≡ pos p) × (1 ≤ p)) ⊎ ((page ≤ℤ pos 0) × (p ≡ 1))

-- A size from 1 to 200 is kept, any other becomes 20.
abbrev pub IsSize : ℤ → ℕ → Type 0
IsSize size s =
    ((size ≡ pos s) × (1 ≤ s) × (s ≤ 200)) ⊎ (((size ≤ℤ pos 0) ⊎ (pos 201 ≤ℤ size)) × (s ≡ 20))

page_number-IsPage : (page : ℤ) → IsPage page (page_number page)
page_number-IsPage (pos zero) = inr (ground arith, refl)
page_number-IsPage (pos (suc n)) = inl (refl, omega arith)
page_number-IsPage (negsuc n) = inr (ground arith, refl)

size_number-IsSize : (size : ℤ) → IsSize size (size_number size)
size_number-IsSize (pos zero) = inr (inl (ground arith), refl)
size_number-IsSize (negsuc n) = inr (inl (ground arith), refl)
size_number-IsSize (pos (suc n)) = elim (Bool-cases (ltb 200 (suc n))) [
  | inl large ↦ inr (inr (ground (arith, large)), ground (arith, large))
  | inr small ↦ inl (ground (arith, small), ground (arith, small), ground (arith, small))
]

IsSize-bounds : (size : ℤ) (s : ℕ) → IsSize size s → (1 ≤ s) × (s ≤ 200)
IsSize-bounds size s (inl (_, low, high)) = (low, high)
IsSize-bounds size s (inr (_, default)) = (omega (arith, default), omega (arith, default))

IsPage-bounds : (page : ℤ) (p : ℕ) → IsPage page p → 1 ≤ p
IsPage-bounds page p (inl (_, low)) = low
IsPage-bounds page p (inr (_, default)) = omega (arith, default)

-- `normalize` gives a page number that is at least 1: the given one, if that is, and otherwise 1; and
-- a size between 1 and 200: the given one, if that is, and otherwise 20.
pub normalize_bounds :
    (page size : ℤ)
    → let (p, s) = normalize page size in
      (1 ≤ p) × (1 ≤ s) × (s ≤ 200) × IsPage page p × IsSize size s
unfolding normalize
normalize_bounds page size =
    let paged = page_number-IsPage page in
    let sized = size_number-IsSize size in
    let (low, high) = IsSize-bounds size (size_number size) sized in
    (IsPage-bounds page (page_number page) paged, low, high, paged, sized)

offset_small : (n size : ℕ) → n * size < 2 ^ 63 → offset (suc n) size ≡ n * size
unfolding offset
offset_small n size small = ground arith

suc_mul : (n m : ℕ) → suc n * m ≡ n * m + m
suc_mul n m = omega (arith, mul.suc n m)

module _ {ℓ} {A : Type ℓ} where
  take_nil : (n : ℕ) → take {A = A} n [] ≡ []
  take_nil zero = refl
  take_nil (suc n) = refl

  take-add : (m n : ℕ) (xs : List A) → take (m + n) xs ≡ take m xs ++ take n (drop m xs)
  take-add zero n xs = ground arith
  take-add (suc m) zero [] = ground arith
  take-add (suc m) (suc n) [] = ground (arith, take_nil (suc m + suc n))
  take-add (suc m) n (x ∷ xs) = rw (add.suc m n) (ap (λ ys. x ∷ ys) (take-add m n xs))

  length-take-le : (n : ℕ) (xs : List A) → length (take n xs) ≤ n
  length-take-le zero xs = omega arith
  length-take-le (suc n) [] = omega arith
  length-take-le (suc n) (x ∷ xs) = omega (arith, length-take-le n xs)

  -- The rows of the pages from 1 to a number, one after the other.
  abbrev pub pages_to : ℕ → ℕ → List A → List A
  pages_to zero size xs = []
  pages_to (suc n) size xs = pages_to n size xs ++ page_rows (suc n) size xs

  -- The pages from 1 to a number give the rows in order, without a gap and with none twice, as many as
  -- they hold together, and none is longer than the page size, where the offsets fit in 63 bits.
  pub pages_cover :
      (n size : ℕ) (xs : List A)
      → n * size < 2 ^ 63
      → (pages_to n size xs ≡ take (n * size) xs) × (length (page_rows n size xs) ≤ size)
  unfolding page_rows
  pages_cover zero size xs small = (ground arith, length-take-le _ _)
  pages_cover (suc n) size xs small =
      let more : suc n * size ≡ n * size + size = suc_mul n size in
      let smaller : n * size < 2 ^ 63 = omega (arith, small, more) in
      let before = (pages_cover n size xs smaller).0 in
      (
        rw (offset_small n size smaller, before, more) (sym (take-add (n * size) size xs)),
        length-take-le _ _,
      )
