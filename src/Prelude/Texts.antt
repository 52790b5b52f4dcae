-- ===== src/Prelude/Texts.antt =====
-- The order of texts by their bytes, which is that of Go's `<` on strings.
use Prim.Native.Nat.{Ordering}
use Prim.Native.String.{String, [], ◌∷◌, compare}
use Prim.Native.String.compare
use text.Mathlib.TextEquality.{path_by_compare}
use mathlib.Core.Path.{◌≡◌}
use mathlib.Core.Bool.{Bool, true, false}
use native.Mathlib.Omega.{arith}

-- Whether a text comes after another one.
abbrev pub after : String → String → Bool
after s t = elim (compare s t) [ Ordering.gt ↦ true | _ ↦ false ]

pub after_asym : (s t : String) → after s t ≡ true → after t s ≡ false
after_asym [] [] h = ground (arith, compare.nil-nil)
after_asym [] (d ∷ t) h = ground (arith, compare.nil-cons d t)
after_asym (c ∷ s) [] h = ground (arith, compare.nil-cons c s)
after_asym (c ∷ s) (d ∷ t) h =
    ground (arith, compare.cons-cons c d s t, compare.cons-cons d c t s, after_asym s t)

eq_of_not-after : (s t : String) → after s t ≡ false → after t s ≡ false → compare s t ≡ Ordering.eq
eq_of_not-after [] [] h k = compare.nil-nil
eq_of_not-after [] (d ∷ t) h k = ground (arith, compare.cons-nil d t)
eq_of_not-after (c ∷ s) [] h k = ground (arith, compare.cons-nil c s)
eq_of_not-after (c ∷ s) (d ∷ t) h k =
    ground (arith, compare.cons-cons c d s t, compare.cons-cons d c t s, eq_of_not-after s t)

pub after_antisym : (s t : String) → after s t ≡ false → after t s ≡ false → s ≡ t
after_antisym s t h k = path_by_compare s t (eq_of_not-after s t h k)

pub not-after_trans : (s t u : String) → after s t ≡ false → after t u ≡ false → after s u ≡ false
not-after_trans [] t [] h k = ground (arith, compare.nil-nil)
not-after_trans [] t (e ∷ u) h k = ground (arith, compare.nil-cons e u)
not-after_trans (c ∷ s) [] u h k = ground (arith, compare.cons-nil c s)
not-after_trans (c ∷ s) (d ∷ t) [] h k = ground (arith, compare.cons-nil d t)
not-after_trans (c ∷ s) (d ∷ t) (e ∷ u) h k = ground (
  arith,
  compare.cons-cons c d s t,
  compare.cons-cons d e t u,
  compare.cons-cons c e s u,
  not-after_trans s t u,
)
