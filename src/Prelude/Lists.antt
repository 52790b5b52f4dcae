-- ===== src/Prelude/Lists.antt =====
-- Lists measured by native numbers, and the Boolean forms of membership and selection.
use Prim.Native.Nat.{ℕ, zero, suc, ◌+◌, ◌<◌}
use mathlib.Core.Path.{◌≡◌, refl}
use mathlib.Core.Logic.{inl, inr}
use mathlib.Core.Bool.{Bool, true, false, ◌||◌, ◌&&◌}
use mathlib.Core.List.{List, [], ◌∷◌, ◌++◌}
use mathlib.Core.Option.{Option, none, some}
use native.Mathlib.Omega.{arith}
use clip_sync_admin.Prelude.Tests.{if◌then◌else◌, Eq, ◌==◌, Bool-cases}

pub &&-left : (a b : Bool) → (a && b) ≡ true → a ≡ true
&&-left a b h = ground arith

pub &&-right : (a b : Bool) → (a && b) ≡ true → b ≡ true
&&-right a b h = ground arith

module _ {ℓ} {A : Type ℓ} where
  abbrev pub length : List A → ℕ
  length [] = 0
  length (x ∷ xs) = suc (length xs)

  abbrev pub take : ℕ → List A → List A
  take zero xs = []
  take (suc n) [] = []
  take (suc n) (x ∷ xs) = x ∷ take n xs

  abbrev pub drop : ℕ → List A → List A
  drop zero xs = xs
  drop (suc n) [] = []
  drop (suc n) (x ∷ xs) = drop n xs

  -- The elements that pass a test, in order.
  abbrev pub filter : (A → Bool) → List A → List A
  filter p [] = []
  filter p (x ∷ xs) = if p x then x ∷ filter p xs else filter p xs

  abbrev pub any : (A → Bool) → List A → Bool
  any p [] = false
  any p (x ∷ xs) = p x || any p xs

  abbrev pub all : (A → Bool) → List A → Bool
  all p [] = true
  all p (x ∷ xs) = p x && all p xs

  abbrev pub head? : List A → Option A
  head? [] = none
  head? (x ∷ xs) = some x

  -- The members of a list for which a predicate holds throughout.
  abbrev pub All {κ} : (A → Type κ) → List A → Type κ
  All P [] = Unit
  All P (x ∷ xs) = P x × All P xs

  -- `f` at the elements that pass the test, and nothing at the others.
  abbrev pub map_where : (A → Bool) → (A → A) → List A → List A
  map_where p f [] = []
  map_where p f (x ∷ xs) = (if p x then f x else x) ∷ map_where p f xs

  -- `ORDER BY`: insertion by a test that tells which of two rows stands first.
  abbrev pub insert_by : (A → A → Bool) → A → List A → List A
  insert_by before a [] = a ∷ []
  insert_by before a (x ∷ xs) =
      let rest = insert_by before a xs in if before x a then x ∷ rest else a ∷ (x ∷ xs)

  abbrev pub sort_by : (A → A → Bool) → List A → List A
  sort_by before [] = []
  sort_by before (x ∷ xs) = insert_by before x (sort_by before xs)

  pub length-append : (xs ys : List A) → length (xs ++ ys) ≡ length xs + length ys
  length-append [] ys = omega arith
  length-append (x ∷ xs) ys = omega (arith, length-append xs ys)

  pub any-append : (p : A → Bool) (xs ys : List A) → any p (xs ++ ys) ≡ (any p xs || any p ys)
  any-append p [] ys = refl
  any-append p (x ∷ xs) ys = ground (arith, any-append p xs ys)

  pub filter-append :
      (p : A → Bool) (xs ys : List A) → filter p (xs ++ ys) ≡ filter p xs ++ filter p ys
  filter-append p [] ys = refl
  filter-append p (x ∷ xs) ys = ground (arith, filter-append p xs ys)

  -- A change that keeps a test keeps that some element passes it.
  pub any-map_where :
      (p q : A → Bool) (f : A → A) (xs : List A)
      → ((x : A) → p x ≡ true → p (f x) ≡ true)
      → any p xs ≡ true
      → any p (map_where q f xs) ≡ true
  any-map_where p q f [] keep h = h
  any-map_where p q f (x ∷ xs) keep h = ground (arith, keep x, any-map_where p q f xs keep)

  pub any-of_head :
      (p : A → Bool) (xs : List A) (x : A) → head? (filter p xs) ≡ some x → any p xs ≡ true
  any-of_head p [] x h = ground arith
  any-of_head p (y ∷ xs) x h = ground (arith, any-of_head p xs x)

  pub test-of_head :
      (p : A → Bool) (xs : List A) (x : A) → head? (filter p xs) ≡ some x → p x ≡ true
  test-of_head p [] x h = cc
  test-of_head p (y ∷ xs) x h = ground (arith, test-of_head p xs x)

  pub any-at_head :
      (p q : A → Bool) (xs : List A) (x : A)
      → head? (filter p xs) ≡ some x
      → q x ≡ true
      → any q xs ≡ true
  any-at_head p q [] x h fits = cc
  any-at_head p q (y ∷ xs) x h fits = ground (arith, any-at_head p q xs x)

  pub head-of_any :
      (p : A → Bool) (xs : List A) → any p xs ≡ true → (x : A) × (head? (filter p xs) ≡ some x)
  head-of_any p [] h = cc
  head-of_any p (y ∷ xs) h = elim (Bool-cases (p y)) [
    | inl here ↦ (y, ground (arith, here))
    | inr there ↦ let (x, e) = head-of_any p xs (rw there at h) in (x, rw there e)
  ]

  pub head?-append_none : (xs ys : List A) → head? xs ≡ none → head? (xs ++ ys) ≡ head? ys
  head?-append_none [] ys h = refl
  head?-append_none (x ∷ xs) ys h = cc

  -- An element that passes a test, behind elements that do not, is the first that passes it.
  pub head?-filter_snoc :
      (p : A → Bool) (xs : List A) (x : A)
      → head? (filter p xs) ≡ none
      → p x ≡ true
      → head? (filter p (xs ++ x ∷ [])) ≡ some x
  head?-filter_snoc p [] x h fits = ground arith
  head?-filter_snoc p (y ∷ xs) x h fits = ground (arith, head?-filter_snoc p xs x)

  pub length-filter_snoc :
      (p : A → Bool) (xs : List A) (x : A) → p x ≡ true → 0 < length (filter p (xs ++ x ∷ []))
  length-filter_snoc p [] x fits = ground arith
  length-filter_snoc p (y ∷ xs) x fits = ground (arith, length-filter_snoc p xs x)

  -- A change that leaves a test as it is changes the first element that passes it in place.
  pub head?-filter-map_where :
      (p q : A → Bool) (f : A → A) (xs : List A) (x : A)
      → ((y : A) → p (f y) ≡ p y)
      → head? (filter p xs) ≡ some x
      → q x ≡ true
      → head? (filter p (map_where q f xs)) ≡ some (f x)
  head?-filter-map_where p q f [] x keep h fits = cc
  head?-filter-map_where p q f (y ∷ xs) x keep h fits =
      ground (arith, keep y, head?-filter-map_where p q f xs x keep)

module _ {ℓ} {A : Type ℓ} ⦃e : Eq A⦄ where
  -- `x IN xs`
  abbrev pub contains : A → List A → Bool
  contains a [] = false
  contains a (x ∷ xs) = a == x || contains a xs

  -- `SELECT DISTINCT`: one copy of each value.
  abbrev pub distinct : List A → List A
  distinct [] = []
  distinct (x ∷ xs) = let rest = distinct xs in if contains x rest then rest else x ∷ rest
