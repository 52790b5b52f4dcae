-- ===== src/Prelude/Members.antt =====
-- Membership in the lists that the tables' queries build.
use mathlib.Core.List.{Memᴰ}
use mathlib.Core.List.Memᴰ
use clip_sync_admin.Prelude.{
  ℕ, ◌<◌, ◌≡◌, ◌⊎◌, ◌↔◌, false, insert_by, sort_by, inl, inr, refl, sym, ap, ◌∙◌, Bool, true, List,
  [], ◌∷◌, filter, contains, distinct, length, all, All, arith, ◌==◌, nat_eq, Bool-cases,
  nat_beq_iff,
}

module _ {ℓ} {A : Type ℓ} (p : A → Bool) where
  pub mem-of_filter : {x : A} (xs : List A) → Memᴰ x (filter p xs) → Memᴰ x xs × (p x ≡ true)
  mem-of_filter [] m = absurd (Memᴰ.not-nil m)
  mem-of_filter {x} (y ∷ ys) m = elim (Bool-cases (p y)) [
    | inl h ↦ elim (Memᴰ.cases_cons (rw h at m)) [
      | inl e ↦ (Memᴰ.head e, ap p e ∙ h)
      | inr t ↦ let (a, b) = mem-of_filter ys t in (Memᴰ.tail a, b)
    ]
    | inr h ↦ let (a, b) = mem-of_filter ys (rw h at m) in (Memᴰ.tail a, b)
  ]

  pub mem-filter_of : {x : A} (xs : List A) → Memᴰ x xs → p x ≡ true → Memᴰ x (filter p xs)
  mem-filter_of [] m h = absurd (Memᴰ.not-nil m)
  mem-filter_of {x} (y ∷ ys) m h = elim (Memᴰ.cases_cons m) [
    | inl e ↦ rw (sym (ap p e) ∙ h) (Memᴰ.head e)
    | inr t ↦ elim (Bool-cases (p y)) [
      | inl py ↦ rw py (Memᴰ.tail (mem-filter_of ys t h))
      | inr py ↦ rw py (mem-filter_of ys t h)
    ]
  ]

pub head_of_length {ℓ} : {A : Type ℓ} (xs : List A) → 0 < length xs → (x : A) × Memᴰ x xs
head_of_length [] h = absurd (omega arith)
head_of_length (x ∷ xs) h = (x, Memᴰ.head refl)

pub length_pos_of_mem {ℓ} : {A : Type ℓ} {x : A} (xs : List A) → Memᴰ x xs → 0 < length xs
length_pos_of_mem [] m = absurd (Memᴰ.not-nil m)
length_pos_of_mem (x ∷ xs) m = omega arith

pub mem-of_contains : (a : ℕ) (xs : List ℕ) → contains a xs ≡ true → Memᴰ a xs
mem-of_contains a [] h = cc
mem-of_contains a (x ∷ xs) h = elim (Bool-cases (a == x)) [
  | inl e ↦ Memᴰ.head ((nat_beq_iff a x).0 e)
  | inr e ↦ Memᴰ.tail (mem-of_contains a xs (rw e at h))
]

pub contains_of_mem : (a : ℕ) (xs : List ℕ) → Memᴰ a xs → contains a xs ≡ true
contains_of_mem a [] m = absurd (Memᴰ.not-nil m)
contains_of_mem a (x ∷ xs) m = elim (Memᴰ.cases_cons m) [
  | inl e ↦ ground (arith, e)
  | inr t ↦ ground (arith, contains_of_mem a xs t)
]

pub mem-of_distinct : {a : ℕ} (xs : List ℕ) → Memᴰ a (distinct xs) → Memᴰ a xs
mem-of_distinct [] m = m
mem-of_distinct (x ∷ xs) m = elim (Bool-cases (contains x (distinct xs))) [
  | inl h ↦ Memᴰ.tail (mem-of_distinct xs (rw h at m))
  | inr h ↦ elim (Memᴰ.cases_cons (rw h at m)) [
    | inl e ↦ Memᴰ.head e
    | inr t ↦ Memᴰ.tail (mem-of_distinct xs t)
  ]
]

pub mem-distinct_of : {a : ℕ} (xs : List ℕ) → Memᴰ a xs → Memᴰ a (distinct xs)
mem-distinct_of [] m = m
mem-distinct_of {a} (x ∷ xs) m = elim (Bool-cases (contains x (distinct xs))) [
  | inl h ↦ rw h (elim (Memᴰ.cases_cons m) [
    | inl e ↦ rw e (mem-of_contains x (distinct xs) h)
    | inr t ↦ mem-distinct_of xs t
  ])
  | inr h ↦
      rw h (elim (Memᴰ.cases_cons m) [
        | inl e ↦ Memᴰ.head e
        | inr t ↦ Memᴰ.tail (mem-distinct_of xs t)
      ])
]

pub all-mem {ℓ} :
    {A : Type ℓ} (p : A → Bool) {x : A} (xs : List A) → all p xs ≡ true → Memᴰ x xs → p x ≡ true
all-mem p [] h m = absurd (Memᴰ.not-nil m)
all-mem p (y ∷ ys) h m = elim (Memᴰ.cases_cons m) [
  | inl e ↦ ap p e ∙ ground (arith, h)
  | inr t ↦ all-mem p ys (ground (arith, h)) t
]

-- What a test ensures of its elements holds of every element of a list that passes the test.
pub All-of_all {ℓ κ} :
    {A : Type ℓ} (P : A → Type κ) (p : A → Bool) (xs : List A)
    → ((x : A) → p x ≡ true → P x)
    → all p xs ≡ true
    → All P xs
All-of_all P p [] each h = tt
All-of_all P p (x ∷ xs) each h =
    (each x (ground (arith, h)), All-of_all P p xs each (ground (arith, h)))

-- Rows that are ordered by `ORDER BY`.
module _ {ℓ} {A : Type ℓ} (before : A → A → Bool) where
  pub mem-of_insert_by :
      {x a : A} (xs : List A) → Memᴰ x (insert_by before a xs) → (x ≡ a) ⊎ Memᴰ x xs
  mem-of_insert_by [] m = Memᴰ.cases_cons m
  mem-of_insert_by {x} {a} (y ∷ ys) m = elim (Bool-cases (before y a)) [
    | inr h ↦ Memᴰ.cases_cons (rw h at m)
    | inl h ↦ elim (Memᴰ.cases_cons (rw h at m)) [
      | inl e ↦ inr (Memᴰ.head e)
      | inr t ↦ elim (mem-of_insert_by ys t) [ inl e ↦ inl e | inr t' ↦ inr (Memᴰ.tail t') ]
    ]
  ]

  pub mem-insert_by_of :
      {x a : A} (xs : List A) → (x ≡ a) ⊎ Memᴰ x xs → Memᴰ x (insert_by before a xs)
  mem-insert_by_of [] (inl e) = Memᴰ.head e
  mem-insert_by_of [] (inr m) = absurd (Memᴰ.not-nil m)
  mem-insert_by_of {x} {a} (y ∷ ys) m = elim (Bool-cases (before y a)) [
    | inr h ↦ rw h (elim m [ inl e ↦ Memᴰ.head e | inr t ↦ Memᴰ.tail t ])
    | inl h ↦ rw h (elim m [
      | inl e ↦ Memᴰ.tail (mem-insert_by_of ys (inl e))
      | inr t ↦ elim (Memᴰ.cases_cons t) [
        | inl e ↦ Memᴰ.head e
        | inr t' ↦ Memᴰ.tail (mem-insert_by_of ys (inr t'))
      ]
    ])
  ]

  pub mem-sort_by_iff : {x : A} (xs : List A) → Memᴰ x (sort_by before xs) ↔ Memᴰ x xs
  mem-sort_by_iff [] = (λ m. m, λ m. m)
  mem-sort_by_iff {x} (y ∷ ys) = (
    λ m. elim (mem-of_insert_by (sort_by before ys) m) [
      | inl e ↦ Memᴰ.head e
      | inr t ↦ Memᴰ.tail ((mem-sort_by_iff ys).0 t)
    ],
    λ m.
        mem-insert_by_of (sort_by before ys)
          (elim (Memᴰ.cases_cons m) [ inl e ↦ inl e | inr t ↦ inr ((mem-sort_by_iff ys).1 t) ]),
  )

  -- No row stands before the one in front of it.
  abbrev pub IsOrdered : List A → Type 0
  IsOrdered [] = Unit {0}
  IsOrdered (x ∷ []) = Unit {0}
  IsOrdered (x ∷ y ∷ ys) = (before y x ≡ false) × IsOrdered (y ∷ ys)

  insert_by-IsOrdered :
      (a : A) (xs : List A)
      → ((x y : A) → before x y ≡ true → before y x ≡ false)
      → IsOrdered xs
      → IsOrdered (insert_by before a xs)
  insert_by-IsOrdered a [] asym o = tt
  insert_by-IsOrdered a (x ∷ []) asym o = elim (Bool-cases (before x a)) [
    | inl h ↦ rw h (asym x a h, tt)
    | inr h ↦ rw h (h, tt)
  ]
  insert_by-IsOrdered a (x ∷ y ∷ ys) asym (first, o) = elim (Bool-cases (before x a)) [
    | inr h ↦ rw h (h, (first, o))
    | inl h ↦ elim (Bool-cases (before y a)) [
      | inl h' ↦
          let rest = insert_by-IsOrdered a (y ∷ ys) asym o in rw (h, h') (first, rw h' at rest)
      | inr h' ↦ rw (h, h') (asym x a h, (h', o))
    ]
  ]

  pub sort_by-IsOrdered :
      (xs : List A)
      → ((x y : A) → before x y ≡ true → before y x ≡ false)
      → IsOrdered (sort_by before xs)
  sort_by-IsOrdered [] asym = tt
  sort_by-IsOrdered (x ∷ xs) asym =
      insert_by-IsOrdered x (sort_by before xs) asym (sort_by-IsOrdered xs asym)
