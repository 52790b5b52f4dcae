-- ===== src/Auth/Query/Order.antt =====
-- `BuildSortedQuery` (internal/auth/sign.go): Go ranges over a map in any order, and the query is the
-- same for each.
use mathlib.Core.List.{Permᴰ}
use mathlib.Core.List.Permᴰ
use mathlib.Core.Path.{subst}
use clip_sync_admin.Prelude.{
  String, ◌≡◌, ◌≢◌, ◌∙◌, refl, sym, ap, true, false, List, [], ◌∷◌, eq_iff, inl, inr, Bool-cases,
  arith,
}
use clip_sync_admin.Prelude.Texts.{after, after_asym, after_antisym, not-after_trans}
use clip_sync_admin.Auth.Query.{
  keys_of, first_value, insert_key, sort_strings, join, render, build_sorted_query,
}

insert_key-after :
    (k j : String) (l : List String) → after k j ≡ true → insert_key k (j ∷ l) ≡ j ∷ insert_key k l
unfolding insert_key
insert_key-after k j l h = ground arith

insert_key-first :
    (k j : String) (l : List String) → after k j ≡ false → insert_key k (j ∷ l) ≡ k ∷ j ∷ l
unfolding insert_key
insert_key-first k j l h = ground arith

insert_key_nil : (k : String) → insert_key k [] ≡ k ∷ []
unfolding insert_key
insert_key_nil k = refl

-- Two keys that come first in a list.
insert_key-swap :
    (a b : String) (l : List String)
    → insert_key a l ≡ a ∷ l
    → insert_key b l ≡ b ∷ l
    → insert_key a (b ∷ l) ≡ insert_key b (a ∷ l)
insert_key-swap a b l first_a first_b = elim (Bool-cases (after a b)) [
  | inl ab ↦
      insert_key-after a b l ab
      ∙ ap (λ k. b ∷ k) first_a
      ∙ sym (insert_key-first b a l (after_asym a b ab))
  | inr ab ↦ elim (Bool-cases (after b a)) [
    | inl ba ↦
        insert_key-first a b l ab ∙ sym (ap (λ k. a ∷ k) first_b) ∙ sym (insert_key-after b a l ba)
    | inr ba ↦ rw (after_antisym a b ab ba)
  ]
]

-- A key that comes after the first of a list, and one that does not.
insert_key-apart :
    (a b x : String) (l : List String)
    → after a x ≡ true
    → after b x ≡ false
    → insert_key a (insert_key b (x ∷ l)) ≡ insert_key b (insert_key a (x ∷ l))
insert_key-apart a b x l ax bx =
    let ab : after a b ≡ true = elim (Bool-cases (after a b)) [
      | inl h ↦ h
      | inr h ↦ absurd (ground (arith, ax, not-after_trans a b x h bx))
    ] in
    ap (insert_key a) (insert_key-first b x l bx)
    ∙ insert_key-after a b (x ∷ l) ab
    ∙ ap (λ k. b ∷ k) (insert_key-after a x l ax)
    ∙ sym (insert_key-first b x (insert_key a l) bx)
    ∙ sym (ap (insert_key b) (insert_key-after a x l ax))

-- Two keys may be inserted in either order.
insert_key_comm :
    (a b : String) (l : List String) → insert_key a (insert_key b l) ≡ insert_key b (insert_key a l)
insert_key_comm a b [] =
    ap (insert_key a) (insert_key_nil b)
    ∙ insert_key-swap a b [] (insert_key_nil a) (insert_key_nil b)
    ∙ sym (ap (insert_key b) (insert_key_nil a))
insert_key_comm a b (x ∷ l) = elim (Bool-cases (after a x)) [
  | inl ax ↦ elim (Bool-cases (after b x)) [
    | inl bx ↦
        ap (insert_key a) (insert_key-after b x l bx)
        ∙ insert_key-after a x (insert_key b l) ax
        ∙ ap (λ k. x ∷ k) (insert_key_comm a b l)
        ∙ sym (insert_key-after b x (insert_key a l) bx)
        ∙ sym (ap (insert_key b) (insert_key-after a x l ax))
    | inr bx ↦ insert_key-apart a b x l ax bx
  ]
  | inr ax ↦ elim (Bool-cases (after b x)) [
    | inl bx ↦ sym (insert_key-apart b a x l bx ax)
    | inr bx ↦
        let first_a = insert_key-first a x l ax in
        let first_b = insert_key-first b x l bx in
        ap (insert_key a) first_b
        ∙ insert_key-swap a b (x ∷ l) first_a first_b
        ∙ sym (ap (insert_key b) first_a)
  ]
]

sort_strings-perm : {l k : List String} → Permᴰ l k → sort_strings l ≡ sort_strings k
unfolding sort_strings
sort_strings-perm Permᴰ.nil = refl
sort_strings-perm (Permᴰ.cons {a = a} e p) = rw e (ap (insert_key _) (sort_strings-perm p))
sort_strings-perm (Permᴰ.swap {a = a} {b = b} {l = l} e f) =
    rw (← e, ← f) (insert_key_comm a b (sort_strings l))
sort_strings-perm (Permᴰ.trans p q) = sort_strings-perm p ∙ sort_strings-perm q

-- A list of texts in which none comes after the next.
pub data IsSorted : List String → Type 0 where
  nil : IsSorted []
  one : (s : String) → IsSorted (s ∷ [])
  more :
      {s t : String} {l : List String} → after s t ≡ false → IsSorted (t ∷ l) → IsSorted (s ∷ t ∷ l)

sort_strings_sorted : {l : List String} → IsSorted l → sort_strings l ≡ l
unfolding sort_strings insert_key
sort_strings_sorted nil = refl
sort_strings_sorted (one s) = refl
sort_strings_sorted (more {s = s} {t = t} {l = l} h r) =
    rw (sort_strings_sorted r) (insert_key-first s t l h)

-- The entries of a map have different keys.
abbrev pub Avoids : String → List (String × List String) → Type 0
Avoids k [] = Unit {0}
Avoids k ((j, v) ∷ m) = (j ≢ k) × Avoids k m

abbrev pub Distinct : List (String × List String) → Type 0
Distinct [] = Unit {0}
Distinct ((k, v) ∷ m) = Avoids k m × Distinct m

Avoids-perm : (k : String) {m n : List (String × List String)} → Permᴰ m n → Avoids k m → Avoids k n
Avoids-perm k Permᴰ.nil h = h
Avoids-perm k (Permᴰ.cons e p) (ne, h) = rw (← e) (ne, Avoids-perm k p h)
Avoids-perm k (Permᴰ.swap e f) (ne, (ne', h)) = rw (← e, ← f) (ne', (ne, h))
Avoids-perm k (Permᴰ.trans p q) h = Avoids-perm k q (Avoids-perm k p h)

Distinct-perm : {m n : List (String × List String)} → Permᴰ m n → Distinct m → Distinct n
Distinct-perm Permᴰ.nil h = h
Distinct-perm (Permᴰ.cons {a = a} e p) (new, h) =
    rw (← e) (Avoids-perm a.0 p new, Distinct-perm p h)
Distinct-perm (Permᴰ.swap {a = a} {b = b} {b' = b'} {l = l} e f) ((ne, new), (new', h)) =
    subst (λ z. Distinct (z ∷ b' ∷ l)) f
      (subst (λ z. Distinct (b ∷ z ∷ l)) e ((λ same. ne (sym same), new'), (new, h)))
Distinct-perm (Permᴰ.trans p q) h = Distinct-perm q (Distinct-perm p h)

first_value-perm :
    (k : String) {m n : List (String × List String)}
    → Permᴰ m n
    → Distinct m
    → first_value k m ≡ first_value k n
unfolding first_value
first_value-perm k Permᴰ.nil h = refl
first_value-perm k (Permᴰ.cons {a = a} e p) (new, h) =
    rw (← e) (ground (arith, first_value-perm k p h))
first_value-perm k (Permᴰ.swap {a = a} {b = b} e f) ((ne, new), h) =
    rw (← e, ← f) (ground (arith, ne, eq_iff a.0 k, eq_iff b.0 k))
first_value-perm k (Permᴰ.trans p q) h =
    first_value-perm k p h ∙ first_value-perm k q (Distinct-perm p h)

keys_of_swap :
    (a b : String × List String) (l : List (String × List String))
    → Permᴰ (keys_of (a ∷ b ∷ l)) (keys_of (b ∷ a ∷ l))
unfolding keys_of
keys_of_swap (i, []) (j, []) l = Permᴰ.refl _
keys_of_swap (i, []) (j, v ∷ vs) l = Permᴰ.refl _
keys_of_swap (i, u ∷ us) (j, []) l = Permᴰ.refl _
keys_of_swap (i, u ∷ us) (j, v ∷ vs) l = Permᴰ.swap refl refl

keys_of-perm : {m n : List (String × List String)} → Permᴰ m n → Permᴰ (keys_of m) (keys_of n)
unfolding keys_of
keys_of-perm Permᴰ.nil = Permᴰ.nil
keys_of-perm (Permᴰ.cons {a = (k, [])} e p) = rw (← e) (keys_of-perm p)
keys_of-perm (Permᴰ.cons {a = (k, v ∷ vs)} {l₁ = l} {l₂ = l'} e p) =
    subst (λ z. Permᴰ (k ∷ keys_of l) (keys_of (z ∷ l'))) e (Permᴰ.cons refl (keys_of-perm p))
keys_of-perm (Permᴰ.swap {a = a} {b = b} {b' = b'} {l = l} e f) =
    subst (λ z. Permᴰ (keys_of (a ∷ b ∷ l)) (keys_of (z ∷ b' ∷ l))) f
      (subst (λ z. Permᴰ (keys_of (a ∷ b ∷ l)) (keys_of (b ∷ z ∷ l))) e (keys_of_swap a b l))
keys_of-perm (Permᴰ.trans p q) = Permᴰ.trans (keys_of-perm p) (keys_of-perm q)

render-perm :
    {m n : List (String × List String)} (ks : List String)
    → Permᴰ m n
    → Distinct m
    → render m ks ≡ render n ks
unfolding render
render-perm [] p h = refl
render-perm (k ∷ ks) p h = rw (first_value-perm k p h, render-perm ks p h)

-- For a map whose keys differ, in whatever order its entries are met, the query is made of the entries
-- in any list of the keys with values that is sorted; so it does not depend on the order.
pub build_sorted_query-perm :
    (m n : List (String × List String)) (ks : List String)
    → Distinct m
    → Permᴰ m n
    → Permᴰ (keys_of m) ks
    → IsSorted ks
    → build_sorted_query n ≡ join "&" (render m ks)
unfolding build_sorted_query
build_sorted_query-perm m n ks h p q sorted = rw (← render-perm (sort_strings (keys_of n)) p h) (
    rw (← sort_strings-perm (keys_of-perm p))
      (rw (sort_strings-perm q, sort_strings_sorted sorted)))
