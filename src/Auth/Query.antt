-- ===== src/Auth/Query.antt =====
-- `BuildSortedQuery` of internal/auth/sign.go. A Go map is a list of its entries, with different
-- keys, in the order in which `range` meets them.
pub mod Order
use Prim.Native.String.{◌++◌, compare}
use Prim.Native.Nat.{Ordering}
use clip_sync_admin.Prelude.{String, List, [], ◌∷◌, ◌==◌, string_eq, if◌then◌else◌}

-- The keys that have a value.
unfoldable pub keys_of : List (String × List String) → List String
keys_of [] = []
keys_of ((k, []) ∷ m) = keys_of m
keys_of ((k, v ∷ vs) ∷ m) = k ∷ keys_of m

-- `params[k][0]`
unfoldable pub first_value : String → List (String × List String) → String
first_value k [] = ""
first_value k ((j, vs) ∷ m) = if j == k then (elim vs [ [] ↦ "" | v ∷ _ ↦ v ]) else first_value k m

-- `sort.Strings`, by insertion: texts are ordered by their bytes.
unfoldable pub insert_key : String → List String → List String
insert_key k [] = k ∷ []
insert_key k (j ∷ js) =
    let rest = insert_key k js in elim (compare k j) [ Ordering.gt ↦ j ∷ rest | _ ↦ k ∷ (j ∷ js) ]

unfoldable pub sort_strings : List String → List String
unfolding insert_key
sort_strings [] = []
sort_strings (k ∷ ks) = insert_key k (sort_strings ks)

unfoldable pub join : String → List String → String
join sep [] = ""
join sep (s ∷ []) = s
join sep (s ∷ (t ∷ ts)) = s ++ (sep ++ join sep (t ∷ ts))

unfoldable pub render : List (String × List String) → List String → List String
unfolding first_value
render params [] = []
render params (k ∷ ks) = (k ++ ("=" ++ first_value k params)) ∷ render params ks

unfoldable pub build_sorted_query : List (String × List String) → String
unfolding keys_of sort_strings join render
build_sorted_query params = join "&" (render params (sort_strings (keys_of params)))
