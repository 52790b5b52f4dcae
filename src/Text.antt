-- ===== src/Text.antt =====
-- What the source uses of Go's `strings` and `strconv`, over the native texts.
use Prim.Native.Char.{Char, code}
use Prim.Native.String.{String, [], ◌∷◌, ◌++◌, slice}
use clip_sync_admin.Prelude.{
  ℕ, zero, suc, ◌+◌, ◌-◌, ◌/◌, ◌%◌, Bool, true, false, ◌&&◌, ◌||◌, if◌then◌else◌, leb, ltb, ◌==◌,
  nat_eq, string_eq,
}
use mathlib.Core.List.{List}

-- `unicode.IsSpace`
is_space : Char → Bool
is_space ch =
    let c = code ch in
    (leb 9 c && leb c 13)
    || c == 32
    || c == 0x85
    || c == 0xA0
    || c == 0x1680
    || (leb 0x2000 c && leb c 0x200a)
    || c == 0x2028
    || c == 0x2029
    || c == 0x202f
    || c == 0x205f
    || c == 0x3000

trim_left : String → String
trim_left [] = []
trim_left (c ∷ s) = elim (is_space c) [ true ↦ trim_left s | false ↦ c ∷ s ]

trim_right : String → String
trim_right [] = []
trim_right (c ∷ s) = let rest = trim_right s in if rest == "" && is_space c then [] else c ∷ rest

-- `strings.TrimSpace`
unfoldable pub trim_space : String → String
unfolding is_space trim_left trim_right
trim_space s = trim_right (trim_left s)

-- `strings.ToUpper` and `ToLower` of the ASCII letters, on the code points of a text.
unfoldable pub upper : String → List ℕ
upper [] = List.[]
upper (c ∷ s) =
    List.◌∷◌ (if leb b'a' (code c) && leb (code c) b'z' then code c - 32 else code c) (upper s)

-- Whether code points spell a text.
unfoldable pub spells : List ℕ → String → Bool
spells List.[] [] = true
spells (List.◌∷◌ a l) (c ∷ s) = a == code c && spells l s
spells _ _ = false

unfoldable pub digit : ℕ → String
digit n =
    if n == 0
    then "0"
    else if n == 1
    then "1"
    else if n == 2
    then "2"
    else if n == 3
    then "3"
    else if n == 4
    then "4"
    else if n == 5
    then "5"
    else if n == 6
    then "6"
    else if n == 7
    then "7"
    else if n == 8
    then "8"
    else "9"

unfoldable pub decimal_from : ℕ → ℕ → String
decimal_from zero n = ""
decimal_from (suc fuel) n =
    let more = decimal_from fuel (n / 10) ++ digit (n % 10) in if ltb n 10 then digit n else more

-- `%d` and `strconv.FormatInt` of a natural number; each round divides by ten, so the number itself
-- is fuel enough.
unfoldable pub decimal : ℕ → String
unfolding decimal_from digit
decimal n = decimal_from (suc n) n

-- The code points of `strings.ToLower`, as far as they are ASCII: of the letters A to Z, and of the
-- two others that have an ASCII letter as their small letter.
unfoldable pub lower : String → List ℕ
lower [] = List.[]
lower (c ∷ s) =
    let n = code c in
    List.◌∷◌
      (if leb b'A' n && leb n b'Z'
        then n + 32
        else if n == 0x130
        then b'i'
        else if n == 0x212A
        then b'k'
        else n)
      (lower s)

-- `strings.HasPrefix`, for code points and a text.
unfoldable pub begins : List ℕ → String → Bool
begins l [] = true
begins (List.◌∷◌ a l) (c ∷ s) = a == code c && begins l s
begins List.[] (c ∷ s) = false

abbrev small_letters : String
small_letters = "abcdefghijklmnopqrstuvwxyz"

-- `strings.ToLower` as a text; a letter that is not ASCII and has no ASCII letter as its small letter
-- stays as it is.
unfoldable pub to_lower : String → String
to_lower [] = []
to_lower (c ∷ s) =
    let n = code c in
    (if leb b'A' n && leb n b'Z'
      then slice small_letters (n - b'A') (n - b'A' + 1)
      else if n == 0x130
      then "i"
      else if n == 0x212A
      then "k"
      else c ∷ [])
    ++ to_lower s
