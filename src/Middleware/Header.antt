-- ===== src/Middleware/Header.antt =====
-- internal/middleware/common.go: `StripBearer`; and `strconv.ParseInt(s, 10, 64)`.
use Prim.Native.Char.{code}
use Prim.Native.String.{String, [], ◌∷◌, ◌++◌, len, slice}
use text.Mathlib.Text.{starts_with}
use clip_sync_admin.Prelude.{
  ℕ, ◌+◌, ◌-◌, ◌*◌, ◌^◌, Bool, true, false, ◌&&◌, Option, none, some, ltb, leb, ◌==◌, nat_eq,
  string_eq, if◌then◌else◌,
}
use clip_sync_admin.Prelude.Int.{ℤ, pos, negsuc}
use clip_sync_admin.Text.{trim_space}

-- `StripBearer`
unfoldable pub strip_bearer : String → String → String
unfolding trim_space
strip_bearer h scheme =
    if h == ""
    then ""
    else if scheme == ""
    then trim_space h
    else if starts_with h (scheme ++ " ")
    then trim_space (slice h (len (scheme ++ " ")) (len h))
    else trim_space h

-- The value of a text of decimal digits, from the value of what stands before it.
unfoldable pub digits_from : ℕ → String → Option ℕ
digits_from n [] = some n
digits_from n (c ∷ s) =
    let rest = digits_from (n * 10 + (code c - b'0')) s in
    if leb b'0' (code c) && leb (code c) b'9' then rest else none

unfoldable pub digits : String → Option ℕ
unfolding digits_from
digits [] = none
digits (c ∷ s) = digits_from 0 (c ∷ s)

-- An integer of 64 bits from its sign and its magnitude, where it is in range.
unfoldable pub in_range : Bool → ℕ → Option ℤ
in_range negative n =
    if negative
    then (if leb n (2 ^ 63) then some (if n == 0 then pos 0 else negsuc (n - 1)) else none)
    else (if ltb n (2 ^ 63) then some (pos n) else none)

abbrev signed : Bool → Option ℕ → Option ℤ
signed negative none = none
signed negative (some n) = in_range negative n

-- `strconv.ParseInt(s, 10, 64)`, with `none` for an error.
unfoldable pub parse_int : String → Option ℤ
unfolding digits in_range
parse_int [] = none
parse_int (c ∷ s) =
    if code c == b'-'
    then signed true (digits s)
    else if code c == b'+'
    then signed false (digits s)
    else signed false (digits (c ∷ s))
