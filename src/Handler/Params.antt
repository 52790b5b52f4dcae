-- ===== src/Handler/Params.antt =====
-- internal/handler/common.go: what the handlers read of a request. Parameters of the path and of the
-- query are texts; a body is what gin has bound it to.
pub mod Correct
use Prim.Native.Char.{code}
use Prim.Native.String.{String, [], ◌∷◌}
use clip_sync_admin.Prelude.{
  ℕ, ◌+◌, ◌-◌, ◌*◌, ◌^◌, Bool, ◌&&◌, Option, none, some, ltb, leb, ◌==◌, string_eq, if◌then◌else◌,
}
use clip_sync_admin.Prelude.Int.{ℤ}
use clip_sync_admin.Reply.{fail_with, code_param_error}
use clip_sync_admin.World.{Claims}
use clip_sync_admin.Middleware.Header.{parse_int}
use clip_sync_admin.Handler.Respond.{Handled}

-- `operatorID`, and the same steps written out in some handlers: `none` is a context without claims.
unfoldable pub operator_id : Option Claims → ℕ
operator_id none = 0
operator_id (some c) = c.admin_id

-- What `ShouldBindJSON` makes of a body: a value, or an error.
pub data Bound (A : Type 0) : Type 0 where
  bound : A → Bound A
  unbound : (message : String) → Bound A

-- `if !bindOrFail(c, &req) { return }`
unfoldable pub bind_or_fail : {A B : Type 0} → Bound A → (A → Handled B) → Handled B
unfolding fail_with
bind_or_fail (bound req) next env w = next req env w
bind_or_fail (unbound message) next env w = (fail_with code_param_error message, w)

abbrev pub max_uint64 : ℕ
max_uint64 = 2 ^ 64 - 1

abbrev is_digit : ℕ → Bool
is_digit c = leb b'0' c && leb c b'9'

-- The value that `strconv.ParseUint(s, 10, 64)` returns, its error dropped, from the value of the
-- digits before: 0 at the first sign that is no digit, and the largest number at an overflow.
unfoldable pub uint_from : ℕ → String → ℕ
uint_from n [] = n
uint_from n (c ∷ s) =
    let v = n * 10 + (code c - b'0') in
    let rest = uint_from v s in
    if is_digit (code c) then (if ltb max_uint64 v then max_uint64 else rest) else 0

-- `uintP`; the empty text is 0.
unfoldable pub uint_p : String → ℕ
unfolding uint_from
uint_p s = uint_from 0 s

abbrev or_default : Option ℤ → ℤ → ℤ
or_default none d = d
or_default (some n) d = n

-- `intQ`
unfoldable pub int_q : String → ℤ → ℤ
unfolding parse_int
int_q s d = if s == "" then d else or_default (parse_int s) d
