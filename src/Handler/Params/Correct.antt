-- ===== src/Handler/Params/Correct.antt =====
-- The ids that the handlers of internal/handler read of a path, against the ids that the program
-- writes in decimal.
use Prim.Native.Char.{Char, code}
use Prim.Native.String.{String, [], ◌∷◌, ◌++◌}
use text.Mathlib.TextLemmas.{append_assoc, append-nil, cons-append, nil-append}
use clip_sync_admin.Prelude.{
  ℕ, zero, suc, ◌+◌, ◌-◌, ◌*◌, ◌/◌, ◌%◌, ◌^◌, ◌≤◌, ◌<◌, ◌≡◌, ◌∙◌, sym, refl, ap, arith, ltb, inl,
  inr, Bool-cases,
}
use clip_sync_admin.Text.{decimal, decimal_from, digit}
use clip_sync_admin.Handler.Params.{uint_from, uint_p, max_uint64}

digit_char : (d : ℕ) → d < 10 → (c : Char) × (digit d ≡ c ∷ []) × (code c ≡ 48 + d)
unfolding digit
digit_char zero h = ("0", refl, refl)
digit_char (suc zero) h = ("1", refl, refl)
digit_char (suc (suc zero)) h = ("2", refl, refl)
digit_char (suc (suc (suc zero))) h = ("3", refl, refl)
digit_char (suc (suc (suc (suc zero)))) h = ("4", refl, refl)
digit_char (suc (suc (suc (suc (suc zero))))) h = ("5", refl, refl)
digit_char (suc (suc (suc (suc (suc (suc zero)))))) h = ("6", refl, refl)
digit_char (suc (suc (suc (suc (suc (suc (suc zero))))))) h = ("7", refl, refl)
digit_char (suc (suc (suc (suc (suc (suc (suc (suc zero)))))))) h = ("8", refl, refl)
digit_char (suc (suc (suc (suc (suc (suc (suc (suc (suc zero))))))))) h = ("9", refl, refl)
digit_char (suc (suc (suc (suc (suc (suc (suc (suc (suc (suc d)))))))))) h = absurd (omega arith)

-- One digit, read behind a number.
uint_from-digit :
    (n d : ℕ) (rest : String)
    → d < 10
    → n * 10 + d ≤ max_uint64
    → uint_from n (digit d ++ rest) ≡ uint_from (n * 10 + d) rest
unfolding uint_from
uint_from-digit n d rest small fits =
    let (c, one, value) = digit_char d small in
    let shape : digit d ++ rest ≡ c ∷ rest =
      ap (λ s. s ++ rest) one ∙ cons-append c [] rest ∙ ap (λ s. c ∷ s) (nil-append rest) in
    let v : n * 10 + (code c - 48) ≡ n * 10 + d = omega (arith, value) in
    rw shape (ground (arith, value, ap (λ k. uint_from k rest) v))

-- What stands before is read to the number that it spells.
uint_from-decimal :
    (fuel n : ℕ) (rest : String)
    → n < fuel
    → n ≤ max_uint64
    → uint_from 0 (decimal_from fuel n ++ rest) ≡ uint_from n rest
unfolding decimal_from
uint_from-decimal zero n rest enough fits = absurd (omega arith)
uint_from-decimal (suc fuel) n rest enough fits = elim (Bool-cases (ltb n 10)) [
  | inl small ↦ rw small (
      uint_from-digit 0 n rest (ground (arith, small)) (omega arith)
      ∙ ap (λ k. uint_from k rest) (omega arith))
  | inr large ↦ rw large (
      ap (uint_from 0) (append_assoc (decimal_from fuel (n / 10)) (digit (n % 10)) rest)
      ∙ uint_from-decimal fuel (n / 10) (digit (n % 10) ++ rest) (ground (arith, large))
          (omega arith)
      ∙ uint_from-digit (n / 10) (n % 10) rest (omega arith) (omega arith)
      ∙ ap (λ k. uint_from k rest) (omega arith))
]

uint_from-le : (n : ℕ) (s : String) → n ≤ max_uint64 → uint_from n s ≤ max_uint64
unfolding uint_from
uint_from-le n [] h = h
uint_from-le n (c ∷ s) h = ground (arith, uint_from-le (n * 10 + (code c - 48)) s)

read_end : (n : ℕ) → uint_from n "" ≡ n
unfolding uint_from
read_end n = refl

-- The handlers read back every id of 64 bits that is written in decimal, and read no text as a number
-- that is larger than that.
pub uint_p-decimal :
    (id : ℕ) (text : String) → id < 2 ^ 64 → (uint_p (decimal id) ≡ id) × (uint_p text < 2 ^ 64)
unfolding uint_p decimal
uint_p-decimal id text small = (
  ap (uint_from 0) (sym (append-nil (decimal_from (suc id) id)))
      ∙ uint_from-decimal (suc id) id "" (omega arith) (omega arith)
      ∙ read_end id,
  omega (arith, uint_from-le 0 text (omega arith)),
)
