-- ===== src/Tests/Passwords.antt =====
-- The hash of a user's password (internal/auth/password.go) at a concrete input.
use Prim.Native.String.{len}
use clip_sync_admin.Prelude.{
  ℕ, zero, suc, ◌+◌, ◌≡◌, ◌↔◌, ◌∙◌, refl, sym, ap, true, false, String, some, List, [], ◌∷◌, length,
  arith,
}
use clip_sync_admin.Reply.{Outcome, ok, err}
use clip_sync_admin.Auth.Password.{
  hash_text, scrypt_n, scrypt_r, scrypt_p, scrypt_key_len, hash_user_password, check_user_password,
}
use clip_sync_admin.Auth.Password.Correct.{no_dollar, check_user_password-hash_user_password}
use clip_sync_admin.Tests.Sample.{env, world, copies, byte_in_unary, in_unary, unary_from}

unary_from-byte_in_unary :
    (n b : ℕ) (s : String) → unary_from n (byte_in_unary b s) ≡ (n + b) ∷ unary_from 0 s
unary_from-byte_in_unary n zero s = ap (λ k. k ∷ unary_from 0 s) (omega arith)
unary_from-byte_in_unary n (suc b) s =
    unary_from-byte_in_unary (suc n) b s ∙ ap (λ k. k ∷ unary_from 0 s) (omega arith)

unary_from-in_unary : (l : List ℕ) → unary_from 0 (in_unary l) ≡ l
unary_from-in_unary [] = refl
unary_from-in_unary (b ∷ l) =
    unary_from-byte_in_unary 0 b (in_unary l)
    ∙ ap (λ k. k ∷ unary_from 0 (in_unary l)) (omega arith)
    ∙ ap (λ k. b ∷ k) (unary_from-in_unary l)

no_dollar-byte_in_unary :
    (b : ℕ) (s : String) → no_dollar s ≡ true → no_dollar (byte_in_unary b s) ≡ true
unfolding no_dollar
no_dollar-byte_in_unary zero s h = h
no_dollar-byte_in_unary (suc b) s h = no_dollar-byte_in_unary b s h

no_dollar-in_unary : (l : List ℕ) → no_dollar (in_unary l) ≡ true
unfolding no_dollar
no_dollar-in_unary [] = refl
no_dollar-in_unary (b ∷ l) = no_dollar-byte_in_unary b (in_unary l) (no_dollar-in_unary l)

length-copies : (n b : ℕ) → length (copies n b) ≡ n
length-copies zero b = refl
length-copies (suc n) b = ap suc (length-copies n b)

length-key : (n b : ℕ) (key : List ℕ) → ok (copies n b) ≡ ok key → length key ≡ n
length-key n b key h =
    ap length (ap (λ (o : Outcome (List ℕ)). elim o [ ok l ↦ l | err _ ↦ copies n b ]) (sym h))
    ∙ length-copies n b

-- A hash with a salt of sixteen bytes and a key of 32.
abbrev hash_of_ab : String
hash_of_ab = hash_text (in_unary (copies 16 1)) (in_unary (copies 32 2))

check_user_password-hash_user_password_example :
    (check_user_password env hash_of_ab "ab" ≡ true)
    × ((salt key : List ℕ) × (env.scrypt "ab" salt scrypt_n scrypt_r scrypt_p scrypt_key_len
          ≡ ok key)
        × ((check_user_password env hash_of_ab "abc" ≡ true)
            ↔ (env.scrypt "abc" salt scrypt_n scrypt_r scrypt_p scrypt_key_len ≡ ok key)))
unfolding hash_user_password
check_user_password-hash_user_password_example =
    check_user_password-hash_user_password env (λ b. ap some (unary_from-in_unary b))
      no_dollar-in_unary (λ plain salt key made. length-key 32 (len plain) key made) "ab" "abc"
      hash_of_ab world refl

-- The hash of one password does not fit another.
refused_for_abc : check_user_password env hash_of_ab "abc" ≡ false
unfolding check_user_password hash_text
refused_for_abc = refl
