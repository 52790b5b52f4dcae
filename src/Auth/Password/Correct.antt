-- ===== src/Auth/Password/Correct.antt =====
-- internal/auth/password.go: a hash of a user's password is read back.
use Prim.Native.Char.{code}
use Prim.Native.String.{◌++◌, ◌∷◌ as push, [] as empty}
use text.Mathlib.TextLemmas.{cons-append, nil-append}
use clip_sync_admin.Prelude.{
  ℕ, ◌≡◌, ◌↔◌, ◌∙◌, refl, sym, ap, Bool, true, ◌&&◌, not, String, some, List, [], ◌∷◌, length, ◌==◌,
  nat_eq, Bool-cases, inl, inr, arith,
}
use clip_sync_admin.Reply.{Outcome, ok, err}
use clip_sync_admin.World.{Env, World}
use clip_sync_admin.World.Inversion.{Outcome-cases}
use clip_sync_admin.Middleware.Header.{parse_int}
use clip_sync_admin.Auth.Password.{
  scrypt_n, scrypt_r, scrypt_p, scrypt_key_len, salt_len, hash_text, hash_user_password,
  split_dollar, same_bytes, key_matches, check_user_password,
}

unfoldable pub no_dollar : String → Bool
no_dollar empty = true
no_dollar (push c s) = not (code c == b'$') && no_dollar s

-- Splitting gives the part before the first dollar and the parts behind it.
split_dollar-append :
    (s t : String) → no_dollar s ≡ true → split_dollar (s ++ ("$" ++ t)) ≡ s ∷ split_dollar t
unfolding split_dollar no_dollar
split_dollar-append empty t h =
    ap split_dollar (nil-append ("$" ++ t) ∙ cons-append "$" empty t ∙ ap (push "$") (nil-append t))
split_dollar-append (push c s) t h = elim (Bool-cases (code c == b'$')) [
  | inl here ↦ ground (arith, h, here)
  | inr other ↦
      rw (cons-append c s ("$" ++ t))
        (rw other (rw (split_dollar-append s t (ground (arith, h, other))) refl))
]

split_dollar-last : (s : String) → no_dollar s ≡ true → split_dollar s ≡ s ∷ []
unfolding split_dollar no_dollar
split_dollar-last empty h = refl
split_dollar-last (push c s) h = elim (Bool-cases (code c == b'$')) [
  | inl here ↦ ground (arith, h, here)
  | inr other ↦ rw other (rw (split_dollar-last s (ground (arith, h, other))) refl)
]

same_bytes_refl : (l : List ℕ) → same_bytes l l ≡ true
unfolding same_bytes
same_bytes_refl [] = refl
same_bytes_refl (a ∷ l) = ground (arith, same_bytes_refl l)

same_bytes-eq : (l k : List ℕ) → same_bytes l k ≡ true → l ≡ k
unfolding same_bytes
same_bytes-eq [] [] h = refl
same_bytes-eq (a ∷ l) (b ∷ k) h =
    let rest = same_bytes-eq l k (ground (arith, h)) in
    let first : a ≡ b = ground (arith, h) in rw (first, rest) refl
same_bytes-eq [] (b ∷ k) h = absurd (ground (arith, h))
same_bytes-eq (a ∷ l) [] h = absurd (ground (arith, h))

key_matches_iff : (key : List ℕ) (r : Outcome (List ℕ)) → (key_matches key r ≡ true) ↔ (r ≡ ok key)
key_matches_iff key (ok got) =
    (λ h. ap ok (same_bytes-eq got key h), λ e. ap (key_matches key) e ∙ same_bytes_refl key)
key_matches_iff key (err x) =
    (λ h. absurd (ground (arith, h)), λ e. ap (key_matches key) e ∙ same_bytes_refl key)

-- What base64 keeps: bytes are read back, and no text of bytes has a dollar.
module _ (env : Env) (decodes : (b : List ℕ) → env.decode_bytes (env.encode_bytes b) ≡ some b)
    (plain_text : (b : List ℕ) → no_dollar (env.encode_bytes b) ≡ true) where
  split_dollar-hash_text :
      (salt key : List ℕ)
      → split_dollar (hash_text (env.encode_bytes salt) (env.encode_bytes key))
        ≡ "scrypt" ∷ "32768" ∷ "8" ∷ "1" ∷ env.encode_bytes salt ∷ env.encode_bytes key ∷ []
  unfolding hash_text no_dollar
  split_dollar-hash_text salt key =
      split_dollar-append "scrypt" _ refl
      ∙ ap (λ l. "scrypt" ∷ l)
          (split_dollar-append "32768" _ refl
            ∙ ap (λ l. "32768" ∷ l)
                (split_dollar-append "8" _ refl
                  ∙ ap (λ l. "8" ∷ l)
                      (split_dollar-append "1" _ refl
                        ∙ ap (λ l. "1" ∷ l)
                            (split_dollar-append _ _ (plain_text salt)
                              ∙ ap (λ l. env.encode_bytes salt ∷ l)
                                  (split_dollar-last _ (plain_text key))))))

  check_user_password-hash_text :
      (salt key : List ℕ) (other : String)
      → length key ≡ scrypt_key_len
      → check_user_password env (hash_text (env.encode_bytes salt) (env.encode_bytes key)) other
        ≡ key_matches key (env.scrypt other salt scrypt_n scrypt_r scrypt_p scrypt_key_len)
  unfolding check_user_password parse_int
  check_user_password-hash_text salt key other long =
      rw (split_dollar-hash_text salt key) (rw (decodes salt) (rw (decodes key) (rw long refl)))

  -- Where base64 loses nothing and writes no dollar, and scrypt gives a key of the length asked for, a
  -- hash that `HashUserPassword` returns is accepted for its password by `CheckUserPassword`; for
  -- another password it is accepted exactly where scrypt gives both the same key with one salt.
  pub check_user_password-hash_user_password :
      (long : (plain : String) (salt key : List ℕ)
        → env.scrypt plain salt scrypt_n scrypt_r scrypt_p scrypt_key_len ≡ ok key
        → length key ≡ scrypt_key_len)
      (password other hash : String) (w : World)
      → (hash_user_password password env w).0 ≡ ok hash
      → (check_user_password env hash password ≡ true)
        × ((salt key : List ℕ) × (env.scrypt password salt scrypt_n scrypt_r scrypt_p scrypt_key_len
              ≡ ok key)
            × ((check_user_password env hash other ≡ true)
                ↔ (env.scrypt other salt scrypt_n scrypt_r scrypt_p scrypt_key_len ≡ ok key)))
  unfolding hash_user_password
  check_user_password-hash_user_password long password other hash w h =
      elim (Outcome-cases (env.random_bytes w.calls salt_len)) [
        | inr (x, failed) ↦ absurd (ground (arith, h, failed))
        | inl (salt, drawn) ↦
            elim (Outcome-cases
              (env.scrypt password salt scrypt_n scrypt_r scrypt_p scrypt_key_len)) [
                | inr (x, failed) ↦ absurd (ground (arith, h, drawn, failed))
                | inl (key, made) ↦
                    let same : hash_text (env.encode_bytes salt) (env.encode_bytes key) ≡ hash =
                      ground (arith, h, drawn, made) in
                    let checked = λ (plain : String).
                      ap (λ t. check_user_password env t plain) (sym same)
                      ∙ check_user_password-hash_text salt key plain
                          (long password salt key made) in
                    (
                      checked password ∙ ap (key_matches key) made ∙ same_bytes_refl key,
                      (
                        salt,
                        key,
                        made,
                        let (to, from) =
                              key_matches_iff key
                                (env.scrypt other salt scrypt_n scrypt_r scrypt_p scrypt_key_len) in
                            (λ t. to (sym (checked other) ∙ t), λ e. checked other ∙ from e),
                      ),
                    )
              ]
      ]
