-- ===== src/Auth/Password.antt =====
-- internal/auth/password.go: the hashes of users' passwords, which keep the parameters of scrypt in
-- one text. Bytes are numbers; scrypt and base64 belong to the environment.
pub mod Correct
use Prim.Native.Char.{Char, code}
use Prim.Native.String.{◌++◌, ◌∷◌ as push, [] as empty}
use clip_sync_admin.Prelude.{
  ℕ, Bool, true, false, ◌&&◌, String, Option, some, List, [], ◌∷◌, length, ◌==◌, nat_eq, string_eq,
  if◌then◌else◌,
}
use clip_sync_admin.Prelude.Int.{ℤ, pos}
use clip_sync_admin.Reply.{Outcome, ok, err, raw, error_text}
use clip_sync_admin.World.{Env, M, tick}
use clip_sync_admin.Middleware.Header.{parse_int}

abbrev pub scrypt_n : ℤ
scrypt_n = pos 32768

abbrev pub scrypt_r : ℤ
scrypt_r = pos 8

abbrev pub scrypt_p : ℤ
scrypt_p = pos 1

abbrev pub scrypt_key_len : ℕ
scrypt_key_len = 32

abbrev pub salt_len : ℕ
salt_len = 16

-- The text that `HashUserPassword` builds with `fmt.Sprintf`, its three constants written out.
unfoldable pub hash_text : (salt dk : String) → String
hash_text salt dk =
    "scrypt"
    ++ ("$" ++ ("32768" ++ ("$" ++ ("8" ++ ("$" ++ ("1" ++ ("$" ++ (salt ++ ("$" ++ dk)))))))))

abbrev derived : Env → List ℕ → Outcome (List ℕ) → Outcome String
derived env salt (ok dk) = ok (hash_text (env.encode_bytes salt) (env.encode_bytes dk))
derived env salt (err e) = err (raw ("scrypt 计算失败: " ++ error_text e))

abbrev salted : Env → String → Outcome (List ℕ) → Outcome String
salted env password (ok salt) =
    derived env salt (env.scrypt password salt scrypt_n scrypt_r scrypt_p scrypt_key_len)
salted env password (err e) = err (raw ("生成盐失败: " ++ error_text e))

-- `HashUserPassword`
unfoldable pub hash_user_password : String → M String
unfolding hash_text
hash_user_password password env w =
    (salted env password (env.random_bytes w.calls salt_len), tick w)

abbrev prepend : Char → List String → List String
prepend c [] = push c empty ∷ []
prepend c (s ∷ l) = push c s ∷ l

-- `strings.Split(s, "$")`
unfoldable pub split_dollar : String → List String
split_dollar empty = "" ∷ []
split_dollar (push c s) =
    let rest = split_dollar s in if code c == b'$' then "" ∷ rest else prepend c rest

-- `subtle.ConstantTimeCompare(a, b) == 1`
unfoldable pub same_bytes : List ℕ → List ℕ → Bool
same_bytes [] [] = true
same_bytes (a ∷ l) (b ∷ k) = a == b && same_bytes l k
same_bytes _ _ = false

abbrev pub key_matches : List ℕ → Outcome (List ℕ) → Bool
key_matches want (ok got) = same_bytes got want
key_matches want (err e) = false

abbrev computed_again :
    Env → String → Option ℤ → Option ℤ → Option ℤ → Option (List ℕ) → Option (List ℕ) → Bool
computed_again env password (some n) (some r) (some p) (some salt) (some want) =
    key_matches want (env.scrypt password salt n r p (length want))
computed_again _ _ _ _ _ _ _ = false

abbrev check_parts : Env → String → List String → Bool
check_parts env password (scheme ∷ n ∷ r ∷ p ∷ salt ∷ want ∷ []) =
    scheme == "scrypt"
    && computed_again env password (parse_int n) (parse_int r) (parse_int p) (env.decode_bytes salt)
        (env.decode_bytes want)
check_parts _ _ _ = false

-- `CheckUserPassword`; `strconv.Atoi` reads as `strconv.ParseInt` does, an `int` being of 64 bits.
unfoldable pub check_user_password : Env → (hash password : String) → Bool
unfolding split_dollar same_bytes parse_int
check_user_password env hash password = check_parts env password (split_dollar hash)
