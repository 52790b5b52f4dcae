-- ===== src/Auth.antt =====
-- internal/auth: tokens (jwt.go), administrators' passwords (password.go) and request signatures
-- (sign.go). bcrypt, HMAC and the token library belong to the environment.
pub mod Password
pub mod Query
use Prim.Native.String.{◌++◌}
use clip_sync_admin.Prelude.{ℕ, ◌+◌, ◌*◌, ◌/◌, String, Bool, ◌==◌, nat_eq, string_eq, if◌then◌else◌}
use clip_sync_admin.Reply.{ok, err}
use clip_sync_admin.Config.{second, ttl_duration}
use clip_sync_admin.World.{Env, M, Claims, JwtAnswer, expired, refused, parsed, tick}

-- `jwt.NewNumericDate` keeps whole seconds.
abbrev pub numeric_date : ℕ → ℕ
numeric_date t = t / second * second

-- `Manager.Generate`
unfoldable pub generate : ℕ → String → M (String × Claims)
generate admin_id account env w =
    let c : Claims = record {
      admin_id = admin_id;
      account = account;
      id = env.uuid w.calls;
      issued_at = numeric_date w.now;
      expires_at = numeric_date (w.now + ttl_duration env.cfg.jwt);
    } in
    elim (env.sign_token c) [ ok s ↦ (ok (s, c), tick w) | err e ↦ (err e, tick w) ]

-- `ErrTokenExpired` and `ErrTokenInvalid`, or the claims.
pub data Parsed : Type 0 where
  claims : Claims → Parsed
  token_expired token_invalid : Parsed

abbrev pub parse_answer : JwtAnswer → Parsed
parse_answer expired = token_expired
parse_answer refused = token_invalid
parse_answer (parsed c valid) = if valid then claims c else token_invalid

-- `Manager.Parse`
unfoldable pub parse : Env → ℕ → String → Parsed
parse env now token = parse_answer (env.parse_token now token)

-- `HashPassword`
unfoldable pub hash_password : String → ℕ → M String
hash_password plain cost env w = (env.bcrypt w.calls plain (if cost == 0 then 10 else cost), tick w)

-- `CheckPassword`
unfoldable pub check_password : Env → String → String → Bool
check_password env plain hash = env.bcrypt_matches plain hash

-- The payload and the signature of `CalcSign`.
unfoldable pub calc_sign :
    Env → (method path query timestamp nonce body_md5 secret : String) → String
calc_sign env method path query timestamp nonce body_md5 secret = env.hmac_sha256_hex secret (
    method
    ++ ("\n"
        ++ (path
            ++ ("\n"
                ++ (query ++ ("\n" ++ (timestamp ++ ("\n" ++ (nonce ++ ("\n" ++ body_md5))))))))))

-- `GenSignSecret`
unfoldable pub gen_sign_secret : M String
gen_sign_secret env w = (env.random_hex w.calls, tick w)
