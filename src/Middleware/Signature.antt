-- ===== src/Middleware/Signature.antt =====
-- internal/middleware/sign.go: the signature of every request.
pub mod Complete
pub mod Correct
pub mod Replay
use Prim.Native.String.{◌++◌, len, slice}
use text.Mathlib.Text.{starts_with}
use clip_sync_admin.Prelude.{
  ℕ, ◌*◌, ◌+◌, String, Bool, ◌||◌, Option, none, some, List, ltb, ◌==◌, nat_eq, string_eq,
  if◌then◌else◌,
}
use clip_sync_admin.Prelude.Int.{ℤ, pos_part, neg_part}
use clip_sync_admin.Config.{minute}
use clip_sync_admin.Reply.{
  Outcome, ok, err, message_of, code_sign_invalid, code_sign_expired, code_cache_error,
}
use clip_sync_admin.World.{pure, Env, M, attempt, or_zero, asks, ◌>>=◌}
use clip_sync_admin.Auth.{parse, Parsed, claims, token_expired, token_invalid, calc_sign}
use clip_sync_admin.Auth.Query.{build_sorted_query}
use clip_sync_admin.Session.{set_nx_nonce, get_sign_secret}
use clip_sync_admin.Middleware.Header.{strip_bearer, parse_int}

abbrev pub sign_window : ℕ
sign_window = 5 * minute

abbrev pub nonce_ttl : ℕ
nonce_ttl = 5 * minute

abbrev pub api_prefix : String
api_prefix = "/api/admin"

-- What the middleware reads of a request. `authorization` is the header that `cfg.Header` names;
-- `body` is what `io.ReadAll` gives, `none` for an error.
pub record Request : Type 0 where
  pub method : String
  pub path : String
  pub query : List (String × List String)
  pub timestamp : String
  pub nonce : String
  pub signature : String
  pub authorization : String
  pub body : Option String

-- What a middleware does with a request: lets it pass on, or answers it with a code and a message.
pub data Verdict (A : Type 0) : Type 0 where
  pass : A → Verdict A
  abort : (code : ℕ) → (message : String) → Verdict A

-- `result.Fail`: the message is that of the code.
abbrev pub abort_with : {A : Type 0} → ℕ → Verdict A
abort_with code = abort code (message_of code)

-- Whether the time of the request is off by more than the window; times are in nanoseconds.
unfoldable pub is_stale : ℕ → ℤ → Bool
is_stale now ms =
    ltb (now + neg_part ms * 1000000 + sign_window) (pos_part ms * 1000000)
    || ltb (pos_part ms * 1000000 + sign_window) (now + neg_part ms * 1000000)

abbrev pub nonce_key : String → String
nonce_key nonce = "admin:sign_nonce:" ++ nonce

-- The key of the session of the token's administrator, and "" for a token that is not valid.
unfoldable pub session_secret : Parsed → M String
unfolding get_sign_secret
session_secret (claims c) = or_zero "" (get_sign_secret c.admin_id)
session_secret token_expired = pure ""
session_secret token_invalid = pure ""

-- With a token the key of the session, and without one the static key.
unfoldable pub signing_secret : String → M String
unfolding session_secret parse
signing_secret token env w =
    if token == ""
    then (ok env.cfg.security.sign_static_secret, w)
    else session_secret (parse env w.now token) env w

-- The path without the prefix of the API, and "/" for an empty rest.
unfoldable pub relative_path : String → String
relative_path path =
    let rest =
      if starts_with path api_prefix then slice path (len api_prefix) (len path) else path in
    if rest == "" then "/" else rest

abbrev body_md5 : Env → String → String
body_md5 env body = if body == "" then "" else env.md5_hex body

-- The signature that a request must carry.
unfoldable pub expected_sign : Env → Request → String → String → String
unfolding calc_sign build_sorted_query relative_path
expected_sign env r body secret =
    calc_sign env r.method (relative_path r.path) (build_sorted_query r.query) r.timestamp r.nonce
      (body_md5 env body) secret

unfoldable pub compare_sign : Env → Request → String → Option String → Verdict (Unit {0})
unfolding expected_sign
compare_sign env r secret none = abort code_sign_invalid "读取请求体失败"
compare_sign env r secret (some body) =
    if expected_sign env r body secret == r.signature
    then pass tt
    else abort code_sign_invalid "签名校验失败"

-- From the choice of the key on.
unfoldable pub check_secret : Request → M (Verdict (Unit {0}))
unfolding signing_secret strip_bearer compare_sign
check_secret r = do
  scheme ← asks (λ env. env.cfg.jwt.scheme)
  secret ← signing_secret (strip_bearer r.authorization scheme)
  asks (λ env.
      if secret == ""
      then abort code_sign_invalid "签名密钥失效，请重新登录"
      else compare_sign env r secret r.body)

-- What follows the SETNX of the nonce.
unfoldable pub after_nonce : Request → Outcome Bool → M (Verdict (Unit {0}))
unfolding check_secret message_of
after_nonce r (err _) env w = (ok (abort_with code_cache_error), w)
after_nonce r (ok fresh) env w =
    if fresh then check_secret r env w else (ok (abort code_sign_invalid "请求已过期或重复提交"), w)

unfoldable pub after_time : Request → Option ℤ → M (Verdict (Unit {0}))
unfolding is_stale set_nx_nonce after_nonce message_of
after_time r none env w = (ok (abort code_sign_invalid "时间戳格式错误"), w)
after_time r (some ms) env w =
    if is_stale w.now ms
    then (ok (abort_with code_sign_expired), w)
    else (do fresh ← attempt (set_nx_nonce (nonce_key r.nonce) nonce_ttl); after_nonce r fresh) env
        w

-- `Sign`
unfoldable pub sign : Request → M (Verdict (Unit {0}))
unfolding after_time parse_int
sign r env w =
    if r.timestamp == "" || r.nonce == "" || r.signature == ""
    then (ok (abort code_sign_invalid "缺少签名参数"), w)
    else after_time r (parse_int r.timestamp) env w
