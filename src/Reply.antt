-- ===== src/Reply.antt =====
-- internal/result: the response codes, their messages and the body of a response; and the errors
-- of internal/service/auth_service.go (`bizError`), with the results that carry them.
use clip_sync_admin.Prelude.{ℕ, String, Option, none, some, ◌&&◌, leb, ◌==◌, nat_eq, if◌then◌else◌}
use Prim.Native.String.{◌++◌}

abbrev pub code_success : ℕ
code_success = 1200

abbrev pub code_fail : ℕ
code_fail = 1400

abbrev pub code_login_error_limit : ℕ
code_login_error_limit = 1401

abbrev pub code_auth_fail : ℕ
code_auth_fail = 1402

abbrev pub code_access_denied : ℕ
code_access_denied = 1403

abbrev pub code_api_not_found : ℕ
code_api_not_found = 1404

abbrev pub code_param_error : ℕ
code_param_error = 1405

abbrev pub code_unauthorized : ℕ
code_unauthorized = 1410

abbrev pub code_jwt_expired : ℕ
code_jwt_expired = 1411

abbrev pub code_jwt_invalid : ℕ
code_jwt_invalid = 1412

abbrev pub code_sign_invalid : ℕ
code_sign_invalid = 1413

abbrev pub code_sign_expired : ℕ
code_sign_expired = 1414

abbrev pub code_account_disable : ℕ
code_account_disable = 1430

abbrev pub code_password_format : ℕ
code_password_format = 1444

abbrev pub code_account_locked : ℕ
code_account_locked = 1445

abbrev pub code_account_exists : ℕ
code_account_exists = 1450

abbrev pub code_account_not_found : ℕ
code_account_not_found = 1451

abbrev pub code_record_exists : ℕ
code_record_exists = 1460

abbrev pub code_record_not_found : ℕ
code_record_not_found = 1461

abbrev pub code_internal_error : ℕ
code_internal_error = 1500

abbrev pub code_db_error : ℕ
code_db_error = 1510

abbrev pub code_cache_error : ℕ
code_cache_error = 1511

-- The map `codeMessages`, with the text that `MessageOf` gives for a code that is not in it.
unfoldable pub message_of : ℕ → String
message_of code =
    if code == code_success
    then "成功"
    else if code == code_fail
    then "处理失败"
    else if code == code_login_error_limit
    then "登录错误次数已达上限"
    else if code == code_auth_fail
    then "用户名或密码错误"
    else if code == code_access_denied
    then "无接口权限"
    else if code == code_api_not_found
    then "接口不存在"
    else if code == code_param_error
    then "请求参数错误"
    else if code == code_unauthorized
    then "未登录或 Token 过期"
    else if code == code_jwt_expired
    then "TOKEN 已过期"
    else if code == code_jwt_invalid
    then "TOKEN 无效"
    else if code == code_sign_invalid
    then "签名校验失败"
    else if code == code_sign_expired
    then "签名已过期，请重新发起"
    else if code == code_account_disable
    then "账号已禁用"
    else if code == code_password_format
    then "密码格式不符合规则"
    else if code == code_account_locked
    then "账号已锁定"
    else if code == code_account_exists
    then "账号已存在"
    else if code == code_account_not_found
    then "账号不存在"
    else if code == code_record_exists
    then "记录已存在"
    else if code == code_record_not_found
    then "记录不存在"
    else if code == code_internal_error
    then "内部服务错误"
    else if code == code_db_error
    then "数据库异常"
    else if code == code_cache_error
    then "缓存异常"
    else "未知错误"

unfoldable pub prefix : ℕ → String → String
prefix code msg =
    if leb 1200 code && leb code 1299
    then msg
    else if leb 1400 code && leb code 1499
    then "抱歉！" ++ msg
    else if leb 1500 code && leb code 1599
    then "抱歉！系统异常，" ++ msg
    else msg

-- `Result`, the JSON body of every response; the type of the payload depends on the handler.
pub record Response (A : Type 0) : Type 0 where
  pub code : ℕ
  pub message : String
  pub payload : Option A

module _ {A : Type 0} where
  unfoldable pub success : Option A → Response A
  unfolding message_of
  success payload = record {
    code = code_success;
    message = message_of code_success;
    payload = payload;
  }

  unfoldable pub fail_with : ℕ → String → Response A
  unfolding prefix
  fail_with code msg = record { code = code; message = prefix code msg; payload = none }

  unfoldable pub fail : ℕ → Response A
  unfolding prefix message_of
  fail code = record { code = code; message = prefix code (message_of code); payload = none }

-- A `bizError`, or any other error of Go, of which the text is all that the code uses.
pub data Error : Type 0 where
  biz : (code : ℕ) → (message : String) → Error
  raw : (message : String) → Error

-- `err.Error()`
abbrev pub error_text : Error → String
error_text (biz _ message) = message
error_text (raw message) = message

-- `AsBiz`
abbrev pub as_biz : Error → Option (ℕ × String)
as_biz (biz code message) = some (code, message)
as_biz (raw _) = none

-- What a Go function that may fail returns: its value, or an error that is not nil.
pub data Outcome (A : Type 0) : Type 0 where
  ok : A → Outcome A
  err : Error → Outcome A
