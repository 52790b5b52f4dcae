-- ===== src/Middleware/Common.antt =====
-- internal/middleware/common.go: `CORS` and `TraceID`. What gin-contrib/cors does with its policy is not
-- modelled.
use clip_sync_admin.Prelude.{
  ℕ, ◌*◌, String, Bool, true, false, List, [], ◌∷◌, ◌==◌, string_eq, if◌then◌else◌,
}
use clip_sync_admin.Reply.{ok}
use clip_sync_admin.Config.{CorsConfig, second}
use clip_sync_admin.World.{M, tick}

-- The origins that `CORS` gives to gin-contrib/cors: any origin by a function that says yes or by the
-- flag, or the listed ones.
pub data Origins : Type 0 where
  any_by_function any_by_flag : Origins
  only : List String → Origins

abbrev is_open : List String → Bool
is_open [] = true
is_open (o ∷ []) = o == "*"
is_open (o ∷ (p ∷ os)) = false

unfoldable pub cors_origins : CorsConfig → Origins
cors_origins c =
    if is_open c.allow_origins
    then (if c.allow_credentials then any_by_function else any_by_flag)
    else only c.allow_origins

-- The header of a reply that brings a renewed token.
abbrev refreshed_token_header : String
refreshed_token_header = "X-Refresh-Token"

-- The fields of `cors.Config` that `CORS` sets; `max_age` is in nanoseconds.
pub record Policy : Type 0 where
  pub allow_methods : List String
  pub allow_headers : List String
  pub expose_headers : List String
  pub allow_credentials : Bool
  pub max_age : ℕ
  pub origins : Origins

unfoldable pub cors_policy : CorsConfig → Policy
unfolding cors_origins
cors_policy c = record {
  allow_methods = "GET" ∷ "POST" ∷ "PUT" ∷ "PATCH" ∷ "DELETE" ∷ "OPTIONS" ∷ [];
  allow_headers =
      "Origin" ∷ "Content-Type" ∷ "Accept" ∷ "Authorization" ∷ "X-Trace-Id" ∷ "X-Timestamp"
      ∷ "X-Nonce" ∷ "X-Signature" ∷ [];
  expose_headers = "Content-Length" ∷ "X-Trace-Id" ∷ refreshed_token_header ∷ [];
  allow_credentials = c.allow_credentials;
  max_age = 12 * 3600 * second;
  origins = cors_origins c;
}

-- `TraceID`: the id of the request, or a new one.
unfoldable pub trace_id : String → M String
trace_id header env w = if header == "" then (ok (env.uuid w.calls), tick w) else (ok header, w)
