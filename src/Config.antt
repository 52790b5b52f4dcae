-- ===== src/Config.antt =====
-- internal/config/config.go: the settings.
use clip_sync_admin.Prelude.{ℕ, ◌*◌, String, Bool, List}
use clip_sync_admin.Prelude.Int.{ℤ}

pub record AppConfig : Type 0 where
  pub name : String
  pub addr : String
  pub mode : String

pub record MySqlConfig : Type 0 where
  pub dsn : String
  pub max_idle_conns : ℤ
  pub max_open_conns : ℤ
  pub conn_max_lifetime : ℤ

pub record RedisConfig : Type 0 where
  pub addr : String
  pub password : String
  pub db : ℤ

pub record JwtConfig : Type 0 where
  pub secret : String
  pub header : String
  pub scheme : String
  pub ttl : ℕ
  pub refresh_on_access : Bool

pub record SecurityConfig : Type 0 where
  pub bcrypt_cost : ℕ
  pub login_error_limit : ℕ
  pub login_error_ttl : ℕ
  pub sign_static_secret : String

pub record CorsConfig : Type 0 where
  pub allow_origins : List String
  pub allow_credentials : Bool

pub record ServerConfig : Type 0 where
  pub key_prefix : String
  pub addr : String
  pub http_admin_token : String

pub record LogConfig : Type 0 where
  pub level : String
  pub format : String

pub record BootstrapConfig : Type 0 where
  pub super_admin_account : String
  pub super_admin_password : String
  pub super_admin_name : String

pub record UploadConfig : Type 0 where
  pub dir : String
  pub url_prefix : String
  pub max_size : ℤ
  pub allow_ext : List String

pub record Config : Type 0 where
  pub app : AppConfig
  pub mysql : MySqlConfig
  pub redis : RedisConfig
  pub jwt : JwtConfig
  pub security : SecurityConfig
  pub cors : CorsConfig
  pub log : LogConfig
  pub bootstrap : BootstrapConfig
  pub upload : UploadConfig
  pub server : ServerConfig

-- One second, in the nanoseconds of `time.Duration`.
abbrev pub second : ℕ
second = 1000000000

abbrev pub minute : ℕ
minute = 60 * second

abbrev pub ttl_duration : JwtConfig → ℕ
ttl_duration j = j.ttl * second
