-- ===== src/Start.antt =====
-- main.go, with `Load` of internal/config/config.go, internal/db/db.go and internal/logger/logger.go:
-- how the program starts. What viper, zap and the drivers of
-- MySQL and Redis answer is a parameter.
pub mod Connected
pub mod Ready
pub mod Protected
use Prim.Native.String.{◌++◌}
use clip_sync_admin.Prelude.{
  ℕ, zero, suc, ◌*◌, String, Bool, Option, none, some, ◌==◌, string_eq, if◌then◌else◌,
}
use clip_sync_admin.Prelude.Int.{ℤ, pos, negsuc}
use clip_sync_admin.Reply.{Outcome, ok, err, raw, error_text}
use clip_sync_admin.Config.{Config, MySqlConfig, RedisConfig, LogConfig, second}
use clip_sync_admin.World.{Env, World, M, ◌>>=◌, ◌>>◌}
use clip_sync_admin.Seed.{seed_super_admin}
use clip_sync_admin.Seed.Menus.{seed_menus_and_perms}

-- The file that viper is to read: the one of the flag `-c`, or config.yaml in the working directory.
pub data ConfigFile : Type 0 where
  at_path : String → ConfigFile
  in_working_directory : ConfigFile

-- The settings of the pool of connections that are changed.
pub record Pool : Type 0 where
  pub max_idle_conns : Option ℕ
  pub max_open_conns : Option ℕ
  pub conn_max_lifetime : Option ℕ

pub record LoggerSettings : Type 0 where
  pub level : String
  pub encoding : String
  pub iso8601 : Bool

-- What `main` calls outside of the program; `none` is no error.
pub record Drivers : Type 0 where
  pub read_in_config : ConfigFile → Option String
  pub unmarshal : ConfigFile → Outcome Config
  pub parse_level : String → Option String
  pub build_logger : LoggerSettings → Option String
  pub open_mysql : (dsn : String) → Option String
  pub sql_db : Option String
  pub ping_mysql : Option String
  pub ping_redis : RedisConfig → Option String
  pub auto_migrate : M (Unit {0})
  -- what the services find for a configuration
  pub connected : Config → Env

-- `if err != nil { return nil, fmt.Errorf("…: %w", err) }`, before what follows.
abbrev pub unless_error : {A : Type 0} → String → Option String → Outcome A → Outcome A
unless_error stage none next = next
unless_error stage (some e) next = err (raw (stage ++ (": " ++ e)))

-- `x, err := m`, with the error wrapped, before what follows.
abbrev pub with_value : {A B : Type 0} → String → Outcome A → (A → Outcome B) → Outcome B
with_value stage (ok a) next = next a
with_value stage (err e) next = err (raw (stage ++ (": " ++ error_text e)))

abbrev pub config_file : String → ConfigFile
config_file path = if path == "" then in_working_directory else at_path path

-- `config.Load`
unfoldable pub load : Drivers → String → Outcome Config
load d path =
    let f = config_file path in
    unless_error "read config" (d.read_in_config f)
      (with_value "unmarshal config" (d.unmarshal f) ok)

-- `zapcore.ParseLevel`, with the level "info" for an error.
abbrev level_of : Option String → String
level_of none = "info"
level_of (some level) = level

-- What `logger.New` sets of zap's configuration for production; the encoding there is "json".
abbrev pub logger_settings : Drivers → LogConfig → LoggerSettings
logger_settings d c = record {
  level = level_of (d.parse_level c.level);
  encoding = if c.format == "console" then "console" else "json";
  iso8601 = c.format == "console";
}

-- `logger.New`
unfoldable pub new_logger : Drivers → LogConfig → Outcome (Unit {0})
new_logger d c = elim (d.build_logger (logger_settings d c)) [ none ↦ ok tt | some e ↦ err (raw e) ]

-- The setting of a number that is above 0.
abbrev pub if_positive : ℤ → Option ℕ
if_positive (pos zero) = none
if_positive (pos (suc n)) = some (suc n)
if_positive (negsuc n) = none

abbrev in_seconds : Option ℕ → Option ℕ
in_seconds none = none
in_seconds (some n) = some (n * second)

-- `db.NewMySQL`
unfoldable pub new_mysql : Drivers → MySqlConfig → Outcome Pool
new_mysql d c = unless_error "open mysql" (d.open_mysql c.dsn) (
    unless_error "get sql.DB" d.sql_db (
      unless_error "ping mysql" d.ping_mysql (
        ok (record {
          max_idle_conns = if_positive c.max_idle_conns;
          max_open_conns = if_positive c.max_open_conns;
          conn_max_lifetime = in_seconds (if_positive c.conn_max_lifetime);
        }))))

-- `db.NewRedis`
unfoldable pub new_redis : Drivers → RedisConfig → Outcome (Unit {0})
new_redis d c = unless_error "ping redis" (d.ping_redis c) (ok tt)

-- What `main` does before it touches the database.
unfoldable pub prepare : Drivers → String → Outcome Config
unfolding load new_logger new_mysql new_redis
prepare d path = with_value "load config" (load d path) λ cfg.
    with_value "init logger" (new_logger d cfg.log) λ _.
      with_value "connect mysql" (new_mysql d cfg.mysql)
        λ _. with_value "connect redis" (new_redis d cfg.redis) λ _. ok cfg

abbrev pub at_stage : String → M (Unit {0}) → M (Unit {0})
at_stage stage m env w =
    let (r, w') = m env w in
    (elim r [ ok _ ↦ ok tt | err e ↦ err (raw (stage ++ (": " ++ error_text e))) ], w')

-- The changes of the database that `main` makes sure of.
unfoldable pub migrate_and_seed : Drivers → Config → M (Unit {0})
unfolding seed_super_admin
migrate_and_seed d cfg = do
  at_stage "auto migrate rbac tables" d.auto_migrate
  at_stage "seed super admin" (seed_super_admin cfg.bootstrap cfg.security.bcrypt_cost)
  at_stage "seed menus & perms" seed_menus_and_perms

-- How a start ends: the program exits with a message, or it serves.
pub data Startup : Type 0 where
  fatal : (message : String) → Startup
  serving : Config → Startup

abbrev pub after_seeding : Config → Outcome (Unit {0}) × World → Startup × World
after_seeding cfg (ok _, w) = (serving cfg, w)
after_seeding cfg (err e, w) = (fatal (error_text e), w)

abbrev pub after_prepare : Drivers → Outcome Config → World → Startup × World
after_prepare d (err e) w = (fatal (error_text e), w)
after_prepare d (ok cfg) w = after_seeding cfg (migrate_and_seed d cfg (d.connected cfg) w)

-- `main`, up to the point where it listens.
unfoldable pub start : Drivers → (path : String) → World → Startup × World
unfolding prepare migrate_and_seed
start d path w = after_prepare d (prepare d path) w
