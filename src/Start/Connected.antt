-- ===== src/Start/Connected.antt =====
-- What the start of the program (main.go) has found before it touches the database.
use clip_sync_admin.Prelude.{
  String, ◌≡◌, ◌∙◌, refl, ap, Option, none, some, Option-cases, inl, inr, arith,
}
use mathlib.Core.Path.{subst}
use clip_sync_admin.Reply.{Outcome, ok, err}
use clip_sync_admin.Config.{Config, LogConfig, MySqlConfig, RedisConfig}
use clip_sync_admin.Start.{
  Drivers, prepare, config_file, load, logger_settings, new_logger, new_mysql, new_redis,
  unless_error, with_value, Pool,
}

abbrev or_config : Config → Outcome Config → Config
or_config c (ok cfg) = cfg
or_config c (err _) = c

-- The configuration is the one of the file, the logger is built, and MySQL and Redis are there and
-- answer a ping.
pub record IsConnected (d : Drivers) (path : String) (cfg : Config) : Type 0 where
  pub read : d.read_in_config (config_file path) ≡ none
  pub unmarshalled : d.unmarshal (config_file path) ≡ ok cfg
  pub logging : d.build_logger (logger_settings d cfg.log) ≡ none
  pub opened : d.open_mysql cfg.mysql.dsn ≡ none
  pub pooled : d.sql_db ≡ none
  pub mysql_answers : d.ping_mysql ≡ none
  pub redis_answers : d.ping_redis cfg.redis ≡ none

unless_error-ok :
    {A : Type 0} (stage : String) (e : Option String) (next : Outcome A) (a : A)
    → unless_error stage e next ≡ ok a
    → (e ≡ none) × (next ≡ ok a)
unless_error-ok stage none next a h = (refl, h)
unless_error-ok stage (some x) next a h = absurd (ground (arith, h))

with_value-ok :
    {A B : Type 0} (stage : String) (r : Outcome A) (next : A → Outcome B) (b : B)
    → with_value stage r next ≡ ok b
    → (a : A) × (r ≡ ok a) × (next a ≡ ok b)
with_value-ok stage (ok a) next b h = (a, refl, h)
with_value-ok stage (err x) next b h = absurd (ground (arith, h))

load-ok :
    (d : Drivers) (path : String) (cfg : Config)
    → load d path ≡ ok cfg
    → (d.read_in_config (config_file path) ≡ none) × (d.unmarshal (config_file path) ≡ ok cfg)
unfolding load
load-ok d path cfg h =
    let f = config_file path in
    let (read, e) = unless_error-ok "read config" (d.read_in_config f) _ cfg h in
    let (c, unmarshalled, same) = with_value-ok "unmarshal config" (d.unmarshal f) ok cfg e in
    (read, unmarshalled ∙ same)

new_logger-ok :
    (d : Drivers) (c : LogConfig)
    → new_logger d c ≡ ok tt
    → d.build_logger (logger_settings d c) ≡ none
unfolding new_logger
new_logger-ok d c h = elim (Option-cases (d.build_logger (logger_settings d c))) [
  | inl none_left ↦ none_left
  | inr (x, bad) ↦ absurd (ground (arith, h, bad))
]

new_mysql-ok :
    (d : Drivers) (c : MySqlConfig) (p : Pool)
    → new_mysql d c ≡ ok p
    → (d.open_mysql c.dsn ≡ none) × (d.sql_db ≡ none) × (d.ping_mysql ≡ none)
unfolding new_mysql
new_mysql-ok d c p h =
    let (opened, e) = unless_error-ok "open mysql" (d.open_mysql c.dsn) _ p h in
    let (pooled, e') = unless_error-ok "get sql.DB" d.sql_db _ p e in
    let (answers, _) = unless_error-ok "ping mysql" d.ping_mysql _ p e' in (opened, pooled, answers)

new_redis-ok : (d : Drivers) (c : RedisConfig) → new_redis d c ≡ ok tt → d.ping_redis c ≡ none
unfolding new_redis
new_redis-ok d c h = (unless_error-ok "ping redis" (d.ping_redis c) (ok tt) tt h).0

pub prepare-IsConnected :
    (d : Drivers) (path : String) (cfg : Config) → prepare d path ≡ ok cfg → IsConnected d path cfg
unfolding prepare
prepare-IsConnected d path cfg h =
    let (c, loaded, e) = with_value-ok "load config" (load d path) _ cfg h in
    let (_, logged, e1) = with_value-ok "init logger" (new_logger d c.log) _ cfg e in
    let (p, opened, e2) = with_value-ok "connect mysql" (new_mysql d c.mysql) _ cfg e1 in
    let (_, answered, e3) = with_value-ok "connect redis" (new_redis d c.redis) _ cfg e2 in
    let same : c ≡ cfg = ap (or_config c) e3 in
    let (read, unmarshalled) = load-ok d path c loaded in
    let (mysql_opened, pooled, mysql_answers) = new_mysql-ok d c.mysql p opened in
    subst (IsConnected d path) same (record {
      read = read;
      unmarshalled = unmarshalled;
      logging = new_logger-ok d c.log logged;
      opened = mysql_opened;
      pooled = pooled;
      mysql_answers = mysql_answers;
      redis_answers = new_redis-ok d c.redis answered;
    })
