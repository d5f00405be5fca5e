-- ===== src/Config.antt =====
-- config/config.go.
pub mod Accepted
use edifact_parser.Base.{
  ℕ, ◌≤◌, Bool, true, false, ◌||◌, Option, none, some, List, [], ◌∷◌, ◌++◌, Bytes, codes, length,
  ltb, ◌==◌, if◌then◌else◌,
}
use edifact_parser.Parser.State.{ℤ, pos, negsuc}
use edifact_parser.Domain.{Result, ok, err}
use edifact_parser.Domain.Entities.{below_one}

pub record DatabaseConfig : Type 0 where
  pub host : Bytes
  pub port : ℤ
  pub user : Bytes
  pub password : Bytes
  pub name : Bytes
  pub ssl_mode : Bytes
  pub pool_size : ℤ

pub record KafkaConfig : Type 0 where
  pub brokers : List Bytes
  pub topic : Bytes
  pub partition : ℤ

pub record ServerConfig : Type 0 where
  pub port : ℤ

pub record LoggingConfig : Type 0 where
  pub level : Bytes
  pub format : Bytes

pub record OTelConfig : Type 0 where
  pub endpoint : Bytes
  pub service_name : Bytes
  pub enabled : Bool
  pub metrics_enabled : Bool
  pub logs_enabled : Bool

pub record Config : Type 0 where
  pub database : DatabaseConfig
  pub kafka : KafkaConfig
  pub server : ServerConfig
  pub logging : LoggingConfig
  pub otel : OTelConfig

abbrev pub max_port : ℕ
max_port = 65535

-- The errors that `Validate` joins, with the number that each prints.
pub data ConfigError : Type 0 where
  server_port database_port pool_size : ℤ → ConfigError
  no_brokers : ConfigError

-- `port < minPort || port > maxPort`
abbrev pub out_of_range : ℤ → Bool
out_of_range (pos n) = ltb n 1 || ltb max_port n
out_of_range (negsuc n) = true

abbrev pub error_if : Bool → ConfigError → List ConfigError
error_if true e = e ∷ []
error_if false e = []

-- `Validate`; no error is nil.
unfoldable pub validate : Config → List ConfigError
validate c =
    error_if (out_of_range c.server.port) (server_port c.server.port)
    ++ error_if (out_of_range c.database.port) (database_port c.database.port)
    ++ error_if (below_one c.database.pool_size) (pool_size c.database.pool_size)
    ++ error_if (length c.kafka.brokers == 0) no_brokers

pub data LoadError : Type 0 where
  loading : Bytes → LoadError
  validating : List ConfigError → LoadError

abbrev pub validated : Config → List ConfigError → Result LoadError Config
validated c [] = ok c
validated c (e ∷ es) = err (validating (e ∷ es))

-- `Load`, from what envconfig made of the environment.
unfoldable pub load : Result Bytes Config → Result LoadError Config
unfolding validate
load (err e) = err (loading e)
load (ok c) = validated c (validate c)

-- `DSN`; `decimal` is what %d prints.
unfoldable pub dsn : (ℤ → Bytes) → DatabaseConfig → Bytes
dsn decimal d =
    codes "postgres://"
    ++ d.user
    ++ codes ":"
    ++ d.password
    ++ codes "@"
    ++ d.host
    ++ codes ":"
    ++ decimal d.port
    ++ codes "/"
    ++ d.name
    ++ codes "?sslmode="
    ++ d.ssl_mode
    ++ codes "&pool_max_conns="
    ++ decimal d.pool_size
