-- ===== src/Settings.antt =====
-- config/app.config.ts, config/helpers.ts, config/database.config.ts, common/helpers/connection.helper.ts,
-- and what is made of the settings in app.module.ts, modules/queue/queue.config.ts,
-- common/microservices/redis.config.ts and common/validators. The rules of the package joi, `new URL` and `Number` of
-- JavaScript are parameters; `none` of `Number` is NaN.
pub mod RedisUrl
pub mod Words
use nft_tracker.Prelude.{
  ℕ, Text, text, Option, none, some, Bool, true, false, not, List, [], ◌∷◌, ◌++◌, ◌==◌, ◌===◌, ◌||◌,
  any, map, or_else, is_empty, trim, split_on, to_lower, if◌then◌else◌,
}
use nft_tracker.Store.Entities.{Json}
use nft_tracker.Store.World.{Error}
use nft_tracker.Store.Exec.{Result, ok, err}
use nft_tracker.Settings.RedisUrl.{Url, RedisClientOptions, Connection, parse_redis_url, ◌>>=◌}

-- `splitClear`
unfoldable pub split_clear : Option Text → List Text
split_clear value = map trim (split_on b',' (or_else value []))

abbrev pub level_of : Text → Text
level_of level = if level === text "log" then text "info" else level

-- `splitLog`
unfoldable pub split_log : Option Text → List Text
split_log value = map level_of (map trim (split_on b',' (or_else value [])))

module _ (number : Text → Option ℕ) where
  -- the coercion of CHAIN_IDS
  unfoldable pub chain_ids_of : Text → List (Option ℕ)
  chain_ids_of value = map (λ chain_id. number (trim chain_id)) (split_on b',' value)

-- what joi makes of the environment, defaults included
pub record EnvironmentVariables : Type 0 where
  pub app_name : Text
  pub app_env : Option Text
  pub app_kind : Text
  pub node_env : Text
  pub host : Text
  pub port : ℕ
  pub log_level : Option (List Text)
  pub cache_manager_url : Text
  pub cache_manager_prefix : Text
  pub queue_url : Text
  pub cors_origins : List Text
  pub base_url : Text
  pub feature_flags : Option Json
  pub cloudinary : Json
  pub chain_ids : List ℕ
  pub db_host : Text
  pub db_port : ℕ
  pub db_user : Text
  pub db_password : Text
  pub db_name : Text

pub record DatabaseConfig : Type 0 where
  pub user : Text
  pub password : Text
  pub name : Text
  pub host : Text
  pub port : ℕ

pub record CacheManagerConfig : Type 0 where
  pub url : Text
  pub prefix : Text
  pub host : Text
  pub port : Option (Option ℕ)
  pub tls : Bool
  -- `database?` and, in app.module.ts, `password`
  pub database : Option ℕ
  pub password : Option Text

pub record AppConfig : Type 0 where
  pub app_env : Text
  pub name : Text
  pub host : Text
  pub port : ℕ
  pub log_level : Option Text
  pub database : DatabaseConfig
  pub cache_manager : CacheManagerConfig
  pub queue_url : Text
  pub node_env : Text
  pub cors_origins : List Text
  pub base_url : Text
  pub feature_flags : Option Json
  pub cloudinary : Json
  pub chain_ids : List ℕ
  pub kind : Text

-- `env.LOG_LEVEL ? env.LOG_LEVEL[0] : 'info'`
abbrev log_level_of : Option (List Text) → Option Text
log_level_of none = some (text "info")
log_level_of (some []) = none
log_level_of (some (level ∷ levels)) = some level

required : {A : Type 0} → Text → Option A → Result A
required message none = err (Error.message message)
required message (some a) = ok a

abbrev pub cache_manager_of : EnvironmentVariables → RedisClientOptions → CacheManagerConfig
cache_manager_of env redis = record {
  url = env.cache_manager_url;
  prefix = env.cache_manager_prefix;
  host = redis.host;
  port = redis.port;
  tls = redis.tls;
  database = none;
  password = none;
}

module _ (number : Text → Option ℕ) (parse_url : Text → Option Url) where
  unfoldable pub parse_redis : Text → Result RedisClientOptions
  unfolding required
  parse_redis url = do
    parts ← required (text "Invalid URL") (parse_url url)
    parse_redis_url number parts

  -- `validated` is the value that joi returns for the environment.
  unfoldable pub get_app_config : Option EnvironmentVariables → Result AppConfig
  unfolding required
  get_app_config validated = do
    env ← required (text "Invalid environment variables") validated
    redis ← parse_redis env.cache_manager_url
    ok (record {
      app_env = or_else env.app_env (text "local");
      name = env.app_name;
      host = env.host;
      port = env.port;
      log_level = log_level_of env.log_level;
      database = record {
        user = env.db_user;
        password = env.db_password;
        name = env.db_name;
        host = env.db_host;
        port = env.db_port;
      };
      cache_manager = cache_manager_of env redis;
      queue_url = env.queue_url;
      node_env = env.node_env;
      cors_origins = env.cors_origins;
      base_url = env.base_url;
      feature_flags = env.feature_flags;
      cloudinary = env.cloudinary;
      chain_ids = env.chain_ids;
      kind = env.app_kind;
    })

abbrev is_one_of : List Text → Option Text → Bool
is_one_of kinds none = false
is_one_of kinds (some kind) = any (λ k. k === trim kind) kinds

-- `isWatcher`, `isWorker`, of the variable APP_KIND
unfoldable pub is_watcher : Option Text → Bool
is_watcher kind = is_one_of (text "standalone" ∷ text "watcher" ∷ []) kind

unfoldable pub is_worker : Option Text → Bool
is_worker kind = is_one_of (text "standalone" ∷ text "worker" ∷ []) kind

-- `IsChainId.validate`, `AddressCannotZero.validate`
unfoldable pub is_chain_id : List ℕ → Option ℕ → Bool
is_chain_id supported_ids none = false
is_chain_id supported_ids (some n) = any (λ c. c == n) supported_ids

unfoldable pub address_cannot_zero : Text → Text → Bool
address_cannot_zero zero_address value = not (to_lower value === to_lower zero_address)

-- What the cache is connected to with (app.module.ts).
unfoldable pub cache_connection : CacheManagerConfig → Connection
cache_connection c = record {
  host = c.host;
  port = c.port;
  database = none;
  tls = false;
  password = c.password;
}
