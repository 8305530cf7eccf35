-- ===== src/Settings/RedisUrl.antt =====
-- common/helpers/connection.helper.ts: the address of Redis, and the connections that are made with it
-- (modules/queue/queue.config.ts, common/microservices/redis.config.ts). `new URL` and `Number` of
-- JavaScript are parameters; `none` of `Number` is NaN.
use nft_tracker.Prelude.{
  ℕ, Text, text, Option, none, some, Bool, true, false, ◌∷◌, ◌===◌, is_empty, if◌then◌else◌,
}
use nft_tracker.Store.World.{Error}
use nft_tracker.Store.Exec.{Result, ok, err}
use nft_tracker.Percent.{decode_uri_component}

-- the parts of an address that `new URL` gives; the protocol ends with a colon
pub record Url : Type 0 where
  pub hostname : Text
  pub port : Text
  pub protocol : Text
  pub username : Text
  pub password : Text
  pub pathname : Text

pub record RedisClientOptions : Type 0 where
  pub host : Text
  pub tls : Bool
  pub port : Option (Option ℕ)
  pub username : Option Text
  pub password : Option Text
  pub database : Option ℕ

infixl 10 ◌>>=◌
abbrev pub ◌>>=◌ : {A B : Type 0} → Result A → (A → Result B) → Result B
ok a >>= f = f a
err e >>= f = err e

-- whether the protocol is that of a connection with TLS
unfoldable pub tls_of : Text → Result Bool
tls_of protocol =
    if protocol === text "rediss:"
    then ok true
    else if protocol === text "redis:"
    then ok false
    else err (Error.message (text "Invalid protocol"))

decoded : Option Text → Result (Option Text)
decoded none = err (Error.message (text "URI malformed"))
decoded (some s) = ok (some s)

-- an empty part is left out
unfoldable pub decode_part : Text → Result (Option Text)
unfolding decoded
decode_part s = if is_empty s then ok none else decoded (decode_uri_component s)

numbered : Option ℕ → Result (Option ℕ)
numbered none = err (Error.message (text "Invalid pathname"))
numbered (some n) = ok (some n)

module _ (number : Text → Option ℕ) where
  abbrev pub port_of : Text → Option (Option ℕ)
  port_of port = if is_empty port then none else some (number port)

  -- `pathname.length > 1`, and what follows the first character
  unfoldable pub database_of : Text → Result (Option ℕ)
  unfolding numbered
  database_of (c ∷ d ∷ s) = numbered (number (d ∷ s))
  database_of _ = ok none

  unfoldable pub parse_redis_url : Url → Result RedisClientOptions
  parse_redis_url url = do
    tls ← tls_of url.protocol
    username ← decode_part url.username
    password ← decode_part url.password
    database ← database_of url.pathname
    ok (record {
      host = url.hostname;
      tls = tls;
      port = port_of url.port;
      username = username;
      password = password;
      database = database;
    })

-- What the connections to Redis are made with: the cache (app.module.ts), the queues
-- (queue.config.ts) and the microservice (redis.config.ts).
pub record Connection : Type 0 where
  pub host : Text
  pub port : Option (Option ℕ)
  pub database : Option ℕ
  pub tls : Bool
  pub password : Option Text

unfoldable pub queue_connection : RedisClientOptions → Connection
queue_connection r = record {
  host = r.host;
  port = r.port;
  database = r.database;
  tls = r.tls;
  password = none;
}

unfoldable pub microservice_connection : RedisClientOptions → Connection
microservice_connection r = record {
  host = r.host;
  port = r.port;
  database = r.database;
  tls = r.tls;
  password = r.password;
}
