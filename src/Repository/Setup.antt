-- ===== src/Repository/Setup.antt =====
-- internal/repository/base_repo.go: how the connections are opened, checked and closed. What gorm,
-- database/sql and go-redis answer is a parameter.
use nexo_im.Base.{ℤ, Text, codes, ◌=ₜ◌, Bool, List, [], ◌∷◌, if◌then◌else◌}
use nexo_im.Config.{Config, RedisConfig, dsn, addr}
use nexo_im.Backend.Monad.{Action, pure, ◌>>◌}

pub data RedisClient : Type 0 where
  -- addresses, password, whether TLS is used
  cluster : List Text → Text → Bool → RedisClient
  -- address, password, number of the database, whether TLS is used
  standalone : Text → Text → ℤ → Bool → RedisClient

abbrev or_one : List Text → Text → List Text
or_one [] a = a ∷ []
or_one (x ∷ xs) a = x ∷ xs

unfoldable pub init_redis : RedisConfig → RedisClient
init_redis c =
    if c.cluster
    then cluster (or_one c.addrs (addr c)) c.password c.tls
    else standalone (addr c) c.password c.db c.tls

pub data LogLevel : Type 0 where
  info warn : LogLevel

-- `open_db` is gorm.Open with a data source and a level, `sql_db` is db.DB().
pub record Drivers : Type 1 where
  pub World : Type 0
  pub open_db : Text → LogLevel → Action World (Unit {0})
  pub sql_db : Action World (Unit {0})
  pub set_limits : ℤ → ℤ → Action World (Unit {0})
  pub ping_sql : Action World (Unit {0})
  pub ping_redis : Action World (Unit {0})
  pub close_sql : Action World (Unit {0})
  pub close_redis : Action World (Unit {0})

module _ (d : Drivers) where
  open d use {World, open_db, sql_db, set_limits, ping_sql, ping_redis, close_sql, close_redis}

  unfoldable pub init_mysql : Config → Action World (Unit {0})
  init_mysql cfg = do
    open_db (dsn cfg.mysql) (if cfg.server.mode =ₜ codes "debug" then info else warn)
    sql_db
    set_limits cfg.mysql.max_open_conns cfg.mysql.max_idle_conns

  unfoldable pub new_repositories : Config → Action World RedisClient
  new_repositories cfg = do init_mysql cfg; pure (init_redis cfg.redis)

  -- Redis stays open where MySQL cannot be closed.
  unfoldable pub close : Action World (Unit {0})
  close = do sql_db; close_sql; close_redis

  unfoldable pub check_connection : Action World (Unit {0})
  check_connection = do sql_db; ping_sql; ping_redis
