-- ===== src/Storage.antt =====
-- internal/storage/postgres.go and internal/storage/redis.go. The drivers are parameters: GORM's
-- handle `G`, the Redis client `R`, with the state of the process `W`. The log level, the pool of the
-- Redis client and the deadlines of the pings are left out.
pub mod Opened
use golang_staterpack.Prelude.{ℤ, String, ok, Call, ◌>>=◌, ◌>>◌, pure, does}
use golang_staterpack.Errors.{Error, Fault, wrap_call}
use golang_staterpack.Model.{Duration}
use golang_staterpack.Config.Defs.{DbConfig, RedisConfig, dsn}

pub record Drivers (G R W : Type 0) : Type 0 where
  -- `gorm.Open`, `DB()` and the calls of the `sql.DB` behind it.
  pub open_database : String → Call W Fault G
  pub sql_db : G → Call W Fault (Unit {0})
  pub configure : G → ℤ → ℤ → Duration → W → W
  pub ping_database : G → Call W Fault (Unit {0})
  pub close_database : G → W → W
  -- `redis.NewClient` and its methods.
  pub new_client : RedisConfig → W → R × W
  pub ping_client : R → Call W Fault (Unit {0})
  pub close_client : R → W → W

module _ {G R W : Type 0} (d : Drivers G R W) where
  unfoldable pub new_postgres : DbConfig → Call W Error G
  new_postgres cfg = do
    db ← wrap_call "postgres: open" (d.open_database (dsn cfg))
    wrap_call "postgres: underlying sql.DB" (d.sql_db db)
    does (d.configure db cfg.max_open_conns cfg.max_idle_conns cfg.conn_max_lifetime)
    wrap_call "postgres: ping" (d.ping_database db)
    pure db

  unfoldable pub new_redis : RedisConfig → Call W Error R
  new_redis cfg = do
    client ← λ w. let (r, w') = d.new_client cfg w in (ok r, w')
    wrap_call "redis: ping" (d.ping_client client)
    pure client
