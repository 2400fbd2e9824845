-- ===== src/Storage/Opened.antt =====
-- The connections that `NewPostgres` and `NewRedis` leave open.
use golang_staterpack.Prelude.{ℕ, ℤ, suc, String, ◌≡◌, ok, err}
use golang_staterpack.Errors.{Fault}
use golang_staterpack.Model.{Duration}
use golang_staterpack.Config.Defs.{RedisConfig}
use golang_staterpack.Storage.{Drivers}

-- The documented behaviour of the drivers: `databases` and `clients` count what has been opened and
-- not been closed. `gorm.Open` opens a pool where it succeeds, and `redis.NewClient` always makes a
-- client.
pub record IsDriving {G R W : Type 0} (d : Drivers G R W) (databases clients : W → ℕ) : Type 0 where
  pub open_ok :
      (s : String) (w : W) (db : G)
      → (d.open_database s w).0 ≡ ok db
      → databases (d.open_database s w).1 ≡ suc (databases w)
  pub open_err :
      (s : String) (w : W) (f : Fault)
      → (d.open_database s w).0 ≡ err f
      → databases (d.open_database s w).1 ≡ databases w
  pub sql_db : (db : G) (w : W) → databases (d.sql_db db w).1 ≡ databases w
  pub configure :
      (db : G) (a b : ℤ) (life : Duration) (w : W)
      → databases (d.configure db a b life w) ≡ databases w
  pub ping_database : (db : G) (w : W) → databases (d.ping_database db w).1 ≡ databases w
  pub new_client : (cfg : RedisConfig) (w : W) → clients (d.new_client cfg w).1 ≡ suc (clients w)
  pub ping_client : (c : R) (w : W) → clients (d.ping_client c w).1 ≡ clients w
