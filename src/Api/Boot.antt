-- ===== src/Api/Boot.antt =====
-- cmd/api/main.go: `run`. The parts of the program are parameters here, with the state of the process
-- `W`; the HTTP server and the reconciler run while `run` waits.
use golang_staterpack.Prelude.{
  ℕ, String, Bool, true, false, Result, ok, err, Call, ◌>>=◌, ◌>>◌, pure, fail, map_err, does,
  deferring, if◌then◌else◌,
}
use golang_staterpack.Errors.{Error, external, wrap, wrap_call}
use golang_staterpack.Model.{Duration}
use golang_staterpack.Config.Defs.{Config}
use golang_staterpack.Service.Defs.{logged}
use golang_staterpack.Storage.{Drivers, new_postgres, new_redis}

-- What ends the last `select` of `run`.
pub data Wake : Type 0 where
  signalled : Wake
  server_failed : Error → Wake
  broker_lost : Wake

pub record Parts (F G R B S W : Type 0) : Type 0 where
  pub load : String → Call W Error (Config F)
  pub drivers : Drivers G R W
  pub auto_migrate : G → Call W Error (Unit {0})
  pub new_broker : Config F → Call W Error B
  pub close_broker : B → W → W
  -- The worker, over the database, Redis and the broker, and what stops it.
  pub register : Config F → G → R → B → Call W Error S
  pub stop_consumer : S → W → W
  pub start_reconciler : Config F → W → W
  pub start_server : Config F → W → W
  pub wait : W → Wake × W
  pub shutdown : Duration → Call W Error (Unit {0})

-- What `flag.Parse` has found, or its defaults.
pub record Flags : Type 0 where
  pub env_file : String
  pub migrate_only : Bool

-- `main` returns, or calls `os.Exit(1)`.
abbrev pub exit_status : Result Error (Unit {0}) → ℕ
exit_status (ok tt) = 0
exit_status (err e) = 1

module _ {F G R B S W : Type 0} (parts : Parts F G R B S W) where
  abbrev pub ended : Config F → S → Wake → Call W Error (Unit {0})
  ended cfg consumer Wake.signalled = do
    logged (parts.shutdown cfg.app.shutdown_timeout)
    does (parts.stop_consumer consumer)
  ended cfg consumer (Wake.server_failed e) = fail e
  ended cfg consumer Wake.broker_lost = fail (external "broker connection lost")

  -- From the wiring of the parts to the end.
  abbrev pub serve : Config F → G → R → B → Call W Error (Unit {0})
  serve cfg db rdb brk = do
    consumer ← map_err (λ e. wrap "register summarizer worker" e) (parts.register cfg db rdb brk)
    does (λ w. if cfg.reconciler.enabled then parts.start_reconciler cfg w else w)
    does (parts.start_server cfg)
    λ w. let (wake, w') = parts.wait w in ended cfg consumer wake w'

  abbrev pub with_database : Bool → Config F → G → Call W Error (Unit {0})
  with_database true cfg db = parts.auto_migrate db
  with_database false cfg db = do
    if cfg.db.auto_migrate then parts.auto_migrate db else pure tt
    rdb ← new_redis parts.drivers cfg.redis
    deferring (parts.drivers.close_client rdb)
        (do brk ← parts.new_broker cfg; deferring (parts.close_broker brk) (serve cfg db rdb brk))

  unfoldable pub run : String → Bool → Call W Error (Unit {0})
  run env_file migrate_only = do
    cfg ← map_err (λ e. wrap "load config" e) (parts.load env_file)
    db ← new_postgres parts.drivers cfg.db
    wrap_call "unwrap sql.DB" (parts.drivers.sql_db db)
    deferring (parts.drivers.close_database db) (with_database migrate_only cfg db)

  -- `main`, with the status of the process.
  unfoldable pub main : Flags → W → ℕ × W
  unfolding run
  main flags w = let (r, w') = run flags.env_file flags.migrate_only w in (exit_status r, w')
