-- ===== src/Tests/Boot.antt =====
-- A start over parts that count their handles, in which Redis does not answer the ping.
use golang_staterpack.Prelude.{ℕ, Bool, true, false, suc, ◌-◌, ◌≡◌, refl, ok, err}
use golang_staterpack.Errors.{failure}
use golang_staterpack.Config.Load.{from_env, get_env, get_int, get_bool, get_float, get_duration}
use golang_staterpack.Storage.{Drivers, new_postgres, new_redis}
use golang_staterpack.Api.Boot.{Parts, Wake, run}
use golang_staterpack.Samples.Settings.{std, unset}
use golang_staterpack.Config.Defs.{DbConfig, RedisConfig}

-- The connections that are open.
record Handles : Type 0 where
  databases : ℕ
  clients : ℕ
  brokers : ℕ

abbrev plus_database : Handles → Handles
plus_database s = record s { databases = suc s.databases }

abbrev plus_client : Handles → Handles
plus_client s = record s { clients = suc s.clients }

abbrev plus_broker : Handles → Handles
plus_broker s = record s { brokers = suc s.brokers }

abbrev minus_database : Handles → Handles
minus_database s = record s { databases = s.databases - 1 }

abbrev minus_client : Handles → Handles
minus_client s = record s { clients = s.clients - 1 }

abbrev minus_broker : Handles → Handles
minus_broker s = record s { brokers = s.brokers - 1 }

abbrev Void : Type 0
Void = Unit {0}

abbrev drivers : Bool → Drivers Void Void Handles
drivers up = record {
  open_database = λ s w. (ok tt, plus_database w);
  sql_db = λ db w. (ok tt, w);
  configure = λ db a b d w. w;
  ping_database = λ db w. (ok tt, w);
  close_database = λ db w. minus_database w;
  new_client = λ cfg w. (tt, plus_client w);
  ping_client = λ c w. (elim up [ true ↦ ok tt | false ↦ err (failure "connection refused") ], w);
  close_client = λ c w. minus_client w;
}

-- `up` where Redis answers.
abbrev parts : Bool → Parts ℕ Void Void Void Void Handles
parts up = record {
  load = λ env_file w. (ok (from_env std unset), w);
  drivers = drivers up;
  auto_migrate = λ db w. (ok tt, w);
  new_broker = λ cfg w. (ok tt, plus_broker w);
  close_broker = λ b w. minus_broker w;
  register = λ cfg db c b w. (ok tt, w);
  stop_consumer = λ s w. w;
  start_reconciler = λ cfg w. w;
  start_server = λ cfg w. w;
  wait = λ w. (Wake.signalled, w);
  shutdown = λ d w. (ok tt, w);
}

abbrev no_handles : Handles
no_handles = record { databases = 0; clients = 0; brokers = 0 }

-- A start that is ended by a signal, and one whose ping of Redis fails.
start_runs :
    (run (parts true) ".env" false no_handles ≡ (ok tt, no_handles))
    × ((run (parts false) ".env" false no_handles).1 ≡ plus_client no_handles)
unfolding run new_postgres new_redis from_env get_env get_int get_bool get_float get_duration
start_runs = (refl, refl)

abbrev db_config : DbConfig
db_config = (from_env std unset).db

abbrev redis_config : RedisConfig
redis_config = (from_env std unset).redis
