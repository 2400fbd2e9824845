-- ===== src/Config/Defs.antt =====
-- internal/config/config.go: the configuration. Floating-point numbers are a type `F`.
use golang_staterpack.Prelude.{ℤ, String, Bool, str_eq}
use Prim.Native.String.{◌++◌}
use golang_staterpack.Model.{Duration}
use golang_staterpack.Strconv.Decimals.{itoa}

pub record AppConfig : Type 0 where
  pub env : String
  pub name : String
  pub log_level : String
  pub shutdown_timeout : Duration

pub record HttpConfig : Type 0 where
  pub port : ℤ
  pub read_timeout : Duration
  pub write_timeout : Duration
  pub idle_timeout : Duration

pub record DbConfig : Type 0 where
  pub host : String
  pub port : ℤ
  pub user : String
  pub password : String
  pub name : String
  pub ssl_mode : String
  pub max_open_conns : ℤ
  pub max_idle_conns : ℤ
  pub conn_max_lifetime : Duration
  pub auto_migrate : Bool

pub record RedisConfig : Type 0 where
  pub addr : String
  pub password : String
  pub db : ℤ

pub record BrokerConfig : Type 0 where
  pub url : String
  pub exchange : String
  pub prefetch : ℤ

pub record LlmConfig (F : Type 0) : Type 0 where
  pub provider : String
  pub base_url : String
  pub api_key : String
  pub model : String
  pub temperature : F
  pub max_tokens : ℤ
  pub timeout : Duration

pub record MetricsConfig : Type 0 where
  pub enabled : Bool

pub record ReconcilerConfig : Type 0 where
  pub enabled : Bool
  pub interval : Duration
  pub pending_grace : Duration
  pub processing_timeout : Duration
  pub batch_size : ℤ
  pub dedupe_ttl : Duration

pub record Config (F : Type 0) : Type 0 where
  pub app : AppConfig
  pub http : HttpConfig
  pub db : DbConfig
  pub redis : RedisConfig
  pub broker : BrokerConfig
  pub llm : LlmConfig F
  pub metrics : MetricsConfig
  pub reconciler : ReconcilerConfig

abbrev pub is_production : AppConfig → Bool
is_production a = str_eq a.env "production"

-- `DSN`.
unfoldable pub dsn : DbConfig → String
dsn d =
    "host="
    ++ (d.host
        ++ (" port="
            ++ (itoa d.port
                ++ (" user="
                    ++ (d.user
                        ++ (" password="
                            ++ (d.password
                                ++ (" dbname=" ++ (d.name ++ (" sslmode=" ++ d.ssl_mode))))))))))
