-- ===== src/Api/Wiring.antt =====
-- cmd/api/main.go: the parts that `run` builds from the configuration.
use golang_staterpack.Prelude.{ℤ, pos, String, Bool, not, List, Option, some, ok, err}
use golang_staterpack.Errors.{Error}
use golang_staterpack.Model.{Duration}
use golang_staterpack.Libraries.Gorm.{Gorm}
use golang_staterpack.Libraries.Redis.{Redis}
use golang_staterpack.Config.Defs.{Config, LlmConfig, ReconcilerConfig, BrokerConfig, is_production}
use golang_staterpack.Llm.Defs.{Openai, Client, client, disabled, new}
use golang_staterpack.Repository.Defs.{task_repository}
use golang_staterpack.Service.Defs.{TaskService, Publisher, Encoding, new_task_service}
use golang_staterpack.Broker.Connection
use golang_staterpack.Broker.Dedupe.{new_dedupe}
use golang_staterpack.Worker.Defs.{TaskSummarizer, new_task_summarizer}
use golang_staterpack.Reconciler.Defs.{Options}
use golang_staterpack.Transport.Defs.{Response, error_handler, rate_limiter}

abbrev pub rate_limit_requests : ℤ
rate_limit_requests = pos 100

-- `60 * time.Second`.
abbrev pub rate_limit_window : Duration
rate_limit_window = pos 60000000000

abbrev pub broker_options : BrokerConfig → Connection.Options
broker_options cfg = record { url = cfg.url; exchange = cfg.exchange; prefetch = cfg.prefetch }

-- A client that cannot be built is replaced by the one that is disabled.
unfoldable pub llm_client : {F M L : Type 0} → Openai F M L → LlmConfig F → Client L
llm_client openai cfg = elim (new openai cfg) [
  | ok c ↦ client openai c
  | err e ↦ disabled cfg.model
]

-- `taskRepo` and `taskSvc`.
abbrev pub task_service :
    {D C B : Type 0} → Gorm D → Publisher B → Redis C → Encoding → TaskService D C B
task_service db brk rdb encoding = new_task_service (task_repository db) brk rdb encoding

-- `dedupe` and `summarizer`.
abbrev pub summarizer :
    {F M D C B L : Type 0}
    → Openai F M L
    → Config F
    → TaskService D C B
    → Redis C
    → TaskSummarizer D C B L
summarizer openai cfg svc rdb =
    new_task_summarizer svc (llm_client openai cfg.llm)
      (some (new_dedupe rdb cfg.reconciler.dedupe_ttl))

abbrev pub reconciler_options : ReconcilerConfig → Options
reconciler_options cfg = record {
  interval = cfg.interval;
  pending_grace = cfg.pending_grace;
  processing_timeout = cfg.processing_timeout;
  batch_size = cfg.batch_size;
}

-- The limiter of the router, with its counter.
abbrev pub limiter :
    {C : Type 0} → Redis C → String → String → C → (List (String × ℤ) × Option Response) × C
limiter rdb = rate_limiter rdb rate_limit_requests rate_limit_window

-- `fiber.Config`, as far as it is set.
pub record FiberConfig : Type 0 where
  pub app_name : String
  pub read_timeout : Duration
  pub write_timeout : Duration
  pub idle_timeout : Duration
  pub disable_startup_message : Bool
  pub error_handler : String → Error → Response

-- `newFiberApp`.
unfoldable pub fiber_config : {F : Type 0} → Config F → FiberConfig
fiber_config cfg = record {
  app_name = cfg.app.name;
  read_timeout = cfg.http.read_timeout;
  write_timeout = cfg.http.write_timeout;
  idle_timeout = cfg.http.idle_timeout;
  disable_startup_message = is_production cfg.app;
  error_handler = error_handler (not (is_production cfg.app));
}
