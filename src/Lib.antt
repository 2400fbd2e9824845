-- ===== src/Lib.antt =====
-- The Go starter pack: a task service over Postgres (GORM), Redis and RabbitMQ, whose tasks a worker
-- has summarized by a language model.
--
-- The program's parts. `internal/service` stores a task as `pending` through `internal/repository`
-- and publishes a `task.created` event (`internal/event`). A consumer of `internal/broker` gives each
-- delivery to the handler of `internal/worker`, which drops duplicates (`internal/broker/dedupe.go`),
-- claims the task by a conditional update, asks the model, and completes the task or gives it back.
-- `internal/reconciler` sweeps the table for tasks that were left behind and publishes their events
-- again. `Get` of the service answers from a cache in Redis. `internal/transport/http` is in front of
-- the service. `internal/config` reads the configuration, from which `cmd/api` builds the parts and
-- connects them.
--
-- The files, and the code that each one models:
--   Model: internal/model/task.go (`Task`, `Valid`, `BeforeCreate`).
--   Errors: the error values of the program, with `errors.Is` and the text of an error.
--   Event: internal/event/event.go (`Envelope`, the payloads, `New`). Event/RoundTrip is about events
--     that are read back.
--   Config/Defs: the types of internal/config/config.go, with `IsProduction` and `DSN`. Config/Load:
--     `Load` over the environment as a state, its readers of variables, `validate`. Config/Valid
--     holds the proofs. Strings and Strconv are what the program uses of Go's strings, strconv and
--     time.ParseDuration.
--   Llm/Defs: internal/llm/client.go, the client over LangChain and the one that is disabled.
--     Llm/Answers holds the proofs.
--   Repository/Defs: internal/repository/task_repository.go, one function for each method.
--     Repository/Contract is what the service may rely on, as effects on the rows by key;
--     Repository/Refines is about the methods over GORM against it, with lemmas in Repository/Rows,
--     Reads, Writes and Creates. Repository/Claims and Repository/Races are about the claims of all
--     replicas together, Repository/Effects about a claim that is refused. Repository/Histories and
--     Repository/Lasting are about the rows over every interleaving of calls, Repository/Footprint
--     about the rows that a call touches whatever it answers, Repository/Traces about work as a list
--     of calls.
--   Service/Defs: internal/service/task_service.go, one function for each method. A call takes and
--     returns the world: the states of the database, the cache and the broker. Service/Creation,
--     Service/Claiming, Service/Completion and Service/Paging hold proofs about the database;
--     Service/Coherence, Service/Invalidation, Service/Caching and Service/Reading those about the
--     cache. Service/Races takes `Get` apart into its lookups and its write to the cache, so that
--     another call can stand between them. Service/Footprint is about the database before and after
--     a call, whatever it answers.
--   Broker/Dedupe: internal/broker/dedupe.go. Broker/Duplicates holds the proofs.
--   Broker/Dial, Broker/Topology and Broker/Connection: internal/broker/broker.go, with `NewConsumer`
--     and `Stop` of internal/broker/consumer.go. Broker/Dialled, Broker/Declares, Broker/Declared,
--     Broker/Held, Broker/Confirmed and Broker/Closing hold the proofs.
--   Broker/Consumer: `handle`, `retryOrDeadLetter` and `retryCount` of internal/broker/consumer.go.
--     Broker/Retrying holds the proofs. Broker/Sessions: its `run` and `consumeOnce`, over the list of
--     what their `select` statements receive. Broker/Streams and Broker/Breaks hold the proofs.
--   Worker/Defs: `Handle` of internal/worker/task_summarizer.go and `DecodeJSON` of
--     internal/broker/consumer.go. The handler's steps after each fallible call are functions of
--     their own, named after that call. Worker/Outcomes, Worker/Summaries and Worker/Retries hold
--     the proofs; Worker/Pipeline is about a task on its way from `Create` to its summary,
--     Worker/Rescued about one that the reconciler rescues, Worker/Vanished about a summary that comes
--     after others have worked on the database.
--     Worker/Registration is `Register`; there and in Worker/Redelivery and Worker/Footprint a whole
--     run of the worker's consumer is looked at.
--   Reconciler/Defs: internal/reconciler/reconciler.go. `Run` is a recursion on the list of the
--     signals that it waits for. Reconciler/Defaults, Reconciler/Rescue and
--     Reconciler/Ready hold the proofs.
--   Transport/Defs: the handlers, `ErrorHandler`, `RateLimiter` and `Ready` of
--     internal/transport/http, and `redisRateIncrementer` of cmd/api/main.go. What Fiber parses of a
--     request is a record, what it sends is a status, headers and a content. Transport/Router is
--     `NewRouter`. Transport/Answers, Transport/Reads, Transport/Limits and Transport/Admission hold
--     the proofs.
--   Storage: internal/storage/postgres.go and internal/storage/redis.go. Storage/Opened is about the
--     connections that they leave open.
--   Logger/Defs: internal/logger/logger.go. Logger/Carried is about the logger in a context.
--   Api/Boot: `main` and `run` of cmd/api/main.go, over the parts of the program as parameters;
--     Api/Wiring: what `run` makes of the configuration for the broker, the service, the worker, the
--     language model, the reconciler, the limiter and Fiber. Api/Requests, Api/Exchanges and
--     Api/Listing are about requests to the service as it is wired.
--     Api/Degraded, Api/Pacing and Api/Production hold the other proofs.
--   System/Defs: requests, deliveries and sweeps as operations on one state, each the function of its
--     component. System/Calls and System/Lasting are about every sequence of them.
--   Libraries: the interfaces of GORM, go-redis, amqp091, encoding/json, google/uuid and slog, with
--     the laws that the code relies on. They are parameters of the definitions above.
--   Prelude: shared names, Boolean tests, Go's integers, results and calls, pre- and postconditions
--     of calls, and relations that every outcome of a call keeps. Samples: small systems with the
--     interfaces of the libraries. Tests: runs over them.
--
-- How code becomes a definition. A method that returns an error is a function from the state before
-- to a result and the state after. Contexts, deadlines and log lines are left out, but for the waits
-- of `dial` and of the consumer's `run`. The clock, the UUIDs that are drawn and the stamps of events
-- are arguments. A UUID is the number that its bytes spell, a time is a signed count of nanoseconds.
-- A method runs to its end before another one starts, but where its calls are taken apart: in
-- Repository/Claims and Repository/Histories, in Service/Races and in Worker/Vanished.
-- Counts such as `RowsAffected` are natural numbers; the retry counter keeps the conversion to 32
-- bits.
--
-- Bounds. Every definition is structurally recursive. The loops of `dial` and of the consumer's `run`
-- count down the ten attempts that the code allows; the loops of the reconciler and of `consumeOnce`
-- consume one signal for each turn. `itoa` takes at most 20 digits, which every number of 64 bits
-- fits in.
--
-- Not modelled: how Fiber matches a path, which is a parameter; what a handler that panics has done
-- before, since no handler of the model does; the parsing of flags; what is logged; goroutines, except
-- as sequences of their steps; deployment files and scripts, which are not Go code. Floating point,
-- godotenv, slog, the chat model of LangChain and the RabbitMQ client are parameters. Lower case is
-- modelled as far as a word of ASCII can tell. How precisely Postgres stores a time is left open. The
-- SQL that GORM writes and the isolation of single statements by Postgres are the laws of
-- Libraries/Gorm.
pub mod Prelude
pub mod Errors
pub mod Model
pub mod Libraries
pub mod Event
pub mod Repository
pub mod Service
pub mod Strconv
pub mod Strings
pub mod Storage
pub mod Llm
pub mod Api
pub mod Broker
pub mod Logger
pub mod Worker
pub mod System
pub mod Reconciler
pub mod Transport
pub mod Config
pub mod Samples
pub mod Tests
