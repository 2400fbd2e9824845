-- ===== src/Tests/Api.antt =====
-- A process without an API key, and a configuration whose interval is zero.
use golang_staterpack.Prelude.{ℕ, pos, ◌≡◌, refl, ◌<ℤ◌, some, ok, arith}
use golang_staterpack.Model.{pending}
use golang_staterpack.Repository.Defs.{get_by_id, update_status, mark_processing}
use golang_staterpack.Broker.Dedupe
use golang_staterpack.Service.Defs.{begin_processing, invalidate, apply_summary, cache_set}
use golang_staterpack.Config.Defs.{LlmConfig}
use golang_staterpack.Config.Load.{
  from_env, validate, get_env, get_int, get_bool, get_float, get_duration,
}
use golang_staterpack.Llm.Defs.{Client, disabled, new}
use golang_staterpack.Worker.Defs.{handle}
use golang_staterpack.Reconciler.Defs.{with_defaults}
use golang_staterpack.Api.Wiring.{llm_client, reconciler_options}
use golang_staterpack.Api.Pacing.{pace, unpaced_lem}
use golang_staterpack.Samples.Database.{first_row}
use golang_staterpack.Samples.Memory.{unary}
use golang_staterpack.Samples.Services.{task_at}
use golang_staterpack.Samples.Settings.{std, shipped, provider}
use golang_staterpack.Samples.Workers.{worker, run_with, Run}

abbrev chat : LlmConfig ℕ
chat = record {
  provider = "deepseek";
  base_url = "https://api/v1";
  api_key = "";
  model = "m";
  temperature = 2;
  max_tokens = pos 10;
  timeout = pos 1;
}

abbrev keyless : Client ℕ
keyless = llm_client provider chat

abbrev fresh : Run
fresh = run_with (some (task_at pending))

handled_run : (handle (worker keyless) "now" "an event" fresh).0 ≡ ok tt
unfolding handle Dedupe.claim begin_processing mark_processing invalidate unary apply_summary
    update_status get_by_id first_row cache_set llm_client new disabled
handled_run = refl

accepted_run : validate std shipped ≡ ok tt
unfolding validate from_env get_env get_int get_bool get_float get_duration
accepted_run = refl

unpaced_lem_example :
    let c' = pace (pos 0) (pos 1000000000) shipped in
    let o = with_defaults (reconciler_options c'.reconciler) in
    (validate std c' ≡ ok tt) × (o.pending_grace <ℤ o.interval)
unpaced_lem_example =
    unpaced_lem std shipped accepted_run (pos 0) (pos 1000000000) (omega arith) (omega arith)
      (omega arith)
