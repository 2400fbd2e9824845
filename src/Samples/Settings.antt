-- ===== src/Samples/Settings.antt =====
-- The configuration of an environment without variables, and a model that refuses every request.
use golang_staterpack.Prelude.{ℕ, String, none, ok, err}
use golang_staterpack.Errors.{failure}
use golang_staterpack.Config.Defs.{Config}
use golang_staterpack.Config.Load.{Env, Std, from_env}
use golang_staterpack.Llm.Defs.{Openai}

abbrev pub std : Std ℕ
std = record {
  parse_float = λ s. none;
  fifth = 5;
  fraction = λ ds unit. 0;
  show_duration = λ d. "a while";
}

abbrev pub unset : Env
unset k = none

abbrev pub shipped : Config ℕ
shipped = from_env std unset

abbrev pub provider : Openai ℕ String ℕ
provider = record {
  new = λ token model url. ok url;
  generate = λ url prompt temperature limit n. (err (failure "unauthorized"), n);
}
