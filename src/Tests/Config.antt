-- ===== src/Tests/Config.antt =====
-- Configurations from sample environments.
use golang_staterpack.Prelude.{
  ℕ, pos, negsuc, String, true, ◌≡◌, refl, ◌⊎◌, List, none, some, ok, err, str_eq, if◌then◌else◌,
}
use golang_staterpack.Errors.{Error, Fault}
use golang_staterpack.Strconv.Integers.{atoi}
use golang_staterpack.Strconv.Decimals.{itoa}
use golang_staterpack.Strconv.Durations.{parse_duration}
use golang_staterpack.Config.Defs.{dsn}
use golang_staterpack.Config.Load.{
  Env, Files, Std, from_env, validate, load, load_file, checked, get_env, get_int, get_bool,
  get_float, get_duration,
}
use golang_staterpack.Config.Valid.{IsValid, IsRefused, load_lem}

abbrev no_fraction : List ℕ → ℕ → ℕ
no_fraction ds unit = 0

abbrev std : Std ℕ
std = record {
  parse_float = λ s. none;
  fifth = 5;
  fraction = no_fraction;
  show_duration = λ d. "a while";
}

abbrev unset : Env
unset k = none

abbrev with_var : String → String → Env → Env
with_var k v env j = if str_eq j k then some v else env j

abbrev files : Files
files = record {
  exists = λ name. str_eq name ".env";
  load = λ name env. (ok tt, with_var "HTTP_PORT" "9000" env);
}

-- The file sets the port and leaves the rest at its default.
load_run :
    let r = load std files ".env" unset in
    (r.0 ≡ ok (from_env std r.1))
    × ((from_env std r.1).http.port ≡ pos 9000)
    × ((from_env std r.1).app.name ≡ "golang-staterpack")
unfolding load load_file checked validate from_env get_env get_int get_bool get_float get_duration
    atoi
load_run = (refl, refl, refl)

load_lem_example :
    let r = load std files ".env" unset in
    let c = from_env std r.1 in
    ((r.0 ≡ ok c) × IsValid c)
    ⊎ ((e : Error) × (r.0 ≡ err e) × IsRefused c)
    ⊎ ((e : Error) × (f : Fault) × (r.0 ≡ err e)
        × (files.exists ".env" ≡ true)
        × ((files.load ".env" unset).0 ≡ err f))
load_lem_example = load_lem std files ".env" unset

-- Durations as `ParseDuration` reads them.
parse_duration_runs :
    (parse_duration no_fraction "1h30m" ≡ some (pos 5400000000000))
    × (parse_duration no_fraction "-1500ms" ≡ some (negsuc 1499999999))
    × (parse_duration no_fraction "90" ≡ none)
unfolding parse_duration
parse_duration_runs = (refl, refl, refl)

dsn_run :
    dsn (from_env std unset).db
    ≡ "host=localhost port=5432 user=app password=app dbname=app sslmode=disable"
unfolding dsn from_env get_env get_int get_bool get_duration itoa
dsn_run = refl
