-- ===== src/Broker/Dedupe.antt =====
-- internal/broker/dedupe.go: a guard over Redis `SETNX`, one marker for each event.
use golang_staterpack.Prelude.{
  pos, String, Bool, true, Result, ok, err, if◌then◌else◌, str_eq, leb_ℤ,
}
use Prim.Native.String.{◌++◌}
use golang_staterpack.Errors.{Fault}
use golang_staterpack.Model.{Duration}
use golang_staterpack.Libraries.Redis.{Redis}

pub record Dedupe (C : Type 0) : Type 0 where
  pub client : Redis C
  pub ttl : Duration

-- `24 * time.Hour`.
abbrev pub default_ttl : Duration
default_ttl = pos 86400000000000

unfoldable pub new_dedupe : {C : Type 0} → Redis C → Duration → Dedupe C
new_dedupe client ttl = record {
  client = client;
  ttl = if leb_ℤ ttl (pos 0) then default_ttl else ttl;
}

abbrev pub marker_key : String → String
marker_key event_id = "processed:event:" ++ event_id

-- An error of Redis counts as a win: the guard fails open.
abbrev pub won : Result Fault Bool → Bool
won (ok b) = b
won (err e) = true

module _ {C : Type 0} (d : Dedupe C) where
  -- `Claim`; `now` is the time as the marker holds it.
  unfoldable pub claim : String → String → C → Bool × C
  claim now event_id c =
      let (r, c') = d.client.set_nx (marker_key event_id) now d.ttl c in
      if str_eq event_id "" then (true, c) else (won r, c')

  unfoldable pub release : String → C → C
  release event_id c =
      let (r, c') = d.client.del (marker_key event_id) c in if str_eq event_id "" then c else c'
