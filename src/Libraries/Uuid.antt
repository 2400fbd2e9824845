-- ===== src/Libraries/Uuid.antt =====
-- google/uuid: the text form of a UUID and its parser.
use golang_staterpack.Prelude.{String, Option, some, ◌≡◌}
use golang_staterpack.Model.{Uuid}

pub record Uuids : Type 0 where
  pub string : Uuid → String
  pub parse : String → Option Uuid

pub record IsUuids (u : Uuids) : Type 0 where
  pub parse-string : (i : Uuid) → u.parse (u.string i) ≡ some i
