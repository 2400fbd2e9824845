-- ===== src/Libraries/Json.antt =====
-- encoding/json on the types that the program marshals.
use golang_staterpack.Prelude.{◌≡◌, Result, ok}
use golang_staterpack.Errors.{Fault}
use golang_staterpack.Model.{Bytes}

pub record Codec (A : Type 0) : Type 0 where
  pub marshal : A → Result Fault Bytes
  pub unmarshal : Bytes → Result Fault A

-- Decoding an encoded value gives its `view`: the value without the fields that have no JSON form.
abbrev pub Decodes : {A : Type 0} → Codec A → (A → A) → Type 0
Decodes {A} codec view =
    (a : A) (b : Bytes) → codec.marshal a ≡ ok b → codec.unmarshal b ≡ ok (view a)
