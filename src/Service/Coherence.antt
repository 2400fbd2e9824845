-- ===== src/Service/Coherence.antt =====
-- When the cache agrees with the database, and what keeps it so.
use golang_staterpack.Prelude.{
  String, false, ◌≡◌, sym, ap, ◌∙◌, ◌≢◌, inl, inr, Option, none, some, ok, Bool-cases, ◌==◌, arith,
  ==_iff,
}
use mathlib.Core.Option.{some-injective}
use text.Mathlib.TextLemmas.{append_cancel_left}
use golang_staterpack.Model.{Uuid, Task, Bytes}
use golang_staterpack.Libraries.Redis.{IsCache, Fades, Stays}
use golang_staterpack.Libraries.Json.{Decodes}
use golang_staterpack.Libraries.Uuid.{IsUuids}
use golang_staterpack.Libraries.Gorm.{Same}
use golang_staterpack.Repository.Contract.{IsContract}
use golang_staterpack.Service.Defs.{TaskService, World, key}

-- The part of a task that has a JSON form: `DeletedAt` is tagged `json:"-"`.
abbrev pub public : Task → Task
public t = record t { deleted_at = none }

module _ {D C B : Type 0} (s : TaskService D C B) (entry : C → String → Option Bytes) where
  -- The task that the cache shows under a key.
  abbrev pub Shows : C → Uuid → Task → Type 0
  Shows c i t =
      (raw : Bytes) × (entry c (key s i) ≡ some raw) × (s.encoding.tasks.unmarshal raw ≡ ok t)

module _ {D C B : Type 0} (s : TaskService D C B) (row : D → Uuid → Option Task)
    (entry : C → String → Option Bytes) where
  -- What the cache shows is the row of that key.
  abbrev pub IsCoherent : World D C B → Type 0
  IsCoherent w =
      (i : Uuid) (t : Task)
      → Shows s entry w.cache i t
      → (u : Task) × (row w.db i ≡ some u) × (t ≡ public u)

  -- What the libraries do, as the service relies on it.
  pub record IsSound : Type 0 where
    pub contract : IsContract s.repo row
    pub redis : IsCache s.cache entry
    pub uuids : IsUuids s.encoding.uuids
    pub tasks : Decodes s.encoding.tasks public

module _ {D C B : Type 0} {s : TaskService D C B} {row : D → Uuid → Option Task}
    {entry : C → String → Option Bytes} (sound : IsSound s row entry) where
  pub key_injective : (i j : Uuid) → key s i ≡ key s j → i ≡ j
  key_injective i j e =
      let same = append_cancel_left "task:" _ _ e in
      some-injective i j (
        sym (sound.uuids.parse-string i)
        ∙ ap s.encoding.uuids.parse same
        ∙ sound.uuids.parse-string j)

  pub key-ne : (i j : Uuid) → (i == j) ≡ false → key s i ≢ key s j
  key-ne i j ne e = absurd (ground (arith, key_injective i j e))

  pub Shows-Stays :
      (c c' : C) (i : Uuid) (t : Task)
      → Stays entry (key s i) c c'
      → Shows s entry c' i t
      → Shows s entry c i t
  Shows-Stays c c' i t (inl e) (raw, held, d) = (raw, sym e ∙ held, d)
  Shows-Stays c c' i t (inr e) (raw, held, d) = absurd (cc)

  -- A write to the database that spares every row but one, with that entry dropped.
  pub IsCoherent-after_drop :
      (i : Uuid) (w w' : World D C B)
      → ((j : Uuid) → (j == i) ≡ false → row w'.db j ≡ row w.db j)
      → Fades entry w.cache w'.cache
      → entry w'.cache (key s i) ≡ none
      → IsCoherent s row entry w
      → IsCoherent s row entry w'
  IsCoherent-after_drop i w w' frame fades dropped coherent j t shows = elim (Bool-cases (j == i)) [
    | inl e ↦
        let (raw, held, _) = shows in
        let gone : entry w'.cache (key s j) ≡ none = rw ((==_iff j i).0 e) dropped in absurd (cc)
    | inr e ↦
        let (u, held, same) =
          coherent j t (Shows-Stays w.cache w'.cache j t (fades (key s j)) shows) in
        (u, frame j e ∙ held, same)
  ]

  pub IsCoherent-of_Fades :
      (w w' : World D C B)
      → Same row w.db w'.db
      → Fades entry w.cache w'.cache
      → IsCoherent s row entry w
      → IsCoherent s row entry w'
  IsCoherent-of_Fades w w' same fades coherent j t shows =
      let (u, held, e) = coherent j t (Shows-Stays w.cache w'.cache j t (fades (key s j)) shows) in
      (u, same j ∙ held, e)
  -- The three calls that drop the entry of the task that they change.
