-- ===== src/Service/Races.antt =====
-- `Get` of internal/service/task_service.go between the calls of other requests: its lookups first,
-- and later the write to the cache.
use golang_staterpack.Prelude.{
  ◌≡◌, refl, sym, ap, ◌∙◌, inl, inr, ◌⊎◌, Option, none, some, Result, ok, err, Result-cases,
  Option-cases, ==_refl, arith, String,
}
use mathlib.Core.Option.{some-injective}
use golang_staterpack.Errors.{Error}
use golang_staterpack.Model.{Uuid, Task, Bytes}
use golang_staterpack.Service.Defs.{
  TaskService, World, key, get, delete, cached_task, cache_set, cache_ttl,
}
use golang_staterpack.Service.Coherence.{public, IsSound}
use golang_staterpack.Service.Invalidation.{delete_inv}
use golang_staterpack.Service.Reading.{cache_set-db}

-- Where `Get` stands after its lookups: it has its answer, or a task from the database that it is yet
-- to write to the cache.
pub data Pause : Type 0 where
  answers : Result Error Task → Pause
  fills : Task → Pause

abbrev pub after_row : Result Error Task → Pause
after_row (ok t) = fills t
after_row (err e) = answers (err e)

module _ {D C B : Type 0} (s : TaskService D C B) (i : Uuid) where
  abbrev pub look_up : Option Task → World D C B → Pause × World D C B
  look_up (some t) w = (answers (ok t), w)
  look_up none w = let (r, d) = s.repo.get_by_id i w.db in (after_row r, record w { db = d })

  unfoldable pub get_first : World D C B → Pause × World D C B
  get_first w =
      let (r, c) = s.cache.get (key s i) w.cache in
      look_up (cached_task s.encoding.tasks r) (record w { cache = c })

  unfoldable pub get_last : Pause → World D C B → Result Error Task × World D C B
  get_last (answers r) w = (r, w)
  get_last (fills t) w = (ok t, (cache_set s (key s i) t w).1)

  -- With nothing in between, the two halves are `Get`.
  pub get-eq-halves : (w : World D C B) → get s i w ≡ get_last (get_first w).0 (get_first w).1
  unfolding get get_first get_last cache_set
  get-eq-halves w =
      elim (Option-cases (cached_task s.encoding.tasks (s.cache.get (key s i) w.cache).0)) [
        | inr (u, hit) ↦ ground arith
        | inl miss ↦ elim (Result-cases (s.repo.get_by_id i w.db).0) [
          | inl (t, q) ↦ ground arith
          | inr (e, q) ↦ ground arith
        ]
      ]

  cached_hit :
      (w : World D C B) (raw : Bytes) (t : Task)
      → (s.cache.get (key s i) w.cache).0 ≡ ok raw
      → s.encoding.tasks.unmarshal raw ≡ ok t
      → (get s i w).0 ≡ ok t
  unfolding get
  cached_hit w raw t held decoded = ground arith

  filled_cache :
      (w : World D C B) (t : Task) (raw : Bytes)
      → s.encoding.tasks.marshal t ≡ ok raw
      → (cache_set s (key s i) t w).1.cache ≡ (s.cache.set (key s i) raw cache_ttl w.cache).1
  unfolding cache_set
  filled_cache w t raw written = ground arith

-- A task is deleted while a `Get` of it is between its lookups and its write to the cache: the row
-- has gone and the entry has been dropped, but the `Get` writes the entry again, and where Redis
-- answers with an entry, the next `Get` answers with the deleted task.
pub get-delete :
    {D C B : Type 0} {s : TaskService D C B} {row : D → Uuid → Option Task}
    {entry : C → String → Option Bytes}
    → IsSound s row entry
    → (i : Uuid) (w : World D C B) (t : Task) (raw kept : Bytes) → (get_first s i w).0 ≡ fills t
    → let w₁ = (get_first s i w).1 in
      let w₂ = (delete s i w₁).1 in
      let w₃ = (get_last s i (fills t) w₂).1 in
      (delete s i w₁).0 ≡ ok tt
      → s.encoding.tasks.marshal t ≡ ok raw
      → (s.cache.set (key s i) raw cache_ttl w₂.cache).0 ≡ ok tt
      → (s.cache.get (key s i) w₃.cache).0 ≡ ok kept
      → (row w₃.db i ≡ none) × ((get s i w₃).0 ≡ ok (public t))
unfolding get_last
get-delete {s} {row} {entry} sound i w t raw kept paused deleted written stored read =
    let w₁ = (get_first s i w).1 in
    let w₂ = (delete s i w₁).1 in
    let w₃ = (cache_set s (key s i) t w₂).1 in
    let (result, db, _) = delete_inv sound i w₁ deleted in
    let (_, effect) = sound.contract.delete_ok i w₁.db result in
    let gone : row w₂.db i ≡ none = rw db (effect i ∙ rw (==_refl i) refl) in
    let cache = filled_cache s i w₂ t raw written in
    let same : raw ≡ kept =
      reads_back raw kept (sound.redis.set_ok (key s i) raw cache_ttl w₂.cache stored)
        (sound.redis.get_ok (key s i) _ kept (rw (← cache) read)) in
    (
      ap (λ d. row d i) (cache_set-db sound (key s i) t w₂) ∙ gone,
      cached_hit s i w₃ kept (public t) read (rw (← same) (sound.tasks t raw written)),
    )
  where
    reads_back : {o : Option Bytes} (a b : Bytes) → (o ≡ some a) ⊎ (o ≡ none) → o ≡ some b → a ≡ b
    reads_back a b (inl e) h = some-injective a b (sym e ∙ h)
    reads_back a b (inr e) h = absurd (cc)
