-- ===== src/Service/Caching.antt =====
-- What `Get` answers from the cache and from the database.
use golang_staterpack.Prelude.{
  String, ◌≡◌, refl, ap, ◌∙◌, ◌⊎◌, inl, inr, Option, some, Result, ok, err, Result-cases,
  Bool-cases, Option-cases, ◌==◌, arith, ==_refl, ==_iff,
}
use golang_staterpack.Errors.{Fault}
use golang_staterpack.Model.{Uuid, Time, Task, Bytes, failed}
use golang_staterpack.Libraries.Json.{Codec}
use golang_staterpack.Repository.Contract.{IsContract}
use golang_staterpack.Service.Defs.{
  TaskService, World, key, cache_set, get, mark_failed, cached_task, cache_ttl,
}
use golang_staterpack.Service.Coherence.{
  public, Shows, IsCoherent, IsSound, key-ne, Shows-Stays, IsCoherent-of_Fades,
}

-- The world after a lookup in the cache and one in the database.
abbrev pub asked : {D C B : Type 0} → TaskService D C B → Uuid → World D C B → World D C B
asked s i w = record w {
  db = (s.repo.get_by_id i w.db).1;
  cache = (s.cache.get (key s i) w.cache).1;
}

cached_task_inv :
    (tasks : Codec Task) (r : Result Fault Bytes) (t : Task)
    → cached_task tasks r ≡ some t
    → (raw : Bytes) × (r ≡ ok raw) × (tasks.unmarshal raw ≡ ok t)
cached_task_inv tasks (ok raw) t h = (raw, refl, ground arith)
cached_task_inv tasks (err e) t h = absurd (cc)

module _ {D C B : Type 0} {s : TaskService D C B} {row : D → Uuid → Option Task}
    {entry : C → String → Option Bytes} (sound : IsSound s row entry) where
  pub cache_set-ok : (k : String) (t : Task) (w : World D C B) → (cache_set s k t w).0 ≡ ok tt
  unfolding cache_set
  cache_set-ok k t w = ground arith

  cache_set_inv :
      (k : String) (t : Task) (w : World D C B)
      → ((raw : Bytes) × (s.encoding.tasks.marshal t ≡ ok raw)
          × ((cache_set s k t w).1 ≡ record w { cache = (s.cache.set k raw cache_ttl w.cache).1 }))
        ⊎ ((cache_set s k t w).1 ≡ w)
  unfolding cache_set
  cache_set_inv k t w = elim (Result-cases (s.encoding.tasks.marshal t)) [
    | inl (raw, q) ↦ inl (raw, q, ground arith)
    | inr (e, q) ↦ inr (ground arith)
  ]

  IsCoherent-after_write :
      (i : Uuid) (t : Task) (raw : Bytes) (w : World D C B)
      → row w.db i ≡ some t
      → s.encoding.tasks.marshal t ≡ ok raw
      → IsCoherent s row entry w
      → IsCoherent s row entry
          (record w { cache = (s.cache.set (key s i) raw cache_ttl w.cache).1 })
  IsCoherent-after_write i t raw w held q coherent j u shows =
      let c = (s.cache.set (key s i) raw cache_ttl w.cache).1 in
      let (frames, own) = sound.redis.set_writes (key s i) raw cache_ttl w.cache in
      elim (Bool-cases (j == i)) [
        | inr ne ↦
            coherent j u
              (Shows-Stays sound w.cache c j u (frames (key s j) (key-ne sound j i ne)) shows)
        | inl eq ↦
            let same = (==_iff j i).0 eq in
            elim own [
              | inl stays ↦ coherent j u (Shows-Stays sound w.cache c j u (rw same stays) shows)
              | inr fresh ↦
                  let (raw', at_j, d) = shows in
                  let written : entry c (key s j) ≡ some raw = rw same fresh in
                  let d' = sound.tasks t raw q in (t, rw same held, cc)
            ]
      ]

  IsCoherent-after_set :
      (i : Uuid) (t : Task) (w : World D C B)
      → row w.db i ≡ some t
      → IsCoherent s row entry w
      → IsCoherent s row entry (cache_set s (key s i) t w).1
  IsCoherent-after_set i t w held coherent = elim (cache_set_inv (key s i) t w) [
    | inl (raw, q, e) ↦ rw e (IsCoherent-after_write i t raw w held q coherent)
    | inr e ↦ rw e coherent
  ]

  pub get_inv :
      (i : Uuid) (w : World D C B) (t : Task)
      → (get s i w).0 ≡ ok t
      → let c = (s.cache.get (key s i) w.cache).1 in
        Shows s entry w.cache i t × ((get s i w).1 ≡ record w { cache = c })
        ⊎ ((s.repo.get_by_id i w.db).0 ≡ ok t)
          × ((get s i w).1 ≡ (cache_set s (key s i) t (asked s i w)).1)
  unfolding get
  get_inv i w t h =
      let answer = (s.cache.get (key s i) w.cache).0 in
      elim (Option-cases (cached_task s.encoding.tasks answer)) [
        | inl miss ↦ inr (ground arith, ground (arith, cache_set-ok (key s i) t (asked s i w)))
        | inr (u, hit) ↦
            let (raw, held, decoded) = cached_task_inv s.encoding.tasks answer u hit in
            inl (
              (raw, sound.redis.get_ok (key s i) w.cache raw held, decoded ∙ ground arith),
              ground arith,
            )
      ]

  pub IsCoherent-after_get :
      (i : Uuid) (w : World D C B) → IsCoherent s row entry w → IsCoherent s row entry (asked s i w)
  IsCoherent-after_get i w =
      IsCoherent-of_Fades sound w (asked s i w) (sound.contract.get_reads i w.db)
        (sound.redis.get_reads (key s i) w.cache)

  get_agrees_at :
      (i : Uuid) (w : World D C B) (t : Task)
      → IsCoherent s row entry w
      → (get s i w).0 ≡ ok t
      → ((u : Task) × (row w.db i ≡ some u) × (public t ≡ public u))
        × IsCoherent s row entry (get s i w).1
  get_agrees_at i w t coherent h = elim (get_inv i w t h) [
    | inl (shows, after) ↦
        let (u, held, same) = coherent i t shows in
        (
          (u, held, ap public same),
          rw after (
              IsCoherent-of_Fades sound w (record w { cache = (s.cache.get (key s i) w.cache).1 })
                (λ j. refl) (sound.redis.get_reads (key s i) w.cache) coherent),
        )
    | inr (found, after) ↦
        let held = sound.contract.get_ok i w.db t found in
        (
          (t, held, refl),
          rw after (
              IsCoherent-after_set i t (asked s i w) (sound.contract.get_reads i w.db i ∙ held)
                (IsCoherent-after_get i w coherent)),
        )
  ]

-- While the cache agrees with the database, `Get` answers with the task's row, less `DeletedAt`,
-- whether the cache has it, misses it or fails; and the cache agrees with the database afterwards.
pub get_agrees :
    {D C B : Type 0} {s : TaskService D C B} {row : D → Uuid → Option Task}
    {entry : C → String → Option Bytes}
    → IsSound s row entry
    → (i : Uuid) (w : World D C B) (t : Task) → IsCoherent s row entry w
    → (get s i w).0 ≡ ok t
    → ((u : Task) × (row w.db i ≡ some u) × (public t ≡ public u))
      × IsCoherent s row entry (get s i w).1
get_agrees sound i w t coherent h = get_agrees_at sound i w t coherent h

-- `MarkFailed` leaves the cache alone: a task that the cache holds is still served as it was, though
-- its row says `failed`.
pub get-mark_failed :
    {D C B : Type 0} (s : TaskService D C B) (row : D → Uuid → Option Task)
    → IsContract s.repo row
    → (i : Uuid) (w : World D C B) (raw : Bytes) (t u : Task)
    → (s.cache.get (key s i) w.cache).0 ≡ ok raw
    → s.encoding.tasks.unmarshal raw ≡ ok t
    → row w.db i ≡ some u
    → (mark_failed s i w).0 ≡ ok tt
    → let w' = (mark_failed s i w).1 in
      ((get s i w').0 ≡ ok t)
      × ((now : Time) × (row w'.db i ≡ some (record u { status = failed; updated_at = now })))
unfolding get mark_failed
get-mark_failed s row contract i w raw t u cached decoded held h =
    let (_, (now, effect)) = contract.update_status_ok i failed "" w.db h in
    (ground arith, (now, rw (effect i, ==_refl i, held)))
