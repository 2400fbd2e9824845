-- ===== src/Repository/Contract.antt =====
-- What the service may rely on of a `TaskRepository`, whatever implements it: each call's effect on
-- the rows, `row d i` being the task with key `i` that is not deleted.
use golang_staterpack.Prelude.{
  ℤ, pos, String, Bool, true, false, ◌≡◌, ◌≢◌, ◌⊎◌, ◌≤ℤ◌, ◌<ℤ◌, List, Option, none, some, ok, err,
  All, length, Memᴰ, if◌then◌else◌, ◌==◌, str_eq, leb_ℤ,
}
use mathlib.Core.Option
use golang_staterpack.Errors.{Error, not_found, is}
use golang_staterpack.Model.{Uuid, Time, TaskStatus, Task, pending, processing, before_create}
use golang_staterpack.Libraries.Gorm.{
  Same, Inserted, Saved, IsRetimed, IsSavable, Sorted, created_asc,
}
use golang_staterpack.Repository.Defs.{TaskRepository}

-- The row of one key after its status was set, and the summary too unless it is empty.
abbrev pub restatus : TaskStatus → String → Time → Task → Task
restatus s summary now t =
    if str_eq summary ""
    then record t { status = s; updated_at = now }
    else record t { status = s; summary = summary; updated_at = now }

-- The row after a claim: only a pending one changes.
abbrev pub claim : Time → Task → Task
claim now t =
    if str_eq t.status pending then record t { status = processing; updated_at = now } else t

abbrev pub is_pending : Option Task → Bool
is_pending none = false
is_pending (some t) = str_eq t.status pending

-- Abandoned work: never picked up, or left by its worker.
abbrev pub IsStale : Time → Time → Task → Type 0
IsStale pending_before processing_before t =
    ((t.status ≡ pending) × (t.created_at <ℤ pending_before))
    ⊎ ((t.status ≡ processing) × (t.updated_at <ℤ processing_before))

abbrev pub stale_limit : ℤ → ℤ
stale_limit limit = if leb_ℤ limit (pos 0) then pos 100 else limit

module _ {D : Type 0} (row : D → Uuid → Option Task) where
  -- The row of key `i` changes by `f` at some time of the clock, and no other row does.
  abbrev pub Rewrites : Uuid → (Time → Task → Task) → D → D → Type 0
  Rewrites i f d d' =
      (now : Time) × ((j : Uuid)
        → row d' j ≡ (if j == i then Option.map (f now) (row d j) else row d j))

  -- The row of key `i` is gone, and no other is.
  abbrev pub Removes : Uuid → D → D → Type 0
  Removes i d d' = (j : Uuid) → row d' j ≡ (if j == i then none else row d j)

pub record IsContract {D : Type 0} (r : TaskRepository D) (row : D → Uuid → Option Task)
    : Type 0 where
  -- A created task has a key that was free, the fields that were given, and two times, which its
  -- row may hold less precisely.
  pub create_ok :
      (fresh : Uuid) (t t' : Task) (d : D)
      → t.deleted_at ≡ none
      → (r.create fresh t d).0 ≡ ok t'
      → let d' = (r.create fresh t d).1 in
        (row d t'.id ≡ none) × Saved row t' d d' × IsRetimed (before_create fresh t) t'
  pub create_err :
      (fresh : Uuid) (t : Task) (d : D) (e : Error)
      → (r.create fresh t d).0 ≡ err e
      → let d' = (r.create fresh t d).1 in
        (is e not_found ≡ false)
        × (Same row d d'
            ⊎ ((t' : Task) × (t'.id ≡ (before_create fresh t).id)
                × (row d (before_create fresh t).id ≡ none)
                × Inserted row t' d d'))
  -- An update stores every field of the task, over its row or as a new one.
  pub update_ok :
      (t : Task) (d : D) → IsSavable t → (r.update t d).0 ≡ ok tt → Saved row t d (r.update t d).1
  pub update_err :
      (t : Task) (d : D) (e : Error)
      → IsSavable t
      → (r.update t d).0 ≡ err e
      → let d' = (r.update t d).1 in (is e not_found ≡ false) × (Same row d d' ⊎ Saved row t d d')
  pub get_ok : (i : Uuid) (d : D) (t : Task) → (r.get_by_id i d).0 ≡ ok t → row d i ≡ some t
  -- `ErrNotFound` is the answer only for a row that is not there.
  pub get_err :
      (i : Uuid) (d : D) (e : Error)
      → (r.get_by_id i d).0 ≡ err e
      → is e not_found ≡ true
      → row d i ≡ none
  pub get_reads : (i : Uuid) (d : D) → Same row d (r.get_by_id i d).1
  pub list_reads : (limit offset : ℤ) (d : D) → Same row d (r.list limit offset d).1
  pub update_status_ok :
      (i : Uuid) (s : TaskStatus) (summary : String) (d : D)
      → (r.update_status i s summary d).0 ≡ ok tt
      → let d' = (r.update_status i s summary d).1 in
        (row d i ≢ none) × Rewrites row i (restatus s summary) d d'
  pub update_status_err :
      (i : Uuid) (s : TaskStatus) (summary : String) (d : D) (e : Error)
      → (r.update_status i s summary d).0 ≡ err e
      → let d' = (r.update_status i s summary d).1 in
        (is e not_found ≡ true → row d i ≡ none)
        × (Same row d d' ⊎ Rewrites row i (restatus s summary) d d')
  pub delete_ok :
      (i : Uuid) (d : D)
      → (r.delete i d).0 ≡ ok tt
      → let d' = (r.delete i d).1 in (row d i ≢ none) × Removes row i d d'
  pub delete_err :
      (i : Uuid) (d : D) (e : Error)
      → (r.delete i d).0 ≡ err e
      → let d' = (r.delete i d).1 in
        (is e not_found ≡ true → row d i ≡ none) × (Same row d d' ⊎ Removes row i d d')
  -- The answer is true exactly for a pending row, which is then being processed.
  pub mark_processing_ok :
      (i : Uuid) (d : D) (b : Bool)
      → (r.mark_processing i d).0 ≡ ok b
      → let d' = (r.mark_processing i d).1 in (b ≡ is_pending (row d i)) × Rewrites row i claim d d'
  -- A failed claim is never `ErrNotFound`.
  pub mark_processing_err :
      (i : Uuid) (d : D) (e : Error)
      → (r.mark_processing i d).0 ≡ err e
      → let d' = (r.mark_processing i d).1 in
        (is e not_found ≡ false) × (Same row d d' ⊎ Rewrites row i claim d d')
  pub find_stale_ok :
      (pending_before processing_before : Time) (limit : ℤ) (d : D) (ts : List Task)
      → (r.find_stale pending_before processing_before limit d).0 ≡ ok ts
      → All (λ t. (row d t.id ≡ some t) × IsStale pending_before processing_before t) ts
        × Sorted created_asc ts
        × (pos (length ts) ≤ℤ stale_limit limit)
  -- A batch that is not full holds every stale task.
  pub find_stale_all :
      (pending_before processing_before : Time) (limit : ℤ) (d : D) (ts : List Task)
      → (r.find_stale pending_before processing_before limit d).0 ≡ ok ts
      → ¬ (stale_limit limit ≤ℤ pos (length ts))
      → (i : Uuid) (t : Task) → row d i ≡ some t
      → IsStale pending_before processing_before t
      → Memᴰ t ts
  pub find_stale_reads :
      (pending_before processing_before : Time) (limit : ℤ) (d : D)
      → Same row d (r.find_stale pending_before processing_before limit d).1
