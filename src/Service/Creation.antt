-- ===== src/Service/Creation.antt =====
-- What `Create` promises.
use golang_staterpack.Prelude.{
  ◌≤◌, ◌<◌, true, ◌≡◌, refl, sym, ap, ◌∙◌, Option, none, some, ok, err, Result-cases, arith,
  ==_refl, ◌⊎◌, inl, inr,
}
use Prim.Native.String.{len}
use golang_staterpack.Errors.{Error, invalid_input, is}
use golang_staterpack.Model.{Uuid, Task, pending, before_create}
use golang_staterpack.Libraries.Gorm.{IsRetimed}
use golang_staterpack.Repository.Contract.{IsContract}
use golang_staterpack.Service.Defs.{
  TaskService, World, Publisher, CreateTaskInput, Stamp, create, validate, new_task,
}

-- What the HTTP request must satisfy, lengths in bytes.
pub record IsAcceptable (input : CreateTaskInput) : Type 0 where
  pub titled : 0 < len input.title
  pub title_short : len input.title ≤ 255
  pub description_short : len input.description ≤ 20000

accepted : (input : CreateTaskInput) → validate input ≡ ok tt → IsAcceptable input
unfolding validate
accepted input h = ground arith

refused : (input : CreateTaskInput) (e : Error) → validate input ≡ err e → ¬ IsAcceptable input
unfolding validate
refused input e h fits = absurd (ground arith)

-- Validation accepts an input whose title has 1 to 255 bytes and whose description has at most 20000,
-- and answers `ErrInvalidInput` to every other one.
pub validate_lem :
    (input : CreateTaskInput)
    → (validate input ≡ ok tt) × IsAcceptable input
      ⊎ (¬ IsAcceptable input)
        × ((e : Error) × (validate input ≡ err e) × (is e invalid_input ≡ true))
unfolding validate
validate_lem input = elim (Result-cases (validate input)) [
  | inl (tt, h) ↦ inl (h, accepted input h)
  | inr (e, h) ↦ inr (λ fits. refused input e h fits, (e, h, ground arith))
]

module _ {D C B : Type 0} (s : TaskService D C B) (fresh : Uuid) (stamp : Stamp)
    (input : CreateTaskInput) (w : World D C B) where
  pub create_inv :
      (t : Task)
      → (create s fresh stamp input w).0 ≡ ok t
      → (validate input ≡ ok tt)
        × ((s.repo.create fresh (new_task input) w.db).0 ≡ ok t)
        × ((create s fresh stamp input w).1.db ≡ (s.repo.create fresh (new_task input) w.db).1)
        × ((create s fresh stamp input w).1.cache ≡ w.cache)
  unfolding create
  create_inv t h = (ground arith, ground arith, ground arith, ground arith)

  -- The event of a task that was not stored is never published.
  pub create_err_inv :
      (e : Error)
      → (create s fresh stamp input w).0 ≡ err e
      → ((create s fresh stamp input w).1.broker ≡ w.broker)
        × ((create s fresh stamp input w).1.cache ≡ w.cache)
        × ((validate input ≡ err e) × ((create s fresh stamp input w).1.db ≡ w.db)
            ⊎ (validate input ≡ ok tt) × ((s.repo.create fresh (new_task input) w.db).0 ≡ err e))
  unfolding create
  create_err_inv e h = elim (Result-cases (validate input)) [
    | inl (tt, v) ↦ (ground arith, ground arith, inr (v, ground arith))
    | inr (x, v) ↦ (ground arith, ground arith, inl (ground arith, ground arith))
  ]

-- The answer of `Create` and what it does to the database do not depend on the publisher.
create-ignores-publisher :
    {D C B : Type 0} (s : TaskService D C B) (other : Publisher B) (fresh : Uuid) (stamp : Stamp)
    (input : CreateTaskInput) (w : World D C B)
    → let a = create s fresh stamp input w in
      let b = create (record s { publisher = other }) fresh stamp input w in
      (a.0 ≡ b.0) × (a.1.db ≡ b.1.db)
unfolding create
create-ignores-publisher s other fresh stamp input w = (ground arith, ground arith)

-- A task that `Create` returns is in the store and was not there before; the row may hold its two
-- times less precisely. It is pending, it has the request's title and description, which passed
-- validation, and the UUID that was drawn. The cache is not touched. With any other publisher in
-- place of the service's, whatever that answers, `Create` returns the same task and leaves the same
-- database: a lost event never fails the request.
pub create_stores :
    {D C B : Type 0} (s : TaskService D C B) (row : D → Uuid → Option Task)
    → IsContract s.repo row
    → (fresh : Uuid) (stamp : Stamp) (input : CreateTaskInput) (w : World D C B) (t : Task)
      (other : Publisher B)
    → (create s fresh stamp input w).0 ≡ ok t
    → let w' = (create s fresh stamp input w).1 in
      let another = create (record s { publisher = other }) fresh stamp input w in
      (row w.db fresh ≡ none)
      × ((stored : Task) × IsRetimed t stored × (row w'.db fresh ≡ some stored))
      × (t.id ≡ fresh)
      × (t.status ≡ pending)
      × (t.title ≡ input.title)
      × (t.description ≡ input.description)
      × (t.summary ≡ "")
      × IsAcceptable input
      × (w'.cache ≡ w.cache)
      × (another.0 ≡ ok t)
      × (another.1.db ≡ w'.db)
unfolding before_create
create_stores s row contract fresh stamp input w t other h =
    let (checked, made, db, cache) = create_inv s fresh stamp input w t h in
    let (free, (stored, times, effect), (c, u, e)) =
      contract.create_ok fresh (new_task input) t w.db refl made in
    let key : t.id ≡ fresh = ground arith in
    let held : stored.id ≡ fresh = ap (λ (x : Task). x.id) times.2 ∙ key in
    let (answer, after) = create-ignores-publisher s other fresh stamp input w in
    (
      rw (← key) free,
      (stored, times, rw (db, effect fresh, held, ==_refl fresh)),
      key,
      ground arith,
      ground arith,
      ground arith,
      ground arith,
      accepted input checked,
      cache,
      sym answer ∙ h,
      sym after,
    )
