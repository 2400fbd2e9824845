-- ===== src/System/Lasting.antt =====
-- The tasks of the whole program, as `run` connects it.
use golang_staterpack.Prelude.{◌<◌, ◌≡◌, sym, subst, inl, inr, ◌⊎◌, List, Option, none, some, arith}
use golang_staterpack.Model.{Uuid, Task}
use golang_staterpack.Libraries.Gorm.{Gorm, IsTable}
use golang_staterpack.Libraries.Redis.{Redis}
use golang_staterpack.Repository.Histories.{Keeps}
use golang_staterpack.Repository.Lasting.{rows_last}
use golang_staterpack.Service.Defs.{Publisher, Encoding}
use golang_staterpack.Config.Defs.{Config}
use golang_staterpack.Llm.Defs.{Openai}
use golang_staterpack.Worker.Defs.{Process}
use golang_staterpack.Api.Wiring.{task_service, summarizer}
use golang_staterpack.System.Defs.{Operation, perform_all}
use golang_staterpack.System.Calls.{removal_count, post_count, perform_all-Makes}

-- Over a database that behaves as documented, and whatever requests, deliveries and sweeps the
-- program works on, with whatever outcome: a task that is stored is stored after them, with the same
-- key, title, description and time of creation, unless one of them is a DELETE of it; and a key under
-- which no task is stored has none after them unless one of them is a POST that has drawn it.
pub tasks_last :
    {F M D C B L : Type 0} (openai : Openai F M L) (cfg : Config F) (g : Gorm D) (brk : Publisher B)
    (rdb : Redis C) (encoding : Encoding) (row : D → Uuid → Option Task)
    → IsTable g row
    → (i : Uuid) (os : List Operation) (q : Process D C B L)
    → let d = q.world.db in
      let w = summarizer openai cfg (task_service g brk rdb encoding) rdb in
      let d' = (perform_all w os q).world.db in
      ((t : Task) × (row d i ≡ some t) × ((0 < removal_count os i) ⊎ Keeps t (row d' i)))
      ⊎ (row d i ≡ none) × ((0 < post_count os i) ⊎ (row d' i ≡ none))
tasks_last openai cfg g brk rdb encoding row table i os q =
    let w = summarizer openai cfg (task_service g brk rdb encoding) rdb in
    let (cs, same, counted) = perform_all-Makes w os q in
    let (deleted, created, unsaved) = counted i in
    elim (rows_last g row table i cs q.world.db) [
      | inl (t, held, inl gone) ↦ inl (t, held, inl (omega arith))
      | inl (t, held, inr (inl saved)) ↦ absurd (omega arith)
      | inl (t, held, inr (inr kept)) ↦
          inl (t, held, inr (subst (λ d. Keeps t (row d i)) (sym same) kept))
      | inr (absent, inl made) ↦ inr (absent, inl (omega arith))
      | inr (absent, inr (inl saved)) ↦ absurd (omega arith)
      | inr (absent, inr (inr still)) ↦
          inr (absent, inr (subst (λ d. row d i ≡ none) (sym same) still))
    ]
