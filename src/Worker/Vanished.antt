-- ===== src/Worker/Vanished.antt =====
-- A summary that is applied after others have worked on the database, while the model was asked.
use golang_staterpack.Prelude.{
  String, ◌≡◌, sym, ap, ◌∙◌, ◌⊎◌, inl, inr, Option, none, some, ok, arith,
}
use mathlib.Core.Option.{some-injective}
use golang_staterpack.Model.{Uuid, Time, Task, completed}
use golang_staterpack.Event.{Envelope, TaskCreatedPayload}
use golang_staterpack.Libraries.Gorm.{Same}
use golang_staterpack.Repository.Contract.{IsContract, restatus}
use golang_staterpack.Repository.Footprint.{Reworks, Reworks-IsFootprint}
use golang_staterpack.Service.Defs.{apply_summary}
use golang_staterpack.Service.Completion.{row-apply_summary, apply_summary-result}
use golang_staterpack.Service.Footprint.{apply_summary-Followed}
use golang_staterpack.Worker.Defs.{TaskSummarizer, Process, after_summary}
use golang_staterpack.Worker.Summaries.{after_summary-ok}

-- Work on a task without a row changes no row.
Same-of_Reworks :
    {D : Type 0} (row : D → Uuid → Option Task) (i : Uuid) (d d' : D)
    → row d i ≡ none
    → Reworks row (some i) d d'
    → Same row d d'
Same-of_Reworks row i d d' gone moves j = elim (moves j) [
  | inl same ↦ same
  | inr (at, (t, u, held, _, _)) ↦
      let here : i ≡ j = some-injective i j at in
      let there : row d j ≡ none = ap (λ k. row d k) (sym here) ∙ gone in absurd (cc)
]

-- Whatever others have done to the database while the model was asked for a summary: where the handler
-- goes on with it and acknowledges the message, the task, as its row is by then, is completed with
-- the summary; or the task has vanished, and no row changes. The model is not asked again.
pub after_summary-acknowledged :
    {D C B L : Type 0} (w : TaskSummarizer D C B L) (row : D → Uuid → Option Task)
    → IsContract w.svc.repo row
    → (env : Envelope) (p : TaskCreatedPayload) (summary : String) (q : Process D C B L)
    → (after_summary w env p (ok summary) q).0 ≡ ok tt
    → let q' = (after_summary w env p (ok summary) q).1 in
      (q'.llm ≡ q.llm)
      × (((t : Task) × (at : Time) × (row q.world.db p.task_id ≡ some t)
            × (row q'.world.db p.task_id ≡ some (restatus completed summary at t)))
          ⊎ (row q.world.db p.task_id ≡ none) × Same row q.world.db q'.world.db)
after_summary-acknowledged w row contract env p summary q h =
    let (said, answer, (outcome, final)) = after_summary-ok w env p (ok summary) q h in
    let same : summary ≡ said = ground arith in
    let applied = apply_summary w.svc p.task_id said q.world in
    (
      ap (λ x. x.llm) final,
      elim outcome [
        | inl done ↦
            let (t, held, (at, stored)) =
              row-apply_summary w.svc p.task_id said q.world row contract done in
            inl (t, at, held, rw (final, same) stored)
        | inr (e, failed, missing) ↦
            let gone : row q.world.db p.task_id ≡ none =
              (contract.update_status_err p.task_id completed said q.world.db e
                  (sym (apply_summary-result w.svc p.task_id said q.world) ∙ failed)).0
                missing in
            let moves =
              apply_summary-Followed w.svc (Reworks row) (Reworks-IsFootprint contract) p.task_id
                said q.world in
            inr (gone, rw final (Same-of_Reworks row p.task_id q.world.db applied.1.db gone moves))
      ],
    )
