-- ===== src/Api/Degraded.antt =====
-- The worker of a process that has no key for the language model.
use golang_staterpack.Prelude.{
  String, ◌≡◌, refl, ap, ◌∙◌, ◌⊎◌, inl, inr, Option, some, ok, err, eq_iff, arith,
}
use golang_staterpack.Errors.{external}
use golang_staterpack.Model.{Uuid, Time, Task, Bytes, pending, completed}
use golang_staterpack.Event.{Envelope, TaskCreatedPayload}
use golang_staterpack.Libraries.Gorm.{Same}
use golang_staterpack.Repository.Contract.{IsContract, restatus}
use golang_staterpack.Config.Defs.{LlmConfig}
use golang_staterpack.Llm.Defs.{Openai, disabled, new}
use golang_staterpack.Worker.Defs.{TaskSummarizer, Process, handle, text_of}
use golang_staterpack.Worker.Outcomes.{IsEvent}
use golang_staterpack.Worker.Summaries.{handle-acknowledged}
use golang_staterpack.Api.Wiring.{llm_client}

new-keyless :
    {F M L : Type 0} (openai : Openai F M L) (cfg : LlmConfig F)
    → cfg.api_key ≡ ""
    → new openai cfg ≡ err (external "llm: API key is empty")
unfolding new
new-keyless openai cfg none_set = rw ((eq_iff cfg.api_key "").1 none_set) refl

llm_client-keyless :
    {F M L : Type 0} (openai : Openai F M L) (cfg : LlmConfig F)
    → cfg.api_key ≡ ""
    → llm_client openai cfg ≡ disabled cfg.model
unfolding llm_client
llm_client-keyless openai cfg none_set = rw (llm_client, new-keyless openai cfg none_set) refl

disabled_answer :
    {L : Type 0} (model text : String) (l : L) → (disabled model).summarize text l ≡ (ok text, l)
unfolding disabled
disabled_answer model text l = refl

-- Without an API key no request leaves the process; and where nothing else changes the database while
-- the handler works, a `task.created` message that it acknowledges has changed no row, or its task
-- was pending and is completed with its own title and description as the summary.
pub handle-keyless :
    {D C B F M L : Type 0} (w : TaskSummarizer D C B L) (row : D → Uuid → Option Task)
    → IsContract w.svc.repo row
    → (openai : Openai F M L) (cfg : LlmConfig F) → cfg.api_key ≡ ""
    → w.llm ≡ llm_client openai cfg
    → (now : String) (body : Bytes) (env : Envelope) (p : TaskCreatedPayload) → IsEvent w body env p
    → (q : Process D C B L) → (handle w now body q).0 ≡ ok tt
    → let q' = (handle w now body q).1 in
      (q'.llm ≡ q.llm)
      × (Same row q.world.db q'.world.db
          ⊎ ((t : Task) × (at : Time) × (row q.world.db p.task_id ≡ some t)
              × (t.status ≡ pending)
              × (row q'.world.db p.task_id ≡ some (restatus completed (text_of p) at t))))
handle-keyless w row contract openai cfg keyless wired now body env p event q h =
    elim (handle-acknowledged w row contract now body env p event q h) [
      | inl (unasked, same) ↦ (unasked, inl same)
      | inr done ↦
          let off : w.llm ≡ disabled cfg.model = wired ∙ llm_client-keyless openai cfg keyless in
          let run : w.llm.summarize (text_of p) q.llm ≡ (ok (text_of p), q.llm) =
            ap (λ c. c.summarize (text_of p) q.llm) off
            ∙ disabled_answer cfg.model (text_of p) q.llm in
          let answered = done.answered in
          let said : text_of p ≡ done.summary = ground (arith, run, answered) in
          (
            done.asked_once ∙ ap (λ r. r.1) run,
            inr (
              done.before,
              done.now,
              done.was_pending.0,
              done.was_pending.1,
              rw said done.stored,
            ),
          )
    ]
