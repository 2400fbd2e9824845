-- ===== src/Worker/Defs.antt =====
-- internal/worker/task_summarizer.go. The worker's world is the service's and the state of the
-- language model's provider.
use golang_staterpack.Prelude.{
  String, Bool, true, false, Option, none, some, Result, ok, err, Call, ◌>>◌, pure, fail,
  map_result, attempt, if◌then◌else◌, str_eq,
}
use Prim.Native.String.{◌++◌}
use golang_staterpack.Errors.{Error, not_found, is, wrap, from_fault}
use golang_staterpack.Model.{Uuid, Bytes}
use golang_staterpack.Libraries.Json.{Codec}
use golang_staterpack.Event.{Envelope, TaskCreatedPayload, routing_task_created}
use golang_staterpack.Broker.Dedupe.{Dedupe, claim, release}
use golang_staterpack.Llm.Defs.{Client}
use golang_staterpack.Service.Defs.{
  World, TaskService, logged, begin_processing, mark_pending, apply_summary,
}

pub record Process (D C B L : Type 0) : Type 0 where
  pub world : World D C B
  pub llm : L

-- `TaskSummarizer`; `dedupe` may be nil.
pub record TaskSummarizer (D C B L : Type 0) : Type 0 where
  pub svc : TaskService D C B
  pub llm : Client L
  pub dedupe : Option (Dedupe C)

-- `NewTaskSummarizer`.
abbrev pub new_task_summarizer :
    {D C B L : Type 0} → TaskService D C B → Client L → Option (Dedupe C) → TaskSummarizer D C B L
new_task_summarizer svc llm dedupe = record { svc = svc; llm = llm; dedupe = dedupe }

-- `broker.DecodeJSON`.
unfoldable pub decode_json : {A : Type 0} → Codec A → Bytes → Result Error A
decode_json codec body = map_result (λ e. wrap "decode json" (from_fault e)) (codec.unmarshal body)

abbrev pub text_of : TaskCreatedPayload → String
text_of p = if str_eq p.description "" then p.title else p.title ++ ("\n\n" ++ p.description)

module _ {D C B L : Type 0} where
  abbrev pub on_world : {E A : Type 0} → Call (World D C B) E A → Call (Process D C B L) E A
  on_world m p = let (r, w) = m p.world in (r, record p { world = w })

  abbrev pub on_llm : {E A : Type 0} → Call L E A → Call (Process D C B L) E A
  on_llm m p = let (r, l) = m p.llm in (r, record p { llm = l })

module _ {D C B L : Type 0} (w : TaskSummarizer D C B L) where
  abbrev pub Do : Type 0
  Do = Call (Process D C B L) Error (Unit {0})

  abbrev with_cache : Process D C B L → C → Process D C B L
  with_cache p c = record p { world = record (p.world) { cache = c } }

  -- `w.dedupe == nil || w.dedupe.Claim(ctx, env.ID)`.
  unfoldable pub claim_event :
      Option (Dedupe C) → String → String → Process D C B L → Bool × Process D C B L
  claim_event none now event_id p = (true, p)
  claim_event (some d) now event_id p =
      let (b, c) = claim d now event_id p.world.cache in (b, with_cache p c)

  unfoldable pub release_event : Option (Dedupe C) → String → Do
  release_event none event_id p = (ok tt, p)
  release_event (some d) event_id p = (ok tt, with_cache p (release d event_id p.world.cache))

  -- The marker is released, the task goes back to `pending`, and the broker is to retry.
  unfoldable pub give_back : String → Uuid → Error → Do
  unfolding release_event
  give_back event_id i e = do
    release_event w.dedupe event_id
    on_world (logged (mark_pending w.svc i))
    fail e

  abbrev pub named : String → Uuid → Error → Error
  named s i e = wrap (s ++ w.svc.encoding.uuids.string i) e

  unfoldable pub after_apply : Envelope → TaskCreatedPayload → Result Error (Unit {0}) → Do
  unfolding give_back
  after_apply env p (ok _) = pure tt
  after_apply env p (err e) =
      if is e not_found
      then pure tt
      else give_back env.id p.task_id (named "apply summary for " p.task_id e)

  unfoldable pub after_summary : Envelope → TaskCreatedPayload → Result Error String → Do
  unfolding give_back after_apply
  after_summary env p (err e) = give_back env.id p.task_id (named "summarize task " p.task_id e)
  after_summary env p (ok summary) =
      attempt (on_world (apply_summary w.svc p.task_id summary)) (after_apply env p)

  unfoldable pub after_claim : Envelope → TaskCreatedPayload → Result Error Bool → Do
  unfolding after_summary
  after_claim env p (err e) =
      if is e not_found then pure tt else fail (named "claim task " p.task_id e)
  after_claim env p (ok false) = pure tt
  after_claim env p (ok true) = attempt (on_llm (w.llm.summarize (text_of p))) (after_summary env p)

  unfoldable pub summarize_task : Envelope → Result Error TaskCreatedPayload → Do
  unfolding after_claim
  summarize_task env (err e) = pure tt
  summarize_task env (ok p) =
      attempt (on_world (begin_processing w.svc p.task_id)) (after_claim env p)

  unfoldable pub handle_event : String → Envelope → Do
  unfolding claim_event summarize_task decode_json
  handle_event now env p =
      let (is_claimed, p') = claim_event w.dedupe now env.id p in
      let result = summarize_task env (decode_json w.svc.encoding.payloads env.payload) p' in
      if str_eq env.type routing_task_created
      then (if is_claimed then result else (ok tt, p'))
      else (ok tt, p)

  unfoldable pub dispatch : String → Result Error Envelope → Do
  unfolding handle_event
  dispatch now (err e) = pure tt
  dispatch now (ok env) = handle_event now env

  -- `Handle`; `now` is the time that the duplicate marker records.
  unfoldable pub handle : String → Bytes → Do
  unfolding dispatch decode_json
  handle now body = dispatch now (decode_json w.svc.encoding.envelopes body)
