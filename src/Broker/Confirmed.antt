-- ===== src/Broker/Confirmed.antt =====
-- What `Publish` promises to the service.
use golang_staterpack.Prelude.{
  String, true, false, ◌≡◌, refl, sym, ap, ◌∙◌, ok, Result-cases, Bool-cases, inl, inr, arith,
}
use golang_staterpack.Model.{Bytes, Task}
use golang_staterpack.Event.{routing_task_created}
use golang_staterpack.Libraries.Amqp.{Amqp, Message, IsConfirming}
use golang_staterpack.Service.Defs.{TaskService, World, Stamp, republish_created, created_event}
use golang_staterpack.Service.Claiming.{republish_event}
use golang_staterpack.Broker.Connection.{Broker, publish, publisher, json_message}

module _ {N H X K P : Type 0} (amqp : Amqp N H X K) (routes : K → String → String → String → Type 0)
    (queued : K → String → Message → Type 0) (confirming : IsConfirming amqp routes queued) where
  publish-ok :
      (b : Broker N H P) (routing_key : String) (body : Bytes) (k : K) (queue : String)
      → routes k b.exchange routing_key queue
      → (publish amqp b routing_key body k).0 ≡ ok tt
      → (b.closed ≡ false) × queued (publish amqp b routing_key body k).1 queue (json_message body)
  unfolding publish
  publish-ok b routing_key body k queue routed h = elim (Bool-cases b.closed) [
    | inl e ↦ absurd (ground arith)
    | inr e ↦
        let sent = amqp.publish b.pub_ch b.exchange routing_key (json_message body) k in
        elim (Result-cases sent.0) [
          | inr (f, e₁) ↦ absurd (ground arith)
          | inl (x, e₁) ↦ elim (Result-cases (amqp.wait x sent.1).0) [
            | inr (f, e₂) ↦ absurd (ground arith)
            | inl (false, e₂) ↦ absurd (ground arith)
            | inl (true, e₂) ↦
                let run : publish amqp b routing_key body k ≡ (ok tt, (amqp.wait x sent.1).1) =
                  ground (arith, e, e₁, e₂) in
                let done =
                  confirming.acknowledged b.pub_ch b.exchange routing_key (json_message body) k x e₁
                    e₂ queue routed in
                (e, rw run done)
          ]
        ]
  ]

-- Where `RepublishCreated` over this broker succeeds, the broker was open, and the event of the task
-- has been confirmed: as JSON, it is in the given queue, to which the broker's exchange has routed
-- `task.created` before.
pub republish-queued :
    {D C N H X K P : Type 0} (amqp : Amqp N H X K) (routes : K → String → String → String → Type 0)
    (queued : K → String → Message → Type 0)
    → IsConfirming amqp routes queued
    → (s : TaskService D C (Broker N H P × K)) → s.publisher ≡ publisher amqp
    → (stamp : Stamp) (t : Task) (w : World D C (Broker N H P × K)) (queue : String)
    → routes w.broker.1 w.broker.0.exchange routing_task_created queue
    → (republish_created s stamp t w).0 ≡ ok tt
    → let (b, k) = (republish_created s stamp t w).1.broker in
      (body : Bytes) × (created_event s stamp t ≡ ok body)
      × (w.broker.0.closed ≡ false)
      × (b ≡ w.broker.0)
      × queued k queue (json_message body)
republish-queued amqp routes queued confirming s wired stamp t w queue routed h =
    let (body, made, sent, broker) = republish_event s stamp t w h in
    let (b, k) = w.broker in
    let same : s.publisher.publish routing_task_created body w.broker
        ≡ (publisher amqp).publish routing_task_created body w.broker =
      ap (λ p. p.publish routing_task_created body w.broker) wired in
    let (is_open, there) =
      publish-ok amqp routes queued confirming b routing_task_created body k queue routed
        (sym (ap (λ r. r.0) same) ∙ sent) in
    (body, made, is_open, rw (broker, same) refl, rw (broker, same) there)
