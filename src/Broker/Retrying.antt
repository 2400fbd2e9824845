-- ===== src/Broker/Retrying.antt =====
-- What the consumer does with a message whose handler fails, and how it settles a delivery.
use golang_staterpack.Prelude.{
  ℕ, zero, suc, ◌≤◌, ◌<◌, ℤ, pos, ◌+ℤ◌, String, Bool, true, false, ◌⊎◌, List, ◌≡◌, refl, ap, ◌∙◌,
  inl, inr, [], ◌∷◌, none, some, ok, err, Call, Result-cases, Bool-cases, ◌==◌, str_eq, eq_refl,
  arith,
}
use golang_staterpack.Errors.{Error, Fault}
use golang_staterpack.Model.{Bytes}
use golang_staterpack.Broker.Consumer.{
  Value, Table, Delivery, Publishing, Channel, lookup, insert, header_retry_count, retry_count,
  retry_message, is_exhausted, retry_or_dead_letter, handle, to_int32,
}

-- What was inserted is found.
lookup-insert : (k : String) (v : Value) (t : Table) → lookup k (insert k v t) ≡ some v
unfolding lookup insert
lookup-insert k v [] = rw (eq_refl k) refl
lookup-insert k v ((j, u) ∷ t) = elim (Bool-cases (str_eq j k)) [
  | inl e ↦ rw (e, eq_refl k) refl
  | inr e ↦ rw (e, e) (lookup-insert k v t)
]

retry_count-insert :
    (k : String) (n : ℤ) (t : Table) → retry_count (insert k (Value.int32 n) t) k ≡ n
unfolding retry_count
retry_count-insert k n t = rw (lookup-insert k (Value.int32 n) t) refl

to_int32_small : (n : ℕ) → n < 3 → to_int32 (pos n +ℤ pos 1) ≡ pos (suc n)
unfolding ◌+ℤ◌
to_int32_small n few = ground arith

-- The count of a message that is republished.
retry_count-retry_message :
    (d : Delivery) (n : ℕ)
    → retry_count d.headers header_retry_count ≡ pos n
    → n < 3
    → retry_count (retry_message d).headers header_retry_count ≡ pos (suc n)
unfolding retry_message
retry_count-retry_message d n h few =
    retry_count-insert header_retry_count
      (to_int32 (retry_count d.headers header_retry_count +ℤ pos 1)) d.headers
    ∙ rw h (to_int32_small n few)

-- The delivery of the message that is republished n times, on the same queue.
unfoldable pub redelivered : ℕ → Delivery → Delivery
redelivered zero d = d
redelivered (suc n) d =
    let d' = redelivered n d in
    let m = retry_message d' in
    record d' { headers = m.headers; content_type = m.content_type; body = m.body }

redelivered_count :
    (d : Delivery) (n : ℕ)
    → lookup header_retry_count d.headers ≡ none
    → n ≤ 3
    → retry_count (redelivered n d).headers header_retry_count ≡ pos n
unfolding redelivered retry_count
redelivered_count d zero h few = rw h refl
redelivered_count d (suc n) h few =
    retry_count-retry_message (redelivered n d) n (redelivered_count d n h (omega arith))
      (omega arith)

redelivered_body : (d : Delivery) (n : ℕ) → (redelivered n d).body ≡ d.body
unfolding redelivered retry_message
redelivered_body d zero = refl
redelivered_body d (suc n) = redelivered_body d n

is_exhausted-redelivered :
    (d : Delivery) (n : ℕ)
    → lookup header_retry_count d.headers ≡ none
    → n ≤ 3
    → is_exhausted (redelivered n d) ≡ (n == 3)
unfolding is_exhausted
is_exhausted-redelivered d n h few = rw (redelivered_count d n h few) (ground arith)

module _ {Q : Type 0} (ch : Channel Q) (queue : String) where
  -- The channel once a delivery has been republished and acknowledged, or sent to the dead letters
  -- since that has failed.
  abbrev pub Republished : Delivery → Q → Q → Type 0
  Republished d q q' =
      let (r, sent) = ch.publish queue (retry_message d) q in
      (r ≡ ok tt) × (q' ≡ (ch.ack d sent).1)
      ⊎ ((x : Fault) × (r ≡ err x) × (q' ≡ (ch.nack d false sent).1))

  retry_or_dead_letter_lem :
      (d : Delivery) (q : Q)
      → (is_exhausted d ≡ true) × (retry_or_dead_letter ch queue d q ≡ (ch.nack d false q).1)
        ⊎ (is_exhausted d ≡ false) × Republished d q (retry_or_dead_letter ch queue d q)
  unfolding retry_or_dead_letter
  retry_or_dead_letter_lem d q = elim (Bool-cases (is_exhausted d)) [
    | inl e ↦ inl (e, rw e refl)
    | inr e ↦ elim (Result-cases (ch.publish queue (retry_message d) q).0) [
      | inl (tt, h) ↦ inr (e, inl (h, rw (e, h) refl))
      | inr (x, h) ↦ inr (e, inr (x, h, rw (e, h) refl))
    ]
  ]

-- A message that enters the queue without a retry header has three retries at most. Where the handler
-- fails on one of its first three deliveries, it is published to the queue again with its body and
-- its count of retries, and the delivery is acknowledged; or that publish fails, and the delivery is
-- sent to the dead letters at once. Where the handler fails on the fourth, nothing is published, and
-- the delivery is sent to the dead letters.
pub handle-redelivered :
    {Q P : Type 0} (ch : Channel Q) (queue : String) (handler : Bytes → Call P Error (Unit {0}))
    (d : Delivery) (n : ℕ)
    → lookup header_retry_count d.headers ≡ none
    → n ≤ 3
    → (p : P) (q : Q) (x : Error) → (handler d.body p).0 ≡ err x
    → let q' = (handle ch queue handler (redelivered n d) (p, q)).1 in
      let m = retry_message (redelivered n d) in
      (n ≡ 3) × (q' ≡ (ch.nack (redelivered n d) false q).1)
      ⊎ (n < 3)
        × (m.body ≡ d.body)
        × (retry_count m.headers header_retry_count ≡ pos (suc n))
        × Republished ch queue (redelivered n d) q q'
unfolding handle retry_message
handle-redelivered ch queue handler d n fresh few p q x failed =
    let body = redelivered_body d n in
    let used = is_exhausted-redelivered d n fresh few in
    let again : (handler (redelivered n d).body p).0 ≡ err x =
      ap (λ b. (handler b p).0) body ∙ failed in
    elim (retry_or_dead_letter_lem ch queue (redelivered n d) q) [
      | inl (e, run) ↦ inl (ground arith, rw again run)
      | inr (e, run) ↦
          let more : n < 3 = ground arith in
          inr (
            more,
            body,
            retry_count-retry_message (redelivered n d) n (redelivered_count d n fresh few) more,
            rw again run,
          )
    ]

-- A call of `Ack` or of `Nack`, with its delivery.
pub data Settlement : Type 0 where
  acks : Delivery → Settlement
  nacks : Delivery → Bool → Settlement

module _ {Q : Type 0} (ch : Channel Q) (settlements : Q → List Settlement) where
  -- The calls are kept, the last one first, whatever they answer.
  pub record IsNoting : Type 0 where
    pub by_ack : (d : Delivery) (q : Q) → settlements (ch.ack d q).1 ≡ acks d ∷ settlements q
    pub by_nack :
        (d : Delivery) (requeue : Bool) (q : Q)
        → settlements (ch.nack d requeue q).1 ≡ nacks d requeue ∷ settlements q
    pub by_publish :
        (queue : String) (m : Publishing) (q : Q)
        → settlements (ch.publish queue m q).1 ≡ settlements q

  -- One call more, about the delivery `d`: an `Ack`, or a `Nack` that does not requeue it.
  abbrev pub Settles : Delivery → Q → Q → Type 0
  Settles d q q' =
      (settlements q' ≡ acks d ∷ settlements q) ⊎ (settlements q' ≡ nacks d false ∷ settlements q)

settled-retry :
    {Q : Type 0} (ch : Channel Q) (settlements : Q → List Settlement) (queue : String)
    → IsNoting ch settlements
    → (d : Delivery) (q : Q) → Settles ch settlements d q (retry_or_dead_letter ch queue d q)
settled-retry ch settlements queue keeps d q =
    let sent = keeps.by_publish queue (retry_message d) q in
    let q₁ = (ch.publish queue (retry_message d) q).1 in
    elim (retry_or_dead_letter_lem ch queue d q) [
      | inl (_, run) ↦ inr (ap settlements run ∙ keeps.by_nack d false q)
      | inr (_, inl (_, run)) ↦
          inl (ap settlements run ∙ keeps.by_ack d q₁ ∙ ap (λ l. acks d ∷ l) sent)
      | inr (_, inr (x, _, run)) ↦
          inr (ap settlements run ∙ keeps.by_nack d false q₁ ∙ ap (λ l. nacks d false ∷ l) sent)
    ]

-- For each delivery exactly one call of `Ack` or `Nack` is made, and it is about that delivery,
-- whatever the handler returns, however often the message was retried, whether or not it can be
-- republished, and whatever the call answers: one that fails is not repeated. No `Nack` puts the
-- message back on the queue.
pub handle-Settles :
    {Q P : Type 0} (ch : Channel Q) (settlements : Q → List Settlement) (queue : String)
    → IsNoting ch settlements
    → (handler : Bytes → Call P Error (Unit {0})) (d : Delivery) (p : P) (q : Q)
    → Settles ch settlements d q (handle ch queue handler d (p, q)).1
unfolding handle
handle-Settles ch settlements queue keeps handler d p q = elim (Result-cases (handler d.body p).0) [
  | inl (tt, e) ↦ inl (rw e (keeps.by_ack d q))
  | inr (x, e) ↦ rw e (settled-retry ch settlements queue keeps d q)
]
