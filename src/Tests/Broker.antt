-- ===== src/Tests/Broker.antt =====
-- Runs of the consumer over a channel that counts, and of the guard over the cache in memory.
use golang_staterpack.Prelude.{
  ℕ, suc, pos, Bool, true, false, ◌≡◌, ◌≢◌, refl, List, [], ◌∷◌, ◌⊎◌, ◌<◌, none, Result, ok, err,
  arith,
}
use golang_staterpack.Errors.{Error, failure}
use golang_staterpack.Model.{Bytes}
use golang_staterpack.Broker.Consumer.{
  Delivery, Channel, Value, lookup, header_retry_count, retry_message, retry_count, handle,
}
use golang_staterpack.Broker.Retrying.{
  redelivered, Republished, handle-redelivered, Settlement, acks, nacks, IsNoting, Settles,
  handle-Settles,
}
use golang_staterpack.Broker.Dedupe
use golang_staterpack.Broker.Dedupe.{marker_key}
use golang_staterpack.Samples.Memory.{Memory, memory, entry, no_entries}
use golang_staterpack.Samples.Workers.{dedupe}

abbrev delivery : Delivery
delivery = record {
  headers = ("trace", Value.text "abc") ∷ [];
  routing_key = "task.created";
  content_type = "application/json";
  body = "an event";
}

no_header : lookup header_retry_count delivery.headers ≡ none
unfolding lookup
no_header = refl

-- The state is what the channel was asked to settle.
abbrev noting : Channel (List Settlement)
noting = record {
  publish = λ queue m q. (ok tt, q);
  ack = λ d q. (ok tt, acks d ∷ q);
  nack = λ d requeue q. (err (failure "channel closed"), nacks d requeue ∷ q);
}

noting-IsNoting : IsNoting noting (λ q. q)
noting-IsNoting = record {
  by_ack = λ d q. refl;
  by_nack = λ d r q. refl;
  by_publish = λ queue m q. refl;
}

abbrev luck : Error
luck = Error.external "no luck"

abbrev failing : Bytes → ℕ → Result Error (Unit {0}) × ℕ
failing body p = (err luck, suc p)

handle-redelivered_example :
    let d = redelivered 2 delivery in
    let q' = (handle noting "tasks" failing d (0, [])).1 in
    let n : ℕ = 2 in
    (n ≡ 3) × (q' ≡ (noting.nack d false []).1)
    ⊎ (n < 3)
      × ((retry_message d).body ≡ "an event")
      × (retry_count (retry_message d).headers header_retry_count ≡ pos 3)
      × Republished noting "tasks" d [] q'
handle-redelivered_example =
    handle-redelivered noting "tasks" failing delivery 2 no_header (omega arith) 0 [] luck refl

handle-Settles_example :
    Settles noting (λ q. q) delivery [] (handle noting "tasks" failing delivery (0, [])).1
handle-Settles_example =
    handle-Settles noting (λ q. q) "tasks" noting-IsNoting failing delivery 0 []

abbrev guarded : Memory
guarded = record { up = true; entries = no_entries }

abbrev once : Bool × Memory
once = Dedupe.claim dedupe "now" "e1" guarded

marked_run : entry once.1 (marker_key "e1") ≢ none
unfolding Dedupe.claim
marked_run h = absurd (cc)

refused_run : (memory.set_nx (marker_key "e1") "later" (pos 1000) once.1).0 ≡ ok false
unfolding Dedupe.claim
refused_run = refl

deleted_run : (memory.del (marker_key "e1") once.1).0 ≡ ok tt
unfolding Dedupe.claim
deleted_run = refl
