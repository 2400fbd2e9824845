-- ===== src/Broker/Duplicates.antt =====
-- What the marker of an event does to a second claim of it.
use golang_staterpack.Prelude.{
  String, Bool, true, false, ◌≡◌, refl, ◌≢◌, Option, none, ok, err, str_eq-of_ne, inl, inr,
  Result-cases,
}
use golang_staterpack.Errors.{Fault}
use golang_staterpack.Model.{Bytes}
use golang_staterpack.Libraries.Redis.{IsCache}
use golang_staterpack.Broker.Dedupe.{Dedupe, claim, release, marker_key}

module _ {C : Type 0} (d : Dedupe C) (now event_id : String) (c : C) where
  claim_answer :
      (b : Bool)
      → event_id ≢ ""
      → (d.client.set_nx (marker_key event_id) now d.ttl c).0 ≡ ok b
      → (claim d now event_id c).0 ≡ b
  unfolding claim
  claim_answer b known h = rw (str_eq-of_ne event_id "" known, h) refl

  claim_failed :
      (e : Fault)
      → event_id ≢ ""
      → (d.client.set_nx (marker_key event_id) now d.ttl c).0 ≡ err e
      → (claim d now event_id c).0 ≡ true
  unfolding claim
  claim_failed e known h = rw (str_eq-of_ne event_id "" known, h) refl

  release_cache : event_id ≢ "" → release d event_id c ≡ (d.client.del (marker_key event_id) c).1
  unfolding release
  release_cache known = rw (str_eq-of_ne event_id "" known) refl

-- While the marker of an event lives, a claim of the event that Redis answers is refused.
pub claim-marked :
    {C : Type 0} (d : Dedupe C) (entry : C → String → Option Bytes)
    → IsCache d.client entry
    → (now event_id : String) (c : C) (b : Bool) → event_id ≢ ""
    → entry c (marker_key event_id) ≢ none
    → (d.client.set_nx (marker_key event_id) now d.ttl c).0 ≡ ok b
    → (claim d now event_id c).0 ≡ false
claim-marked d entry cache now event_id c true known marked h =
    absurd (marked (cache.set_nx_true (marker_key event_id) now d.ttl c h).0)
claim-marked d entry cache now event_id c false known marked h =
    claim_answer d now event_id c false known h

-- Once a release has been acknowledged, the next claim of the event is granted, whether Redis
-- answers it or fails.
pub claim-release :
    {C : Type 0} (d : Dedupe C) (entry : C → String → Option Bytes)
    → IsCache d.client entry
    → (now event_id : String) (c : C) → event_id ≢ ""
    → (d.client.del (marker_key event_id) c).0 ≡ ok tt
    → (claim d now event_id (release d event_id c)).0 ≡ true
claim-release d entry cache now event_id c known deleted =
    let c' = (d.client.del (marker_key event_id) c).1 in
    let r = (d.client.set_nx (marker_key event_id) now d.ttl c').0 in
    rw (release_cache d now event_id c known) (elim (Result-cases r) [
      | inl (true, h) ↦ claim_answer d now event_id c' true known h
      | inl (false, h) ↦ absurd (
          (cache.set_nx_false (marker_key event_id) now d.ttl c' h).0
            (cache.del_ok (marker_key event_id) c deleted))
      | inr (e, h) ↦ claim_failed d now event_id c' e known h
    ])
