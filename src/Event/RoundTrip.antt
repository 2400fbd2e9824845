-- ===== src/Event/RoundTrip.antt =====
-- The events of internal/event/event.go, written and read back.
use golang_staterpack.Prelude.{String, ◌≡◌, refl, sym, ap, ◌∙◌, ok, Result-cases, inl, inr, arith}
use golang_staterpack.Model.{Time, Bytes}
use golang_staterpack.Libraries.Json.{Codec, Decodes}
use golang_staterpack.Event.{Envelope, new}

-- An envelope is read back with its raw payload in `compact` form, which decodes alike.
pub record IsFaithful {A : Type 0} (payloads : Codec A) (envelopes : Codec Envelope)
    (compact : Bytes → Bytes) : Type 0 where
  pub payload : Decodes payloads (λ p. p)
  pub envelope : Decodes envelopes (λ e. record e { payload = compact e.payload })
  pub compacted : (raw : Bytes) → payloads.unmarshal (compact raw) ≡ payloads.unmarshal raw

-- A message that `New` has made is read back with the UUID, the type and the time that it was made
-- with, and its payload decodes to the one that was given.
pub new-decodes :
    {A : Type 0} (payloads : Codec A) (envelopes : Codec Envelope) (compact : Bytes → Bytes)
    → IsFaithful payloads envelopes compact
    → (fresh : String) (now : Time) (event_type : String) (payload : A) (body : Bytes)
    → new payloads envelopes fresh now event_type payload ≡ ok body
    → (env : Envelope) × (envelopes.unmarshal body ≡ ok env)
      × (env.id ≡ fresh)
      × (env.type ≡ event_type)
      × (env.timestamp ≡ now)
      × (payloads.unmarshal env.payload ≡ ok payload)
unfolding new
new-decodes payloads envelopes compact faithful fresh now event_type payload body h =
    elim (Result-cases (payloads.marshal payload)) [
      | inr (f, e) ↦ absurd (ground arith)
      | inl (raw, e) ↦
          let env : Envelope = record {
            id = fresh;
            type = event_type;
            timestamp = now;
            payload = raw;
          } in
          elim (Result-cases (envelopes.marshal env)) [
            | inr (f, e') ↦ absurd (ground arith)
            | inl (b, e') ↦
                let same : b ≡ body = ground arith in
                (
                  record env { payload = compact raw },
                  ap envelopes.unmarshal (sym same) ∙ faithful.envelope env b e',
                  refl,
                  refl,
                  refl,
                  faithful.compacted raw ∙ faithful.payload payload raw e,
                )
          ]
    ]
