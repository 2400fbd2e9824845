-- ===== src/Samples/Services.antt =====
-- A service over the one-row database, the cache in memory and a broker that keeps what it is given.
use golang_staterpack.Prelude.{
  ℤ, pos, String, Bool, true, false, ◌&&◌, ◌≡◌, refl, List, [], ◌∷◌, Option, none, ok, err,
  if◌then◌else◌, ◌==◌, str_eq, eq_iff, arith, Bool-cases, inl, inr, ap,
}
use golang_staterpack.Errors.{Error, failure}
use golang_staterpack.Model.{Bytes, Task, pending}
use golang_staterpack.Libraries.Json.{Codec, Decodes}
use golang_staterpack.Event.{Envelope, TaskCreatedPayload, routing_task_created}
use golang_staterpack.Event.RoundTrip.{IsFaithful}
use golang_staterpack.Repository.Defs.{task_repository}
use golang_staterpack.Repository.Contract.{IsContract}
use golang_staterpack.Repository.Refines.{task_repository-IsContract}
use golang_staterpack.Service.Defs.{TaskService, World, Publisher, Encoding, CreateTaskInput, Stamp}
use golang_staterpack.Service.Coherence.{IsSound, IsCoherent, public}
use golang_staterpack.Samples.Database.{Store, one_row, row, one_row-IsTable}
use golang_staterpack.Samples.Memory.{
  Memory, memory, memory-IsCache, entry, unary, unary-IsUuids, no_entries,
}

abbrev pub request : CreateTaskInput
request = record { title = "write"; description = "" }

-- A task at each status, and at time 5.
abbrev pub task_at : String → Task
task_at status = record {
  id = 7;
  title = "write";
  description = "";
  status = status;
  summary = "";
  created_at = pos 5;
  updated_at = pos 5;
  deleted_at = none;
}

abbrev is_five : ℤ → Bool
is_five (pos n) = n == 5
is_five (ℤ.negsuc n) = false

-- The one task that the codec writes.
abbrev is_sample : Task → Bool
is_sample t =
    (t.id == 7)
    && str_eq t.title "write"
    && str_eq t.description ""
    && str_eq t.status pending
    && str_eq t.summary ""
    && is_five t.created_at
    && is_five t.updated_at

is_five_iff : (a : ℤ) → is_five a ≡ true → a ≡ pos 5
is_five_iff a h = ground arith

abbrev pub task_codec : Codec Task
task_codec = record {
  marshal = λ t. if is_sample t then ok "a task" else err (failure "unsupported");
  unmarshal = λ b. if str_eq b "a task" then ok (task_at pending) else err (failure "syntax error");
}

public_sample : (t : Task) → is_sample t ≡ true → task_at pending ≡ public t
public_sample t h =
    let i : t.id ≡ 7 = ground arith in
    let a : t.title ≡ "write" = (eq_iff t.title "write").0 (ground arith) in
    let b : t.description ≡ "" = (eq_iff t.description "").0 (ground arith) in
    let c : t.status ≡ pending = (eq_iff t.status pending).0 (ground arith) in
    let d : t.summary ≡ "" = (eq_iff t.summary "").0 (ground arith) in
    let e : t.created_at ≡ pos 5 = is_five_iff t.created_at (ground arith) in
    let f : t.updated_at ≡ pos 5 = is_five_iff t.updated_at (ground arith) in
    rw (i, a, b, c, d, e, f) refl

task_codec-Decodes : Decodes task_codec public
task_codec-Decodes t b h = elim (Bool-cases (is_sample t)) [
  | inl e ↦ let same : b ≡ "a task" = ground arith in rw same (ap (λ x. ok x) (public_sample t e))
  | inr e ↦ absurd (ground arith)
]

abbrev pub payload : TaskCreatedPayload
payload = record { task_id = 7; title = "write"; description = "" }

abbrev pub envelope : Envelope
envelope = record {
  id = "e1";
  type = routing_task_created;
  timestamp = pos 9;
  payload = "a payload";
}

-- The one payload and the one envelope that the codecs write.
abbrev is_sample_payload : TaskCreatedPayload → Bool
is_sample_payload p = (p.task_id == 7) && str_eq p.title "write" && str_eq p.description ""

abbrev is_nine : ℤ → Bool
is_nine (pos n) = n == 9
is_nine (ℤ.negsuc n) = false

abbrev is_sample_envelope : Envelope → Bool
is_sample_envelope e =
    str_eq e.id "e1"
    && str_eq e.type routing_task_created
    && is_nine e.timestamp
    && str_eq e.payload "a payload"

abbrev pub payload_codec : Codec TaskCreatedPayload
payload_codec = record {
  marshal = λ p. if is_sample_payload p then ok "a payload" else err (failure "unsupported");
  unmarshal = λ b. if str_eq b "a payload" then ok payload else err (failure "syntax error");
}

abbrev pub envelope_codec : Codec Envelope
envelope_codec = record {
  marshal = λ e. if is_sample_envelope e then ok "an event" else err (failure "unsupported");
  unmarshal = λ b. if str_eq b "an event" then ok envelope else err (failure "syntax error");
}

payload_sample : (p : TaskCreatedPayload) → is_sample_payload p ≡ true → payload ≡ p
payload_sample p h =
    let i : p.task_id ≡ 7 = ground arith in
    let a : p.title ≡ "write" = (eq_iff p.title "write").0 (ground arith) in
    let b : p.description ≡ "" = (eq_iff p.description "").0 (ground arith) in rw (i, a, b) refl

payload_codec-Decodes : Decodes payload_codec (λ p. p)
payload_codec-Decodes p b h = elim (Bool-cases (is_sample_payload p)) [
  | inl e ↦
      let same : b ≡ "a payload" = ground arith in rw same (ap (λ x. ok x) (payload_sample p e))
  | inr e ↦ absurd (ground arith)
]

is_nine_iff : (a : ℤ) → is_nine a ≡ true → a ≡ pos 9
is_nine_iff a h = ground arith

envelope_sample : (e : Envelope) → is_sample_envelope e ≡ true → envelope ≡ e
envelope_sample e h =
    let a : e.id ≡ "e1" = (eq_iff e.id "e1").0 (ground arith) in
    let b : e.type ≡ routing_task_created = (eq_iff e.type routing_task_created).0 (ground arith) in
    let c : e.timestamp ≡ pos 9 = is_nine_iff e.timestamp (ground arith) in
    let d : e.payload ≡ "a payload" = (eq_iff e.payload "a payload").0 (ground arith) in
    rw (a, b, c, d) refl

envelope_codec-Decodes : Decodes envelope_codec (λ e. e)
envelope_codec-Decodes e b h = elim (Bool-cases (is_sample_envelope e)) [
  | inl q ↦
      let same : b ≡ "an event" = ground arith in rw same (ap (λ x. ok x) (envelope_sample e q))
  | inr q ↦ absurd (ground arith)
]

pub codecs-IsFaithful : IsFaithful payload_codec envelope_codec (λ raw. raw)
codecs-IsFaithful = record {
  payload = payload_codec-Decodes;
  envelope = envelope_codec-Decodes;
  compacted = λ raw. refl;
}

abbrev pub publisher : Publisher (List Bytes)
publisher = record { publish = λ routing body sent. (ok tt, body ∷ sent) }

abbrev pub closed_publisher : Publisher (List Bytes)
closed_publisher = record {
  publish = λ routing body sent. (err (Error.external "channel closed"), sent);
}

abbrev pub encoding : Encoding
encoding = record {
  uuids = unary;
  tasks = task_codec;
  payloads = payload_codec;
  envelopes = envelope_codec;
}

abbrev pub service : TaskService Store Memory (List Bytes)
service = record {
  repo = task_repository one_row;
  publisher = publisher;
  cache = memory;
  encoding = encoding;
}

abbrev pub Place : Type 0
Place = World Store Memory (List Bytes)

-- The world with that row, at time 9, with an empty cache and nothing sent.
abbrev pub world_with : Option Task → Place
world_with held = record {
  db = record { up = true; held = held; clock = pos 9 };
  cache = record { up = true; entries = no_entries };
  broker = [];
}

abbrev pub stamp : Stamp
stamp = record { event_id = "e1"; now = pos 9 }

pub service-IsContract : IsContract (task_repository one_row) row
service-IsContract = task_repository-IsContract one_row row one_row-IsTable

pub service-IsSound : IsSound service row entry
service-IsSound = record {
  contract = service-IsContract;
  redis = memory-IsCache;
  uuids = unary-IsUuids;
  tasks = task_codec-Decodes;
}

-- An empty cache agrees with every database.
pub empty-IsCoherent : (held : Option Task) → IsCoherent service row entry (world_with held)
empty-IsCoherent held i t (raw, shown, _) = absurd (cc)
