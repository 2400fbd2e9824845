-- ===== src/Samples/Memory.antt =====
-- A cache that holds its entries in memory and may be down, and UUIDs written in unary: they meet the
-- laws of `IsCache` and `IsUuids`.
use golang_staterpack.Prelude.{
  ℕ, zero, suc, pos, String, Bool, true, false, ◌≡◌, refl, ap, ◌≢◌, ◌⊎◌, inl, inr, Option, none,
  some, Result, ok, err, Call, if◌then◌else◌, str_eq, eq_refl, str_eq-of_ne, arith, Bool-cases,
  Option-cases,
}
use Prim.Native.String.{◌++◌, len}
use text.Mathlib.TextPositions.{len-append}
use golang_staterpack.Errors.{Fault, missing, failure}
use golang_staterpack.Model.{Bytes, Duration}
use golang_staterpack.Libraries.Redis.{Redis, IsCache, Frames, Stays, Fades}
use golang_staterpack.Libraries.Uuid.{Uuids, IsUuids}

pub record Memory : Type 0 where
  pub up : Bool
  pub entries : String → Option Bytes

abbrev pub no_entries : String → Option Bytes
no_entries k = none

abbrev pub entry : Memory → String → Option Bytes
entry m k = m.entries k

abbrev pub place : String → Option Bytes → Memory → Memory
place k v m = record m { entries = λ j. if str_eq j k then v else m.entries j }

abbrev answer : Option Bytes → Result Fault Bytes
answer none = err (missing "redis: nil")
answer (some b) = ok b

abbrev add : String → Bytes → Option Bytes → Memory → Result Fault Bool × Memory
add k b none m = (ok true, place k (some b) m)
add k b (some old) m = (ok false, m)

abbrev online : {A : Type 0} → Call Memory Fault A → Call Memory Fault A
online f m = if m.up then f m else (err (failure "connection refused"), m)

abbrev pub memory : Redis Memory
memory = record {
  get = λ k. online (λ m. (answer (m.entries k), m));
  set = λ k b ttl. online (λ m. (ok tt, place k (some b) m));
  set_nx = λ k b ttl. online (λ m. add k b (m.entries k) m);
  del = λ k. online (λ m. (ok tt, place k none m));
  incr_expire = λ k ttl. online (λ m. (ok (pos 1), m));
  ping = online (λ m. (ok tt, m));
}

place_other :
    (k : String) (v : Option Bytes) (m : Memory) (j : String)
    → j ≢ k
    → entry (place k v m) j ≡ entry m j
place_other k v m j ne = rw (str_eq-of_ne j k ne) refl

place_own : (k : String) (v : Option Bytes) (m : Memory) → entry (place k v m) k ≡ v
place_own k v m = rw (eq_refl k) refl

place-none : (k : String) (m : Memory) → Fades entry m (place k none m)
place-none k m j = elim (Bool-cases (str_eq j k)) [
  | inl e ↦ inr (rw e refl)
  | inr e ↦ inl (rw e refl)
]

get_ok : (k : String) (m : Memory) (b : Bytes) → (memory.get k m).0 ≡ ok b → entry m k ≡ some b
get_ok k m b h = ground arith

get_reads : (k : String) (m : Memory) → Fades entry m (memory.get k m).1
get_reads k m j = elim (Bool-cases m.up) [ inl e ↦ rw e (inl refl) | inr e ↦ rw e (inl refl) ]

set_writes :
    (k : String) (b : Bytes) (ttl : Duration) (m : Memory)
    → let m' = (memory.set k b ttl m).1 in
      Frames entry k m m' × (Stays entry k m m' ⊎ (entry m' k ≡ some b))
set_writes k b ttl m = elim (Bool-cases m.up) [
  | inl e ↦ rw e (λ j ne. inl (place_other k (some b) m j ne), inr (place_own k (some b) m))
  | inr e ↦ rw e (λ j ne. inl refl, inl (inl refl))
]

set_ok :
    (k : String) (b : Bytes) (ttl : Duration) (m : Memory)
    → (memory.set k b ttl m).0 ≡ ok tt
    → let m' = (memory.set k b ttl m).1 in (entry m' k ≡ some b) ⊎ (entry m' k ≡ none)
set_ok k b ttl m h = elim (Bool-cases m.up) [
  | inl e ↦ rw e (inl (place_own k (some b) m))
  | inr e ↦ absurd (ground arith)
]

set_nx_true :
    (k : String) (b : Bytes) (ttl : Duration) (m : Memory)
    → (memory.set_nx k b ttl m).0 ≡ ok true
    → let m' = (memory.set_nx k b ttl m).1 in
      (entry m k ≡ none) × ((entry m' k ≡ some b) ⊎ (entry m' k ≡ none))
set_nx_true k b ttl m h = elim (Bool-cases m.up) [
  | inl e ↦ elim (Option-cases (m.entries k)) [
    | inl e' ↦ (e', rw (e, e') (inl (place_own k (some b) m)))
    | inr (old, e') ↦ absurd (ground arith)
  ]
  | inr e ↦ absurd (ground arith)
]

set_nx_false :
    (k : String) (b : Bytes) (ttl : Duration) (m : Memory)
    → (memory.set_nx k b ttl m).0 ≡ ok false
    → let m' = (memory.set_nx k b ttl m).1 in (entry m k ≢ none) × Stays entry k m m'
set_nx_false k b ttl m h = elim (Bool-cases m.up) [
  | inl e ↦ elim (Option-cases (m.entries k)) [
    | inl e' ↦ absurd (ground arith)
    | inr (old, e') ↦ (λ gone. absurd (cc), rw (e, e') (inl e'))
  ]
  | inr e ↦ absurd (ground arith)
]

set_nx-Frames :
    (k : String) (b : Bytes) (ttl : Duration) (m : Memory)
    → Frames entry k m (memory.set_nx k b ttl m).1
set_nx-Frames k b ttl m j ne = elim (Bool-cases m.up) [
  | inl e ↦ elim (Option-cases (m.entries k)) [
    | inl e' ↦ rw (e, e') (inl (place_other k (some b) m j ne))
    | inr (old, e') ↦ rw (e, e') (inl refl)
  ]
  | inr e ↦ rw e (inl refl)
]

del_removes : (k : String) (m : Memory) → Fades entry m (memory.del k m).1
del_removes k m j = elim (Bool-cases m.up) [
  | inl e ↦ rw e (place-none k m j)
  | inr e ↦ rw e (inl refl)
]

del_ok : (k : String) (m : Memory) → (memory.del k m).0 ≡ ok tt → entry (memory.del k m).1 k ≡ none
del_ok k m h = elim (Bool-cases m.up) [
  | inl e ↦ rw e (place_own k none m)
  | inr e ↦ absurd (ground arith)
]

pub memory-IsCache : IsCache memory entry
memory-IsCache = record {
  get_ok = get_ok;
  get_reads = get_reads;
  set_writes = set_writes;
  set_ok = set_ok;
  set_nx_true = set_nx_true;
  set_nx_false = set_nx_false;
  set_nx_frames = set_nx-Frames;
  del_removes = del_removes;
  del_ok = del_ok;
}

unfoldable tally_text : ℕ → String
tally_text zero = ""
tally_text (suc n) = "1" ++ tally_text n

len-tally_text : (n : ℕ) → len (tally_text n) ≡ n
unfolding tally_text
len-tally_text zero = refl
len-tally_text (suc n) = omega (arith, len-append "1" (tally_text n), len-tally_text n)

unfoldable pub unary : Uuids
unfolding tally_text
unary = record { string = tally_text; parse = λ s. some (len s) }

pub unary-IsUuids : IsUuids unary
unfolding unary
unary-IsUuids = record { parse-string = λ i. ap some (len-tally_text i) }
