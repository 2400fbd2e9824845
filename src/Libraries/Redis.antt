-- ===== src/Libraries/Redis.antt =====
-- The Redis client: texts under keys with a time to live. The state is the server's.
use golang_staterpack.Prelude.{
  ℤ, String, Bool, true, false, ◌≡◌, ◌≢◌, ◌⊎◌, Option, none, some, ok, Call,
}
use golang_staterpack.Errors.{Fault}
use golang_staterpack.Model.{Bytes, Duration}

pub record Redis (C : Type 0) : Type 0 where
  pub get : String → Call C Fault Bytes
  pub set : String → Bytes → Duration → Call C Fault (Unit {0})
  pub set_nx : String → Bytes → Duration → Call C Fault Bool
  pub del : String → Call C Fault (Unit {0})
  -- `INCR` and `EXPIRE` of one key in a transaction: the counter's new value.
  pub incr_expire : String → Duration → Call C Fault ℤ
  pub ping : Call C Fault (Unit {0})

module _ {C : Type 0} (entry : C → String → Option Bytes) where
  -- An entry stays as it is, or has expired or been evicted.
  abbrev pub Stays : String → C → C → Type 0
  Stays k c c' = (entry c' k ≡ entry c k) ⊎ (entry c' k ≡ none)

  -- No entry but that of `k` is written.
  abbrev pub Frames : String → C → C → Type 0
  Frames k c c' = (j : String) → j ≢ k → Stays j c c'

  abbrev pub Fades : C → C → Type 0
  Fades c c' = (j : String) → Stays j c c'

-- The documented behaviour; `entry c k` is the text that a `GET` of `k` would find.
pub record IsCache {C : Type 0} (r : Redis C) (entry : C → String → Option Bytes) : Type 0 where
  pub get_ok : (k : String) (c : C) (b : Bytes) → (r.get k c).0 ≡ ok b → entry c k ≡ some b
  pub get_reads : (k : String) (c : C) → Fades entry c (r.get k c).1
  pub set_writes :
      (k : String) (b : Bytes) (ttl : Duration) (c : C)
      → let c' = (r.set k b ttl c).1 in
        Frames entry k c c' × (Stays entry k c c' ⊎ (entry c' k ≡ some b))
  -- A write that is acknowledged leaves nothing of the old entry.
  pub set_ok :
      (k : String) (b : Bytes) (ttl : Duration) (c : C)
      → (r.set k b ttl c).0 ≡ ok tt
      → let c' = (r.set k b ttl c).1 in (entry c' k ≡ some b) ⊎ (entry c' k ≡ none)
  pub set_nx_true :
      (k : String) (b : Bytes) (ttl : Duration) (c : C)
      → (r.set_nx k b ttl c).0 ≡ ok true
      → let c' = (r.set_nx k b ttl c).1 in
        (entry c k ≡ none) × ((entry c' k ≡ some b) ⊎ (entry c' k ≡ none))
  pub set_nx_false :
      (k : String) (b : Bytes) (ttl : Duration) (c : C)
      → (r.set_nx k b ttl c).0 ≡ ok false
      → let c' = (r.set_nx k b ttl c).1 in (entry c k ≢ none) × Stays entry k c c'
  pub set_nx_frames :
      (k : String) (b : Bytes) (ttl : Duration) (c : C) → Frames entry k c (r.set_nx k b ttl c).1
  pub del_removes : (k : String) (c : C) → Fades entry c (r.del k c).1
  pub del_ok : (k : String) (c : C) → (r.del k c).0 ≡ ok tt → entry (r.del k c).1 k ≡ none
