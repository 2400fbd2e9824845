-- ===== src/Libraries/Gorm.antt =====
-- GORM over the Postgres table of tasks. A statement is given by its parts: the condition of
-- `Where`, the columns of `Updates`, order, limit and offset. The state is the database's.
use golang_staterpack.Prelude.{
  ℕ, ℤ, pos, String, Bool, true, ◌&&◌, ◌||◌, ◌≡◌, ◌≢◌, ◌⊎◌, ◌≤ℤ◌, List, [], ◌∷◌, Memᴰ, Option, none,
  some, ok, err, Call, All, length, if◌then◌else◌, ◌==◌, str_eq, ltb_ℤ,
}
use mathlib.Core.Option
use golang_staterpack.Errors.{Fault, missing}
use golang_staterpack.Model.{Uuid, Time, TaskStatus, Task, nil_uuid}

-- `id = ?`, `status = ?`, `created_at < ?`, `updated_at < ?`, `AND` and `OR`.
pub data Condition : Type 0 where
  id_is : Uuid → Condition
  status_is : TaskStatus → Condition
  created_before updated_before : Time → Condition
  both either : Condition → Condition → Condition

-- The columns of an `UPDATE … SET`.
pub data Column : Type 0 where
  set_status : TaskStatus → Column
  set_summary : String → Column

pub data Order : Type 0 where
  created_asc created_desc : Order

pub record Query : Type 0 where
  pub filter : Option Condition
  pub order : Order
  pub limit : ℤ
  pub offset : ℤ

-- `NowFunc` and the primary key are the database's part: `insert` is `db.Create` after the
-- `BeforeCreate` hook, and returns the task with the columns that GORM has filled in.
pub record Gorm (D : Type 0) : Type 0 where
  pub insert : Task → Call D Fault Task
  pub first : Condition → Call D Fault Task
  pub count : Call D Fault ℕ
  pub find : Query → Call D Fault (List Task)
  pub save : Task → Call D Fault (Unit {0})
  pub updates : Condition → List Column → Call D Fault ℕ
  pub delete : Condition → Call D Fault ℕ
  pub auto_migrate : Call D Fault (Unit {0})

-- What a condition means for one row.
abbrev pub matches : Condition → Task → Bool
matches (id_is i) t = t.id == i
matches (status_is s) t = str_eq t.status s
matches (created_before b) t = ltb_ℤ t.created_at b
matches (updated_before b) t = ltb_ℤ t.updated_at b
matches (both c e) t = matches c t && matches e t
matches (either c e) t = matches c t || matches e t

abbrev pub selects : Option Condition → Task → Bool
selects none t = true
selects (some c) t = matches c t

abbrev pub assign : List Column → Task → Task
assign [] t = t
assign (set_status s ∷ a) t = assign a (record t { status = s })
assign (set_summary s ∷ a) t = assign a (record t { summary = s })

-- The row after the statement: GORM sets `updated_at` with the columns.
abbrev pub written : Condition → List Column → Time → Task → Task
written c a now t = if matches c t then record (assign a t) { updated_at = now } else t

-- The row after a soft delete, as the other statements see it.
abbrev pub kept : Condition → Task → Option Task
kept c t = if matches c t then none else some t

abbrev pub bind_row : (Task → Option Task) → Option Task → Option Task
bind_row f none = none
bind_row f (some t) = f t

-- How many of no row or one row a condition matches.
abbrev pub hits : Condition → Option Task → ℕ
hits c none = 0
hits c (some t) = if matches c t then 1 else 0

abbrev pub Sorted : Order → List Task → Type 0
Sorted o [] = Unit
Sorted created_asc (t ∷ ts) = All (λ u. t.created_at ≤ℤ u.created_at) ts × Sorted created_asc ts
Sorted created_desc (t ∷ ts) = All (λ u. u.created_at ≤ℤ t.created_at) ts × Sorted created_desc ts

-- The same task, at other times: a row keeps microseconds, the task in memory has nanoseconds.
abbrev pub IsRetimed : Task → Task → Type 0
IsRetimed t u =
    (created updated : Time) × (u ≡ record t { created_at = created; updated_at = updated })

-- A task that has a key, a status and no time of deletion.
abbrev pub IsSavable : Task → Type 0
IsSavable t = (t.id ≢ nil_uuid) × (t.status ≢ "") × (t.deleted_at ≡ none)

-- The condition can match the row of one key only.
abbrev pub Pins : Uuid → Condition → Type 0
Pins i c = (t : Task) → matches c t ≡ true → t.id ≡ i

module _ {D : Type 0} (row : D → Uuid → Option Task) where
  -- `row d i` is the row with primary key `i` that is not soft-deleted.
  abbrev pub Same : D → D → Type 0
  Same d d' = (i : Uuid) → row d' i ≡ row d i

  abbrev pub Updated : Condition → List Column → D → D → Type 0
  Updated c a d d' = (now : Time) × ((i : Uuid) → row d' i ≡ Option.map (written c a now) (row d i))

  abbrev pub Deleted : Condition → D → D → Type 0
  Deleted c d d' = (i : Uuid) → row d' i ≡ bind_row (kept c) (row d i)

  abbrev pub Inserted : Task → D → D → Type 0
  Inserted t d d' = (i : Uuid) → row d' i ≡ (if i == t.id then some t else row d i)

  -- The row of the task's key is the task, at some times, whether or not there was one.
  abbrev pub Saved : Task → D → D → Type 0
  Saved t d d' = (u : Task) × IsRetimed t u × Inserted u d d'

-- The documented behaviour of the statements. One that fails has been run as a whole or not at all.
pub record IsTable {D : Type 0} (g : Gorm D) (row : D → Uuid → Option Task) : Type 0 where
  pub row_key : (d : D) (i : Uuid) (t : Task) → row d i ≡ some t → t.id ≡ i
  pub insert_ok :
      (t t' : Task) (d : D)
      → t.deleted_at ≡ none
      → t.status ≢ ""
      → (g.insert t d).0 ≡ ok t'
      → let d' = (g.insert t d).1 in (row d t.id ≡ none) × Saved row t' d d' × IsRetimed t t'
  pub insert_err :
      (t : Task) (d : D) (e : Fault)
      → (g.insert t d).0 ≡ err e
      → let d' = (g.insert t d).1 in
        Same row d d' ⊎ ((t' : Task) × (t'.id ≡ t.id) × (row d t.id ≡ none) × Inserted row t' d d')
  -- `Save` updates the row, or inserts it where there is none.
  pub save_ok :
      (t : Task) (d : D) → IsSavable t → (g.save t d).0 ≡ ok tt → Saved row t d (g.save t d).1
  pub save_err :
      (t : Task) (d : D) (e : Fault)
      → IsSavable t
      → (g.save t d).0 ≡ err e
      → let d' = (g.save t d).1 in Same row d d' ⊎ Saved row t d d'
  pub first_ok :
      (c : Condition) (d : D) (t : Task)
      → (g.first c d).0 ≡ ok t
      → (row d t.id ≡ some t) × (matches c t ≡ true)
  pub first_missing :
      (c : Condition) (d : D) (s : String)
      → (g.first c d).0 ≡ err (missing s)
      → (i : Uuid) → hits c (row d i) ≡ 0
  pub first_reads : (c : Condition) (d : D) → Same row d (g.first c d).1
  pub count_reads : (d : D) → Same row d (g.count d).1
  pub find_reads : (q : Query) (d : D) → Same row d (g.find q d).1
  pub find_ok :
      (q : Query) (d : D) (ts : List Task)
      → (g.find q d).0 ≡ ok ts
      → pos 0 ≤ℤ q.limit
      → All (λ t. (row d t.id ≡ some t) × (selects q.filter t ≡ true)) ts
        × Sorted q.order ts
        × (pos (length ts) ≤ℤ q.limit)
  -- A page that starts at the first row and is not full leaves nothing out.
  pub find_all :
      (q : Query) (d : D) (ts : List Task)
      → (g.find q d).0 ≡ ok ts
      → q.offset ≡ pos 0
      → ¬ (q.limit ≤ℤ pos (length ts))
      → (i : Uuid) (t : Task) → row d i ≡ some t
      → selects q.filter t ≡ true
      → Memᴰ t ts
  pub updates_ok :
      (c : Condition) (a : List Column) (d : D) (n : ℕ)
      → (g.updates c a d).0 ≡ ok n
      → let d' = (g.updates c a d).1 in
        Updated row c a d d' × ((i : Uuid) → Pins i c → n ≡ hits c (row d i))
  pub updates_err :
      (c : Condition) (a : List Column) (d : D) (e : Fault)
      → (g.updates c a d).0 ≡ err e
      → let d' = (g.updates c a d).1 in Same row d d' ⊎ Updated row c a d d'
  pub delete_ok :
      (c : Condition) (d : D) (n : ℕ)
      → (g.delete c d).0 ≡ ok n
      → let d' = (g.delete c d).1 in
        Deleted row c d d' × ((i : Uuid) → Pins i c → n ≡ hits c (row d i))
  pub delete_err :
      (c : Condition) (d : D) (e : Fault)
      → (g.delete c d).0 ≡ err e
      → let d' = (g.delete c d).1 in Same row d d' ⊎ Deleted row c d d'
