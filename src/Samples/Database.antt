-- ===== src/Samples/Database.antt =====
-- A database whose table holds one row, and that may be down: it meets the laws of `IsTable`.
use golang_staterpack.Prelude.{
  ℕ, pos, ◌≤ℤ◌, String, Bool, true, ◌≡◌, refl, inl, inr, List, [], ◌∷◌, Option, none, some, Result,
  ok, err, if◌then◌else◌, ◌==◌, ◌&&◌, leb_ℤ, ltb_ℤ, arith, Option-cases, ==_iff, All, length, Memᴰ,
  Bool-cases, Call,
}
use mathlib.Core.Option
use golang_staterpack.Errors.{Fault, missing, failure}
use golang_staterpack.Model.{Uuid, Time, Task}
use golang_staterpack.Libraries.Gorm.{
  Gorm, IsTable, Condition, Column, Query, matches, selects, written, kept, bind_row, hits, assign,
  Same, Saved, IsRetimed, Updated, Deleted, Sorted, Pins, created_asc, created_desc, Order,
}

pub record Store : Type 0 where
  pub up : Bool
  pub held : Option Task
  pub clock : Time

abbrev pub down : Fault
down = failure "connection refused"

abbrev pub put_row : Store → Option Task → Store
put_row s r = record s { held = r }

unfoldable pub insert_row : Task → Option Task → Store → Result Fault Task × Store
insert_row t none s =
    let t' = record t { created_at = s.clock; updated_at = s.clock } in (ok t', put_row s (some t'))
insert_row t (some u) s = (err (failure "duplicate key"), s)

unfoldable pub first_row : Condition → Option Task → Result Fault Task
first_row c none = err (missing "record not found")
first_row c (some t) = if matches c t then ok t else err (missing "record not found")

-- The table has room for one row.
unfoldable pub save_row : Task → Option Task → Store → Result Fault (Unit {0}) × Store
save_row t none s = (ok tt, put_row s (some (record t { updated_at = s.clock })))
save_row t (some u) s =
    if u.id == t.id
    then (ok tt, put_row s (some (record t { updated_at = s.clock })))
    else (err (failure "disk full"), s)

abbrev pub page_of : Query → Option Task → List Task
page_of q none = []
page_of q (some t) =
    if selects q.filter t && ltb_ℤ (pos 0) q.limit && leb_ℤ q.offset (pos 0) then t ∷ [] else []

abbrev pub one : Option Task → ℕ
one none = 0
one (some t) = 1

abbrev pub guard : {A : Type 0} → Call Store Fault A → Call Store Fault A
guard m s = if s.up then m s else (err down, s)

abbrev pub one_row : Gorm Store
one_row = record {
  insert = λ t. guard (λ s. insert_row t s.held s);
  first = λ c. guard (λ s. (first_row c s.held, s));
  count = guard (λ s. (ok (one s.held), s));
  find = λ q. guard (λ s. (ok (page_of q s.held), s));
  save = λ t. guard (λ s. save_row t s.held s);
  updates =
      λ c a. guard (λ s. (ok (hits c s.held), put_row s (Option.map (written c a s.clock) s.held)));
  delete = λ c. guard (λ s. (ok (hits c s.held), put_row s (bind_row (kept c) s.held)));
  auto_migrate = guard (λ s. (ok tt, s));
}

-- The row of the store at its key.
abbrev pub at_key : Uuid → Task → Option Task
at_key i t = if t.id == i then some t else none

abbrev pub row : Store → Uuid → Option Task
row s i = bind_row (at_key i) s.held

row_key : (s : Store) (i : Uuid) (t : Task) → row s i ≡ some t → t.id ≡ i
row_key s i t h = ground arith

first_ok :
    (c : Condition) (s : Store) (t : Task)
    → (one_row.first c s).0 ≡ ok t
    → (row s t.id ≡ some t) × (matches c t ≡ true)
unfolding first_row
first_ok c s t h = ground arith

hits-row :
    (c : Condition) (i : Uuid) (o : Option Task)
    → Pins i c
    → hits c o ≡ hits c (bind_row (at_key i) o)
hits-row c i none pins = refl
hits-row c i (some t) pins = ground (arith, pins t)

id-assign : (a : List Column) (t : Task) → (assign a t).id ≡ t.id
id-assign [] t = refl
id-assign (Column.set_status v ∷ a) t = id-assign a (record t { status = v })
id-assign (Column.set_summary v ∷ a) t = id-assign a (record t { summary = v })

id-written :
    (c : Condition) (a : List Column) (now : Time) (t : Task) → (written c a now t).id ≡ t.id
id-written c a now t = ground (arith, id-assign a t)

updated-row :
    (c : Condition) (a : List Column) (now : Time) (o : Option Task) (i : Uuid)
    → bind_row (at_key i) (Option.map (written c a now) o)
      ≡ Option.map (written c a now) (bind_row (at_key i) o)
updated-row c a now none i = refl
updated-row c a now (some t) i = elim (Bool-cases (t.id == i)) [
  | inl e ↦ rw (id-written c a now t, e) refl
  | inr e ↦ rw (id-written c a now t, e) refl
]

deleted-row :
    (c : Condition) (o : Option Task) (i : Uuid)
    → bind_row (at_key i) (bind_row (kept c) o) ≡ bind_row (kept c) (bind_row (at_key i) o)
deleted-row c none i = refl
deleted-row c (some t) i = ground arith

insert_ok :
    (t t' : Task) (s : Store)
    → (one_row.insert t s).0 ≡ ok t'
    → let s' = (one_row.insert t s).1 in (row s t.id ≡ none) × Saved row t' s s' × IsRetimed t t'
unfolding insert_row
insert_ok t t' s h = elim (Option-cases s.held) [
  | inl e ↦ (
    ground arith,
    (t', (t'.created_at, t'.updated_at, refl), λ i. ground arith),
    (s.clock, s.clock, ground arith),
  )
  | inr (u, e) ↦ absurd (ground arith)
]

insert_err :
    (t : Task) (s : Store) (e : Fault)
    → (one_row.insert t s).0 ≡ err e
    → Same row s (one_row.insert t s).1
unfolding insert_row
insert_err t s e h i = ground arith

save_ok : (t : Task) (s : Store) → (one_row.save t s).0 ≡ ok tt → Saved row t s (one_row.save t s).1
unfolding save_row
save_ok t s h = elim (Option-cases s.held) [
  | inl e ↦ (record t { updated_at = s.clock }, (t.created_at, s.clock, refl), λ i. ground arith)
  | inr (u, e) ↦ (
    record t { updated_at = s.clock },
    (t.created_at, s.clock, refl),
    λ i. ground (arith, ==_iff u.id t.id),
  )
]

save_err :
    (t : Task) (s : Store) (e : Fault)
    → (one_row.save t s).0 ≡ err e
    → Same row s (one_row.save t s).1
unfolding save_row
save_err t s e h i = ground arith

first_missing :
    (c : Condition) (s : Store) (text : String)
    → (one_row.first c s).0 ≡ err (missing text)
    → (i : Uuid) → hits c (row s i) ≡ 0
unfolding first_row
first_missing c s text h i = ground arith

reads :
    {A : Type 0} (f : Store → Result Fault A) (s : Store) → Same row s (guard (λ s. (f s, s)) s).1
reads f s i = ground arith

Sorted-one : (o : Order) (t : Task) → Sorted o (t ∷ [])
Sorted-one created_asc t = (tt, tt)
Sorted-one created_desc t = (tt, tt)

Sorted-none : (o : Order) → Sorted o []
Sorted-none created_asc = tt
Sorted-none created_desc = tt

find_inv :
    (q : Query) (s : Store) (ts : List Task) → (one_row.find q s).0 ≡ ok ts → ts ≡ page_of q s.held
find_inv q s ts h = ground arith

abbrev shown : Query → Task → Bool
shown q t = selects q.filter t && ltb_ℤ (pos 0) q.limit && leb_ℤ q.offset (pos 0)

page_ok :
    (q : Query) (o : Option Task)
    → pos 0 ≤ℤ q.limit
    → All (λ t. (bind_row (at_key t.id) o ≡ some t) × (selects q.filter t ≡ true)) (page_of q o)
      × Sorted q.order (page_of q o)
      × (pos (length (page_of q o)) ≤ℤ q.limit)
page_ok q none bound = (tt, Sorted-none q.order, bound)
page_ok q (some t) bound = elim (Bool-cases (shown q t)) [
  | inl e ↦ rw e (((ground arith, ground arith), tt), Sorted-one q.order t, ground arith)
  | inr e ↦ rw e (tt, Sorted-none q.order, bound)
]

find_ok :
    (q : Query) (s : Store) (ts : List Task)
    → (one_row.find q s).0 ≡ ok ts
    → pos 0 ≤ℤ q.limit
    → All (λ t. (row s t.id ≡ some t) × (selects q.filter t ≡ true)) ts
      × Sorted q.order ts
      × (pos (length ts) ≤ℤ q.limit)
find_ok q s ts h bound = rw (find_inv q s ts h) (page_ok q s.held bound)

find_all :
    (q : Query) (s : Store) (ts : List Task)
    → (one_row.find q s).0 ≡ ok ts
    → q.offset ≡ pos 0
    → ¬ (q.limit ≤ℤ pos (length ts))
    → (i : Uuid) (t : Task) → row s i ≡ some t
    → selects q.filter t ≡ true
    → Memᴰ t ts
find_all q s [] h start short i t held chosen = absurd (ground (arith, find_inv q s [] h))
find_all q s (u ∷ ts) h start short i t held chosen =
    Memᴰ.head (ground (arith, find_inv q s (u ∷ ts) h))

updates_ok :
    (c : Condition) (a : List Column) (s : Store) (n : ℕ)
    → (one_row.updates c a s).0 ≡ ok n
    → Updated row c a s (one_row.updates c a s).1 × ((i : Uuid) → Pins i c → n ≡ hits c (row s i))
updates_ok c a s n h = (
  (s.clock, λ i. ground (arith, updated-row c a s.clock s.held i)),
  λ i pins. ground (arith, hits-row c i s.held pins),
)

delete_ok :
    (c : Condition) (s : Store) (n : ℕ)
    → (one_row.delete c s).0 ≡ ok n
    → Deleted row c s (one_row.delete c s).1 × ((i : Uuid) → Pins i c → n ≡ hits c (row s i))
delete_ok c s n h = (
  λ i. ground (arith, deleted-row c s.held i),
  λ i pins. ground (arith, hits-row c i s.held pins),
)

updates_err :
    (c : Condition) (a : List Column) (s : Store) (e : Fault)
    → (one_row.updates c a s).0 ≡ err e
    → Same row s (one_row.updates c a s).1
updates_err c a s e h i = ground arith

delete_err :
    (c : Condition) (s : Store) (e : Fault)
    → (one_row.delete c s).0 ≡ err e
    → Same row s (one_row.delete c s).1
delete_err c s e h i = ground arith

pub one_row-IsTable : IsTable one_row row
unfolding first_row
one_row-IsTable = record {
  row_key = row_key;
  insert_ok = λ t t' s _ _. insert_ok t t' s;
  insert_err = λ t s e h. inl (insert_err t s e h);
  save_ok = λ t s _. save_ok t s;
  save_err = λ t s e _ h. inl (save_err t s e h);
  first_ok = first_ok;
  first_missing = first_missing;
  first_reads = λ c. reads (λ s. first_row c s.held);
  count_reads = reads (λ s. ok (one s.held));
  find_reads = λ q. reads (λ s. ok (page_of q s.held));
  find_ok = find_ok;
  find_all = find_all;
  updates_ok = updates_ok;
  updates_err = λ c a s e h. inl (updates_err c a s e h);
  delete_ok = delete_ok;
  delete_err = λ c s e h. inl (delete_err c s e h);
}
