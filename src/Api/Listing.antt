-- ===== src/Api/Listing.antt =====
-- `GET /api/v1/tasks` to the task service as `run` of cmd/api/main.go wires it.
use golang_staterpack.Prelude.{
  ℕ, ℤ, pos, String, Bool, ◌≡◌, refl, ap, ◌∙◌, ◌⊎◌, inl, inr, ◌≤ℤ◌, ◌<ℤ◌, List, Option, none, some,
  Result, ok, err, Result-cases, Option-cases, Bool-cases, All, length, Memᴰ, leb_ℤ, ltb_ℤ, arith,
}
use golang_staterpack.Errors.{Error, wrap, external}
use golang_staterpack.Model.{Uuid, Task}
use golang_staterpack.Libraries.Gorm.{Gorm, IsTable, Same, Sorted, created_desc}
use golang_staterpack.Libraries.Redis.{Redis}
use golang_staterpack.Repository.Defs as Repository
use golang_staterpack.Repository.Reads.{list_ok, list_all, list_reads, list_fault}
use golang_staterpack.Service.Defs.{TaskService, World, Publisher, Encoding, on_db}
use golang_staterpack.Service.Defs as Service
use golang_staterpack.Service.Paging.{clamped, clamped_bounds, from_start, list-clamped}
use golang_staterpack.Transport.Defs.{
  Request, Response, Content, list_tasks, reply, answer, error_handler, or_default,
}
use golang_staterpack.Api.Wiring.{task_service}

-- The numbers that the query asks for, or their defaults.
abbrev pub asked_limit : Request → ℤ
asked_limit q = or_default (pos 20) q.limit

abbrev pub asked_offset : Request → ℤ
asked_offset q = or_default (pos 0) q.offset

abbrev pub listed :
    {D C B : Type 0} → TaskService D C B → Bool → String → Request → World D C B → Response
listed s include_detail trace q w = answer include_detail trace (list_tasks s q w).0

-- The row is in the page, if there is one.
abbrev pub IsListed : List Task → Option Task → Type 0
IsListed ts none = Unit
IsListed ts (some t) = Memᴰ t ts

module _ {D C B : Type 0} (s : TaskService D C B) (q : Request) (w : World D C B) where
  abbrev page_call : Result Error (List Task × ℕ) × World D C B
  page_call = Service.list s (asked_limit q) (asked_offset q) w

  list_tasks-ok :
      (ts : List Task) (total : ℕ)
      → page_call.0 ≡ ok (ts, total)
      → list_tasks s q w
        ≡ (ok (reply 200 (Content.tasks ts total (asked_limit q) (asked_offset q))), page_call.1)
  unfolding list_tasks
  list_tasks-ok ts total h = ground arith

  list_tasks-err : (e : Error) → page_call.0 ≡ err e → list_tasks s q w ≡ (err e, page_call.1)
  unfolding list_tasks
  list_tasks-err e h = ground arith

failed-status :
    (include_detail : Bool) (trace s text : String)
    → (error_handler include_detail trace (wrap s (external text))).status ≡ 500
unfolding error_handler
failed-status include_detail trace s text = refl

module _ {D : Type 0} (row : D → Uuid → Option Task) (d : D) (q : Request) where
  -- A page of live rows, newest first, of 1 to 100 tasks. The first page, if it is not full, holds
  -- every row.
  pub record IsPage (ts : List Task) : Type 0 where
    pub stored : All (λ t. row d t.id ≡ some t) ts
    pub newest_first : Sorted created_desc ts
    pub short : pos (length ts) ≤ℤ clamped (asked_limit q)
    pub bounded : pos (length ts) ≤ℤ pos 100
    pub complete :
        (pos 0 <ℤ asked_offset q)
        ⊎ (clamped (asked_limit q) ≤ℤ pos (length ts))
        ⊎ ((i : Uuid) → IsListed ts (row d i))

start_cases : (offset : ℤ) → (pos 0 <ℤ offset) ⊎ (from_start offset ≡ pos 0)
start_cases offset = elim (Bool-cases (ltb_ℤ (pos 0) offset)) [
  | inl e ↦ inl (ground arith)
  | inr e ↦ inr (ground arith)
]

full_cases : (limit n : ℤ) → (limit ≤ℤ n) ⊎ ¬ (limit ≤ℤ n)
full_cases limit n = elim (Bool-cases (leb_ℤ limit n)) [
  | inl e ↦ inl (ground arith)
  | inr e ↦ inr (λ h. absurd (ground arith))
]

le_trans_ℤ : (a b c : ℤ) → a ≤ℤ b → b ≤ℤ c → a ≤ℤ c
le_trans_ℤ a b c h k = omega arith

module _ {D : Type 0} {g : Gorm D} {row : D → Uuid → Option Task} (table : IsTable g row) (d : D)
    (q : Request) (ts : List Task) (total : ℕ)
    (h : (Repository.list g (clamped (asked_limit q)) (from_start (asked_offset q)) d).0
      ≡ ok (ts, total)) where
  every_row :
      from_start (asked_offset q) ≡ pos 0
      → ¬ (clamped (asked_limit q) ≤ℤ pos (length ts))
      → (i : Uuid) → IsListed ts (row d i)
  every_row start short i = elim (Option-cases (row d i)) [
    | inl e ↦ rw e tt
    | inr (t, e) ↦
        rw e (list_all table (clamped (asked_limit q)) d ts total (rw start at h) short i t e)
  ]

  list-IsPage : IsPage row d q ts
  list-IsPage =
      let (low, high) = clamped_bounds (asked_limit q) in
      let (stored, newest, short) =
        list_ok table (clamped (asked_limit q)) (from_start (asked_offset q)) d ts total h
          (omega arith) in
      record {
        stored = stored;
        newest_first = newest;
        short = short;
        bounded = le_trans_ℤ (pos (length ts)) (clamped (asked_limit q)) (pos 100) short high;
        complete = elim (start_cases (asked_offset q)) [
          | inl later ↦ inl later
          | inr start ↦ elim (full_cases (clamped (asked_limit q)) (pos (length ts))) [
            | inl full ↦ inr (inl full)
            | inr room ↦ inr (inr (every_row start room))
          ]
        ];
      }

-- `GET /api/v1/tasks` answers 200 or 500. With 200 the tasks are rows that are stored and not deleted,
-- newest first, at most as many as the limit, a limit out of the range of 1 to 100 counting as 20;
-- from the start of the table, a page that is not full holds every such row. Neither the rows nor the
-- cache nor the broker change.
pub list_tasks_lem :
    {D C B : Type 0} (g : Gorm D) (brk : Publisher B) (rdb : Redis C) (encoding : Encoding)
    (row : D → Uuid → Option Task)
    → IsTable g row
    → (include_detail : Bool) (trace : String) (q : Request) (w : World D C B)
    → let s = task_service g brk rdb encoding in
      let response = listed s include_detail trace q w in
      let w' = (list_tasks s q w).1 in
      (((ts : List Task) × (total : ℕ) × (response
            ≡ reply 200 (Content.tasks ts total (asked_limit q) (asked_offset q)))
          × IsPage row w.db q ts)
        ⊎ (response.status ≡ 500))
      × Same row w.db w'.db
      × (w'.cache ≡ w.cache)
      × (w'.broker ≡ w.broker)
list_tasks_lem g brk rdb encoding row table include_detail trace q w =
    let s = task_service g brk rdb encoding in
    let size = clamped (asked_limit q) in
    let from = from_start (asked_offset q) in
    let same = list_reads table size from w.db in
    let page = list-clamped s (asked_limit q) (asked_offset q) w in
    elim (Result-cases (Repository.list g size from w.db).0) [
      | inl (found, h) ↦
          let run = list_tasks-ok s q w found.0 found.1 (ap (λ x. x.0) page ∙ h) in
          let world = ap (λ x. x.1) page in
          (
            inl (found.0, found.1, rw run refl, list-IsPage table w.db q found.0 found.1 h),
            rw (run, world) same,
            rw (run, world) refl,
            rw (run, world) refl,
          )
      | inr (e, h) ↦
          let (text, cause, shape) = list_fault table size from w.db e h in
          let run = list_tasks-err s q w e (ap (λ x. x.0) page ∙ h) in
          let world = ap (λ x. x.1) page in
          (
            inr (rw (run, shape) (failed-status include_detail trace text cause)),
            rw (run, world) same,
            rw (run, world) refl,
            rw (run, world) refl,
          )
    ]
