-- ===== src/Repository/Claims.antt =====
-- How often a task can be claimed, over every interleaving of the statements that the requests, the
-- workers and the reconcilers of all replicas send to the database.
use golang_staterpack.Prelude.{
  ℕ, ◌+◌, ◌≤◌, ℤ, String, Bool, true, false, ◌≡◌, ◌&&◌, inl, inr, List, [], ◌∷◌, Option, none, some,
  Result, ok, err, Result-cases, Option-cases, ◌==◌, str_eq, eq_iff, arith, ap, ==_iff, ==_refl,
  not, sym, ◌∙◌, subst, Bool-cases,
}
use golang_staterpack.Model.{Uuid, Time, TaskStatus, Task, pending, processing, before_create}
use golang_staterpack.Libraries.Gorm.{Same, Inserted, Saved, IsSavable}
use golang_staterpack.Repository.Defs.{TaskRepository}
use golang_staterpack.Repository.Contract.{
  IsContract, restatus, claim, is_pending, Rewrites, Removes,
}

-- A call of the repository. A task that is created or saved is not deleted.
pub data RepositoryCall : Type 0 where
  creates : Uuid → (t : Task) → t.deleted_at ≡ none → RepositoryCall
  saves : (t : Task) → IsSavable t → RepositoryCall
  gets : Uuid → RepositoryCall
  lists : ℤ → ℤ → RepositoryCall
  updates_status : Uuid → TaskStatus → String → RepositoryCall
  deletes : Uuid → RepositoryCall
  marks_processing : Uuid → RepositoryCall
  finds_stale : Time → Time → ℤ → RepositoryCall

abbrev retimed : Time → Time → Task → Task
retimed c u t = record t { created_at = c; updated_at = u }

abbrev pub is_true : {E : Type 0} → Result E Bool → Bool
is_true (ok b) = b
is_true (err e) = false

abbrev pub one_if : Bool → ℕ
one_if true = 1
one_if false = 0

module _ {D : Type 0} (r : TaskRepository D) where
  unfoldable pub after : RepositoryCall → D → D
  after (creates fresh t live) d = (r.create fresh t d).1
  after (saves t savable) d = (r.update t d).1
  after (gets i) d = (r.get_by_id i d).1
  after (lists limit offset) d = (r.list limit offset d).1
  after (updates_status i s summary) d = (r.update_status i s summary d).1
  after (deletes i) d = (r.delete i d).1
  after (marks_processing i) d = (r.mark_processing i d).1
  after (finds_stale pb qb limit) d = (r.find_stale pb qb limit d).1

  unfoldable pub after_all : List RepositoryCall → D → D
  unfolding after
  after_all [] d = d
  after_all (c ∷ cs) d = after_all cs (after c d)

  -- 1 if the call is a claim of task `i` that is answered with true.
  unfoldable pub wins : Uuid → RepositoryCall → D → ℕ
  wins i (marks_processing j) d = one_if (j == i && is_true (r.mark_processing j d).0)
  wins i _ d = 0

  unfoldable pub total_wins : Uuid → List RepositoryCall → D → ℕ
  unfolding wins after
  total_wins i [] d = 0
  total_wins i (c ∷ cs) d = wins i c d + total_wins i cs (after c d)

-- 1 if the call can make task `i` pending: its creation, or a write of that status.
unfoldable pub offers : Uuid → RepositoryCall → ℕ
offers i (creates fresh t live) = one_if ((before_create fresh t).id == i)
offers i (saves t savable) = one_if (t.id == i && str_eq t.status pending)
offers i (updates_status j s summary) = one_if (j == i && str_eq s pending)
offers i _ = 0

unfoldable pub total_offers : Uuid → List RepositoryCall → ℕ
unfolding offers
total_offers i [] = 0
total_offers i (c ∷ cs) = offers i c + total_offers i cs

-- 1 if the call makes task `i` pending: it was not pending before, and is pending after.
abbrev pub newly : Option Task → Option Task → Bool
newly before_it after_it = is_pending after_it && not (is_pending before_it)

module _ {D : Type 0} (r : TaskRepository D) (row : D → Uuid → Option Task) where
  abbrev pub openings : Uuid → RepositoryCall → D → ℕ
  openings i c d = one_if (newly (row d i) (row (after r c d) i))

  unfoldable pub total_openings : Uuid → List RepositoryCall → D → ℕ
  total_openings i [] d = 0
  total_openings i (c ∷ cs) d = openings i c d + total_openings i cs (after r c d)

abbrev pub pending_weight : Option Task → ℕ
pending_weight o = one_if (is_pending o)

module _ {D : Type 0} {r : TaskRepository D} {row : D → Uuid → Option Task}
    (contract : IsContract r row) (i : Uuid) where
  weight_of_claim :
      (j : Uuid) (d d' : D)
      → Rewrites row j claim d d'
      → pending_weight (row d' i) ≤ pending_weight (row d i)
  weight_of_claim j d d' (now, effect) = elim (Option-cases (row d i)) [
    | inl e ↦ ground (arith, effect i)
    | inr (t, e) ↦ ground (arith, effect i, eq_iff processing pending)
  ]

  weight_of_Same : (d d' : D) → Same row d d' → pending_weight (row d' i) ≤ pending_weight (row d i)
  weight_of_Same d d' same = rw same (omega arith)

  win-weight :
      (now : Time) (t : Task)
      → one_if (is_pending (some t)) + pending_weight (some (claim now t)) ≤ pending_weight (some t)
  win-weight now t = elim (Bool-cases (str_eq t.status pending)) [
    | inl e ↦ rw e (omega arith)
    | inr e ↦ rw e (rw e (omega arith))
  ]

  -- A claim that is won takes the weight away.
  weight_of_win :
      (d d' : D)
      → Rewrites row i claim d d'
      → one_if (is_pending (row d i)) + pending_weight (row d' i) ≤ pending_weight (row d i)
  weight_of_win d d' (now, effect) = elim (Option-cases (row d i)) [
    | inl e ↦ rw (effect i, ==_refl i, e) (omega arith)
    | inr (t, e) ↦ rw (effect i, ==_refl i, e) (win-weight now t)
  ]

  weight_of_restatus :
      (j : Uuid) (s : TaskStatus) (summary : String) (d d' : D)
      → Rewrites row j (restatus s summary) d d'
      → pending_weight (row d' i) ≤ pending_weight (row d i) + one_if (j == i && str_eq s pending)
  weight_of_restatus j s summary d d' (now, effect) = elim (Option-cases (row d i)) [
    | inl e ↦ ground (arith, effect i)
    | inr (t, e) ↦ ground (arith, effect i)
  ]

  weight_of_removal :
      (j : Uuid) (d d' : D)
      → Removes row j d d'
      → pending_weight (row d' i) ≤ pending_weight (row d i)
  weight_of_removal j d d' effect = ground (arith, effect i)

  weight_of_insert :
      (t : Task) (d d' : D)
      → Inserted row t d d'
      → pending_weight (row d' i) ≤ pending_weight (row d i) + one_if (t.id == i)
  weight_of_insert t d d' effect = ground (arith, effect i)

  mark-weight_self :
      (j : Uuid) (d : D) (b : Bool)
      → j ≡ i
      → b ≡ is_pending (row d j)
      → Rewrites row j claim d (r.mark_processing j d).1
      → one_if b + pending_weight (row (r.mark_processing j d).1 i) ≤ pending_weight (row d i)
  mark-weight_self j d b same answer effect =
      rw (answer, same)
        (weight_of_win d _
          (subst (λ k. Rewrites row k claim d (r.mark_processing k d).1) same effect))

  mark-weight :
      (j : Uuid) (d : D)
      → wins r i (marks_processing j) d + pending_weight (row (after r (marks_processing j) d) i)
        ≤ pending_weight (row d i)
  unfolding wins after
  mark-weight j d = elim (Result-cases (r.mark_processing j d).0) [
    | inl (b, e) ↦
        let (answer, effect) = contract.mark_processing_ok j d b e in
        elim (Bool-cases (j == i)) [
          | inl same ↦ rw (e, same) (mark-weight_self j d b ((==_iff j i).0 same) answer effect)
          | inr other ↦ rw (e, other) (ground (arith, weight_of_claim j d _ effect))
        ]
    | inr (x, e) ↦ rw e (elim (contract.mark_processing_err j d x e).1 [
      | inl same ↦ ground (arith, weight_of_Same d _ same)
      | inr effect ↦ ground (arith, weight_of_claim j d _ effect)
    ])
  ]

  status-weight :
      (j : Uuid) (s : TaskStatus) (summary : String) (d : D)
      → pending_weight (row (r.update_status j s summary d).1 i)
        ≤ pending_weight (row d i) + one_if (j == i && str_eq s pending)
  status-weight j s summary d = elim (Result-cases (r.update_status j s summary d).0) [
    | inl (tt, e) ↦ weight_of_restatus j s summary d _ (contract.update_status_ok j s summary d e).1
    | inr (x, e) ↦ elim (contract.update_status_err j s summary d x e).1 [
      | inl same ↦ omega (arith, weight_of_Same d _ same)
      | inr effect ↦ weight_of_restatus j s summary d _ effect
    ]
  ]

  delete-weight :
      (j : Uuid) (d : D) → pending_weight (row (r.delete j d).1 i) ≤ pending_weight (row d i)
  delete-weight j d = elim (Result-cases (r.delete j d).0) [
    | inl (tt, e) ↦ weight_of_removal j d _ (contract.delete_ok j d e).1
    | inr (x, e) ↦ elim (contract.delete_err j d x e).1 [
      | inl same ↦ weight_of_Same d _ same
      | inr effect ↦ weight_of_removal j d _ effect
    ]
  ]

  create-weight :
      (fresh : Uuid) (t : Task) (d : D)
      → t.deleted_at ≡ none
      → pending_weight (row (r.create fresh t d).1 i)
        ≤ pending_weight (row d i) + one_if ((before_create fresh t).id == i)
  create-weight fresh t d live = elim (Result-cases (r.create fresh t d).0) [
    | inl (t', e) ↦
        let (free, (kept, (c, u, same), effect), (c', u', same')) =
          contract.create_ok fresh t t' d live e in
        subst
          (λ k.
            pending_weight (row (r.create fresh t d).1 i)
            ≤ pending_weight (row d i) + one_if (k == i))
          (ap (λ (x : Task). x.id) (same ∙ ap (λ (x : Task). retimed c u x) same'))
          (weight_of_insert kept d _ effect)
    | inr (x, e) ↦ elim (contract.create_err fresh t d x e).1 [
      | inl same ↦ omega (arith, weight_of_Same d _ same)
      | inr (t', same, _, effect) ↦ rw (← same) (weight_of_insert t' d _ effect)
    ]
  ]

  weight_of_Saved :
      (t : Task) (d d' : D)
      → Saved row t d d'
      → pending_weight (row d' i)
        ≤ pending_weight (row d i) + one_if (t.id == i && str_eq t.status pending)
  weight_of_Saved t d d' (u, (created, updated, same), effect) =
      let key : u.id ≡ t.id = ap (λ (x : Task). x.id) same in
      let status : u.status ≡ t.status = ap (λ (x : Task). x.status) same in
      let held = effect i in
      elim (Bool-cases (i == u.id)) [
        | inl e ↦
            let at : t.id ≡ i = sym ((==_iff i u.id).0 e ∙ key) in
            rw (held, e, status, (==_iff t.id i).1 at) (omega arith)
        | inr e ↦ rw (held, e) (omega arith)
      ]

  save-weight :
      (t : Task) (d : D)
      → IsSavable t
      → pending_weight (row (r.update t d).1 i)
        ≤ pending_weight (row d i) + one_if (t.id == i && str_eq t.status pending)
  save-weight t d savable = elim (Result-cases (r.update t d).0) [
    | inl (tt, e) ↦ weight_of_Saved t d _ (contract.update_ok t d savable e)
    | inr (x, e) ↦ elim (contract.update_err t d x savable e).1 [
      | inl same ↦ omega (arith, weight_of_Same d _ same)
      | inr effect ↦ weight_of_Saved t d _ effect
    ]
  ]

  step-weight :
      (c : RepositoryCall) (d : D)
      → wins r i c d + pending_weight (row (after r c d) i) ≤ pending_weight (row d i) + offers i c
  unfolding offers wins after
  step-weight (creates fresh t live) d = omega (arith, create-weight fresh t d live)
  step-weight (saves t savable) d = omega (arith, save-weight t d savable)
  step-weight (gets j) d = omega (arith, weight_of_Same d _ (contract.get_reads j d))
  step-weight (lists limit offset) d =
      omega (arith, weight_of_Same d _ (contract.list_reads limit offset d))
  step-weight (updates_status j s summary) d = omega (arith, status-weight j s summary d)
  step-weight (deletes j) d = omega (arith, delete-weight j d)
  step-weight (marks_processing j) d = omega (arith, mark-weight j d)
  step-weight (finds_stale pb qb limit) d =
      omega (arith, weight_of_Same d _ (contract.find_stale_reads pb qb limit d))

  newly-weight : (b b' : Bool) → one_if b' ≤ one_if b + one_if (b' && not b)
  newly-weight b b' = ground arith

  newly-le : (b b' : Bool) (n : ℕ) → one_if b' ≤ one_if b + n → one_if (b' && not b) ≤ n
  newly-le b b' n h = ground arith

  step-claim :
      (c : RepositoryCall) (d : D)
      → wins r i c d + pending_weight (row (after r c d) i)
        ≤ pending_weight (row d i) + openings r row i c d
  unfolding wins
  step-claim (marks_processing j) d = omega (arith, mark-weight j d)
  step-claim c d =
      omega (arith, newly-weight (is_pending (row d i)) (is_pending (row (after r c d) i)))

  step-opening : (c : RepositoryCall) (d : D) → openings r row i c d ≤ offers i c
  step-opening c d =
      newly-le (is_pending (row d i)) (is_pending (row (after r c d) i)) (offers i c)
        (omega (arith, step-weight c d))

-- The steps added up.
pub claims-le :
    {D : Type 0} {r : TaskRepository D} {row : D → Uuid → Option Task}
    → IsContract r row
    → (i : Uuid) (cs : List RepositoryCall) (d : D)
    → total_wins r i cs d + pending_weight (row (after_all r cs d) i)
      ≤ pending_weight (row d i) + total_openings r row i cs d
unfolding total_wins total_openings after_all
claims-le contract i [] d = omega arith
claims-le {r} contract i (c ∷ cs) d =
    omega (arith, step-claim contract i c d, claims-le contract i cs (after r c d))

pub openings-le :
    {D : Type 0} {r : TaskRepository D} {row : D → Uuid → Option Task}
    → IsContract r row
    → (i : Uuid) (cs : List RepositoryCall) (d : D)
    → total_openings r row i cs d ≤ total_offers i cs
unfolding total_openings total_offers
openings-le contract i [] d = omega arith
openings-le {r} contract i (c ∷ cs) d =
    omega (arith, step-opening contract i c d, openings-le contract i cs (after r c d))
