-- ===== src/Repository/Footprint.antt =====
-- The calls that the service makes while it works on one task, and the rows that they change whatever
-- they answer.
use golang_staterpack.Prelude.{
  String, ℤ, ◌≡◌, refl, sym, ap, ◌∙◌, ◌⊎◌, inl, inr, Option, some, Result-cases, Option-cases,
  Bool-cases, ◌==◌, ==_iff, IsHistory, arith,
}
use golang_staterpack.Model.{Uuid, Time, Task, TaskStatus}
use golang_staterpack.Libraries.Gorm.{Same}
use golang_staterpack.Repository.Defs.{TaskRepository}
use golang_staterpack.Repository.Contract.{IsContract, restatus, Rewrites}
use golang_staterpack.Repository.Histories.{IsSameTask, IsSameTask-trans}
use golang_staterpack.Repository.Histories.Kept.{restatus-IsSameTask, claim-IsSameTask}

-- A relation of the database before and after some work on one task, or on none, that holds over each
-- call of the repository which such work makes.
pub record IsFootprint {D : Type 0} (r : TaskRepository D) (R : Option Uuid → D → D → Type 0)
    : Type 0 where
  pub history : (n : Option Uuid) → IsHistory (R n)
  pub gets : (n : Option Uuid) (i : Uuid) (d : D) → R n d (r.get_by_id i d).1
  pub finds_stale :
      (n : Option Uuid) (a b : Time) (limit : ℤ) (d : D) → R n d (r.find_stale a b limit d).1
  pub updates_status :
      (i : Uuid) (s : TaskStatus) (summary : String) (d : D)
      → R (some i) d (r.update_status i s summary d).1
  pub marks_processing : (i : Uuid) (d : D) → R (some i) d (r.mark_processing i d).1

-- A row stays, or there is a cause `P` and it is still the same task.
abbrev pub Moves : Type 0 → Option Task → Option Task → Type 0
Moves P o o' = (o' ≡ o) ⊎ P × ((t u : Task) × (o ≡ some t) × (o' ≡ some u) × IsSameTask t u)

pub Moves-trans : (P : Type 0) (a b c : Option Task) → Moves P a b → Moves P b c → Moves P a c
Moves-trans P a b c (inl e) (inl e') = inl (e' ∙ e)
Moves-trans P a b c (inl e) (inr (cause, (t, u, x, y, same))) =
    inr (cause, (t, u, sym e ∙ x, y, same))
Moves-trans P a b c (inr (cause, (t, u, x, y, same))) (inl e) = inr (cause, (t, u, x, e ∙ y, same))
Moves-trans P a b c (inr (cause, (t, u, x, y, same))) (inr (_, (t', u', x', y', same'))) =
    let middle : u ≡ t' = ground arith in
    inr (cause, (t, u', x, y', IsSameTask-trans t t' u' (rw (← middle) same) same'))

pub Moves-weaken : (P Q : Type 0) (a b : Option Task) → (P → Q) → Moves P a b → Moves Q a b
Moves-weaken P Q a b f (inl e) = inl e
Moves-weaken P Q a b f (inr (cause, rest)) = inr (f cause, rest)

module _ {D : Type 0} (row : D → Uuid → Option Task) where
  abbrev pub Reworks : Option Uuid → D → D → Type 0
  Reworks n d d' = (j : Uuid) → Moves (n ≡ some j) (row d j) (row d' j)

  pub Reworks-IsHistory : (n : Option Uuid) → IsHistory (Reworks n)
  Reworks-IsHistory n = record {
    here = λ d j. inl refl;
    then_on = λ c d e h k j. Moves-trans (n ≡ some j) (row c j) (row d j) (row e j) (h j) (k j);
  }

  pub Reworks-of_Same : (n : Option Uuid) (d d' : D) → Same row d d' → Reworks n d d'
  Reworks-of_Same n d d' same j = inl (same j)

  Reworks-of_Rewrites :
      (i : Uuid) (f : Time → Task → Task) (d d' : D)
      → ((now : Time) (t : Task) → IsSameTask t (f now t))
      → Rewrites row i f d d'
      → Reworks (some i) d d'
  Reworks-of_Rewrites i f d d' keeps (now, effect) j = elim (Bool-cases (j == i)) [
    | inr other ↦ inl (effect j ∙ rw other)
    | inl e ↦ elim (Option-cases (row d j)) [
      | inl absent ↦ inl (effect j ∙ rw (e, absent) refl)
      | inr (t, held) ↦ inr (
        ap some (sym ((==_iff j i).0 e)),
        (t, f now t, held, effect j ∙ rw (e, held) refl, keeps now t),
      )
    ]
  ]

module _ {D : Type 0} {r : TaskRepository D} {row : D → Uuid → Option Task}
    (contract : IsContract r row) (i : Uuid) (d : D) where
  update_status-Reworks :
      (s : TaskStatus) (summary : String) → Reworks row (some i) d (r.update_status i s summary d).1
  update_status-Reworks s summary = elim (Result-cases (r.update_status i s summary d).0) [
    | inl (tt, e) ↦ rewritten (contract.update_status_ok i s summary d e).1
    | inr (x, e) ↦ elim (contract.update_status_err i s summary d x e).1 [
      | inl same ↦ Reworks-of_Same row (some i) d _ same
      | inr effect ↦ rewritten effect
    ]
  ]
    where
      rewritten :
          Rewrites row i (restatus s summary) d (r.update_status i s summary d).1
          → Reworks row (some i) d (r.update_status i s summary d).1
      rewritten = Reworks-of_Rewrites row i _ d _ (restatus-IsSameTask s summary)

  mark_processing-Reworks : Reworks row (some i) d (r.mark_processing i d).1
  mark_processing-Reworks = elim (Result-cases (r.mark_processing i d).0) [
    | inl (b, e) ↦
        Reworks-of_Rewrites row i _ d _ claim-IsSameTask (contract.mark_processing_ok i d b e).1
    | inr (x, e) ↦ elim (contract.mark_processing_err i d x e).1 [
      | inl same ↦ Reworks-of_Same row (some i) d _ same
      | inr effect ↦ Reworks-of_Rewrites row i _ d _ claim-IsSameTask effect
    ]
  ]

pub Reworks-IsFootprint :
    {D : Type 0} {r : TaskRepository D} {row : D → Uuid → Option Task}
    → IsContract r row
    → IsFootprint r (Reworks row)
Reworks-IsFootprint {row} contract = record {
  history = Reworks-IsHistory row;
  gets = λ n i d. Reworks-of_Same row n d _ (contract.get_reads i d);
  finds_stale = λ n a b limit d. Reworks-of_Same row n d _ (contract.find_stale_reads a b limit d);
  updates_status = λ i s summary d. update_status-Reworks contract i d s summary;
  marks_processing = λ i d. mark_processing-Reworks contract i d;
}
