-- ===== src/Repository/Histories/Kept.antt =====
-- The tasks that stay in the table.
use golang_staterpack.Prelude.{
  ◌≡◌, refl, ap, ◌∙◌, inl, inr, false, String, List, [], ◌∷◌, Option, none, some, Result-cases,
  Bool-cases, ◌==◌, arith, ==_iff,
}
use golang_staterpack.Model.{Uuid, Time, Task, TaskStatus}
use golang_staterpack.Libraries.Gorm.{Same, Inserted, Saved, IsSavable, Gorm, IsTable}
use golang_staterpack.Repository.Defs.{TaskRepository, task_repository}
use golang_staterpack.Repository.Contract.{IsContract, restatus, claim, Rewrites, Removes}
use golang_staterpack.Repository.Refines.{task_repository-IsContract}
use golang_staterpack.Repository.Claims.{RepositoryCall, after, after_all}
use golang_staterpack.Repository.Histories.{
  removals, removals-cons, savings, savings-cons, IsSameTask, Keeps, IsSameTask-refl,
  IsSameTask-trans,
}

pub restatus-IsSameTask :
    (s : TaskStatus) (summary : String) (now : Time) (t : Task)
    → IsSameTask t (restatus s summary now t)
restatus-IsSameTask s summary now t = ground arith

pub claim-IsSameTask : (now : Time) (t : Task) → IsSameTask t (claim now t)
claim-IsSameTask now t = ground arith

module _ {D : Type 0} (row : D → Uuid → Option Task) (i : Uuid) (d d' : D) where
  Keeps-of_Same : (t : Task) → row d i ≡ some t → Same row d d' → Keeps t (row d' i)
  Keeps-of_Same t h same = (t, same i ∙ h, IsSameTask-refl t)

  Keeps-of_Rewrites :
      (j : Uuid) (f : Time → Task → Task) (t : Task)
      → ((now : Time) (u : Task) → IsSameTask u (f now u))
      → row d i ≡ some t
      → Rewrites row j f d d'
      → Keeps t (row d' i)
  Keeps-of_Rewrites j f t keeps h (now, effect) = elim (Bool-cases (i == j)) [
    | inl e ↦ (f now t, effect i ∙ rw (e, h) refl, keeps now t)
    | inr e ↦ (t, effect i ∙ rw (e, h) refl, IsSameTask-refl t)
  ]

  Keeps-of_Removes :
      (j : Uuid) (t : Task)
      → (j == i) ≡ false
      → row d i ≡ some t
      → Removes row j d d'
      → Keeps t (row d' i)
  Keeps-of_Removes j t other h effect = (t, ground (arith, effect i), IsSameTask-refl t)

  -- A key that is taken is not inserted.
  Keeps-of_Inserted :
      (t u : Task) → row d i ≡ some t → row d u.id ≡ none → Inserted row u d d' → Keeps t (row d' i)
  Keeps-of_Inserted t u h free effect = elim (Bool-cases (i == u.id)) [
    | inl e ↦ let same : row d u.id ≡ some t = rw (← (==_iff i u.id).0 e) h in absurd (cc)
    | inr e ↦ (t, effect i ∙ rw e h, IsSameTask-refl t)
  ]

module _ {D : Type 0} {r : TaskRepository D} {row : D → Uuid → Option Task}
    (contract : IsContract r row) (i : Uuid) (d : D) where
  Keeps-create :
      (fresh : Uuid) (u t : Task)
      → u.deleted_at ≡ none
      → row d i ≡ some t
      → Keeps t (row (r.create fresh u d).1 i)
  Keeps-create fresh u t live h = elim (Result-cases (r.create fresh u d).0) [
    | inl (t', e) ↦
        let (free, (kept, (_, _, same), effect), _) = contract.create_ok fresh u t' d live e in
        let key : kept.id ≡ t'.id = ap (λ (x : Task). x.id) same in
        Keeps-of_Inserted row i d _ t kept h (rw key free) effect
    | inr (x, e) ↦ elim (contract.create_err fresh u d x e).1 [
      | inl same ↦ Keeps-of_Same row i d _ t h same
      | inr (t', key, free, effect) ↦ Keeps-of_Inserted row i d _ t t' h (rw key free) effect
    ]
  ]

  Keeps-update :
      (j : Uuid) (s : TaskStatus) (summary : String) (t : Task)
      → row d i ≡ some t
      → Keeps t (row (r.update_status j s summary d).1 i)
  Keeps-update j s summary t h = elim (Result-cases (r.update_status j s summary d).0) [
    | inl (tt, e) ↦ rewritten (contract.update_status_ok j s summary d e).1
    | inr (x, e) ↦ elim (contract.update_status_err j s summary d x e).1 [
      | inl same ↦ Keeps-of_Same row i d _ t h same
      | inr effect ↦ rewritten effect
    ]
  ]
    where
      rewritten :
          Rewrites row j (restatus s summary) d (r.update_status j s summary d).1
          → Keeps t (row (r.update_status j s summary d).1 i)
      rewritten = Keeps-of_Rewrites row i d _ j _ t (restatus-IsSameTask s summary) h

  Keeps-mark : (j : Uuid) (t : Task) → row d i ≡ some t → Keeps t (row (r.mark_processing j d).1 i)
  Keeps-mark j t h = elim (Result-cases (r.mark_processing j d).0) [
    | inl (b, e) ↦
        Keeps-of_Rewrites row i d _ j _ t claim-IsSameTask h (contract.mark_processing_ok j d b e).1
    | inr (x, e) ↦ elim (contract.mark_processing_err j d x e).1 [
      | inl same ↦ Keeps-of_Same row i d _ t h same
      | inr effect ↦ Keeps-of_Rewrites row i d _ j _ t claim-IsSameTask h effect
    ]
  ]

  Keeps-delete :
      (j : Uuid) (t : Task) → (j == i) ≡ false → row d i ≡ some t → Keeps t (row (r.delete j d).1 i)
  Keeps-delete j t other h = elim (Result-cases (r.delete j d).0) [
    | inl (tt, e) ↦ Keeps-of_Removes row i d _ j t other h (contract.delete_ok j d e).1
    | inr (x, e) ↦ elim (contract.delete_err j d x e).1 [
      | inl same ↦ Keeps-of_Same row i d _ t h same
      | inr effect ↦ Keeps-of_Removes row i d _ j t other h effect
    ]
  ]

  Keeps-save :
      (u t : Task)
      → IsSavable u
      → (u.id == i) ≡ false
      → row d i ≡ some t
      → Keeps t (row (r.update u d).1 i)
  Keeps-save u t savable other h = elim (Result-cases (r.update u d).0) [
    | inl (tt, e) ↦ saved (contract.update_ok u d savable e)
    | inr (x, e) ↦ elim (contract.update_err u d x savable e).1 [
      | inl same ↦ Keeps-of_Same row i d _ t h same
      | inr effect ↦ saved effect
    ]
  ]
    where
      saved : Saved row u d (r.update u d).1 → Keeps t (row (r.update u d).1 i)
      saved (v, (_, _, same), effect) =
          let key : v.id ≡ u.id = ap (λ (x : Task). x.id) same in
          let apart : (v.id == i) ≡ false = rw key other in
          (t, ground (arith, effect i), IsSameTask-refl t)

  Keeps-after :
      (c : RepositoryCall) (t : Task)
      → removals i (c ∷ []) ≡ 0
      → savings i (c ∷ []) ≡ 0
      → row d i ≡ some t
      → Keeps t (row (after r c d) i)
  unfolding removals savings after
  Keeps-after (RepositoryCall.creates fresh u live) t spared unsaved h =
      Keeps-create fresh u t live h
  Keeps-after (RepositoryCall.saves u savable) t spared unsaved h =
      Keeps-save u t savable (ground arith) h
  Keeps-after (RepositoryCall.gets j) t spared unsaved h =
      Keeps-of_Same row i d _ t h (contract.get_reads j d)
  Keeps-after (RepositoryCall.lists limit offset) t spared unsaved h =
      Keeps-of_Same row i d _ t h (contract.list_reads limit offset d)
  Keeps-after (RepositoryCall.updates_status j s summary) t spared unsaved h =
      Keeps-update j s summary t h
  Keeps-after (RepositoryCall.deletes j) t spared unsaved h = Keeps-delete j t (ground arith) h
  Keeps-after (RepositoryCall.marks_processing j) t spared unsaved h = Keeps-mark j t h
  Keeps-after (RepositoryCall.finds_stale pb qb limit) t spared unsaved h =
      Keeps-of_Same row i d _ t h (contract.find_stale_reads pb qb limit d)

Keeps-after_all :
    {D : Type 0} {r : TaskRepository D} {row : D → Uuid → Option Task}
    → IsContract r row
    → (i : Uuid) (cs : List RepositoryCall) (d : D) (t : Task) → removals i cs ≡ 0
    → savings i cs ≡ 0
    → row d i ≡ some t
    → Keeps t (row (after_all r cs d) i)
unfolding after_all
Keeps-after_all contract i [] d t spared unsaved h = (t, h, IsSameTask-refl t)
Keeps-after_all {r} contract i (c ∷ cs) d t spared unsaved h =
    let sum = removals-cons i c cs in
    let saved = savings-cons i c cs in
    let (u, held, a) = Keeps-after contract i d c t (omega arith) (omega arith) h in
    let (v, kept, b) =
      Keeps-after_all contract i cs (after r c d) u (omega arith) (omega arith) held in
    (v, kept, IsSameTask-trans t u v a b)

-- The repository over GORM.
pub persists :
    {D : Type 0} (g : Gorm D) (row : D → Uuid → Option Task)
    → IsTable g row
    → (i : Uuid) (cs : List RepositoryCall) (d : D) (t : Task) → removals i cs ≡ 0
    → savings i cs ≡ 0
    → row d i ≡ some t
    → Keeps t (row (after_all (task_repository g) cs d) i)
persists g row table = Keeps-after_all (task_repository-IsContract g row table)
