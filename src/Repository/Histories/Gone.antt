-- ===== src/Repository/Histories/Gone.antt =====
-- The tasks that have left the table.
use golang_staterpack.Prelude.{
  ◌≡◌, ap, ◌∙◌, inl, inr, false, String, List, [], ◌∷◌, Option, none, Result-cases, ◌==◌, arith,
}
use golang_staterpack.Model.{Uuid, Time, Task, TaskStatus, before_create}
use golang_staterpack.Libraries.Gorm.{Inserted, Saved, IsSavable, Gorm, IsTable}
use golang_staterpack.Repository.Defs.{TaskRepository, task_repository}
use golang_staterpack.Repository.Contract.{IsContract, Rewrites, Removes}
use golang_staterpack.Repository.Refines.{task_repository-IsContract}
use golang_staterpack.Repository.Claims.{RepositoryCall, after, after_all}
use golang_staterpack.Repository.Histories.{creations, creations-cons, savings, savings-cons}

module _ {D : Type 0} (row : D → Uuid → Option Task) (i : Uuid) (d d' : D) where
  none-of_Rewrites :
      (j : Uuid) (f : Time → Task → Task) → row d i ≡ none → Rewrites row j f d d' → row d' i ≡ none
  none-of_Rewrites j f h (now, effect) = ground (arith, effect i)

  none-of_Removes : (j : Uuid) → row d i ≡ none → Removes row j d d' → row d' i ≡ none
  none-of_Removes j h effect = ground (arith, effect i)

  none-of_Inserted :
      (u : Task) → (u.id == i) ≡ false → row d i ≡ none → Inserted row u d d' → row d' i ≡ none
  none-of_Inserted u other h effect = ground (arith, effect i)

module _ {D : Type 0} {r : TaskRepository D} {row : D → Uuid → Option Task}
    (contract : IsContract r row) (i : Uuid) (d : D) where
  none-create :
      (fresh : Uuid) (u : Task)
      → u.deleted_at ≡ none
      → ((before_create fresh u).id == i) ≡ false
      → row d i ≡ none
      → row (r.create fresh u d).1 i ≡ none
  none-create fresh u live other h = elim (Result-cases (r.create fresh u d).0) [
    | inl (t', e) ↦
        let (_, (kept, (_, _, same), effect), (_, _, same')) =
          contract.create_ok fresh u t' d live e in
        let key : kept.id ≡ t'.id = ap (λ (x : Task). x.id) same in
        let key' : t'.id ≡ (before_create fresh u).id = ap (λ (x : Task). x.id) same' in
        none-of_Inserted row i d _ kept (rw (key, key') other) h effect
    | inr (x, e) ↦ elim (contract.create_err fresh u d x e).1 [
      | inl same ↦ same i ∙ h
      | inr (t', key, _, effect) ↦ none-of_Inserted row i d _ t' (rw key other) h effect
    ]
  ]

  none-update :
      (j : Uuid) (s : TaskStatus) (summary : String)
      → row d i ≡ none
      → row (r.update_status j s summary d).1 i ≡ none
  none-update j s summary h = elim (Result-cases (r.update_status j s summary d).0) [
    | inl (tt, e) ↦ none-of_Rewrites row i d _ j _ h (contract.update_status_ok j s summary d e).1
    | inr (x, e) ↦ elim (contract.update_status_err j s summary d x e).1 [
      | inl same ↦ same i ∙ h
      | inr effect ↦ none-of_Rewrites row i d _ j _ h effect
    ]
  ]

  none-mark : (j : Uuid) → row d i ≡ none → row (r.mark_processing j d).1 i ≡ none
  none-mark j h = elim (Result-cases (r.mark_processing j d).0) [
    | inl (b, e) ↦ none-of_Rewrites row i d _ j _ h (contract.mark_processing_ok j d b e).1
    | inr (x, e) ↦ elim (contract.mark_processing_err j d x e).1 [
      | inl same ↦ same i ∙ h
      | inr effect ↦ none-of_Rewrites row i d _ j _ h effect
    ]
  ]

  none-delete : (j : Uuid) → row d i ≡ none → row (r.delete j d).1 i ≡ none
  none-delete j h = elim (Result-cases (r.delete j d).0) [
    | inl (tt, e) ↦ none-of_Removes row i d _ j h (contract.delete_ok j d e).1
    | inr (x, e) ↦ elim (contract.delete_err j d x e).1 [
      | inl same ↦ same i ∙ h
      | inr effect ↦ none-of_Removes row i d _ j h effect
    ]
  ]

  none-save :
      (u : Task)
      → IsSavable u
      → (u.id == i) ≡ false
      → row d i ≡ none
      → row (r.update u d).1 i ≡ none
  none-save u savable other h = elim (Result-cases (r.update u d).0) [
    | inl (tt, e) ↦ saved (contract.update_ok u d savable e)
    | inr (x, e) ↦ elim (contract.update_err u d x savable e).1 [
      | inl same ↦ same i ∙ h
      | inr effect ↦ saved effect
    ]
  ]
    where
      saved : Saved row u d (r.update u d).1 → row (r.update u d).1 i ≡ none
      saved (v, (_, _, same), effect) =
          let key : v.id ≡ u.id = ap (λ (x : Task). x.id) same in
          none-of_Inserted row i d _ v (rw key other) h effect

  none-after :
      (c : RepositoryCall)
      → creations i (c ∷ []) ≡ 0
      → savings i (c ∷ []) ≡ 0
      → row d i ≡ none
      → row (after r c d) i ≡ none
  unfolding creations savings after
  none-after (RepositoryCall.creates fresh u live) unmade unsaved h =
      none-create fresh u live (ground arith) h
  none-after (RepositoryCall.saves u savable) unmade unsaved h =
      none-save u savable (ground arith) h
  none-after (RepositoryCall.gets j) unmade unsaved h = contract.get_reads j d i ∙ h
  none-after (RepositoryCall.lists limit offset) unmade unsaved h =
      contract.list_reads limit offset d i ∙ h
  none-after (RepositoryCall.updates_status j s summary) unmade unsaved h =
      none-update j s summary h
  none-after (RepositoryCall.deletes j) unmade unsaved h = none-delete j h
  none-after (RepositoryCall.marks_processing j) unmade unsaved h = none-mark j h
  none-after (RepositoryCall.finds_stale pb qb limit) unmade unsaved h =
      contract.find_stale_reads pb qb limit d i ∙ h

none-after_all :
    {D : Type 0} {r : TaskRepository D} {row : D → Uuid → Option Task}
    → IsContract r row
    → (i : Uuid) (cs : List RepositoryCall) (d : D) → creations i cs ≡ 0
    → savings i cs ≡ 0
    → row d i ≡ none
    → row (after_all r cs d) i ≡ none
unfolding after_all
none-after_all contract i [] d unmade unsaved h = h
none-after_all {r} contract i (c ∷ cs) d unmade unsaved h =
    let sum = creations-cons i c cs in
    let saved = savings-cons i c cs in
    none-after_all contract i cs (after r c d) (omega arith) (omega arith)
      (none-after contract i d c (omega arith) (omega arith) h)

-- The repository over GORM.
pub stays_gone :
    {D : Type 0} (g : Gorm D) (row : D → Uuid → Option Task)
    → IsTable g row
    → (i : Uuid) (cs : List RepositoryCall) (d : D) → creations i cs ≡ 0
    → savings i cs ≡ 0
    → row d i ≡ none
    → row (after_all (task_repository g) cs d) i ≡ none
stays_gone g row table = none-after_all (task_repository-IsContract g row table)
