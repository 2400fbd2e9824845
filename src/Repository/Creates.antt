-- ===== src/Repository/Creates.antt =====
-- The creation and the replacement of a row over GORM.
use golang_staterpack.Prelude.{
  false, ◌≡◌, ◌≢◌, ◌⊎◌, inl, inr, Option, none, ok, err, Result-cases, arith, eq_iff, sym, subst,
}
use golang_staterpack.Errors.{Error, not_found, is, Fault}
use golang_staterpack.Model.{Uuid, Task, pending, before_create}
use golang_staterpack.Libraries.Gorm.{Gorm, IsTable, Same, Inserted, Saved, IsRetimed, IsSavable}
use golang_staterpack.Repository.Defs.{wrapped, create, update}

module _ {D : Type 0} {g : Gorm D} {row : D → Uuid → Option Task} (laws : IsTable g row) where
  pub before_create-live :
      (fresh : Uuid) (t : Task) → t.deleted_at ≡ none → (before_create fresh t).deleted_at ≡ none
  unfolding before_create
  before_create-live fresh t h = ground arith

  pub before_create-status : (fresh : Uuid) (t : Task) → (before_create fresh t).status ≢ ""
  unfolding before_create
  before_create-status fresh t = ground (arith, eq_iff t.status "", eq_iff pending "")

  pub create_ok :
      (fresh : Uuid) (t t' : Task) (d : D)
      → t.deleted_at ≡ none
      → (create g fresh t d).0 ≡ ok t'
      → let d' = (create g fresh t d).1 in
        (row d t'.id ≡ none) × Saved row t' d d' × IsRetimed (before_create fresh t) t'
  unfolding create
  create_ok fresh t t' d live h =
      let (free, effect, (c, u, e)) =
        laws.insert_ok (before_create fresh t) t' d (before_create-live fresh t live)
          (before_create-status fresh t) (ground arith) in
      (rw e free, effect, (c, u, e))

  pub create_fault :
      (fresh : Uuid) (t : Task) (d : D) (e : Error)
      → (create g fresh t d).0 ≡ err e
      → (x : Fault) × ((g.insert (before_create fresh t) d).0 ≡ err x)
        × (wrapped "create task" x ≡ e)
  unfolding create
  create_fault fresh t d e h = elim (Result-cases (g.insert (before_create fresh t) d).0) [
    | inl (n, q) ↦ absurd (ground arith)
    | inr (x, q) ↦ (x, q, ground arith)
  ]

  pub create_err :
      (fresh : Uuid) (t : Task) (d : D) (e : Error)
      → (create g fresh t d).0 ≡ err e
      → let d' = (create g fresh t d).1 in
        (is e not_found ≡ false)
        × (Same row d d'
            ⊎ ((t' : Task) × (t'.id ≡ (before_create fresh t).id)
                × (row d (before_create fresh t).id ≡ none)
                × Inserted row t' d d'))
  unfolding create
  create_err fresh t d e h =
      let (x, q, w) = create_fault fresh t d e h in
      (rw (← w), laws.insert_err (before_create fresh t) d x q)

  update-state : (t : Task) (d : D) → (update g t d).1 ≡ (g.save t d).1
  unfolding update
  update-state t d = ground arith

  pub update_ok :
      (t : Task) (d : D) → IsSavable t → (update g t d).0 ≡ ok tt → Saved row t d (update g t d).1
  unfolding update
  update_ok t d savable h =
      let done : (g.save t d).0 ≡ ok tt = ground arith in
      subst (Saved row t d) (sym (update-state t d)) (laws.save_ok t d savable done)

  update_fault :
      (t : Task) (d : D) (e : Error)
      → (update g t d).0 ≡ err e
      → (x : Fault) × ((g.save t d).0 ≡ err x) × (wrapped "update task" x ≡ e)
  unfolding update
  update_fault t d e h = elim (Result-cases (g.save t d).0) [
    | inl (n, q) ↦ absurd (ground arith)
    | inr (x, q) ↦ (x, q, ground arith)
  ]

  pub update_err :
      (t : Task) (d : D) (e : Error)
      → IsSavable t
      → (update g t d).0 ≡ err e
      → let d' = (update g t d).1 in (is e not_found ≡ false) × (Same row d d' ⊎ Saved row t d d')
  update_err t d e savable h =
      let (x, q, w) = update_fault t d e h in
      (
        rw (← w),
        subst (λ d'. Same row d d' ⊎ Saved row t d d') (sym (update-state t d))
            (laws.save_err t d x savable q),
      )
