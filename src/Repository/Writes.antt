-- ===== src/Repository/Writes.antt =====
-- The calls of the GORM repository that change a row.
use golang_staterpack.Prelude.{
  ℕ, ap, String, Bool, true, false, ◌≡◌, ◌≢◌, ◌⊎◌, inl, inr, [], ◌∷◌, Option, none, ok, err,
  Result-cases, ◌==◌, arith, sym, ◌∙◌,
}
use golang_staterpack.Errors.{Error, not_found, is, Fault}
use golang_staterpack.Model.{Uuid, TaskStatus, Task, processing}
use golang_staterpack.Libraries.Gorm.{Gorm, IsTable, Same, id_is, set_status, hits}
use golang_staterpack.Repository.Defs.{
  claimable, status_columns, wrapped, mark_processing, update_status, delete,
}
use golang_staterpack.Repository.Contract.{restatus, claim, is_pending, Rewrites, Removes}
use golang_staterpack.Repository.Rows.{
  id_is-Pins, claimable-Pins, none_of_hits, removed-Removes, claim_effect, restatus_effect,
  is_pending-hits,
}

module _ {D : Type 0} {g : Gorm D} {row : D → Uuid → Option Task} (laws : IsTable g row) where
  pub mark_processing-state :
      (i : Uuid) (d : D)
      → (mark_processing g i d).1 ≡ (g.updates (claimable i) (set_status processing ∷ []) d).1
  unfolding mark_processing
  mark_processing-state i d = ground arith

  pub update_status-state :
      (i : Uuid) (s : TaskStatus) (summary : String) (d : D)
      → (update_status g i s summary d).1 ≡ (g.updates (id_is i) (status_columns s summary) d).1
  unfolding update_status
  update_status-state i s summary d = ground arith

  pub delete-state : (i : Uuid) (d : D) → (delete g i d).1 ≡ (g.delete (id_is i) d).1
  unfolding delete
  delete-state i d = ground arith

  pub mark_processing_inv :
      (i : Uuid) (d : D) (b : Bool)
      → (mark_processing g i d).0 ≡ ok b
      → (n : ℕ) × ((g.updates (claimable i) (set_status processing ∷ []) d).0 ≡ ok n)
        × (b ≡ (n == 1))
  unfolding mark_processing
  mark_processing_inv i d b h = ground arith

  pub mark_processing_fault :
      (i : Uuid) (d : D) (e : Error)
      → (mark_processing g i d).0 ≡ err e
      → (x : Fault) × ((g.updates (claimable i) (set_status processing ∷ []) d).0 ≡ err x)
        × (wrapped "mark processing" x ≡ e)
  unfolding mark_processing
  mark_processing_fault i d e h =
      elim (Result-cases (g.updates (claimable i) (set_status processing ∷ []) d).0) [
        | inl (n, q) ↦ absurd (ground arith)
        | inr (x, q) ↦ (x, q, ground arith)
      ]

  pub update_status_inv :
      (i : Uuid) (s : TaskStatus) (summary : String) (d : D)
      → (update_status g i s summary d).0 ≡ ok tt
      → (n : ℕ) × ((g.updates (id_is i) (status_columns s summary) d).0 ≡ ok n) × (n ≢ 0)
  unfolding update_status
  update_status_inv i s summary d h = ground arith

  pub update_status_fault :
      (i : Uuid) (s : TaskStatus) (summary : String) (d : D) (e : Error)
      → (update_status g i s summary d).0 ≡ err e
      → ((x : Fault) × ((g.updates (id_is i) (status_columns s summary) d).0 ≡ err x)
          × (wrapped "update task status" x ≡ e))
        ⊎ ((g.updates (id_is i) (status_columns s summary) d).0 ≡ ok 0)
  unfolding update_status
  update_status_fault i s summary d e h =
      elim (Result-cases (g.updates (id_is i) (status_columns s summary) d).0) [
        | inl (n, q) ↦ inr (ground arith)
        | inr (x, q) ↦ inl (x, q, ground arith)
      ]

  pub mark_processing_ok :
      (i : Uuid) (d : D) (b : Bool)
      → (mark_processing g i d).0 ≡ ok b
      → (b ≡ is_pending (row d i)) × Rewrites row i claim d (mark_processing g i d).1
  mark_processing_ok i d b h =
      let (n, q, e) = mark_processing_inv i d b h in
      let (effect, count) = laws.updates_ok (claimable i) (set_status processing ∷ []) d n q in
      (
        e ∙ ap (λ k. k == 1) (count i (claimable-Pins laws i)) ∙ is_pending-hits laws i d,
        rw mark_processing-state (claim_effect laws i d _ effect),
      )

  pub mark_processing_err :
      (i : Uuid) (d : D) (e : Error)
      → (mark_processing g i d).0 ≡ err e
      → (is e not_found ≡ false)
        × (Same row d (mark_processing g i d).1 ⊎ Rewrites row i claim d (mark_processing g i d).1)
  mark_processing_err i d e h =
      let (x, q, w) = mark_processing_fault i d e h in
      (
        rw (← w),
        rw mark_processing-state
            (elim (laws.updates_err (claimable i) (set_status processing ∷ []) d x q) [
              | inl same ↦ inl same
              | inr effect ↦ inr (claim_effect laws i d _ effect)
            ]),
      )

  pub update_status_ok :
      (i : Uuid) (s : TaskStatus) (summary : String) (d : D)
      → (update_status g i s summary d).0 ≡ ok tt
      → (row d i ≢ none) × Rewrites row i (restatus s summary) d (update_status g i s summary d).1
  update_status_ok i s summary d h =
      let (n, q, e) = update_status_inv i s summary d h in
      let (effect, count) = laws.updates_ok (id_is i) (status_columns s summary) d n q in
      (
        λ gone. e (count i (id_is-Pins laws i) ∙ ap (hits (id_is i)) gone),
        rw update_status-state (restatus_effect laws i s summary d _ effect),
      )

  pub update_status_err :
      (i : Uuid) (s : TaskStatus) (summary : String) (d : D) (e : Error)
      → (update_status g i s summary d).0 ≡ err e
      → (is e not_found ≡ true → row d i ≡ none)
        × (Same row d (update_status g i s summary d).1
            ⊎ Rewrites row i (restatus s summary) d (update_status g i s summary d).1)
  update_status_err i s summary d e h = elim (update_status_fault i s summary d e h) [
    | inl (x, q, w) ↦ (
      λ k. absurd (cc),
      rw update_status-state (elim (laws.updates_err (id_is i) (status_columns s summary) d x q) [
        | inl same ↦ inl same
        | inr effect ↦ inr (restatus_effect laws i s summary d _ effect)
      ]),
    )
    | inr q ↦
        let (effect, count) = laws.updates_ok (id_is i) (status_columns s summary) d 0 q in
        (
          λ k. none_of_hits laws i d (sym (count i (id_is-Pins laws i))),
          rw update_status-state (inr (restatus_effect laws i s summary d _ effect)),
        )
  ]

  pub delete_inv :
      (i : Uuid) (d : D)
      → (delete g i d).0 ≡ ok tt
      → (n : ℕ) × ((g.delete (id_is i) d).0 ≡ ok n) × (n ≢ 0)
  unfolding delete
  delete_inv i d h = ground arith

  pub delete_fault :
      (i : Uuid) (d : D) (e : Error)
      → (delete g i d).0 ≡ err e
      → ((x : Fault) × ((g.delete (id_is i) d).0 ≡ err x) × (wrapped "delete task" x ≡ e))
        ⊎ ((g.delete (id_is i) d).0 ≡ ok 0)
  unfolding delete
  delete_fault i d e h = elim (Result-cases (g.delete (id_is i) d).0) [
    | inl (n, q) ↦ inr (ground arith)
    | inr (x, q) ↦ inl (x, q, ground arith)
  ]

  pub delete_ok :
      (i : Uuid) (d : D)
      → (delete g i d).0 ≡ ok tt
      → (row d i ≢ none) × Removes row i d (delete g i d).1
  delete_ok i d h =
      let (n, q, e) = delete_inv i d h in
      let (effect, count) = laws.delete_ok (id_is i) d n q in
      (
        λ gone. e (count i (id_is-Pins laws i) ∙ ap (hits (id_is i)) gone),
        rw delete-state (removed-Removes laws i d _ effect),
      )

  pub delete_err :
      (i : Uuid) (d : D) (e : Error)
      → (delete g i d).0 ≡ err e
      → (is e not_found ≡ true → row d i ≡ none)
        × (Same row d (delete g i d).1 ⊎ Removes row i d (delete g i d).1)
  delete_err i d e h = elim (delete_fault i d e h) [
    | inl (x, q, w) ↦ (
      λ k. absurd (cc),
      rw delete-state (elim (laws.delete_err (id_is i) d x q) [
        | inl same ↦ inl same
        | inr effect ↦ inr (removed-Removes laws i d _ effect)
      ]),
    )
    | inr q ↦
        let (effect, count) = laws.delete_ok (id_is i) d 0 q in
        (
          λ k. none_of_hits laws i d (sym (count i (id_is-Pins laws i))),
          rw delete-state (inr (removed-Removes laws i d _ effect)),
        )
  ]
