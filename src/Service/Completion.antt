-- ===== src/Service/Completion.antt =====
-- What `ApplySummary` does to the database.
use golang_staterpack.Prelude.{
  String, ◌≡◌, sym, ◌∙◌, ◌⊎◌, inl, inr, Option, some, ok, Result-cases, Option-cases, arith,
  ==_refl,
}
use golang_staterpack.Model.{Uuid, Time, Task, completed}
use golang_staterpack.Repository.Contract.{IsContract, restatus}
use golang_staterpack.Libraries.Gorm.{Same}
use golang_staterpack.Service.Defs.{TaskService, World, apply_summary, cache_set, key}

module _ {D C B : Type 0} (s : TaskService D C B) where
  cache_set_frame :
      (k : String) (t : Task) (w : World D C B)
      → ((cache_set s k t w).0 ≡ ok tt)
        × ((cache_set s k t w).1.db ≡ w.db)
        × ((cache_set s k t w).1.broker ≡ w.broker)
  unfolding cache_set
  cache_set_frame k t w = (ground arith, ground arith, ground arith)

module _ {D C B : Type 0} (s : TaskService D C B) (i : Uuid) (summary : String)
    (w : World D C B) where
  -- The world after the status has been written.
  abbrev updated : World D C B
  updated = record w { db = (s.repo.update_status i completed summary w.db).1 }

  abbrev reread : World D C B
  reread = record w { db = (s.repo.get_by_id i updated.db).1 }

  -- Only the first of its two statements decides about the result.
  pub apply_summary-result :
      (apply_summary s i summary w).0 ≡ (s.repo.update_status i completed summary w.db).0
  unfolding apply_summary
  apply_summary-result = elim (Result-cases (s.repo.update_status i completed summary w.db).0) [
    | inr (e, q) ↦ ground arith
    | inl (tt, q) ↦ elim (Result-cases (s.repo.get_by_id i updated.db).0) [
      | inl (t, r) ↦ ground (arith, (cache_set_frame s (key s i) t reread).0)
      | inr (e, r) ↦ ground arith
    ]
  ]

  apply_summary-db :
      ((apply_summary s i summary w).1.db ≡ updated.db)
      ⊎ ((apply_summary s i summary w).1.db ≡ reread.db)
  unfolding apply_summary
  apply_summary-db = elim (Result-cases (s.repo.update_status i completed summary w.db).0) [
    | inr (e, q) ↦ inl (ground arith)
    | inl (tt, q) ↦ elim (Result-cases (s.repo.get_by_id i updated.db).0) [
      | inl (t, r) ↦ inr (ground (arith, (cache_set_frame s (key s i) t reread).1))
      | inr (e, r) ↦ inr (ground arith)
    ]
  ]

  module _ (row : D → Uuid → Option Task) (contract : IsContract s.repo row) where
    -- The rows are those after the first statement.
    pub apply_summary-Same : Same row updated.db (apply_summary s i summary w).1.db
    apply_summary-Same j = elim apply_summary-db [
      | inl e ↦ rw e
      | inr e ↦ rw e (contract.get_reads i updated.db j)
    ]

    -- A summary that is applied completes the row.
    pub row-apply_summary :
        (apply_summary s i summary w).0 ≡ ok tt
        → (u : Task) × (row w.db i ≡ some u)
          × ((now : Time) × (row (apply_summary s i summary w).1.db i
                ≡ some (restatus completed summary now u)))
    row-apply_summary h =
        let (held, (now, effect)) =
          contract.update_status_ok i completed summary w.db (sym apply_summary-result ∙ h) in
        elim (Option-cases (row w.db i)) [
          | inl gone ↦ absurd (held gone)
          | inr (u, e) ↦ (u, e, (now, apply_summary-Same i ∙ rw (effect i, ==_refl i, e)))
        ]
