-- ===== src/Repository/Rows.antt =====
-- What the statements of GORM do to the row of a key.
use golang_staterpack.Prelude.{
  String, true, ◌≡◌, refl, inl, inr, List, [], ◌∷◌, Option, none, some, ==_iff, if◌then◌else◌, ◌==◌,
  arith, Option-cases, ◌∙◌,
}
use mathlib.Core.Option
use golang_staterpack.Model.{Uuid, Time, TaskStatus, Task, processing}
use golang_staterpack.Libraries.Gorm.{
  Gorm, IsTable, Condition, id_is, set_status, Pins, hits, written, Updated, Deleted, Column,
  matches,
}
use golang_staterpack.Repository.Defs.{claimable, status_columns}
use golang_staterpack.Repository.Contract.{restatus, claim, is_pending, Rewrites, Removes}

module _ {D : Type 0} {g : Gorm D} {row : D → Uuid → Option Task} (laws : IsTable g row) where
  pub id_is-Pins : (i : Uuid) → Pins i (id_is i)
  id_is-Pins i t h = ground arith

  pub claimable-Pins : (i : Uuid) → Pins i (claimable i)
  claimable-Pins i t h = ground arith

  pub row_of_ok :
      (i : Uuid) (d : D) (t : Task)
      → (row d t.id ≡ some t) × (matches (id_is i) t ≡ true)
      → row d i ≡ some t
  row_of_ok i d t (e, m) = rw (← (==_iff t.id i).0 m) e

  pub none_of_hits : (i : Uuid) (d : D) → hits (id_is i) (row d i) ≡ 0 → row d i ≡ none
  none_of_hits i d h = elim (Option-cases (row d i)) [
    | inl e ↦ e
    | inr (t, e) ↦ absurd (ground (arith, laws.row_key d i t e))
  ]

  pub written-pinned :
      (c : Condition) (i : Uuid) (d : D) (a : List Column) (f : Time → Task → Task) (now : Time)
      → Pins i c
      → ((t : Task) → t.id ≡ i → written c a now t ≡ f now t)
      → (j : Uuid)
      → Option.map (written c a now) (row d j)
        ≡ (if j == i then Option.map (f now) (row d j) else row d j)
  written-pinned c i d a f now pins same j = elim (Option-cases (row d j)) [
    | inl e ↦ rw e (ground arith)
    | inr (t, e) ↦ rw e (ground (arith, laws.row_key d j t e, same t, pins t))
  ]

  pub Updated-Rewrites :
      (c : Condition) (i : Uuid) (d d' : D) (a : List Column) (f : Time → Task → Task)
      → Pins i c
      → ((now : Time) (t : Task) → t.id ≡ i → written c a now t ≡ f now t)
      → Updated row c a d d'
      → Rewrites row i f d d'
  Updated-Rewrites c i d d' a f pins same (now, effect) =
      (now, λ j. effect j ∙ written-pinned c i d a f now pins (same now) j)

  pub removed-Removes : (i : Uuid) (d d' : D) → Deleted row (id_is i) d d' → Removes row i d d'
  removed-Removes i d d' effect j = effect j ∙ elim (Option-cases (row d j)) [
    | inl e ↦ rw e (ground arith)
    | inr (t, e) ↦ rw e (ground (arith, laws.row_key d j t e))
  ]

  pub claim-written :
      (i : Uuid) (now : Time) (t : Task)
      → t.id ≡ i
      → written (claimable i) (set_status processing ∷ []) now t ≡ claim now t
  claim-written i now t e = ground arith

  pub restatus-written :
      (i : Uuid) (s : TaskStatus) (summary : String) (now : Time) (t : Task)
      → t.id ≡ i
      → written (id_is i) (status_columns s summary) now t ≡ restatus s summary now t
  restatus-written i s summary now t e = ground arith

  pub claim_effect :
      (i : Uuid) (d d' : D)
      → Updated row (claimable i) (set_status processing ∷ []) d d'
      → Rewrites row i claim d d'
  claim_effect i d d' =
      Updated-Rewrites (claimable i) i d d' (set_status processing ∷ []) claim (claimable-Pins i)
        (claim-written i)

  pub restatus_effect :
      (i : Uuid) (s : TaskStatus) (summary : String) (d d' : D)
      → Updated row (id_is i) (status_columns s summary) d d'
      → Rewrites row i (restatus s summary) d d'
  restatus_effect i s summary d d' =
      Updated-Rewrites (id_is i) i d d' (status_columns s summary) (restatus s summary)
        (id_is-Pins i) (restatus-written i s summary)

  pub is_pending-hits :
      (i : Uuid) (d : D) → (hits (claimable i) (row d i) == 1) ≡ is_pending (row d i)
  is_pending-hits i d = elim (Option-cases (row d i)) [
    | inl e ↦ rw e refl
    | inr (t, e) ↦ rw e (ground (arith, laws.row_key d i t e))
  ]
  -- Each call leaves the state of its statement.
