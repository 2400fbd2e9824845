-- ===== src/Repository/Effects.antt =====
-- Consequences of the contract's effects.
use golang_staterpack.Prelude.{
  false, ◌≡◌, refl, ◌∙◌, inl, inr, Option, none, some, Bool-cases, ◌==◌, ==_iff, ◌⊎◌,
}
use mathlib.Core.Option
use golang_staterpack.Model.{Uuid, Time, Task}
use golang_staterpack.Libraries.Gorm.{Same}
use golang_staterpack.Repository.Contract.{Rewrites, claim, is_pending}

unclaimed-row : (now : Time) (o : Option Task) → is_pending o ≡ false → Option.map (claim now) o ≡ o
unclaimed-row now none e = refl
unclaimed-row now (some t) e = rw e

module _ {D : Type 0} (row : D → Uuid → Option Task) (i : Uuid) (d d' : D) where
  -- A claim of a task that is not pending changes no row.
  pub unclaimed-Same : is_pending (row d i) ≡ false → Rewrites row i claim d d' → Same row d d'
  unclaimed-Same e (now, effect) j = elim (Bool-cases (j == i)) [
    | inr ne ↦ effect j ∙ rw ne
    | inl eq ↦ effect j ∙ rw eq (unclaimed-row now (row d j) (rw ((==_iff j i).0 eq) e))
  ]

  -- So it is whether the statement was run or not.
  pub unclaimed-Same_either :
      is_pending (row d i) ≡ false → (Same row d d' ⊎ Rewrites row i claim d d') → Same row d d'
  unclaimed-Same_either e (inl same) = same
  unclaimed-Same_either e (inr effect) = unclaimed-Same e effect
