-- ===== src/Repository/Histories.antt =====
-- What becomes of one task over every interleaving of the calls that all replicas make.
pub mod Kept
pub mod Gone
use golang_staterpack.Prelude.{
  ℕ, ◌+◌, zero, ◌≡◌, refl, sym, ap, ◌∙◌, ◌≢◌, inl, inr, ◌⊎◌, Bool, true, false, String, List, [],
  ◌∷◌, Option, none, some, Result, ok, err, Result-cases, Bool-cases, ◌==◌, arith, ==_iff, ==_refl,
}
use mathlib.Core.Option
use golang_staterpack.Model.{Uuid, Time, Task, TaskStatus, before_create}
use golang_staterpack.Libraries.Gorm.{Same, Inserted, Gorm, IsTable}
use golang_staterpack.Repository.Defs.{TaskRepository, task_repository}
use golang_staterpack.Repository.Contract.{IsContract, restatus, claim, Rewrites, Removes}
use golang_staterpack.Repository.Refines.{task_repository-IsContract}
use golang_staterpack.Repository.Claims.{RepositoryCall, after, after_all, one_if}

-- How many calls delete task `i`, and how many create a task with that key.
unfoldable pub removals : Uuid → List RepositoryCall → ℕ
removals i [] = 0
removals i (RepositoryCall.deletes j ∷ cs) = one_if (j == i) + removals i cs
removals i (_ ∷ cs) = removals i cs

unfoldable pub creations : Uuid → List RepositoryCall → ℕ
creations i [] = 0
creations i (RepositoryCall.creates fresh t live ∷ cs) =
    one_if ((before_create fresh t).id == i) + creations i cs
creations i (_ ∷ cs) = creations i cs

-- How many calls save a task under that key by `Update`.
unfoldable pub savings : Uuid → List RepositoryCall → ℕ
savings i [] = 0
savings i (RepositoryCall.saves t savable ∷ cs) = one_if (t.id == i) + savings i cs
savings i (_ ∷ cs) = savings i cs

-- The fields that `Create` has written and nothing else but `Update` writes.
abbrev pub IsSameTask : Task → Task → Type 0
IsSameTask t u =
    (u.id ≡ t.id)
    × (u.title ≡ t.title)
    × (u.description ≡ t.description)
    × (u.created_at ≡ t.created_at)
    × (u.deleted_at ≡ t.deleted_at)

abbrev pub Keeps : Task → Option Task → Type 0
Keeps t o = (u : Task) × (o ≡ some u) × IsSameTask t u

pub IsSameTask-refl : (t : Task) → IsSameTask t t
IsSameTask-refl t = (refl, refl, refl, refl, refl)

pub IsSameTask-trans : (t u v : Task) → IsSameTask t u → IsSameTask u v → IsSameTask t v
IsSameTask-trans t u v a b = (cc, cc, cc, cc, cc)

pub removals-cons :
    (i : Uuid) (c : RepositoryCall) (cs : List RepositoryCall)
    → removals i (c ∷ cs) ≡ removals i (c ∷ []) + removals i cs
unfolding removals
removals-cons i (RepositoryCall.deletes j) cs = omega arith
removals-cons i (RepositoryCall.creates fresh u live) cs = omega arith
removals-cons i _ cs = omega arith

pub creations-cons :
    (i : Uuid) (c : RepositoryCall) (cs : List RepositoryCall)
    → creations i (c ∷ cs) ≡ creations i (c ∷ []) + creations i cs
unfolding creations
creations-cons i (RepositoryCall.creates fresh u live) cs = omega arith
creations-cons i (RepositoryCall.deletes j) cs = omega arith
creations-cons i _ cs = omega arith

pub savings-cons :
    (i : Uuid) (c : RepositoryCall) (cs : List RepositoryCall)
    → savings i (c ∷ cs) ≡ savings i (c ∷ []) + savings i cs
unfolding savings
savings-cons i (RepositoryCall.saves t savable) cs = omega arith
savings-cons i _ cs = omega arith
