-- ===== src/Repository/Lasting.antt =====
-- The rows of the table over every interleaving of calls.
use golang_staterpack.Prelude.{
  zero, suc, ℕ, ◌<◌, ◌≡◌, ◌⊎◌, inl, inr, refl, List, Option, none, some, Option-cases, arith,
}
use golang_staterpack.Model.{Uuid, Task}
use golang_staterpack.Libraries.Gorm.{Gorm, IsTable}
use golang_staterpack.Repository.Defs.{task_repository}
use golang_staterpack.Repository.Claims.{RepositoryCall, after_all}
use golang_staterpack.Repository.Histories.{removals, creations, savings, Keeps}
use golang_staterpack.Repository.Histories.Kept.{persists}
use golang_staterpack.Repository.Histories.Gone.{stays_gone}

zero_or_pos : (n : ℕ) → (n ≡ 0) ⊎ (0 < n)
zero_or_pos zero = inl refl
zero_or_pos (suc n) = inr (omega arith)

-- Whatever calls of the repository are interleaved, on tasks that are not deleted (and, for `Update`,
-- have a key and a status), a task that is stored is stored after them, with the same key, title,
-- description and time of creation, unless one of them deletes it or saves a task under its key by
-- `Update`; and a key under which there is no task, or no more, has none after them unless one of
-- them creates or saves it. No claim, no change of a status and no search for stale tasks loses a
-- task or brings one back.
pub rows_last :
    {D : Type 0} (g : Gorm D) (row : D → Uuid → Option Task)
    → IsTable g row
    → (i : Uuid) (cs : List RepositoryCall) (d : D)
    → let d' = after_all (task_repository g) cs d in
      ((t : Task) × (row d i ≡ some t)
        × ((0 < removals i cs) ⊎ (0 < savings i cs) ⊎ Keeps t (row d' i)))
      ⊎ (row d i ≡ none) × ((0 < creations i cs) ⊎ (0 < savings i cs) ⊎ (row d' i ≡ none))
rows_last g row table i cs d = elim (zero_or_pos (savings i cs)) [
  | inr saved ↦ elim (Option-cases (row d i)) [
    | inl absent ↦ inr (absent, inr (inl saved))
    | inr (t, held) ↦ inl (t, held, inr (inl saved))
  ]
  | inl unsaved ↦ elim (Option-cases (row d i)) [
    | inl absent ↦ inr (
      absent,
      elim (zero_or_pos (creations i cs)) [
        | inl unmade ↦ inr (inr (stays_gone g row table i cs d unmade unsaved absent))
        | inr made ↦ inl made
      ],
    )
    | inr (t, held) ↦ inl (
      t,
      held,
      elim (zero_or_pos (removals i cs)) [
        | inl spared ↦ inr (inr (persists g row table i cs d t spared unsaved held))
        | inr deleted ↦ inl deleted
      ],
    )
  ]
]
