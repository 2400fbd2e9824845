-- ===== src/Repository/Races.antt =====
-- The claims that the repository over GORM grants, whoever sends them.
use golang_staterpack.Prelude.{◌+◌, ◌≤◌, List, Option}
use golang_staterpack.Model.{Uuid, Task}
use golang_staterpack.Libraries.Gorm.{Gorm, IsTable}
use golang_staterpack.Repository.Defs.{task_repository}
use golang_staterpack.Repository.Refines.{task_repository-IsContract}
use golang_staterpack.Repository.Claims.{
  RepositoryCall, total_wins, total_offers, total_openings, after_all, pending_weight, claims-le,
  openings-le,
}

-- Whatever calls of the repository are interleaved, on tasks that are not deleted (and, for `Update`,
-- have a key and a status), a task is claimed successfully no more often than it became pending, or
-- was pending at the start; a task that is pending in the end counts as one that is yet to be
-- claimed. It becomes pending no more often than calls are made that create it, set its status to
-- pending, or save it with that status.
pub claims_bounded :
    {D : Type 0} (g : Gorm D) (row : D → Uuid → Option Task)
    → IsTable g row
    → (i : Uuid) (cs : List RepositoryCall) (d : D)
    → let r = task_repository g in
      (total_wins r i cs d + pending_weight (row (after_all r cs d) i)
        ≤ pending_weight (row d i) + total_openings r row i cs d)
      × (total_openings r row i cs d ≤ total_offers i cs)
claims_bounded g row table i cs d =
    let contract = task_repository-IsContract g row table in
    (claims-le contract i cs d, openings-le contract i cs d)
