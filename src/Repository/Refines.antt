-- ===== src/Repository/Refines.antt =====
-- The GORM implementation of `TaskRepository` against the contract.
use golang_staterpack.Prelude.{Option}
use golang_staterpack.Model.{Uuid, Task}
use golang_staterpack.Libraries.Gorm.{Gorm, IsTable}
use golang_staterpack.Repository.Defs.{task_repository}
use golang_staterpack.Repository.Contract.{IsContract}
use golang_staterpack.Repository.Reads.{
  get_ok, get_err, get_reads, list_reads, find_stale_ok, find_stale_all, find_stale_reads,
}
use golang_staterpack.Repository.Writes.{
  mark_processing_ok, mark_processing_err, update_status_ok, update_status_err, delete_ok,
  delete_err,
}
use golang_staterpack.Repository.Creates.{create_ok, create_err, update_ok, update_err}

-- Over a database that behaves as documented, the GORM repository meets the contract: each call's
-- answer tells what it did to the rows, where a task that is created or saved is not deleted and one
-- that is saved has a key and a status; a claim succeeds exactly on a pending row, and the stale
-- tasks found are stale, oldest first and no more than the limit.
pub task_repository-IsContract :
    {D : Type 0} (g : Gorm D) (row : D → Uuid → Option Task)
    → IsTable g row
    → IsContract (task_repository g) row
task_repository-IsContract g row laws = record {
  create_ok = create_ok laws;
  create_err = create_err laws;
  update_ok = update_ok laws;
  update_err = update_err laws;
  get_ok = get_ok laws;
  get_err = get_err laws;
  get_reads = get_reads laws;
  list_reads = list_reads laws;
  update_status_ok = update_status_ok laws;
  update_status_err = update_status_err laws;
  delete_ok = delete_ok laws;
  delete_err = delete_err laws;
  mark_processing_ok = mark_processing_ok laws;
  mark_processing_err = mark_processing_err laws;
  find_stale_ok = find_stale_ok laws;
  find_stale_all = find_stale_all laws;
  find_stale_reads = find_stale_reads laws;
}
