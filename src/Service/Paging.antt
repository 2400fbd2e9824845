-- ===== src/Service/Paging.antt =====
-- What `List` asks of the repository.
use golang_staterpack.Prelude.{
  ℤ, pos, ◌≤ℤ◌, ◌<ℤ◌, ◌||◌, ◌≡◌, refl, if◌then◌else◌, leb_ℤ, ltb_ℤ, arith,
}
use golang_staterpack.Service.Defs.{TaskService, World, list, on_db}

abbrev pub clamped : ℤ → ℤ
clamped limit = if leb_ℤ limit (pos 0) || ltb_ℤ (pos 100) limit then pos 20 else limit

pub clamped_bounds : (limit : ℤ) → (pos 0 <ℤ clamped limit) × (clamped limit ≤ℤ pos 100)
clamped_bounds limit = (ground arith, ground arith)

abbrev pub from_start : ℤ → ℤ
from_start offset = if ltb_ℤ offset (pos 0) then pos 0 else offset

pub from_start_bound : (offset : ℤ) → pos 0 ≤ℤ from_start offset
from_start_bound offset = ground arith

-- The page that `List` reads.
pub list-clamped :
    {D C B : Type 0} (s : TaskService D C B) (limit offset : ℤ) (w : World D C B)
    → list s limit offset w ≡ on_db (s.repo.list (clamped limit) (from_start offset)) w
unfolding list
list-clamped s limit offset w = refl

-- Whatever a client asks for, `List` reads one page of 1 to 100 tasks from the repository, at an
-- offset that is not negative.
pub list_bounded :
    {D C B : Type 0} (s : TaskService D C B) (limit offset : ℤ) (w : World D C B)
    → (size : ℤ) × (from : ℤ) × (pos 0 <ℤ size)
      × (size ≤ℤ pos 100)
      × (pos 0 ≤ℤ from)
      × (list s limit offset w ≡ on_db (s.repo.list size from) w)
unfolding list
list_bounded s limit offset w =
    let (low, high) = clamped_bounds limit in
    (clamped limit, from_start offset, low, high, from_start_bound offset, refl)
