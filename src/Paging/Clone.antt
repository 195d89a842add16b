-- ===== src/Paging/Clone.antt =====
-- vm_clone of src/mm/vm.c: the address space of a child.
mod Tests
use fleurix.Base.{
  ℕ, zero, suc, ◌+◌, Bool, true, false, not, Option, none, some, ◌==◌, if◌then◌else◌,
}
use fleurix.Base.Word.{u16}
use fleurix.Base.Loops.{for_range, update}
use fleurix.Base.Result.{Result, ok, panic, ◌>>=◌}
use fleurix.Kernel.{Kernel, set_inode}
use fleurix.Vm.{Vma, Vm, nvma}
use fleurix.Paging.{Memory, num_of, take_page, pgd_init, pt_copy}
use fleurix.Paging.Faults.{Space}

-- `v_ino->i_count++`, for an area with an inode.
add_ref : Kernel → Option ℕ → Kernel
add_ref k none = k
add_ref k (some i) = set_inode k i (record (k.inode i) { count = u16 ((k.inode i).count + 1) })

-- The round for one area of the parent; an unused one leaves that of the child.
clone_area : Vm → ℕ → Kernel × Vm → Kernel × Vm
unfolding add_ref
clone_area from i (k, to) =
    let v = from.area i in
    if v.flag == 0 then (k, to) else (add_ref k v.ino, record to { area = update to.area i v })

pub clone_areas : Vm → Kernel × Vm → Kernel × Vm
unfolding clone_area
clone_areas from s = for_range nvma 0 (clone_area from) s

-- The space of the parent, and the areas and the directory of the child.
pub vm_clone : Space → Vm → Result (Space × Vm × ℕ)
unfolding clone_areas pt_copy
vm_clone s to = do
  (p, m) ← take_page s.memory
  let pgd = num_of m p
  let (k, to1) = clone_areas s.vm (s.kernel, to)
  m1 ← pt_copy (pgd_init m pgd) pgd s.pgd
  ok (record s { memory = m1; kernel = k }, to1, pgd)
