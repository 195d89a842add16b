-- ===== src/Vm/Tests.antt =====
-- The areas of a small program.
use fleurix.Base.{◌≡◌, refl, none, some}
use fleurix.Base.Loops.{find_first, for_range}
use fleurix.Base.Result.{ok}
use fleurix.Samples.{idle_kernel}
use fleurix.Inode.Tests.{bare_store}
use fleurix.Vm.{Vm, Ahead, find_vma, vma_init, vm_renew, vm_clear, clear_area}

abbrev no_areas : Vm
no_areas = record {
  entry = 0;
  area = λ _. record { flag = 0; base = 0; size = 0; ino = none; ioff = 0 };
}

abbrev small_program : Ahead
small_program = record { tsize = 0x1000; dsize = 0x1000; bsize = 0x1000; entry = 0x8000020 }

abbrev renewed : Vm
renewed = (vm_renew idle_kernel no_areas small_program (some 5)).1

finds_areas :
    (find_vma renewed 0x8000020 ≡ some 0)
    × (find_vma renewed 0x8001000 ≡ some 1)
    × (find_vma renewed 0x8002fff ≡ some 2)
    × (find_vma renewed 0x8003000 ≡ some 3)
    × (find_vma renewed 0x80000fff ≡ some 4)
    × (find_vma renewed 0x8004000 ≡ none)
unfolding find_vma vm_renew vma_init find_first
finds_areas = (refl, refl, refl, refl, refl, refl)

clears_nothing :
    vm_clear bare_store (λ i. i) tt idle_kernel no_areas ≡ ok (tt, idle_kernel, no_areas)
unfolding vm_clear clear_area for_range
clears_nothing = refl
