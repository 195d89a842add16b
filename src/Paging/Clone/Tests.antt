-- ===== src/Paging/Clone/Tests.antt =====
-- A child of a process with one area.
use fleurix.Base.{◌≡◌, refl, none, [], ◌==◌, arith, if◌then◌else◌}
use fleurix.Base.Loops.{for_range}
use fleurix.Base.Result.{panic}
use fleurix.Samples.{idle_kernel}
use fleurix.Vm.{Vm}
use fleurix.Pm.Alloc.{IsValid, pgalloc_empty}
use fleurix.Paging.{take_page}
use fleurix.Paging.Faults.{Space}
use fleurix.Paging.Clone.{clone_areas, vm_clone}

-- Area 0 is in use, and no frame is free.
abbrev parent : Space
parent = record {
  memory = record {
    frames = record {
      coremap = λ p. record { flag = 0; count = 1; num = p; next = none };
      free = none;
    };
    word = λ f i. 0;
  };
  kernel = idle_kernel;
  vm = record {
    entry = 0;
    area = λ i. record {
      flag = if i == 0 then 0x10 else 0;
      base = 0x8000000;
      size = 0x2000;
      ino = none;
      ioff = i;
    };
  };
  pgd = 1;
}

abbrev unset : Vm
unset = record {
  entry = 0;
  area = λ i. record { flag = 0; base = 0; size = 0; ino = none; ioff = 0 };
}

cloned : (clone_areas parent.vm (idle_kernel, unset)).1.area 0 ≡ parent.vm.area 0
unfolding clone_areas for_range
cloned = refl

no_frame : vm_clone parent unset ≡ panic
unfolding vm_clone take_page
no_frame =
    let none_free : IsValid parent.memory.frames [] = record {
      chain = refl;
      distinct = tt;
      listed = λ p h. absurd (ground arith);
      unlisted = λ p lt h. omega arith;
      numbered = λ p lt. refl;
    } in
    rw (pgalloc_empty parent.memory.frames none_free) refl
