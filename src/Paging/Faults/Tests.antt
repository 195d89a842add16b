-- ===== src/Paging/Faults/Tests.antt =====
-- A fault of a user on a present page that is only read.
use fleurix.Base.{◌≡◌, refl, none}
use fleurix.Base.Result.{ok}
use fleurix.Samples.{idle_kernel}
use fleurix.Vm.{Vma}
use fleurix.Paging.Faults.{Space, done, segv, do_pgfault}

abbrev nowhere : Vma
nowhere = record { flag = 0; base = 0; size = 0; ino = none; ioff = 0 }

abbrev blank : Space
blank = record {
  memory = record {
    frames = record {
      coremap = λ p. record { flag = 0; count = 1; num = p; next = none };
      free = none;
    };
    word = λ f i. 0;
  };
  kernel = idle_kernel;
  vm = record { entry = 0; area = λ i. nowhere };
  pgd = 1;
}

posts_segv :
    do_pgfault (λ i. i) (λ k i o w. (k, w)) nowhere blank 0x9000000 5 ≡ ok (segv blank, done)
unfolding do_pgfault
posts_segv = refl
