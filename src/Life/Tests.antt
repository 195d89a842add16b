-- ===== src/Life/Tests.antt =====
-- A child of the running process that has exited.
use fleurix.Base.{◌≡◌, refl, true}
use fleurix.Base.Loops.{for_range, find_first}
use fleurix.Base.Word.{pos, minus_one}
use fleurix.Base.Result.{ok, panic}
use fleurix.Kernel.{Kernel, set_proc}
use fleurix.Samples.{idle_kernel, process}
use fleurix.Inode.{iput}
use fleurix.Inode.Tests.{bare_store}
use fleurix.Life.{find_pid, do_waitpid, kspawn, do_fork, do_exit, close_fd}
use fleurix.Life.Reap.{Waits, do_waitpid-Waits}

abbrev with_zombie : Kernel
with_zombie = set_proc idle_kernel 2 (record (process 2 7) { stat = 4; ret = pos 3 })

do_waitpid-Waits_example :
    Waits with_zombie minus_one true (do_waitpid with_zombie minus_one true true)
do_waitpid-Waits_example = do_waitpid-Waits with_zombie minus_one true

-- A fork takes slot 3.
takes_three : (elim (do_fork idle_kernel) [ ok (k', r) ↦ r | panic ↦ minus_one ]) ≡ pos 3
unfolding do_fork kspawn find_pid find_first
takes_three = refl

-- A process without a root directory cannot exit: `iput` stops the machine.
stops : do_exit bare_store (λ i. i) (λ i. i) tt idle_kernel (pos 0) ≡ panic
unfolding do_exit close_fd for_range iput
stops = refl
