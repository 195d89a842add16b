-- ===== src/Sched/Tests.antt =====
-- The scheduler on three processes.
use fleurix.Base.{ℕ, ◌+◌, ◌<◌, ◌≡◌, ◌≢◌, ◌⊎◌, false, not, ◌&&◌, ◌==◌, if◌then◌else◌, arith}
use fleurix.Base.Word.{pos, negsuc, ◌≤ℤ◌, ltbℤ}
use fleurix.Kernel.{Kernel, nproc, me}
use fleurix.Samples.{idle_kernel, process}
use fleurix.Sched.{setpri, swtch, is_ready}
use fleurix.Sched.Choice.{IsBest, IsChar, swtch_picks}
use fleurix.Sched.Priority.{setpri_lem, bounded, full_pri}

-- Process 2 sleeps on channel 9.
abbrev sleeping : Kernel
sleeping = record idle_kernel {
  proc = λ i. if i == 2 then record (process 2 7) { stat = 1; chan = 9 } else process i 7;
}

setpri_lem_example :
    (((setpri 2 idle_kernel).proc 2).pri ≡ bounded (full_pri (process 2 7)))
    × (negsuc 125 ≤ℤ ((setpri 2 idle_kernel).proc 2).pri)
    × (((setpri 2 idle_kernel).proc 2).pri ≤ℤ pos 127)
    × ((setpri 2 idle_kernel).runrun
        ≡ (if not (2 == 1) && ltbℤ (process 2 7).pri (me idle_kernel).pri then 1 else 1))
    × ((j : ℕ) → j ≢ 2 → (setpri 2 idle_kernel).proc j ≡ idle_kernel.proc j)
setpri_lem_example = setpri_lem 2 idle_kernel

small_pris : (j : ℕ) → j < nproc → IsChar (pos (j + 40))
small_pris j lt = (omega arith, omega arith)

-- Every process has a priority that a char holds.
abbrev ranked : Kernel
ranked = record idle_kernel { proc = λ i. record (process i 7) { pri = pos (i + 40) } }

swtch_picks_example :
    (IsBest ranked nproc (swtch ranked).cu
      ⊎ (((j : ℕ) → j < nproc → is_ready ranked j ≡ false) × ((swtch ranked).cu ≡ 0)))
    × (swtch ranked ≡ record ranked { cu = (swtch ranked).cu; runrun = 0 })
swtch_picks_example = swtch_picks ranked small_pris
