-- ===== src/Sched.antt =====
-- src/kern/sched.c: wakeup, priorities, and the choice of the next process.
pub mod Wakeup
pub mod Choice
pub mod Priority
mod Tests
use fleurix.Base.{
  ℕ, zero, suc, ◌+◌, ◌-◌, ◌%◌, Bool, true, false, ◌&&◌, ◌||◌, not, Option, none, some, ltb, ◌==◌,
  if◌then◌else◌,
}
use fleurix.Base.Word.{ℤ, pos, negsuc, ◌+ℤ◌, lebℤ, ltbℤ, div_trunc}
use fleurix.Base.Loops.{for_range}
use fleurix.Kernel.{Proc, Kernel, nproc, srun, me, set_proc}

-- The processes' events: `setrun`.
unfoldable pub setrun : ℕ → Kernel → Kernel
setrun i k = set_proc k i (record (k.proc i) { chan = 0; stat = srun })

-- The round of `wakeup` for one slot.
wake_slot : ℕ → ℕ → Kernel → Kernel
unfolding setrun
wake_slot chan i k = if k.present i && (k.proc i).chan == chan then setrun i k else k

pub wakeup : ℕ → Kernel → Kernel
unfolding wake_slot
wakeup chan k = for_range nproc 0 (wake_slot chan) k

-- PUSER.
abbrev pub puser : ℤ
puser = pos 100

-- The two `if`s that bound a priority.
clamp_pri : ℤ → ℤ
clamp_pri n =
    let low : ℤ = if lebℤ (pos 127) n then pos 127 else n in
    if lebℤ low (negsuc 125) then negsuc 125 else low

pub new_pri : Proc → ℤ
unfolding clamp_pri
new_pri p = clamp_pri (div_trunc p.cpu 16 +ℤ puser +ℤ p.nice)

-- The comparison reads the priority from before.
pub setpri : ℕ → Kernel → Kernel
unfolding new_pri
setpri i k =
    let less = not (i == k.cu) && ltbℤ (k.proc i).pri (me k).pri in
    let k' : Kernel = record k { runrun = if less then 1 else k.runrun } in
    set_proc k' i (record (k.proc i) { pri = new_pri (k.proc i) })

halve_cpu : ℕ → Kernel → Kernel
halve_cpu i k = set_proc k i (record (k.proc i) { cpu = div_trunc (k.proc i).cpu 2 })

-- The round of `sched_cpu` for one slot.
age_slot : ℕ → Kernel → Kernel
unfolding halve_cpu setpri
age_slot i k =
    if k.present i
    then (let k' = halve_cpu i k in if ltbℤ puser (k'.proc i).pri then setpri i k' else k')
    else k

pub sched_cpu : Kernel → Kernel
unfolding age_slot
sched_cpu k = for_range nproc 0 age_slot k

-- The conversion of an `int` to a `char`.
abbrev signed_byte : ℕ → ℤ
signed_byte b = if ltb b 128 then pos b else negsuc (255 - b)

unfoldable pub to_char : ℤ → ℤ
to_char (pos n) = signed_byte (n % 256)
to_char (negsuc n) = signed_byte (255 - n % 256)

-- The slots that `swtch` considers.
abbrev pub is_ready : Kernel → ℕ → Bool
is_ready k i = k.present i && ((k.proc i).stat == srun || (k.proc i).pid == 0)

-- `n` and `np` of `swtch`.
pub record Best : Type 0 where
  pub least : ℤ
  pub slot : Option ℕ

pick_slot : Kernel → ℕ → Best → Best
unfolding to_char
pick_slot k i b =
    if is_ready k i && lebℤ (k.proc i).pri b.least
    then record { least = to_char (k.proc i).pri; slot = some i }
    else b

best_slot : Kernel → Best
unfolding pick_slot
best_slot k = for_range nproc 0 (pick_slot k) (record { least = pos 127; slot = none })

-- With no process found, the first one.
chosen : Option ℕ → ℕ
chosen none = 0
chosen (some i) = i

-- `swtch_to` makes the process current; the switch of the stack and of the page directory is the
-- machine's.
pub swtch_to : ℕ → Kernel → Kernel
swtch_to np k = record k { cu = np }

pub swtch : Kernel → Kernel
unfolding best_slot chosen swtch_to
swtch k =
    let k' : Kernel = record k { runrun = 0 } in
    let np = chosen (best_slot k').slot in if np == k'.cu then k' else swtch_to np k'
