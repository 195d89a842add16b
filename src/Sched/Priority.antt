-- ===== src/Sched/Priority.antt =====
-- Priorities: their range, and the ageing of the processor usage once per second.
use fleurix.Base.{ℕ, ◌<◌, ◌≡◌, ◌≢◌, ◌∙◌, Bool, ◌&&◌, not, ◌==◌, if◌then◌else◌, arith}
use fleurix.Base.Word.{ℤ, pos, negsuc, ◌+ℤ◌, ◌≤ℤ◌, lebℤ, ltbℤ, div_trunc}
use fleurix.Base.Loops.{for_range_each}
use fleurix.Kernel.{Proc, Kernel, nproc, me}
use fleurix.Sched.{clamp_pri, new_pri, puser, setpri, halve_cpu, age_slot, sched_cpu}

clamp_range : (z : ℤ) → (negsuc 125 ≤ℤ clamp_pri z) × (clamp_pri z ≤ℤ pos 127)
unfolding clamp_pri
clamp_range (pos n) = (ground arith, ground arith)
clamp_range (negsuc n) = (ground arith, ground arith)

-- `p_cpu / 16 + PUSER + p_nice`.
abbrev pub full_pri : Proc → ℤ
full_pri p = div_trunc p.cpu 16 +ℤ puser +ℤ p.nice

stored_pri : (i : ℕ) (k : Kernel) → ((setpri i k).proc i).pri ≡ clamp_pri (full_pri (k.proc i))
unfolding setpri
stored_pri i k = ground arith

-- The priority within the bounds of `setpri`.
abbrev pub bounded : ℤ → ℤ
bounded z = if lebℤ (pos 127) z then pos 127 else if lebℤ z (negsuc 125) then negsuc 125 else z

clamp_pri-bounded : (z : ℤ) → clamp_pri z ≡ bounded z
unfolding clamp_pri
clamp_pri-bounded (pos n) = ground arith
clamp_pri-bounded (negsuc n) = ground arith

-- The priority that `setpri` stores is `p_cpu / 16 + PUSER + p_nice`, brought within -126 and 127,
-- and lies there. The flag for rescheduling is raised exactly when the process is not the current
-- one and its priority number was below that of the current one before; no other process changes.
pub setpri_lem :
    (i : ℕ) (k : Kernel)
    → (((setpri i k).proc i).pri ≡ bounded (full_pri (k.proc i)))
      × (negsuc 125 ≤ℤ ((setpri i k).proc i).pri)
      × (((setpri i k).proc i).pri ≤ℤ pos 127)
      × ((setpri i k).runrun
          ≡ (if not (i == k.cu) && ltbℤ (k.proc i).pri (me k).pri then 1 else k.runrun))
      × ((j : ℕ) → j ≢ i → (setpri i k).proc j ≡ k.proc j)
setpri_lem i k =
    let range = clamp_range (full_pri (k.proc i)) in
    (
      stored_pri i k ∙ clamp_pri-bounded (full_pri (k.proc i)),
      rw (stored_pri i k) range.0,
      rw (stored_pri i k) range.1,
      unfold setpri in ground arith,
      λ j ne. unfold setpri in ground arith,
    )

-- A process after the ageing.
abbrev pub aged : Bool → Proc → Proc
aged there p =
    if there
    then (let q : Proc = record p { cpu = div_trunc p.cpu 2 } in
        if ltbℤ puser p.pri then record q { pri = new_pri q } else q)
    else p

abbrev slot : Kernel → ℕ → Bool × Proc
slot k j = (k.present j, k.proc j)

age_slot_each :
    (i : ℕ) (k : Kernel) (j : ℕ)
    → slot (age_slot i k) j
      ≡ (if i == j then (k.present i, aged (k.present i) (k.proc i)) else slot k j)
unfolding age_slot halve_cpu setpri
age_slot_each i k j = ground arith

-- `sched_cpu` halves the usage of every process once, and gives a new priority, from the halved
-- usage, to exactly those whose priority number is above PUSER; no slot is filled or emptied.
pub sched_cpu_lem :
    (k : Kernel) (j : ℕ)
    → j < nproc
    → ((sched_cpu k).proc j ≡ aged (k.present j) (k.proc j))
      × ((sched_cpu k).present j ≡ k.present j)
unfolding sched_cpu
sched_cpu_lem k j lt =
    ground
      (arith, for_range_each slot age_slot (λ i s. (s.0, aged s.0 s.1)) age_slot_each nproc 0 k j)
