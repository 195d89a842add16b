-- ===== src/Life.antt =====
-- The life of a process: src/kern/fork.c, src/kern/exit.c and src/kern/wait.c.
-- The address space and the machine context are not part of the state: vm_clone, vm_clear and the
-- memory of a struct proc from kmalloc are left out. What kmalloc leaves in a field that kspawn does
-- not set is the process that the slot held before.
pub mod Reap
mod Tests
use fleurix.Base.{
  ℕ, ◌+◌, ◌-◌, ◌%◌, Bool, true, false, ◌&&◌, ◌||◌, not, Option, none, some, ◌==◌, ltb,
  if◌then◌else◌, is_none,
}
use fleurix.Base.Word.{ℤ, pos, negsuc, minus_one}
use fleurix.Base.Loops.{for_range, find_first, update}
use fleurix.Base.Result.{Result, ok, panic, ◌>>=◌, ◌>>◌}
use fleurix.Kernel.{
  Sigaction, Proc, Kernel, nproc, nofile, nsig, szomb, srun, me, set_proc, set_me, syserr,
}
use fleurix.Kernel.Errno.{efault}
use fleurix.Sched.{puser, wakeup}
use fleurix.Signal.{sigsend, sigchld, sig_dfl}
use fleurix.Inode.{Store, iput}
use fleurix.Files.{add_inode_ref, add_file_ref, set_fd, do_close, to_int}

-- The first free slot, or 0.
pub find_pid : Kernel → ℕ
find_pid k = elim (find_first nproc 0 (λ i. not (k.present i))) [ none ↦ 0 | some nr ↦ nr ]

-- One reference more for an open file, and for its inode.
share_file : ℕ → Kernel → Kernel
share_file fd k = elim ((me k).ofile fd) [
  | none ↦ k
  | some f ↦ add_inode_ref (add_file_ref k f) (k.file f).ino
]

-- The references that a child takes.
pub take_refs : Kernel → Kernel
unfolding share_file
take_refs k =
    let p = me k in
    let k' : Kernel = elim p.wdir [
      | none ↦ k
      | some w ↦ add_inode_ref (add_inode_ref k (some w)) p.iroot
    ] in
    for_range nofile 0 share_file k'

-- The child of `p` in slot `nr`, over what the memory held.
pub child_of : Proc → Proc → ℕ → Proc
child_of p old nr = record old {
  stat = srun;
  pid = nr;
  ppid = p.pid;
  pgrp = p.pgrp;
  flag = p.flag;
  cpu = p.cpu;
  nice = p.nice;
  pri = puser;
  euid = p.euid;
  egid = p.egid;
  ruid = p.ruid;
  rgid = p.rgid;
  wdir = if is_none p.wdir then old.wdir else p.wdir;
  iroot = if is_none p.wdir then old.iroot else p.iroot;
  ofile = p.ofile;
  fdflag = p.fdflag;
  sig = p.sig;
  sigmask = p.sigmask;
  sigact = p.sigact;
}

pub kspawn : Kernel → Result (Kernel × ℕ)
unfolding find_pid take_refs child_of
kspawn k =
    let nr = find_pid k in
    let k1 = take_refs (record k { present = update k.present nr true }) in
    if nr == 0 then panic else ok (set_proc k1 nr (child_of (me k) (k.proc nr) nr), nr)

-- The child returns 0, its parent the number.
pub do_fork : Kernel → Result (Kernel × ℤ)
unfolding kspawn
do_fork k = do (k', nr) ← kspawn k; ok (k', to_int nr)

-- The test of the loop of `do_waitpid`.
pub is_awaited : Kernel → ℤ → ℕ → Bool
is_awaited k (pos pid) nr =
    let p = k.proc nr in
    let c = me k in
    if pid == 0 then p.ppid == c.pid && p.pgrp == c.pgrp else p.ppid == c.pid && p.pid == pid
is_awaited k (negsuc m) nr =
    let p = k.proc nr in
    let c = me k in if m == 0 then p.ppid == c.pid else p.ppid == c.pid && p.pgrp == c.pid

pub is_reapable : Kernel → ℤ → ℕ → Bool
unfolding is_awaited
is_reapable k pid nr =
    k.present nr && not (nr == k.cu) && is_awaited k pid nr && (k.proc nr).stat == szomb

-- Where `do_waitpid` ends: with a child and what goes to `*stat`, with 0, or asleep.
pub data Wait : Type 0 where
  reaped : ℕ → ℤ → Wait
  no_child : Wait
  refused : Wait
  sleeps : Wait

-- One pass of `do_waitpid`; `writable` is what `vm_verify` says of `stat`.
pub do_waitpid : Kernel → ℤ → Bool → Bool → Kernel × Wait
unfolding is_reapable
do_waitpid k pid writable nohang =
    if not writable
    then (syserr k efault, refused)
    else elim (find_first (nproc - 1) 1 (is_reapable k pid)) [
      | some nr ↦ (
        record k { present = update k.present (k.proc nr).pid false },
        reaped (k.proc nr).pid (k.proc nr).ret,
      )
      | none ↦ if nohang then (k, no_child) else (k, sleeps)
    ]

-- The default action for a signal; the mask stays.
abbrev pub to_default : Sigaction → Sigaction
to_default a = record a { handler = sig_dfl; flags = 0 }

-- A child of the process that exits goes to process 1.
pub orphan : ℕ → Kernel → Kernel
orphan nr k =
    if k.present nr && not (nr == k.cu) && (k.proc nr).ppid == (me k).pid
    then set_proc k nr (record (k.proc nr) { ppid = 1 })
    else k

module _ (d : Store) (chan : ℕ → ℕ) where
  open d use {State}

  -- The round of `do_exit` for one descriptor.
  pub close_fd : ℕ → Result (State × Kernel) → Result (State × Kernel)
  close_fd fd r = do
    (s, k) ← r
    elim ((me k).ofile fd) [
      | none ↦ ok (s, set_fd k fd none)
      | some f ↦ do (s', k', _) ← do_close d chan s k (pos fd); ok (s', set_fd k' fd none)
    ]

  -- `do_exit`; `addr` is the address of a process, on which its parent sleeps.
  pub do_exit : (ℕ → ℕ) → State → Kernel → ℤ → Result (State × Kernel)
  unfolding close_fd orphan
  do_exit addr s k ret = do
    let acts : ℕ → Sigaction =
        λ n. if ltb n nsig then to_default ((me k).sigact n) else (me k).sigact n
    let k1 = set_me k (record (me k) { ret = ret; sigact = acts })
    (s2, k2) ← for_range nofile 0 close_fd (ok (s, k1))
    (s3, k3) ← iput d chan s2 k2 (me k2).iroot
    (s4, k4) ← iput d chan s3 k3 (me k3).wdir
    let k5 = (sigsend k4 (me k4).ppid (pos sigchld) true).0
    let k6 = set_me k5 (record (me k5) { chan = 0; stat = szomb })
    let k7 = for_range (nproc - 1) 1 orphan k6
    ok (s4, wakeup (addr 1) (wakeup (addr (me k7).ppid) k7))
