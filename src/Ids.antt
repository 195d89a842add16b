-- ===== src/Ids.antt =====
-- src/kern/sys3.c: the calls on the identity of a process. The arguments are registers, as `int`s.
pub mod Rights
mod Tests
use fleurix.Base.{
  ℕ, ◌+◌, ◌-◌, ◌%◌, ◌^◌, Bool, true, false, ◌&&◌, ◌||◌, not, ltb, ◌==◌, if◌then◌else◌,
}
use fleurix.Base.Word.{ℤ, pos, negsuc, minus_one}
use fleurix.Kernel.{Proc, Kernel, me, set_me, syserr, suser}
use fleurix.Kernel.Errno.{eperm, enosys}
use fleurix.Files.{to_int}

-- The bounds are computed and nothing is stored.
pub sys_nice : Kernel → ℕ → Kernel × ℤ
sys_nice k ebx = (k, pos 0)

pub sys_getpid : Kernel → ℤ
sys_getpid k = to_int (me k).pid

pub sys_getppid : Kernel → ℤ
sys_getppid k = to_int (me k).ppid

pub sys_getpgrp : Kernel → ℤ
sys_getpgrp k = to_int (me k).pgrp

pub sys_getuid : Kernel → ℤ
sys_getuid k = to_int (me k).ruid

pub sys_getgid : Kernel → ℤ
sys_getgid k = to_int (me k).rgid

pub sys_geteuid : Kernel → ℤ
sys_geteuid k = to_int (me k).euid

pub sys_getegid : Kernel → ℤ
sys_getegid k = to_int (me k).egid

-- An argument above zero, as an `int`.
abbrev pub is_given : ℕ → Bool
is_given w = ltb 0 w && ltb w (2 ^ 31)

-- The second half of `sys_setreuid`; `old` is the real user of before.
pub set_euid : Kernel → ℕ → ℕ → Kernel × ℤ
set_euid k old euid =
    if is_given euid
    then (if (me k).euid == euid || old == euid || suser k
        then (set_me k (record (me k) { euid = euid }), pos 0)
        else (syserr k eperm, minus_one))
    else (k, pos 0)

pub sys_setreuid : Kernel → ℕ → ℕ → Kernel × ℤ
unfolding set_euid
sys_setreuid k ruid euid =
    let old = (me k).ruid in
    if is_given ruid
    then (if (me k).euid == ruid || old == ruid || suser k
        then set_euid (set_me k (record (me k) { ruid = ruid })) old euid
        else (syserr k eperm, minus_one))
    else set_euid k old euid

pub set_egid : Kernel → ℕ → Kernel × ℤ
set_egid k egid =
    if is_given egid
    then (if (me k).egid == egid || (me k).rgid == egid || suser k
        then (set_me k (record (me k) { egid = egid }), pos 0)
        else (syserr k eperm, minus_one))
    else (k, pos 0)

-- The real group is set before the effective one is looked at.
pub sys_setregid : Kernel → ℕ → ℕ → Kernel × ℤ
unfolding set_egid
sys_setregid k rgid egid =
    if is_given rgid
    then (if (me k).rgid == rgid || suser k
        then set_egid (set_me k (record (me k) { rgid = rgid })) egid
        else (syserr k eperm, minus_one))
    else set_egid k egid

pub sys_setpgrp : Kernel → Kernel × ℤ
sys_setpgrp k = (set_me k (record (me k) { pgrp = (me k).pid }), pos 0)

pub sys_umask : Kernel → ℕ → Kernel × ℤ
sys_umask k ebx = (set_me k (record (me k) { umask = ebx % 0o1000 }), to_int (me k).umask)

-- sys_stime, sys_utime and sys_time.
pub not_implemented : Kernel → Kernel × ℤ
not_implemented k = (syserr k enosys, minus_one)
