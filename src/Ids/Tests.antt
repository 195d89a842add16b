-- ===== src/Ids/Tests.antt =====
-- The identity of a process of user 7.
use fleurix.Base.{◌<◌, ◌≡◌, ◌⊎◌, refl}
use fleurix.Base.Word.{pos, minus_one}
use fleurix.Kernel.{me}
use fleurix.Samples.{idle_kernel}
use fleurix.Ids.{
  sys_setreuid, sys_setregid, sys_nice, sys_getpid, sys_getppid, sys_getpgrp, sys_getuid,
  sys_getgid, sys_geteuid, sys_getegid, sys_setpgrp, sys_umask, not_implemented,
}
use fleurix.Ids.Rights.{sys_setreuid-rights, sys_setregid-rights}

sys_setreuid-rights_example :
    (((me (sys_setreuid idle_kernel 9 7).0).ruid ≡ 7)
      ⊎ ((me (sys_setreuid idle_kernel 9 7).0).ruid ≡ 7))
    × (((me (sys_setreuid idle_kernel 9 7).0).euid ≡ 7)
        ⊎ ((me (sys_setreuid idle_kernel 9 7).0).euid ≡ 7))
    × (0 < (me (sys_setreuid idle_kernel 9 7).0).euid)
sys_setreuid-rights_example = sys_setreuid-rights idle_kernel 9 7 refl

sys_setregid-rights_example :
    ((me (sys_setregid idle_kernel 3 4).0).rgid ≡ 0)
    × (((me (sys_setregid idle_kernel 3 4).0).egid ≡ 0)
        ⊎ ((me (sys_setregid idle_kernel 3 4).0).egid ≡ 0))
sys_setregid-rights_example = sys_setregid-rights idle_kernel 3 4 refl

reads_ids :
    (sys_getpid idle_kernel ≡ pos 1)
    × (sys_getppid idle_kernel ≡ pos 1)
    × (sys_getpgrp idle_kernel ≡ pos 1)
    × (sys_getuid idle_kernel ≡ pos 7)
    × (sys_getgid idle_kernel ≡ pos 0)
    × (sys_geteuid idle_kernel ≡ pos 7)
    × (sys_getegid idle_kernel ≡ pos 0)
unfolding sys_getpid sys_getppid sys_getpgrp sys_getuid sys_getgid sys_geteuid sys_getegid
reads_ids = (refl, refl, refl, refl, refl, refl, refl)

masks : (me (sys_umask idle_kernel 0o1022).0).umask ≡ 0o22
unfolding sys_umask
masks = refl

leads : (me (sys_setpgrp idle_kernel).0).pgrp ≡ 1
unfolding sys_setpgrp
leads = refl

refuses : ((not_implemented idle_kernel).1 ≡ minus_one) × ((sys_nice idle_kernel 5).1 ≡ pos 0)
unfolding not_implemented sys_nice
refuses = (refl, refl)
