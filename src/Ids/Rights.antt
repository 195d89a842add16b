-- ===== src/Ids/Rights.antt =====
-- What a process may become by the calls of src/kern/sys3.c.
use fleurix.Base.{ℕ, ◌<◌, ◌≡◌, ◌⊎◌, false, arith}
use fleurix.Kernel.{Kernel, me, suser}
use fleurix.Ids.{sys_setreuid, set_euid, sys_setregid, set_egid}

-- `sys_setreuid` by a process that is not the super user's leaves it with a real and an
-- effective user that were its real or effective user before, and never makes it the super user's.
pub sys_setreuid-rights :
    (k : Kernel) (ruid euid : ℕ)
    → suser k ≡ false
    → let p' = me (sys_setreuid k ruid euid).0 in
      ((p'.ruid ≡ (me k).ruid) ⊎ (p'.ruid ≡ (me k).euid))
      × ((p'.euid ≡ (me k).ruid) ⊎ (p'.euid ≡ (me k).euid))
      × (0 < p'.euid)
unfolding sys_setreuid set_euid
sys_setreuid-rights k ruid euid plain = ground arith

-- `sys_setregid` by a process that is not the super user's keeps its real group, and leaves it
-- with an effective group that was its real or effective group before.
pub sys_setregid-rights :
    (k : Kernel) (rgid egid : ℕ)
    → suser k ≡ false
    → let p' = me (sys_setregid k rgid egid).0 in
      (p'.rgid ≡ (me k).rgid) × ((p'.egid ≡ (me k).rgid) ⊎ (p'.egid ≡ (me k).egid))
unfolding sys_setregid set_egid
sys_setregid-rights k rgid egid plain = ground arith
