-- ===== src/Mount.antt =====
-- The mount table: src/fs/super.c and src/fs/mount.c.
-- `spload` and `spupdate`, which read and write the super block of a device, stand behind
-- `SuperStore`.
pub mod Lookup
mod Tests
use fleurix.Base.{
  ℕ, ◌+◌, Bool, true, false, ◌&&◌, ◌||◌, not, Option, none, some, ◌==◌, if◌then◌else◌, bit_and,
  bit_or, is_none,
}
use fleurix.Base.Bits.{has_bit, all_but}
use fleurix.Base.Word.{ℤ, pos, minus_one, u16}
use fleurix.Base.Loops.{find_first, update}
use fleurix.Base.Result.{Result, ok, panic, ◌>>=◌, ◌>>◌}
use fleurix.Kernel.{Inode, Super, Kernel, nmount, ninode, set_inode, syserr}
use fleurix.Kernel.Errno.{ebusy}
use fleurix.Sched.{wakeup}
use fleurix.Inode.{Store, iput, s_ifmt}

pub record SuperStore : Type 1 where
  pub disk : Store
  pub spload : disk.State → Super → Result Super
  pub spupdate : disk.State → Super → disk.State

-- The bits of S_LOCK and S_WANTED.
abbrev pub s_lock : ℕ
s_lock = 0

abbrev pub s_wanted : ℕ
s_wanted = 1

abbrev pub s_ifdir : ℕ
s_ifdir = 0o40000

abbrev pub set_super : Kernel → ℕ → Super → Kernel
set_super k m sp = record k { mnt = update k.mnt m sp }

-- Where one pass of the loop of `getsp` ends.
pub data Found : Type 0 where
  gives : ℕ → Found
  waits : ℕ → Found

pub getsp : Kernel → ℕ → Result (Kernel × Found)
getsp k dev = elim (find_first nmount 0 (λ m. dev == (k.mnt m).dev)) [
  | none ↦ panic
  | some m ↦
      let sp = k.mnt m in
      if has_bit sp.flag s_lock
      then ok (set_super k m (record sp { flag = bit_or sp.flag 2 }), waits m)
      else ok (k, gives m)
]

-- `unlk_sp`; `chan` is the address of the super block.
pub unlk_sp : (ℕ → ℕ) → Kernel → ℕ → Kernel
unlk_sp chan k m =
    let k' = if has_bit (k.mnt m).flag s_wanted then wakeup (chan m) k else k in
    let sp = k'.mnt m in
    set_super k' m
      (record sp { flag = bit_and (bit_and sp.flag (all_but 32 s_lock)) (all_but 32 s_wanted) })

-- The mount point takes a reference.
abbrev pub hold_point : Kernel → Option ℕ → Kernel
hold_point k none = k
hold_point k (some i) = set_inode k i (record (k.inode i) { count = u16 ((k.inode i).count + 1) })

abbrev pub no_directory : Kernel → Option ℕ → Bool
no_directory k none = false
no_directory k (some i) = not (bit_and (k.inode i).mode s_ifmt == s_ifdir)

-- `do_mount` from `_found`.
pub attach : (ℕ → ℕ) → Kernel → ℕ → Option ℕ → Kernel × Option ℕ
unfolding unlk_sp
attach chan k m ip =
    let k1 = hold_point k ip in
    if no_directory k ip
    then (unlk_sp chan k m, none)
    else (unlk_sp chan (set_super k1 m (record (k1.mnt m) { imnt = ip })) m, some m)

module _ (d : SuperStore) (chan sp_chan : ℕ → ℕ) where
  -- `do_mount`; NODEV is 0. The result is the slot, or `none` for NULL.
  pub do_mount : d.disk.State → Kernel → ℕ → Option ℕ → Result (Kernel × Option ℕ)
  unfolding attach
  do_mount s k dev ip = elim (find_first nmount 0 (λ m. (k.mnt m).dev == dev)) [
    | some m ↦
        let sp = k.mnt m in
        ok (attach sp_chan (set_super k m (record sp { flag = bit_or sp.flag 1 })) m ip)
    | none ↦ elim (find_first nmount 0 (λ m. (k.mnt m).dev == 0)) [
      | none ↦ ok (k, none)
      | some m ↦ do
        sp ← d.spload s (record (k.mnt m) { dev = dev })
        ok (attach sp_chan (set_super k m (record sp { imnt = none })) m ip)
    ]
  ]

  -- `do_umount` from where `getsp` has the slot `m`.
  pub umount_at : d.disk.State → Kernel → ℕ → ℕ → Result (d.disk.State × Kernel × ℤ)
  umount_at s k dev m =
      elim (find_first ninode 0 (λ i. not ((k.inode i).num == 0) && (k.inode i).dev == dev)) [
        | some i ↦ ok (s, syserr k ebusy, minus_one)
        | none ↦ do
          let sp = k.mnt m
          let s1 = d.spupdate s sp
          (s2, k2) ← iput d.disk chan s1 (set_super k m (record sp { dev = 0; flag = 0 })) sp.imnt
          ok (s2, k2, pos 0)
      ]
