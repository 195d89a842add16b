-- ===== src/Inode.antt =====
-- src/fs/inode.c: the cache of inodes. The contents of the disk, and what the other parts of the
-- file system do to it, stand behind `Store`.
pub mod Cache
pub mod Release
pub mod Quiet
pub mod Tests
use fleurix.Base.{
  ℕ, ◌+◌, ◌-◌, ◌%◌, ◌^◌, Bool, true, false, ◌&&◌, ◌||◌, not, Option, none, some, ltb, ◌==◌,
  if◌then◌else◌, bit_and, bit_or,
}
use fleurix.Base.Bits.{has_bit, all_but}
use fleurix.Base.Word.{u16}
use fleurix.Base.Loops.{find_first}
use fleurix.Base.Result.{Result, ok, panic, ◌>>=◌, ◌>>◌}
use fleurix.Kernel.{Inode, Super, Kernel, ninode, nmount, rootino, set_inode}
use fleurix.Sched.{wakeup}

-- What the cache asks of the disk: `iload` fills the on-disk part of an inode, `iupdate` writes it
-- back, `itrunc` discards the content of a file, `ifree` gives an inode number back, and `close`
-- is the device's `d_close` for a special file. Each may stop the machine.
pub record Store : Type 1 where
  pub State : Type 0
  pub iload : State → Inode → Result Inode
  pub iupdate : State → Inode → Result State
  pub itrunc : State → Inode → Result (State × Inode)
  pub ifree : State → ℕ → ℕ → Result State
  pub close : State → ℕ → ℕ → State

-- The bits of I_LOCK, I_WANTED and I_MOUNT.
abbrev pub i_lock : ℕ
i_lock = 0

abbrev pub i_wanted : ℕ
i_wanted = 1

abbrev pub i_mount : ℕ
i_mount = 3

-- S_IFMT, S_IFBLK and S_IFCHR.
abbrev pub s_ifmt : ℕ
s_ifmt = 0o170000

abbrev pub s_ifblk : ℕ
s_ifblk = 0o60000

abbrev pub s_ifchr : ℕ
s_ifchr = 0o20000

abbrev pub add_flag : ℕ → ℕ → ℕ
add_flag f b = bit_or f (2 ^ b)

-- The inode with the flags of the lock off.
pub unlocked : Inode → Inode
unlocked ip = record ip {
  flag = bit_and (bit_and ip.flag (all_but 32 i_lock)) (all_but 32 i_wanted);
}

-- `unlk_ino`; `chan` is the address of the inode.
pub unlk_ino : (ℕ → ℕ) → Kernel → ℕ → Kernel
unfolding unlocked
unlk_ino chan k i =
    let k' = if has_bit (k.inode i).flag i_wanted then wakeup (chan i) k else k in
    set_inode k' i (unlocked (k'.inode i))

-- `lock_ino` when the inode is free; while it is locked the caller sleeps.
pub lock_ino : Kernel → ℕ → Option Kernel
lock_ino k i =
    let ip = k.inode i in
    if has_bit ip.flag i_lock
    then none
    else some (set_inode k i (record ip { flag = add_flag ip.flag i_lock }))

-- Where one pass of the loop of `iget` ends: with a locked inode, in a sleep on a locked one, with
-- a start again at the root of a mounted file system, or with a full table.
pub data Pass : Type 0 where
  got : ℕ → Pass
  waits : ℕ → Pass
  again : ℕ → ℕ → Pass
  overflow : Pass

abbrev pub holds : Kernel → ℕ → ℕ → ℕ → Bool
holds k dev num i = (k.inode i).dev == dev && (k.inode i).num == num

abbrev pub is_mount_of : Kernel → ℕ → ℕ → Bool
is_mount_of k i m = elim (k.mnt m).imnt [ none ↦ false | some j ↦ i == j ]

-- The inode `i` is the one that is asked for, and not locked.
take_cached : Kernel → ℕ → Kernel × Pass
take_cached k i =
    let ip = k.inode i in
    (
      set_inode k i (record ip { count = u16 (ip.count + 1); flag = add_flag ip.flag i_lock }),
      got i,
    )

hit : Kernel → ℕ → Kernel × Pass
unfolding take_cached
hit k i =
    let ip = k.inode i in
    if has_bit ip.flag i_lock
    then (set_inode k i (record ip { flag = add_flag ip.flag i_wanted }), waits i)
    else if has_bit ip.flag i_mount
    then elim (find_first nmount 0 (is_mount_of k i)) [
      | some m ↦ (k, again (k.mnt m).dev rootino)
      | none ↦ take_cached k i
    ]
    else take_cached k i

-- The inode as a free slot is set up, before it is loaded.
abbrev pub claimed : Inode → ℕ → ℕ → Inode
claimed ip dev num = record ip {
  dev = dev;
  num = num;
  flag = 2 ^ i_lock;
  count = u16 (ip.count + 1);
}

-- The inode with one reference less, locked.
abbrev pub let_go : Inode → Inode
let_go ip = record ip { flag = add_flag ip.flag i_lock; count = ip.count - 1 }

module _ (d : Store) where
  open d use {State, iload, iupdate, itrunc, ifree, close}

  miss : State → Kernel → ℕ → ℕ → Result (Kernel × Pass)
  miss s k dev num = elim (find_first ninode 0 (λ i. (k.inode i).count == 0)) [
    | none ↦ ok (k, overflow)
    | some i ↦ do ip ← iload s (claimed (k.inode i) dev num); ok (set_inode k i ip, got i)
  ]

  -- One pass of the loop of `iget`.
  pub iget_pass : State → Kernel → ℕ → ℕ → Result (Kernel × Pass)
  unfolding miss hit
  iget_pass s k dev num = elim (find_first ninode 0 (holds k dev num)) [
    | some i ↦ ok (hit k i)
    | none ↦ miss s k dev num
  ]

  -- With no link left, the content and the number are given back.
  forget : State → Inode → Result (State × Inode)
  forget s ip = do (s1, ip1) ← itrunc s ip; s2 ← ifree s1 ip1.dev ip1.num; ok (s2, ip1)

  -- The number of a device stands in the first zone of its file.
  close_special : State → Inode → State
  close_special s ip =
      let kind = bit_and ip.mode s_ifmt in
      if kind == s_ifblk || kind == s_ifchr then close s kind (ip.zone 0) else s

  -- The last reference is gone.
  pub drop_inode : State → Inode → Result (State × Inode)
  unfolding forget close_special
  drop_inode s ip = do
    (s1, ip1) ← (if ip.nlink == 0 then forget s ip else ok (s, ip))
    s2 ← iupdate (close_special s1 ip1) ip1
    ok (s2, record ip1 { flag = 0; num = 0 })

  -- `iput` of an inode; `iput(NULL)` is the `none` and panics.
  unfoldable pub iput : (ℕ → ℕ) → State → Kernel → Option ℕ → Result (State × Kernel)
  unfolding drop_inode
  iput chan s k none = panic
  iput chan s k (some i) =
      let ip = let_go (k.inode i) in
      let k' = set_inode k i ip in
      if ip.count == 0
      then (do (s1, ip1) ← drop_inode s ip; ok (s1, unlk_ino chan (set_inode k' i ip1) i))
      else ok (s, unlk_ino chan k' i)
