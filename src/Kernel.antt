-- ===== src/Kernel.antt =====
-- The tables of the running kernel: inc/proc.h, inc/signal.h, inc/file.h, inc/inode.h, with the
-- globals of src/kern/fork.c, src/fs/open.c and src/fs/inode.c, and syserr and suser of
-- src/kern/sysent.c.
-- A C array is a function of the index, and a pointer into it is the index. What stands outside an
-- array is memory of which nothing is known: the function's value there. Flags keep the bits of
-- the C constants. Addresses on which a process sleeps are numbers.
pub mod Errno
use fleurix.Base.{
  ℕ, ◌+◌, ◌-◌, ◌%◌, ◌^◌, ◌≡◌, Bool, true, false, Option, none, some, ◌==◌, if◌then◌else◌,
}
use fleurix.Base.Loops.{update}
use fleurix.Base.Word.{ℤ, minus_one}

-- `struct sigaction`, less the unused restorer. A handler is its address.
pub record Sigaction : Type 0 where
  pub handler : ℕ
  pub mask : ℕ
  pub flags : ℕ

-- `struct proc`, less the machine context, the saved trap frame and the address space.
pub record Proc : Type 0 where
  pub stat : ℕ
  pub flag : ℕ
  pub chan : ℕ
  pub pri : ℤ
  pub cpu : ℤ
  pub nice : ℤ
  pub pid : ℕ
  pub ppid : ℕ
  pub pgrp : ℕ
  pub euid : ℕ
  pub egid : ℕ
  pub ruid : ℕ
  pub rgid : ℕ
  pub umask : ℕ
  pub sig : ℕ
  pub sigmask : ℕ
  pub cursig : ℕ
  pub ret : ℤ
  pub error : ℕ
  pub sigact : ℕ → Sigaction
  pub wdir : Option ℕ
  pub iroot : Option ℕ
  pub ofile : ℕ → Option ℕ
  pub fdflag : ℕ → ℕ

-- `struct file`. The count is the byte of a signed char.
pub record File : Type 0 where
  pub oflag : ℕ
  pub count : ℕ
  pub offset : ℕ
  pub ino : Option ℕ

-- `struct inode`.
pub record Inode : Type 0 where
  pub mode : ℕ
  pub uid : ℕ
  pub size : ℕ
  pub mtime : ℕ
  pub gid : ℕ
  pub nlink : ℕ
  pub zone : ℕ → ℕ
  pub atime : ℕ
  pub ctime : ℕ
  pub count : ℕ
  pub dev : ℕ
  pub num : ℕ
  pub flag : ℕ

-- `struct super`: the block numbers of the disk, and what is kept in core.
pub record Super : Type 0 where
  pub max_inode : ℕ
  pub max_zone : ℕ
  pub nimap_blk : ℕ
  pub nzmap_blk : ℕ
  pub data_zone0 : ℕ
  pub magic : ℕ
  pub dev : ℕ
  pub imnt : Option ℕ
  pub flag : ℕ

-- `present i` is `proc[i] != NULL`, and then `proc i` is what it points at. `cu` is the slot of
-- the current process.
pub record Kernel : Type 0 where
  pub present : ℕ → Bool
  pub proc : ℕ → Proc
  pub cu : ℕ
  pub runrun : ℕ
  pub file : ℕ → File
  pub inode : ℕ → Inode
  pub mnt : ℕ → Super

abbrev pub nproc : ℕ
nproc = 64

abbrev pub nofile : ℕ
nofile = 16

abbrev pub nfile : ℕ
nfile = 128

abbrev pub ninode : ℕ
ninode = 128

abbrev pub nsig : ℕ
nsig = 32

abbrev pub nmount : ℕ
nmount = 16

abbrev pub rootino : ℕ
rootino = 1

-- The states of a process.
abbrev pub ssleep : ℕ
ssleep = 1

abbrev pub swait : ℕ
swait = 2

abbrev pub srun : ℕ
srun = 3

abbrev pub szomb : ℕ
szomb = 4

-- The current process.
abbrev pub me : Kernel → Proc
me k = k.proc k.cu

abbrev pub set_proc : Kernel → ℕ → Proc → Kernel
set_proc k i p = record k { proc = update k.proc i p }

abbrev pub set_me : Kernel → Proc → Kernel
set_me k p = set_proc k k.cu p

abbrev pub set_inode : Kernel → ℕ → Inode → Kernel
set_inode k i v = record k { inode = update k.inode i v }

abbrev pub set_file : Kernel → ℕ → File → Kernel
set_file k i v = record k { file = update k.file i v }

-- `syserr`: it records the error code in the current process, and its value is -1.
abbrev pub syserr : Kernel → ℕ → Kernel
syserr k e = set_me k (record (me k) { error = e })

-- `suser`.
abbrev pub suser : Kernel → Bool
suser k = (me k).euid == 0
