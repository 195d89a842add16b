-- ===== src/Lib.antt =====
-- Fleurix, a Unix-like kernel in C for one x86 processor: a verification library of its core.
--
-- The kernel is a monolith: the tables of processes, open files, inodes and page frames are global
-- arrays, and the functions of src/ change them with interrupts off or between two sleeps. A C array
-- is here a function of the index, a pointer into it is the index, and a function that changes a
-- table takes the state and returns the new one. `Kernel` (Kernel.antt) holds the tables that several
-- parts share; Pm, Tty, Alloc and Timer have states of their own. A routine that may call panic
-- returns a `Result` (Base/Result.antt).
--
-- Files and the code that they model:
--   Base       shared helpers: tests and lists, bits of machine words, integers of C, `for` loops
--   Kernel     src/inc/proc.h, signal.h, file.h, inode.h, super.h; syserr and suser of src/kern/sysent.c
--   Sched      src/kern/sched.c: wakeup, setrun, setpri, sched_cpu, swtch, swtch_to
--   Signal     src/kern/signal.c: sigsend, sigsend_g, do_kill, do_sigaction, do_signal, issig, psig
--   Inode      src/fs/inode.c: iget (one pass of its loop), iput, lock_ino, unlk_ino
--   Files      src/fs/open.c: ufalloc, falloc, do_close, do_dup, do_dup2; do_fcntl of src/fs/fcntl.c;
--              do_lseek of src/fs/rdwr.c
--   Pm         src/mm/pm.c and the reference count of pt_copy in src/mm/pte.c
--   Tty        src/chr/tty.c: the cyclic queues, the line discipline, the device calls
--   Alloc      src/fs/alloc.c: the bitmaps of zones and inodes
--   Timer      src/kern/timer.c and src/inc/cmos.h: the clock interrupt and the date
--   Buf        src/blk/buf.c, src/inc/buf.h and the request queue of src/blk/hd.c: the cache of disk
--              blocks (Buf/Calls.antt) and the drive (Buf.antt, Buf/Drive.antt); the doubly linked
--              lists of both are rings (Buf/Rings.antt)
--   Content    src/fs/bmap.c and src/fs/rdwri.c, iload and iupdate of src/fs/inode.c: from the blocks of
--              a file to its bytes (Content/Blocks.antt, Content/Transfer.antt, Content/Trunc.antt)
--   Keyboard   src/chr/keybd.c and src/inc/keybd.h: from scan codes to the terminal
--   Names      src/fs/namei.c and src/inc/dirent.h: find_entry and unlink_entry
--   Text       src/lib/string.c: strings and memory
--   Ids        src/kern/sys3.c: user and group numbers
--   Life       src/kern/fork.c, src/kern/exit.c, src/kern/wait.c: kspawn, do_fork, do_exit, do_waitpid
--   Mount      src/fs/super.c and src/fs/mount.c: getsp, unlk_sp, do_mount, do_umount
--   Vm         the areas of an address space: src/mm/vm.c, src/inc/vm.h
--   Paging     src/mm/pte.c, src/mm/pgfault.c and src/inc/mmu.h, pgattach of src/mm/pm.c and vm_clone of
--              src/mm/vm.c: page tables in the words of the frames, page faults, copy on write
--   Heap       src/mm/malloc.c and src/inc/malloc.h: kmalloc and kfree over buckets of a page
--   Samples    small states on which the tests of each part run
--
-- Parts meet where the C functions call each other: iput and unlk_ino call wakeup, tty_input calls
-- sigsend_g and wakeup, the keyboard's interrupt calls tty_input, bmap calls balloc and itrunc bfree, do_close calls iput, do_timer
-- calls sched_cpu, do_exit calls do_close, iput, sigsend and wakeup; bread and bwrite call the request
-- routine of the drive, whose interrupt calls wakeup; the page faults and kmalloc take their pages from
-- pgalloc, and a fault that is refused calls sigsend. What the inode cache asks of
-- the disk is the record `Store` of Inode.antt: Content/Cached.antt fills it with iload, iupdate, itrunc
-- and ifree over the blocks of one file system, where a wait for a held block ends the operation. The
-- 33rd entry that find_entry reads of a block lies in another buffer, whose bytes are an argument.
--
-- Loops are structural. A `for` loop with a fixed range is `for_range` or `find_first`. A `while`
-- loop over a queue runs on the number of chars in it, which is enough since each round takes one:
-- the theorems on these loops say that they leave what the loop of C leaves. The walk of incore has one
-- round more than there are buffers, bkslot has a round for each size, and the search of kmalloc has
-- three: each is shown to be enough. The loops of readi and writei have a round for each byte, and
-- each round moves one at least.
--
-- Not modelled: assembly, port input, the switch of stacks and the flush of the TLB, user memory,
-- the walk along a path and the making of links (readi is a parameter where a page fault calls it),
-- the wrappers of the system calls, the screen, and program loading. What the
-- drive sends is an argument of its interrupt, and what it is sent is a list. A sleep ends a modelled
-- function: the outcome says where it sleeps.
pub mod Base
pub mod Kernel
pub mod Sched
pub mod Signal
pub mod Inode
pub mod Files
pub mod Pm
pub mod Tty
pub mod Alloc
pub mod Timer
pub mod Buf
pub mod Content
pub mod Keyboard
pub mod Names
pub mod Text
pub mod Ids
pub mod Life
pub mod Mount
pub mod Vm
pub mod Paging
pub mod Heap
pub mod Samples
