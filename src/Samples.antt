-- ===== src/Samples.antt =====
-- Small states of the kernel on which the tests run.
use fleurix.Base.{ℕ, ◌+◌, none, some, ltb, ◌==◌, if◌then◌else◌}
use fleurix.Base.Word.{pos}
use fleurix.Kernel.{Proc, File, Inode, Super, Kernel}

-- A runnable process of the user `uid`.
abbrev pub process : ℕ → ℕ → Proc
process pid uid = record {
  stat = 3;
  flag = 0;
  chan = 0;
  pri = pos (100 + pid);
  cpu = pos 40;
  nice = pos 20;
  pid = pid;
  ppid = 1;
  pgrp = 1;
  euid = uid;
  egid = 0;
  ruid = uid;
  rgid = 0;
  umask = 0;
  sig = 0;
  sigmask = 0;
  cursig = 0;
  ret = pos 0;
  error = 0;
  sigact = λ _. record { handler = 0; mask = 0; flags = 0 };
  wdir = none;
  iroot = none;
  ofile = λ _. none;
  fdflag = λ _. 0;
}

abbrev pub empty_file : File
empty_file = record { oflag = 0; count = 0; offset = 0; ino = none }

abbrev pub empty_inode : Inode
empty_inode = record {
  mode = 0;
  uid = 0;
  size = 0;
  mtime = 0;
  gid = 0;
  nlink = 1;
  zone = λ _. 0;
  atime = 0;
  ctime = 0;
  count = 0;
  dev = 0;
  num = 0;
  flag = 0;
}

-- A file system of 100 inodes and 200 zones.
abbrev pub sample_super : Super
sample_super = record {
  max_inode = 100;
  max_zone = 200;
  nimap_blk = 1;
  nzmap_blk = 1;
  data_zone0 = 10;
  magic = 0x138F;
  dev = 1;
  imnt = none;
  flag = 0;
}

-- Three processes, the second of which runs, and nothing open.
abbrev pub idle_kernel : Kernel
idle_kernel = record {
  present = λ i. ltb i 3;
  proc = λ i. process i 7;
  cu = 1;
  runrun = 1;
  file = λ _. empty_file;
  inode = λ _. empty_inode;
  mnt = λ _. sample_super;
}

-- Inode 4 of device 1, of 50 bytes, in slot 5 with one reference.
abbrev pub held_inode : Inode
held_inode = record empty_inode { size = 50; count = 2; dev = 1; num = 4 }

-- The running process has file 3 open as descriptor 0, at offset 20.
abbrev pub open_kernel : Kernel
open_kernel = record idle_kernel {
  proc = λ i.
      if i == 1
      then record (process 1 7) { ofile = λ fd. if fd == 0 then some 3 else none }
      else process i 7;
  file = λ f.
      if f == 3 then record { oflag = 2; count = 1; offset = 20; ino = some 5 } else empty_file;
  inode = λ i. if i == 5 then held_inode else empty_inode;
}
