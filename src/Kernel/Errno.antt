-- ===== src/Kernel/Errno.antt =====
-- The error codes of inc/proc.h that the modelled code raises.
use fleurix.Base.{ℕ}

abbrev pub eperm : ℕ
eperm = 1

abbrev pub ebadf : ℕ
ebadf = 9

abbrev pub eacces : ℕ
eacces = 13

abbrev pub efault : ℕ
efault = 14

abbrev pub einval : ℕ
einval = 22

abbrev pub enfile : ℕ
enfile = 23

abbrev pub emfile : ℕ
emfile = 24

abbrev pub espipe : ℕ
espipe = 29

abbrev pub erofs : ℕ
erofs = 30

abbrev pub enodev : ℕ
enodev = 19

abbrev pub enosys : ℕ
enosys = 38

abbrev pub ebusy : ℕ
ebusy = 16
