-- ===== src/Files.antt =====
-- The descriptors of a process and the table of open files: src/fs/open.c, and do_fcntl of
-- src/fs/fcntl.c and do_lseek of src/fs/rdwr.c.
pub mod Refs
pub mod Dup
pub mod Close
pub mod Seek
mod Tests
use fleurix.Base.{
  ℕ, ◌+◌, ◌-◌, ◌%◌, ◌^◌, Bool, true, false, ◌&&◌, ◌||◌, not, Option, none, some, ltb, leb, ◌==◌,
  if◌then◌else◌, is_none, bit_and,
}
use fleurix.Base.Bits.{has_bit}
use fleurix.Base.Word.{ℤ, pos, negsuc, minus_one, u32, u16}
use fleurix.Base.Loops.{find_first, update}
use fleurix.Base.Result.{Result, ok, panic, ◌>>=◌, ◌>>◌}
use fleurix.Kernel.{
  File, Inode, Proc, Kernel, nofile, nfile, me, set_me, set_file, set_inode, syserr,
}
use fleurix.Kernel.Errno.{ebadf, einval, enfile, emfile, espipe}
use fleurix.Sched.{to_char}
use fleurix.Inode.{Store, iput, unlk_ino}

-- An `int` as an index: below zero it is an address outside the array.
abbrev pub to_u32 : ℤ → ℕ
to_u32 (pos n) = u32 n
to_u32 (negsuc n) = 2 ^ 32 - 1 - u32 n

-- The `int` of 32 bits.
abbrev pub to_int : ℕ → ℤ
to_int w = if ltb w (2 ^ 31) then pos w else negsuc (2 ^ 32 - w - 1)

-- `cu->p_ofile[fd] = v`.
abbrev pub set_fd : Kernel → ℕ → Option ℕ → Kernel
set_fd k fd v = set_me k (record (me k) { ofile = update (me k).ofile fd v })

abbrev pub is_free_fd : Kernel → ℕ → Bool
is_free_fd k fd = is_none ((me k).ofile fd)

-- The first free descriptor; with none left, the error.
pub ufalloc : Kernel → Kernel × Option ℕ
ufalloc k = elim (find_first nofile 0 (is_free_fd k)) [
  | some fd ↦ (k, some fd)
  | none ↦ (syserr k enfile, none)
]

-- The file structure `f` is taken for the descriptor.
abbrev pub take_file : Kernel → ℕ → ℕ → Kernel
take_file k fd f =
    set_fd (set_file k f (record (k.file f) { count = 1; offset = 0; oflag = 0 })) fd (some f)

pub falloc : Kernel → ℕ → Result (Kernel × ℕ)
falloc k fd = elim (find_first nfile 0 (λ f. (k.file f).count == 0)) [
  | some f ↦ ok (take_file k fd f, f)
  | none ↦ panic
]

-- `fp->f_ino->i_count++`.
abbrev pub add_inode_ref : Kernel → Option ℕ → Kernel
add_inode_ref k none = k
add_inode_ref k (some i) =
    set_inode k i (record (k.inode i) { count = u16 ((k.inode i).count + 1) })

-- `fp->f_count++` on a signed char, held as its byte.
abbrev pub add_file_ref : Kernel → ℕ → Kernel
add_file_ref k f = set_file k f (record (k.file f) { count = ((k.file f).count + 1) % 256 })

-- One more descriptor for the file `f`.
pub share : Kernel → ℕ → ℕ → Kernel
share k f fd = set_fd (add_inode_ref (add_file_ref k f) (k.file f).ino) fd (some f)

-- The end of `do_dup`, with the file found.
dup_to_free : Kernel → ℕ → Kernel × ℤ
unfolding ufalloc share
dup_to_free k f =
    let (k', fd?) = ufalloc k in
    elim fd? [ none ↦ (k', minus_one) | some fd ↦ (share k' f fd, pos fd) ]

-- `fd >= NOFILE`, on an `int`.
abbrev pub too_big : ℤ → Bool
too_big (pos n) = leb nofile n
too_big (negsuc _) = false

abbrev pub below_zero : ℤ → Bool
below_zero (pos _) = false
below_zero (negsuc _) = true

pub do_dup : Kernel → ℤ → Kernel × ℤ
unfolding dup_to_free
do_dup k fd = elim ((me k).ofile (to_u32 fd)) [
  | none ↦ (syserr k ebadf, minus_one)
  | some f ↦ if too_big fd then (syserr k ebadf, minus_one) else dup_to_free k f
]

-- `fp->f_count--`; at zero, or below it as a signed char, the structure is free again.
pub drop_file : File → File
drop_file fp =
    let c = (fp.count + 255) % 256 in
    if c == 0 || leb 128 c
    then record fp { count = 0; oflag = 0; offset = 0 }
    else record fp { count = c }

module _ (d : Store) (chan : ℕ → ℕ) where
  open d use {State}

  -- `do_close` from where the file is known.
  pub close_file : State → Kernel → ℕ → ℕ → Result (State × Kernel)
  unfolding drop_file
  close_file s k fd f = do
    (s', k') ← iput d chan s (set_fd k fd none) (k.file f).ino
    ok (s', set_file k' f (drop_file (k'.file f)))

  pub do_close : State → Kernel → ℤ → Result (State × Kernel × ℤ)
  unfolding close_file
  do_close s k fd =
      if below_zero fd || ltb nofile (to_u32 fd)
      then ok (s, syserr k ebadf, minus_one)
      else elim ((me k).ofile (to_u32 fd)) [
        | none ↦ ok (s, syserr k ebadf, minus_one)
        | some f ↦
            if ltb nfile f
            then ok (s, syserr k ebadf, minus_one)
            else (do (s', k') ← close_file s k (to_u32 fd) f; ok (s', k', pos 0))
      ]

  -- The result of closing `newfd` is not looked at.
  pub do_dup2 : State → Kernel → ℤ → ℤ → Result (State × Kernel × ℤ)
  unfolding do_close share
  do_dup2 s k fd newfd = elim ((me k).ofile (to_u32 fd)) [
    | none ↦ ok (s, syserr k ebadf, minus_one)
    | some f ↦
        if too_big fd
        then ok (s, syserr k ebadf, minus_one)
        else (do (s', k', _) ← do_close s k newfd; ok (s', share k' f (to_u32 newfd), newfd))
  ]

-- The commands of `do_fcntl`.
abbrev pub set_fdflag : Kernel → ℕ → ℕ → Kernel
set_fdflag k fd v = set_me k (record (me k) { fdflag = update (me k).fdflag fd v })

run_fcntl : Kernel → ℕ → ℕ → ℕ → ℕ → Kernel × ℤ
unfolding do_dup to_char
run_fcntl k fd f cmd arg =
    if cmd == 0
    then do_dup k (pos fd)
    else if cmd == 3
    then (k, to_char (pos (k.file f).oflag))
    else if cmd == 4
    then (set_file k f (record (k.file f) { oflag = arg % 256 }), pos 0)
    else if cmd == 1
    then (k, to_int ((me k).fdflag fd))
    else if cmd == 2
    then (set_fdflag k fd arg, pos 0)
    else (k, minus_one)

pub do_fcntl : Kernel → ℤ → ℕ → ℕ → Kernel × ℤ
unfolding run_fcntl
do_fcntl k fd cmd arg = elim ((me k).ofile (to_u32 fd)) [
  | none ↦ (syserr k ebadf, minus_one)
  | some f ↦
      if too_big fd || below_zero fd
      then (syserr k ebadf, minus_one)
      else run_fcntl k (to_u32 fd) f cmd arg
]

-- Where `do_lseek` moves: `none` is the jump to `_einval`. Offsets are unsigned.
seek_target : ℕ → ℕ → ℤ → ℕ → Option ℕ
seek_target offset size off whence =
    let o = to_u32 off in
    if whence == 0
    then (if below_zero off then none else some o)
    else if whence == 1
    then (if ltb (u32 (offset + o)) offset then none else some (u32 (offset + o)))
    else if whence == 2
    then (if ltb (u32 (size + o)) size then none else some (u32 (size + o)))
    else some offset

seek_file : Kernel → ℕ → ℕ → ℤ → ℕ → Kernel × ℤ
unfolding seek_target
seek_file k f i off whence =
    if has_bit (k.inode i).mode 12
    then (syserr k espipe, minus_one)
    else elim (seek_target (k.file f).offset (k.inode i).size off whence) [
      | none ↦ (syserr k einval, minus_one)
      | some o ↦ (set_file k f (record (k.file f) { offset = o }), to_int o)
    ]

pub do_lseek : Kernel → ℕ → ℤ → ℕ → Kernel × ℤ
unfolding seek_file
do_lseek k fd off whence =
    let bad : Kernel × ℤ = (syserr k ebadf, minus_one) in
    elim ((me k).ofile fd) [
      | none ↦ bad
      | some f ↦
          if leb nofile fd
          then bad
          else elim (k.file f).ino [ none ↦ bad | some i ↦ seek_file k f i off whence ]
    ]
