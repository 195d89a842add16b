-- ===== src/Files/Tests.antt =====
-- Descriptors of a process with one open file.
use fleurix.Base.Result.{panic}
use fleurix.Base.Loops.{find_first}
use fleurix.Files.{do_dup2, falloc, do_fcntl, run_fcntl}
use fleurix.Base.{◌≡◌, refl, ap, ◌∙◌, none, some, ◌==◌, if◌then◌else◌, arith}
use fleurix.Base.Word.{pos, negsuc, minus_one}
use fleurix.Base.Result.{Result, ok, ◌>>=◌}
use fleurix.Kernel.{Kernel, me, set_file, set_inode, syserr}
use fleurix.Kernel.Errno.{einval}
use fleurix.Samples.{idle_kernel, empty_file, empty_inode, held_inode}
use fleurix.Inode.{unlk_ino, let_go}
use fleurix.Inode.Release.{iput-more}
use fleurix.Inode.Tests.{bare_store}
use fleurix.Files.{set_fd, do_dup, do_close, close_file, do_lseek, drop_file}
use fleurix.Files.Refs.{refs-set_fd, refs-none, Counted}
use fleurix.Files.Dup.{Dups, do_dup-Dups}
use fleurix.Files.Close.{do_close-Counted, closes, unfolded_close}
use fleurix.Files.Seek.{IsOpen, do_lseek-back}

-- File 3 has one count, and no descriptor yet.
abbrev counted_file : Kernel
counted_file = record idle_kernel {
  file = λ f.
      if f == 3 then record { oflag = 2; count = 1; offset = 20; ino = some 5 } else empty_file;
  inode = λ i. if i == 5 then held_inode else empty_inode;
}

-- Descriptor 0 of the running process is file 3.
abbrev one_open : Kernel
one_open = set_fd counted_file 0 (some 3)

one_open-Counted : Counted one_open
one_open-Counted f lt =
    let moved = refs-set_fd counted_file f 0 (some 3) (omega arith) (omega arith) refl in
    let nothing = refs-none counted_file f (λ i fd a b. refl) in ground (arith, moved, nothing)

do_dup-Dups_example : Dups one_open 3 (do_dup one_open (pos 0))
do_dup-Dups_example =
    do_dup-Dups one_open 0 3 (omega arith) refl (omega arith) refl (omega arith) one_open-Counted

-- The state in which the descriptor is cleared and the inode released, and the end of the close.
abbrev cleared : Kernel
cleared = set_fd one_open 0 none

abbrev released : Kernel
released = unlk_ino (λ i. i) (set_inode cleared 5 (let_go (cleared.inode 5))) 5

abbrev closed : Kernel
closed = set_file released 3 (drop_file (released.file 3))

closes_one : do_close bare_store (λ i. i) tt one_open (pos 0) ≡ ok (tt, closed, pos 0)
closes_one =
    let inner : close_file bare_store (λ i. i) tt one_open 0 3 ≡ ok (tt, closed) =
      unfolded_close bare_store (λ i. i) tt one_open 0 3
      ∙ ap
          (λ (r : Result (Unit × Kernel)).
            r >>= λ o. ok (o.0, set_file o.1 3 (drop_file (o.1.file 3))))
          (iput-more bare_store (λ i. i) tt cleared 5 refl) in
    closes bare_store (λ i. i) tt one_open 0 3 (omega arith) (omega arith) refl
    ∙ ap (λ (r : Result (Unit × Kernel)). r >>= λ o. ok (o.0, o.1, pos 0)) inner

do_close-Counted_example : (pos 0 ≡ pos 0) × Counted closed × ((me closed).ofile 0 ≡ none)
do_close-Counted_example =
    do_close-Counted bare_store (λ i. i) tt tt one_open closed 0 3 (pos 0) closes_one (omega arith)
      (omega arith) refl (omega arith) refl (omega arith) one_open-Counted

one_open-IsOpen : IsOpen one_open 0 3 5
one_open-IsOpen = record { in_table = omega arith; opened = refl; inode = refl; seekable = refl }

do_lseek-back_example : do_lseek one_open 0 (negsuc 4) 1 ≡ (syserr one_open einval, minus_one)
do_lseek-back_example =
    do_lseek-back one_open 0 3 5 4 1 one_open-IsOpen (omega arith) (omega arith) (omega arith)
      (omega arith)

not_open :
    do_dup2 bare_store (λ i. i) tt one_open (pos 4) (pos 5) ≡ ok (tt, syserr one_open 9, minus_one)
unfolding do_dup2
not_open = refl

first_file : (elim (falloc one_open 1) [ ok (k, f) ↦ f | panic ↦ 128 ]) ≡ 0
unfolding falloc find_first
first_file = refl

flags : (do_fcntl one_open (pos 0) 1 0).1 ≡ pos 0
unfolding do_fcntl run_fcntl
flags = refl
