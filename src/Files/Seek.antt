-- ===== src/Files/Seek.antt =====
-- Where `do_lseek` of src/fs/rdwr.c moves the offset of an open file.
use fleurix.Base.{
  ℕ, ◌+◌, ◌-◌, ◌^◌, ◌<◌, ◌≡◌, refl, ◌∙◌, Bool, true, false, none, some, ◌==◌, if◌then◌else◌, arith,
  ltb, leb, ◌||◌,
}
use fleurix.Base.Bits.{has_bit}
use fleurix.Base.Word.{ℤ, pos, negsuc, minus_one}
use fleurix.Kernel.{Kernel, nofile, me, set_file, syserr}
use fleurix.Kernel.Errno.{einval}
use fleurix.Files.{do_lseek, seek_file, seek_target, to_int}

-- From where a directive counts: the start, the current offset or the size.
abbrev seek_base : ℕ → ℕ → ℕ → ℕ
seek_base offset size whence = if whence == 0 then 0 else if whence == 1 then offset else size

-- A descriptor of an open file that is no pipe.
pub record IsOpen (k : Kernel) (fd f i : ℕ) : Type 0 where
  pub in_table : fd < nofile
  pub opened : (me k).ofile fd ≡ some f
  pub inode : (k.file f).ino ≡ some i
  pub seekable : has_bit (k.inode i).mode 12 ≡ false

-- The file's offset moved.
abbrev pub moved_to : Kernel → ℕ → ℕ → Kernel × ℤ
moved_to k f o = (set_file k f (record (k.file f) { offset = o }), to_int o)

seeks :
    (k : Kernel) (fd f i : ℕ) (off : ℤ) (whence : ℕ)
    → IsOpen k fd f i
    → do_lseek k fd off whence ≡ seek_file k f i off whence
unfolding do_lseek
seeks k fd f i off whence o =
    let fits : leb nofile fd ≡ false = ground (arith, o.in_table) in
    rw (o.opened, do_lseek) (rw fits (rw o.inode refl))

moves :
    (k : Kernel) (f i : ℕ) (off : ℤ) (whence to : ℕ)
    → has_bit (k.inode i).mode 12 ≡ false
    → seek_target (k.file f).offset (k.inode i).size off whence ≡ some to
    → seek_file k f i off whence ≡ moved_to k f to
unfolding seek_file
moves k f i off whence to seekable e = rw (seekable, seek_file) (rw e refl)

fails :
    (k : Kernel) (f i : ℕ) (off : ℤ) (whence : ℕ)
    → has_bit (k.inode i).mode 12 ≡ false
    → seek_target (k.file f).offset (k.inode i).size off whence ≡ none
    → seek_file k f i off whence ≡ (syserr k einval, minus_one)
unfolding seek_file
fails k f i off whence seekable e = rw (seekable, seek_file) (rw e refl)

abbrev base_of : Kernel → ℕ → ℕ → ℕ → ℕ
base_of k f i whence = seek_base (k.file f).offset (k.inode i).size whence

target_forward :
    (offset size n whence : ℕ)
    → offset < 2 ^ 31
    → size < 2 ^ 31
    → n < 2 ^ 31
    → whence < 3
    → seek_target offset size (pos n) whence ≡ some (seek_base offset size whence + n)
unfolding seek_target
target_forward offset size n whence a b c w = ground arith

-- A seek forward on an open file that is no pipe, with the offset, the size and the distance below
-- 2^31: the offset becomes the directive's base plus the distance, and is the result.
pub do_lseek-forward :
    (k : Kernel) (fd f i n whence : ℕ)
    → IsOpen k fd f i
    → (k.file f).offset < 2 ^ 31
    → (k.inode i).size < 2 ^ 31
    → n < 2 ^ 31
    → whence < 3
    → do_lseek k fd (pos n) whence ≡ moved_to k f (base_of k f i whence + n)
do_lseek-forward k fd f i n whence o a b c w =
    seeks k fd f i (pos n) whence o
    ∙ moves k f i (pos n) whence (base_of k f i whence + n) o.seekable
        (target_forward (k.file f).offset (k.inode i).size n whence a b c w)

target_back :
    (offset size n whence : ℕ)
    → offset < 2 ^ 31
    → size < 2 ^ 31
    → n < 2 ^ 31
    → whence < 3
    → seek_target offset size (negsuc n) whence ≡ (
        if ltb n (seek_base offset size whence) || whence == 0
        then none
        else some (2 ^ 32 + seek_base offset size whence - n - 1))
unfolding seek_target
target_back offset size n whence a b m w = ground arith

-- A seek back by n + 1 on such a file never reaches the place asked for: with that place inside the
-- file, or SEEK_SET, the call fails with EINVAL and moves nothing, and with that place before the
-- start, for SEEK_CUR and SEEK_END, it succeeds with the offset wrapped around 2^32.
pub do_lseek-back :
    (k : Kernel) (fd f i n whence : ℕ)
    → IsOpen k fd f i
    → (k.file f).offset < 2 ^ 31
    → (k.inode i).size < 2 ^ 31
    → n < 2 ^ 31
    → whence < 3
    → do_lseek k fd (negsuc n) whence ≡ (
        if ltb n (base_of k f i whence) || whence == 0
        then (syserr k einval, minus_one)
        else moved_to k f (2 ^ 32 + base_of k f i whence - n - 1))
do_lseek-back k fd f i n whence o a b m w =
    seeks k fd f i (negsuc n) whence o
    ∙ by_case (ltb n (base_of k f i whence) || whence == 0)
        (target_back (k.file f).offset (k.inode i).size n whence a b m w)
  where
    by_case :
        (x : Bool)
        → seek_target (k.file f).offset (k.inode i).size (negsuc n) whence
          ≡ (if x then none else some (2 ^ 32 + base_of k f i whence - n - 1))
        → seek_file k f i (negsuc n) whence ≡ (
            if x
            then (syserr k einval, minus_one)
            else moved_to k f (2 ^ 32 + base_of k f i whence - n - 1))
    by_case true e = fails k f i (negsuc n) whence o.seekable e
    by_case false e =
        moves k f i (negsuc n) whence (2 ^ 32 + base_of k f i whence - n - 1) o.seekable e
