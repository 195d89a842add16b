-- ===== src/Alloc.antt =====
-- src/fs/alloc.c: zones and inode numbers are given out from bitmaps on the disk.
-- A block in core is a function of the byte's index. A block that was read and not released is
-- held, and who reads it again sleeps: that is all that is kept of the buffer cache. The super block
-- is the one that `getsp` returned.
pub mod Search
pub mod Inodes
pub mod Zones
pub mod Lowest
mod Tests
use fleurix.Base.{
  ℕ, zero, suc, ◌+◌, ◌-◌, ◌*◌, ◌/◌, ◌%◌, ◌^◌, Bool, true, false, ◌&&◌, ◌||◌, not, Option, none,
  some, ltb, leb, ◌==◌, if◌then◌else◌, bit_and, bit_or,
}
use fleurix.Base.Bits.{has_bit, all_but}
use fleurix.Base.Word.{u32}
use fleurix.Base.Loops.{find_first, update}
use fleurix.Kernel.{Super}

-- BLK, and BPB, the bits of a block.
abbrev pub blk : ℕ
blk = 1024

abbrev pub bpb : ℕ
bpb = 8192

pub record Disk : Type 0 where
  pub block : ℕ → ℕ → ℕ
  pub held : ℕ → Bool

-- How an operation ends: with a value, asleep on a block that is held, or in a panic.
pub data Outcome {ℓ} (A : Type ℓ) : Type ℓ where
  returns : Disk → A → Outcome A
  sleeps : ℕ → Outcome A
  panics : Outcome A

-- The inner loop of `find_bit`, on one byte.
pub find_in_byte : ℕ → Option ℕ
find_in_byte byte = if byte == 255 then none else find_first 8 0 (λ j. not (has_bit byte j))

-- The outer loop, for `n` bytes from `i` on; `none` is the result -1.
pub find_from : ℕ → ℕ → (ℕ → ℕ) → Option ℕ
unfolding find_in_byte
find_from zero i bm = none
find_from (suc n) i bm = elim (find_in_byte (bm i)) [
  | some j ↦ some (i * 8 + j)
  | none ↦ find_from n (i + 1) bm
]

pub find_bit : (ℕ → ℕ) → ℕ → Option ℕ
unfolding find_from
find_bit bm size = find_from size 0 bm

-- `b_data[n/8] |= 1<<(n%8)`, and `&= ~(1<<(n%8))`.
unfoldable pub set_bit : (ℕ → ℕ) → ℕ → ℕ → ℕ
set_bit bm n = update bm (n / 8) (bit_or (bm (n / 8)) (2 ^ (n % 8)))

unfoldable pub clear_bit : (ℕ → ℕ) → ℕ → ℕ → ℕ
clear_bit bm n = update bm (n / 8) (bit_and (bm (n / 8)) (all_but 8 (n % 8)))

abbrev pub test_bit : (ℕ → ℕ) → ℕ → Bool
test_bit bm n = has_bit (bm (n / 8)) (n % 8)

-- `bread` leaves the block held, and `bwrite` and `brelse` write it and release it.
abbrev pub hold : Disk → ℕ → Disk
hold d b = record d { held = update d.held b true }

abbrev pub write_back : Disk → ℕ → (ℕ → ℕ) → Disk
write_back d b bm = record { block = update d.block b bm; held = update d.held b false }

-- The loops of `balloc` and `ialloc`: `n` rounds from `nr` on, where `at nr` is the block of
-- round `nr`. A full block is passed over without being released.
unfoldable pub take_bit : ℕ → ℕ → (ℕ → ℕ) → Disk → Outcome ℕ
unfolding find_bit set_bit
take_bit zero nr at d = panics
take_bit (suc n) nr at d =
    let b = at nr in
    if d.held b then sleeps b else elim (find_bit (d.block b) blk) [
      | none ↦ take_bit n (nr + 1) at (hold d b)
      | some r ↦ let bn = nr * bpb + r in returns (write_back d b (set_bit (d.block b) bn)) bn
    ]

-- The rest of `bfree` and `ifree`, from the number of the bit.
unfoldable pub drop_bit : ℕ → ℕ → Disk → Outcome (Unit {0})
unfolding clear_bit
drop_bit b bn d =
    if d.held b
    then sleeps b
    else if not (test_bit (d.block b) bn)
    then panics
    else returns (write_back d b (clear_bit (d.block b) bn)) tt

-- IMAPBLK and BMAPBLK.
abbrev pub imapblk : ℕ → ℕ
imapblk n = 2 + n / bpb

abbrev pub bmapblk : Super → ℕ → ℕ
bmapblk sp n = 2 + sp.nimap_blk + n / bpb

-- The zone of a bit.
unfoldable pub as_zone : Super → Outcome ℕ → Outcome ℕ
as_zone sp (returns d bn) = returns d (sp.data_zone0 + bn)
as_zone sp (sleeps b) = sleeps b
as_zone sp panics = panics

unfoldable pub balloc : Super → Disk → Outcome ℕ
unfolding take_bit as_zone
balloc sp d = as_zone sp (take_bit sp.max_zone 0 (bmapblk sp) d)

unfoldable pub bfree : Super → ℕ → Disk → Outcome (Unit {0})
unfolding drop_bit
bfree sp nr d =
    let bn = u32 (nr + 1 + 2 ^ 32 - sp.data_zone0) in
    if ltb nr sp.data_zone0 || leb sp.max_zone nr then panics else drop_bit (bmapblk sp bn) bn d

-- `bzero`: the block is taken, whatever it holds, and filled with zeros.
pub bzero : ℕ → Disk → Outcome (Unit {0})
bzero bn d =
    let zeros : ℕ → ℕ = λ i. if ltb i blk then 0 else d.block bn i in
    if d.held bn then sleeps bn else returns (write_back d bn zeros) tt

pub ialloc : Super → Disk → Outcome ℕ
unfolding take_bit
ialloc sp d = take_bit sp.max_inode 0 imapblk d

pub ifree : Super → ℕ → Disk → Outcome (Unit {0})
unfolding drop_bit
ifree sp ino d = if ino == 0 || leb sp.max_inode ino then panics else drop_bit (imapblk ino) ino d
