-- ===== src/Alloc/Tests.antt =====
-- Bitmaps of a small device, whose first numbers are in use.
use fleurix.Alloc.{bzero}
use fleurix.Base.{ℕ, ◌+◌, ◌≡◌, refl, true, false, ◌==◌, if◌then◌else◌, arith}
use fleurix.Base.Loops.{find_first}
use fleurix.Samples.{sample_super}
use fleurix.Alloc.{
  Disk, returns, find_bit, find_from, find_in_byte, test_bit, set_bit, clear_bit, write_back,
  take_bit, drop_bit, as_zone, balloc, bfree, ialloc, ifree, bmapblk,
}
use fleurix.Alloc.Inodes.{ialloc-ifree}
use fleurix.Alloc.Zones.{balloc-bfree}

-- The first 11 bits of each block are set, and of the next byte the fifth one.
abbrev sample_disk : Disk
sample_disk = record {
  block = λ b i. if i == 0 then 255 else if i == 1 then 0x17 else 0;
  held = λ _. false;
}

-- Inode 11 is the first free one.
abbrev with_inode : Disk
with_inode = write_back sample_disk 2 (set_bit (sample_disk.block 2) 11)

gives_inode : ialloc sample_super sample_disk ≡ returns with_inode 11
unfolding ialloc take_bit find_bit find_from find_in_byte find_first
gives_inode = refl

ialloc-ifree_example :
    (d'' : Disk) × (ifree sample_super 11 with_inode ≡ returns d'' tt)
    × ((b q : ℕ) → test_bit (d''.block b) q ≡ test_bit (sample_disk.block b) q)
ialloc-ifree_example =
    ialloc-ifree sample_super sample_disk with_inode 11 (omega arith) refl gives_inode (omega arith)
      (omega arith)

-- Zone 21, by bit 11, and what is left after it is freed: bit 12 was in use.
abbrev with_zone : Disk
with_zone = write_back sample_disk 3 (set_bit (sample_disk.block 3) 11)

abbrev freed : Disk
freed = write_back with_zone 3 (clear_bit (with_zone.block 3) 12)

gives_zone : balloc sample_super sample_disk ≡ returns with_zone 21
unfolding balloc as_zone take_bit find_bit find_from find_in_byte find_first
gives_zone = refl

frees_zone : bfree sample_super 21 with_zone ≡ returns freed tt
unfolding bfree drop_bit set_bit
frees_zone = refl

balloc-bfree_example :
    (r : ℕ) × (21 ≡ 10 + r)
    × (test_bit (freed.block 3) r ≡ true)
    × (test_bit (with_zone.block (bmapblk sample_super (r + 1))) (r + 1) ≡ true)
    × (test_bit (freed.block (bmapblk sample_super (r + 1))) (r + 1) ≡ false)
balloc-bfree_example =
    balloc-bfree sample_super sample_disk with_zone freed 21 (omega arith) (omega arith) refl
      gives_zone frees_zone

zeroes : (elim (bzero 7 sample_disk) [ returns d r ↦ d.block 7 0 | _ ↦ 1 ]) ≡ 0
unfolding bzero
zeroes = refl
