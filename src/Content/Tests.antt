-- ===== src/Content/Tests.antt =====
-- A file of seven blocks in zones 100 to 106, and an eighth in zone 107 behind the table in block 50.
use fleurix.Base.{
  ℕ, zero, suc, inl, ◌+◌, ◌-◌, ◌*◌, ◌/◌, ◌^◌, ◌≡◌, ◌≢◌, ◌<◌, inr, refl, true, false, ◌&&◌, some,
  ltb, leb, ◌==◌, if◌then◌else◌, get_or, tabulate, arith, min,
}
use fleurix.Kernel.{Inode}
use fleurix.Samples.{empty_inode, sample_super}
use fleurix.Base.Loops.{update}
use fleurix.Alloc.{Disk, blk, write_back, clear_bit, test_bit, bfree, drop_bit}
use fleurix.Content.{Fs, done, dirtied, cleaned, iload, iupdate}
use fleurix.Content.Inodes.{Fits, kept_part, iload-iupdate}
use fleurix.Content.Trunc.{for_each, drop_direct}
use fleurix.Content.Blocks.{bmap}
use fleurix.Content.Blocks.Lookup.{IsReadable, zone_of}
use fleurix.Content.Blocks.Adds.{HasMore}
use fleurix.Content.Blocks.Grows.{bmap-HasMore}
use fleurix.Content.Blocks.Flat.{zone_list, bmap-zone_list}
use fleurix.Content.Transfer.{readi, writei}
use fleurix.Content.Transfer.Read.{file_byte, readi-Reads}
use fleurix.Content.Transfer.Sound.{IsSound}
use fleurix.Content.Transfer.Write.{readi-writei}

abbrev blocks : Disk
blocks = record {
  block = λ b i. if b == 50 then (if i == 0 then 107 else 0) else (b + i) - (b + i) / 256 * 256;
  held = λ _. false;
}

abbrev file : Inode
file = record empty_inode {
  size = 7178;
  zone = λ k. if ltb k 7 then 100 + k else if k == 7 then 50 else 0;
}

abbrev fs : Fs
fs = record { disk = blocks; ip = file }

zones : (k : ℕ) → zone_of blocks file k ≡ (if ltb k 8 then 100 + k else 0)
zones k = ground arith

readable : IsReadable blocks file
readable = record { free = λ b. refl; apart = λ i some_table e. some_table refl }

sound : IsSound blocks file
sound = record {
  readable = readable;
  distinct = λ j k lj lk e ne. ground (arith, zones j, zones k, e, ne);
  not_one = λ k lt ne e. ground (arith, zones k);
  not_two = λ k lt ne e. ground (arith, zones k);
  not_inner = λ k i lt ne e. ground (arith, zones k);
}

bmap-zone_list_example :
    bmap sample_super (λ _. false) 7 false fs ≡ done fs (get_or (zone_list blocks file) 7 0)
bmap-zone_list_example =
    bmap-zone_list sample_super (λ _. false) fs 7 readable (omega arith) (omega arith)

-- Four bytes over the end of the seventh block.
readi-Reads_example :
    readi sample_super (λ _. false) 7166 4 fs
    ≡ done fs (some (tabulate (file_byte blocks file) 7166 (min 4 (7178 - 7166))))
readi-Reads_example =
    readi-Reads sample_super (λ _. false) fs 7166 4 readable (omega arith) (omega arith)
      (omega arith) (λ k a b. ground (arith, zones k))

readi-writei_example :
    (d : Disk) × (writei sample_super (λ _. false) (λ i. 65 + i) 7166 4 fs
      ≡ done (record fs { disk = d }) (some 4))
    × ((i : ℕ)
        → i / blk < 2 ^ 16
        → file_byte d file i
          ≡ (if leb 7166 i && ltb i (7166 + 4) then 65 + (i - 7166) else file_byte blocks file i))
    × (readi sample_super (λ _. false) 7166 4 (record fs { disk = d })
        ≡ done (record fs { disk = d }) (some (tabulate (λ i. 65 + i) 0 4)))
readi-writei_example =
    readi-writei sample_super (λ _. false) fs (λ i. 65 + i) 7166 4 sound (omega arith) (omega arith)
      (λ k a b. ground (arith, zones k))

-- A file of the zone 100 and the table 51, whose first entry is zone 130.
abbrev table_disk : Disk
table_disk = record blocks {
  block = λ b i. if b == 51 then (if i == 0 then 130 else 0) else blocks.block b i;
}

abbrev long_file : Inode
long_file = record empty_inode {
  mode = 32768;
  size = 8192;
  num = 3;
  zone = λ k. if k == 0 then 100 else if k == 7 then 51 else 0;
}

abbrev before : Fs
before = record { disk = table_disk; ip = long_file }

-- Its first zone was freed, by bit 91.
abbrev half_way : Fs
half_way = record {
  disk = write_back table_disk 3 (clear_bit (table_disk.block 3) 91);
  ip = record (dirtied long_file) { zone = update long_file.zone 0 0 };
}

frees_first : for_each 7 0 (drop_direct sample_super (λ _. false)) before ≡ done half_way tt
unfolding for_each drop_direct bfree drop_bit
frees_first = refl

-- The same file without its table.
abbrev direct_only : Fs
direct_only = record before {
  ip = record before.ip { zone = λ k. if ltb k 7 then before.ip.zone k else 0 };
}

fits : Fits long_file
fits = record {
  mode = omega arith;
  uid = omega arith;
  size = omega arith;
  mtime = omega arith;
  gid = omega arith;
  nlink = omega arith;
  zones = λ k h. ground arith;
}

iload-iupdate_example :
    (d : Disk) × (iupdate sample_super (λ _. false) before
      ≡ done (record { disk = d; ip = cleaned long_file }) tt)
    × ((old : Inode)
        → old.num ≡ 3
        → iload sample_super (λ _. false) (record { disk = d; ip = old })
          ≡ done (record { disk = d; ip = kept_part long_file old }) tt)
    × ((old : Inode)
        → 0 < old.num
        → old.num < 2 ^ 32
        → old.num ≢ 3
        → (ip : Inode) × (iload sample_super (λ _. false) (record { disk = table_disk; ip = old })
            ≡ done (record { disk = table_disk; ip = ip }) tt)
          × (iload sample_super (λ _. false) (record { disk = d; ip = old })
              ≡ done (record { disk = d; ip = ip }) tt))
iload-iupdate_example =
    iload-iupdate sample_super (λ _. false) before fits (omega arith) (omega arith) (λ b. refl)
      (λ b. refl)

-- The file of eight blocks, of inode 3: the lowest free bit of the zone map is bit 2.
abbrev growing : Fs
growing = record { disk = blocks; ip = record file { num = 3 } }

low_bits : (q : ℕ) → q < 2 → test_bit (blocks.block 3) q ≡ true
low_bits zero h = refl
low_bits (suc zero) h = refl
low_bits (suc (suc q)) h = absurd (omega arith)

bmap-HasMore_example :
    (t : Fs) × (bmap sample_super (λ _. false) 8 true growing ≡ done t 12) × HasMore growing t 8 12
bmap-HasMore_example =
    bmap-HasMore sample_super (λ _. false) growing 8 2
      (record {
        readable = record { free = λ b. refl; apart = λ i some_table e. some_table refl };
        one_apart = λ ne. (omega arith, omega arith, omega arith, λ i. omega arith);
        two_apart = λ ne. absurd (ne refl);
        inner_apart = λ i ne. absurd (ne refl);
        inner_distinct = λ i j hi hj ne e. absurd (ne refl);
      })
      (omega arith) (record { inside = omega arith; clear = refl; below = low_bits }) (omega arith)
      refl (omega arith) (inr (inl (omega arith, omega arith, omega arith))) refl
