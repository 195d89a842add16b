-- ===== src/Names/Tests.antt =====
-- A directory of the entries a and b.
use fleurix.Base.{ℕ, ◌+◌, ◌/◌, ◌≡◌, refl, false, Option, some, [], ◌∷◌, ◌==◌, if◌then◌else◌, arith}
use fleurix.Kernel.{Inode}
use fleurix.Samples.{empty_inode, sample_super}
use fleurix.Alloc.{Disk, blk}
use fleurix.Text.{strlen}
use fleurix.Content.{Fs, done}
use fleurix.Content.Blocks.Lookup.{zone_of}
use fleurix.Content.Transfer.Sound.{IsSound}
use fleurix.Names.{find_entry, unlink_entry, is_entry, string_at}
use fleurix.Names.Entries.{named, First, number, at}
use fleurix.Names.Unlinked.{NotBehind, Unlinked, unlink_entry-Unlinked}

abbrev blocks : Disk
blocks = record {
  block = λ b i.
      if i == 0 then 5 else if i == 2 then 97 else if i == 32 then 6 else if i == 34 then 98 else 0;
  held = λ _. false;
}

abbrev directory : Inode
directory = record empty_inode { mode = 0o40755; size = 64; zone = λ k. if k == 0 then 100 else 0 }

abbrev fs : Fs
fs = record { disk = blocks; ip = directory }

zones : (k : ℕ) → zone_of blocks directory k ≡ (if k == 0 then 100 else 0)
zones k = ground arith

sound : IsSound blocks directory
sound = record {
  readable = record { free = λ b. refl; apart = λ i some_table e. some_table refl };
  distinct = λ j k lj lk e ne. ground (arith, zones j, zones k, e, ne);
  not_one = λ k lt ne e. ground (arith, zones k);
  not_two = λ k lt ne e. ground (arith, zones k);
  not_inner = λ k i lt ne e. ground (arith, zones k);
}

-- Behind the block in core is a buffer of zeros, and later one of ones.
zeros_behind : NotBehind (λ b i. 0) fs (98 ∷ []) 1
unfolding is_entry string_at strlen
zeros_behind i lt = refl

ones_behind : NotBehind (λ b i. 1) fs (98 ∷ []) 1
unfolding is_entry string_at strlen
ones_behind i lt = refl

unlink_entry-Unlinked_example :
    (o : Option (ℕ × ℕ)) × (d : Disk) × First
      (named (λ b i. 0) blocks directory (98 ∷ []) 1)
      (64 / blk + 1)
      0
      o
    × (unlink_entry sample_super (λ _. false) (λ b i. 0) (98 ∷ []) 1 fs
        ≡ done (at fs d) (some (number (λ b i. 0) blocks directory o)))
    × Unlinked directory blocks o d
    × (find_entry sample_super (λ _. false) (λ b i. 1) (98 ∷ []) 1 (at fs d)
        ≡ done (at fs d) (some 0))
unlink_entry-Unlinked_example =
    unlink_entry-Unlinked sample_super (λ _. false) (λ b i. 0) (λ b i. 1) (98 ∷ []) 1 fs refl sound
      (omega arith) (λ i lt. ground (arith, zones i, lt)) zeros_behind ones_behind
