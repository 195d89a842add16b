-- ===== src/Names.antt =====
-- find_entry and unlink_entry of src/fs/namei.c, with src/inc/dirent.h: the entries of a directory.
-- The directory is the locked inode of `Fs`, and a name is a string of `len` chars or more. The loops
-- look at 33 entries of a block, the last of which lies behind the 1024 bytes of its buffer: `behind b`
-- is what is read there, in the next element of `buffers` or behind them all.
pub mod Entries
pub mod Unlinked
mod Tests
use fleurix.Base.{
  ℕ, zero, suc, ◌+◌, ◌-◌, ◌*◌, ◌/◌, ◌^◌, Bool, true, false, ◌&&◌, not, Option, none, some, List, [],
  ◌∷◌, ltb, ◌==◌, if◌then◌else◌, min, bit_and,
}
use fleurix.Base.Word.{ℤ, pos, ltbℤ}
use fleurix.Base.Loops.{find_first, update}
use fleurix.Kernel.{Super}
use fleurix.Inode.{s_ifmt}
use fleurix.Mount.{s_ifdir}
use fleurix.Alloc.{Disk, blk}
use fleurix.Text.{strlen, strncmp}
use fleurix.Content.{
  Fs, Ends, Action, done, wild, ◌>>=◌, ◌>>◌, return, bread, brelse, half_at, splice,
}
use fleurix.Content.Blocks.{bmap}

abbrev pub namelen : ℕ
namelen = 12

-- sizeof(struct dirent), and how many the loops look at in a block.
abbrev pub dirent_size : ℕ
dirent_size = 32

abbrev pub per_block : ℕ
per_block = blk / dirent_size + 1

-- What is read from the buffer of block `b` on.
abbrev pub core : (ℕ → ℕ → ℕ) → Disk → ℕ → ℕ → ℕ
core behind d b i = if ltb i blk then d.block b i else behind b (i - blk)

-- `dep[j].d_ino`.
abbrev pub d_ino : (ℕ → ℕ) → ℕ → ℕ
d_ino dep j = half_at dep (dirent_size * j)

-- The string at `i`, as far as `n` chars.
pub string_at : (ℕ → ℕ) → ℕ → ℕ → List ℕ
string_at mem i zero = []
string_at mem i (suc n) = if mem i == 0 then [] else mem i ∷ string_at mem (i + 1) n

-- `dep[j].d_name`. It is compared with a length of at most NAMELEN, for which 13 chars are enough.
abbrev pub d_name : (ℕ → ℕ) → ℕ → List ℕ
d_name dep j = string_at dep (dirent_size * j + 2) (namelen + 1)

-- `len==strlen(dep[j].d_name) && 0==strncmp(name, dep[j].d_name, len)`.
is_zero : ℤ → Bool
is_zero (pos n) = n == 0
is_zero other = false

pub is_entry : List ℕ → ℕ → (ℕ → ℕ) → ℕ → Bool
unfolding is_zero
is_entry name len dep j = len == strlen (d_name dep j) && is_zero (strncmp name (d_name dep j) len)

-- What is done with entry `j` of block `b`: `find_entry` reads the number, and `unlink_entry` clears
-- it too. The entry behind the block is a store into another buffer.
abbrev pub ino_at : (ℕ → ℕ → ℕ) → ℕ → ℕ → Action ℕ
ino_at behind b j s = done s (d_ino (core behind s.disk b) j)

abbrev pub clear_ino : ℕ → ℕ → Action (Unit {0})
clear_ino b j s =
    let d = s.disk in
    let dep = splice (d.block b) (dirent_size * j) 2 (λ _. 0) in
    if ltb j (blk / dirent_size)
    then done (record s { disk = record d { block = update d.block b dep } }) tt
    else wild

pub take_ino : (ℕ → ℕ → ℕ) → ℕ → ℕ → Action ℕ
take_ino behind b j = do ino ← ino_at behind b j; clear_ino b j; return ino

module _ (sp : Super) (failed : ℕ → Bool) (behind : ℕ → ℕ → ℕ) (name : List ℕ) (len : ℕ)
    (use_it : ℕ → ℕ → Action ℕ) where
  -- The block `bn`, which is held: the first entry of the name is used, or the search goes on.
  pub look : ℕ → Action ℕ → Action ℕ
  unfolding is_entry
  look bn next s = elim (find_first per_block 0 (is_entry name len (core behind s.disk bn))) [
    | some j ↦ (use_it bn j >>= λ ino. brelse bn >> return ino) s
    | none ↦ (brelse bn >> next) s
  ]

  -- The loop over the blocks: `n` of them, from `i` on.
  pub search_from : ℕ → ℕ → Action ℕ
  unfolding look
  search_from zero i s = done s 0
  search_from (suc n) i s =
      let next : Action ℕ = search_from n (i + 1) in
      (bmap sp failed i false >>= λ bn. bread bn >> look bn next) s

module _ (sp : Super) (failed : ℕ → Bool) (behind : ℕ → ℕ → ℕ) (name : List ℕ) (len : ℕ) where
  -- The number of the inode, 0 if there is none; `none` is 0 with EFAULT, for what is no directory.
  pub find_entry : Action (Option ℕ)
  unfolding search_from
  find_entry s =
      if not (bit_and s.ip.mode s_ifmt == s_ifdir)
      then done s none
      else (do
        ino ←
            search_from sp failed behind name (min len namelen) (ino_at behind)
              (s.ip.size / blk + 1) 0
        return (some ino))
          s

  pub unlink_entry : Action (Option ℕ)
  unfolding search_from take_ino
  unlink_entry s =
      if not (bit_and s.ip.mode s_ifmt == s_ifdir)
      then done s none
      else (do
        ino ←
            search_from sp failed behind name (min len namelen) (take_ino behind)
              (s.ip.size / blk + 1) 0
        return (some ino))
          s
