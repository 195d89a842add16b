-- ===== src/Content/Transfer.antt =====
-- readi and writei of src/fs/rdwri.c: the bytes of a file, block by block.
pub mod Read
pub mod Sound
pub mod Write
use fleurix.Base.{
  ℕ, zero, suc, ◌+◌, ◌-◌, ◌/◌, ◌%◌, ◌^◌, Bool, true, false, ◌&&◌, ◌||◌, Option, none, some, List,
  [], ◌∷◌, ◌++◌, ltb, ◌==◌, if◌then◌else◌, min, tabulate,
}
use fleurix.Base.Word.{u32}
use fleurix.Base.Loops.{update}
use fleurix.Kernel.{Super}
use fleurix.Alloc.{Disk, blk}
use fleurix.Content.{
  Fs, Ends, Action, done, asleep, panic, wild, ◌>>=◌, ◌>>◌, return, bread, brelse, splice,
  max_filesiz, iupdate,
}
use fleurix.Content.Blocks.{bmap}

-- What is copied from offset `off` in one round, with `left` bytes to go.
abbrev pub chunk : ℕ → ℕ → ℕ
chunk off left = min left (blk - off % blk)

-- `memcpy` into the block `b`.
abbrev pub overwrite : ℕ → ℕ → ℕ → (ℕ → ℕ) → Action (Unit {0})
overwrite b at m data' s =
    let d = s.disk in
    let content = splice (d.block b) at m data' in
    done (record s { disk = record d { block = update d.block b content } }) tt

module _ (sp : Super) (failed : ℕ → Bool) where
  -- The bytes that a round of the loop of `readi` stores. A block without a zone makes it write
  -- through `bp`, which no `bread` of this round has set.
  pub read_block : ℕ → ℕ → Action (List ℕ)
  read_block off m s =
      let copy = λ (bn : ℕ) (t : Fs).
        let run : Action (List ℕ) = (do
          bread bn
          piece ← (λ u. done u (tabulate (u.disk.block bn) (off % blk) m))
          brelse bn
          return piece) in
        if bn == 0 then wild else run t in
      (bmap sp failed (off / blk) false >>= copy) s

  -- The loop, on `fuel` rounds, with `left` bytes to go.
  pub read_blocks : ℕ → ℕ → ℕ → Action (List ℕ)
  unfolding read_block
  read_blocks zero off left s = done s []
  read_blocks (suc fuel) off left s =
      let m = chunk off left in
      let round : Action (List ℕ) = (do
        piece ← read_block off m
        rest ← read_blocks fuel (u32 (off + m)) (left - m)
        return (piece ++ rest)) in
      if left == 0 then done s [] else round s

  -- The bytes that `readi` stores, as many as its result says; `none` is -1, with E2BIG.
  pub readi : ℕ → ℕ → Action (Option (List ℕ))
  unfolding read_blocks
  readi off cnt s =
      let n = if ltb s.ip.size (u32 (off + cnt)) then s.ip.size - off else cnt in
      if ltb s.ip.size off || ltb (u32 (off + cnt)) off
      then done s none
      else (do got ← read_blocks n off n; return (some got)) s

  pub write_block : (ℕ → ℕ) → ℕ → ℕ → Action (Unit {0})
  write_block data' off m =
      let copy = λ (bn : ℕ) (t : Fs).
        let run : Action (Unit {0}) = (do bread bn; overwrite bn (off % blk) m data'; brelse bn) in
        if bn == 0 then panic else run t in
      bmap sp failed (off / blk) true >>= copy

  -- The loop, from byte `tot` of the data on; its value is the offset behind it.
  pub write_blocks : ℕ → (ℕ → ℕ) → ℕ → ℕ → ℕ → Action ℕ
  unfolding write_block
  write_blocks zero data' tot off left s = done s off
  write_blocks (suc fuel) data' tot off left s =
      let m = chunk off left in
      let round : Action ℕ = (do
        write_block (λ i. data' (tot + i)) off m
        write_blocks fuel data' (tot + m) (u32 (off + m)) (left - m)) in
      if left == 0 then done s off else round s

  -- The file grows up to the offset that was reached.
  pub grow_to : ℕ → ℕ → Action ℕ
  grow_to cnt off s =
      let longer : Action ℕ = (do
        (λ t. done (record t { ip = record t.ip { size = off } }) tt)
        iupdate sp failed
        return cnt) in
      if ltb 0 cnt && ltb s.ip.size off then longer s else done s cnt

  -- The number of bytes written; `none` is -1.
  pub writei : (ℕ → ℕ) → ℕ → ℕ → Action (Option ℕ)
  unfolding write_blocks grow_to
  writei data' off cnt s =
      let n = if ltb max_filesiz (u32 (off + cnt)) then u32 (max_filesiz + 2 ^ 32 - off) else cnt in
      if ltb (u32 (off + cnt)) off
      then done s none
      else (do end ← write_blocks n data' 0 off n; r ← grow_to n end; return (some r)) s
