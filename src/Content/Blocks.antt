-- ===== src/Content/Blocks.antt =====
-- bmap of src/fs/bmap.c: from the number of a block in the file to the zone that holds it.
-- The first 7 zones of the inode are the first blocks; zone 7 is a table of zones, and zone 8 is a
-- table of such tables. An entry of a table is a `short`, which is signed.
pub mod Lookup
pub mod Flat
pub mod Tree
pub mod Adds
pub mod Stored
pub mod Grows
use fleurix.Base.{
  ℕ, ◌+◌, ◌-◌, ◌*◌, ◌/◌, ◌%◌, ◌^◌, Bool, true, ◌&&◌, ◌||◌, not, ltb, ◌==◌, if◌then◌else◌, bit_or,
}
use fleurix.Base.Word.{u16}
use fleurix.Base.Loops.{update}
use fleurix.Kernel.{Inode, Super}
use fleurix.Alloc.{Disk, blk, balloc, bzero}
use fleurix.Content.{
  Fs, Ends, Action, done, panic, ◌>>=◌, ◌>>◌, return, on_disk, bread, brelse, half_at, byte, splice,
  nindblk, max_filesiz, iupdate, dirtied,
}

-- A `short` as the `uint` that it becomes.
abbrev pub of_short : ℕ → ℕ
of_short z = if ltb z 32768 then z else z + (2 ^ 32 - 65536)

-- `zmap[i]`, as a `uint`, and `zmap[i] = z`.
abbrev pub zmap_entry : (ℕ → ℕ) → ℕ → ℕ
zmap_entry zmap i = of_short (half_at zmap (2 * i))

abbrev pub store_entry : ℕ → ℕ → ℕ → Action (Unit {0})
store_entry b i z s =
    let d = s.disk in
    let zmap = splice (d.block b) (2 * i) 2 (λ k. byte k z) in
    done (record s { disk = record d { block = update d.block b zmap } }) tt

-- The value of `zmap[i]` now.
abbrev pub entry_now : ℕ → ℕ → Action ℕ
entry_now b i s = done s (zmap_entry (s.disk.block b) i)

-- `ip->i_zone[i] = z`, and `ip->i_flag |= I_DIRTY`.
abbrev pub set_zone : ℕ → ℕ → Action (Unit {0})
set_zone i z s = done (record s { ip = record s.ip { zone = update s.ip.zone i (u16 z) } }) tt

abbrev pub set_dirty : Action (Unit {0})
set_dirty s = done (record s { ip = dirtied s.ip }) tt

module _ (sp : Super) (failed : ℕ → Bool) where
  -- A block of the first seven.
  pub direct : ℕ → Bool → Action ℕ
  direct n creat s =
      let fill : Action (Unit {0}) = (do
        z ← on_disk (balloc sp)
        set_zone n z
        set_dirty
        iupdate sp failed) in
      let read : Action ℕ = λ t. done t (t.ip.zone n) in
      if s.ip.zone n == 0 && creat then (fill >> read) s else read s

  -- A table in zone `i`: made if it is missing and may be made; with none the result is 0.
  pub new_table : ℕ → Action (Unit {0})
  new_table i = do
    z ← on_disk (balloc sp)
    set_zone i z
    (λ s. on_disk (bzero (s.ip.zone i)) s)
    set_dirty
    iupdate sp failed

  pub with_table : ℕ → Bool → Action ℕ → Action ℕ
  unfolding new_table
  with_table i creat next s =
      if s.ip.zone i == 0 then (if creat then (new_table i >> next) s else done s 0) else next s

  -- `if (zmap[i]==0 && creat) { zmap[i] = balloc(dev); bwrite(bp); }`
  pub add_entry : ℕ → ℕ → Bool → Action (Unit {0})
  add_entry b i creat s =
      let add : Action (Unit {0}) = (do z ← on_disk (balloc sp); store_entry b i z) in
      if zmap_entry (s.disk.block b) i == 0 && creat then add s else done s tt

  -- A block behind zone 7.
  pub indirect : ℕ → Bool → Action ℕ
  unfolding add_entry
  indirect n creat s =
      let b = s.ip.zone 7 in
      let run : Action ℕ = (do bread b; add_entry b n creat; brelse b; entry_now b n) in run s

  -- A block behind the table of tables in `b`, which is held, and the table `b2`.
  pub second_level : ℕ → ℕ → ℕ → Bool → Action ℕ
  unfolding add_entry
  second_level b b2 n creat = do
    bread b2
    add_entry b2 (n % nindblk) creat
    brelse b
    brelse b2
    entry_now b2 (n % nindblk)

  -- The table in entry `i` of the table of tables `b`, made.
  pub new_second : ℕ → ℕ → Action (Unit {0})
  new_second b i = do
    z ← on_disk (balloc sp)
    store_entry b i z
    (λ s. on_disk (bzero (zmap_entry (s.disk.block b) i)) s)

  -- Block `n` behind the table of tables `b`, which is held.
  pub through : ℕ → ℕ → Bool → Action ℕ
  unfolding second_level new_second
  through b n creat s =
      let i = n / nindblk in
      let go : Action ℕ = λ t. second_level b (zmap_entry (t.disk.block b) i) n creat t in
      if zmap_entry (s.disk.block b) i == 0
      then (if creat then (new_second b i >> go) s else (brelse b >> return 0) s)
      else go s

  pub double : ℕ → Bool → Action ℕ
  unfolding through
  double n creat s = let b = s.ip.zone 8 in (bread b >> through b n creat) s

  pub bmap : ℕ → Bool → Action ℕ
  unfolding direct with_table indirect double
  bmap nr creat s =
      let n = u16 nr in
      if ltb (max_filesiz / blk) n || (ltb (s.ip.size / blk) n && not creat)
      then panic
      else if ltb n 7
      then direct n creat s
      else if ltb (n - 7) nindblk
      then with_table 7 creat (indirect (n - 7) creat) s
      else with_table 8 creat (double (n - 7 - nindblk) creat) s
