-- ===== src/Content/Trunc.antt =====
-- itrunc of src/fs/bmap.c: the zones of a file are freed.
-- The tables are read through a `char *`, so an entry is one byte, which is signed.
pub mod Counts
pub mod Emptied
pub mod Chars
use fleurix.Base.{
  ℕ, zero, suc, ◌+◌, ◌-◌, ◌^◌, Bool, true, ◌||◌, not, ltb, ◌==◌, if◌then◌else◌, bit_or,
}
use fleurix.Base.Bits.{has_bit}
use fleurix.Base.Word.{ℤ, pos, minus_one}
use fleurix.Base.Loops.{update}
use fleurix.Kernel.{Super}
use fleurix.Alloc.{Disk, bfree}
use fleurix.Content.{
  Fs, Ends, Action, done, ◌>>=◌, ◌>>◌, return, on_disk, bread, brelse, nindblk, iupdate, dirtied,
}

-- The bits of S_IFREG and S_IFDIR that `itrunc` tests.
abbrev pub reg_bit : ℕ
reg_bit = 15

abbrev pub dir_bit : ℕ
dir_bit = 14

-- A `char` as the `uint` that it becomes.
abbrev pub of_char : ℕ → ℕ
of_char c = if ltb c 128 then c else c + (2 ^ 32 - 256)

-- for (k = i; k < i + n; k++) body(k);
unfoldable pub for_each : ℕ → ℕ → (ℕ → Action (Unit {0})) → Action (Unit {0})
for_each zero i body s = done s tt
for_each (suc n) i body s = (body i >> for_each n (i + 1) body) s

abbrev pub clear_zone : ℕ → Action (Unit {0})
clear_zone i s = done (record s { ip = record s.ip { zone = update s.ip.zone i 0 } }) tt

abbrev pub no_bytes : Action (Unit {0})
no_bytes s = done (record s { ip = record s.ip { size = 0 } }) tt

module _ (sp : Super) (failed : ℕ → Bool) where
  unfoldable pub drop_direct : ℕ → Action (Unit {0})
  drop_direct i s =
      let drop_it : Action (Unit {0}) = (do
        on_disk (bfree sp (s.ip.zone i))
        (λ t. done (record t { ip = dirtied t.ip }) tt)
        clear_zone i) in
      if s.ip.zone i == 0 then done s tt else drop_it s

  -- `if (zmap[i] != 0) bfree(dev, zmap[i]);`
  pub drop_entry : ℕ → ℕ → Action (Unit {0})
  drop_entry b i s =
      let c = s.disk.block b i in if c == 0 then done s tt else on_disk (bfree sp (of_char c)) s

  -- The table in zone 7.
  pub drop_table : Action (Unit {0})
  unfolding for_each drop_entry
  drop_table s =
      let b = s.ip.zone 7 in
      let drop_it : Action (Unit {0}) = (do
        bread b
        for_each nindblk 0 (drop_entry b)
        on_disk (bfree sp b)
        clear_zone 7
        brelse b) in
      if b == 0 then done s tt else drop_it s

  -- Entry `i` of the table of tables `b`.
  pub drop_inner : ℕ → ℕ → Action (Unit {0})
  unfolding for_each drop_entry
  drop_inner b i s =
      let c = of_char (s.disk.block b i) in
      let drop_it : Action (Unit {0}) = (do
        bread c
        for_each nindblk 0 (drop_entry c)
        brelse c
        (λ t. on_disk (bfree sp (of_char (t.disk.block b i))) t)) in
      if s.disk.block b i == 0 then done s tt else drop_it s

  -- The table of tables in zone 8.
  pub drop_tables : Action (Unit {0})
  unfolding for_each drop_inner
  drop_tables s =
      let b = s.ip.zone 8 in
      let drop_it : Action (Unit {0}) = (do
        bread b
        for_each nindblk 0 (drop_inner b)
        brelse b
        on_disk (bfree sp b)
        clear_zone 8) in
      if b == 0 then done s tt else drop_it s

  pub itrunc : Action ℤ
  unfolding for_each drop_direct drop_table drop_tables
  itrunc s =
      let run : Action ℤ = (do
        for_each 7 0 drop_direct
        drop_table
        drop_tables
        no_bytes
        iupdate sp failed
        return (pos 0)) in
      if not (has_bit s.ip.mode reg_bit) || has_bit s.ip.mode dir_bit
      then done s minus_one
      else run s
