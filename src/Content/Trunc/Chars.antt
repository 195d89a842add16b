-- ===== src/Content/Trunc/Chars.antt =====
-- itrunc of src/fs/bmap.c reads a table of zones byte by byte.
use fleurix.Base.{
  ℕ, zero, suc, ◌+◌, ◌≤◌, ◌<◌, ◌≡◌, ◌≢◌, ◌⊎◌, refl, ap, ◌∙◌, Bool, true, false, ◌==◌, arith,
}
use fleurix.Base.Bits.{has_bit}
use fleurix.Base.Word.{ℤ, pos}
use fleurix.Kernel.{Super}
use fleurix.Alloc.{Disk, Outcome, panics, hold, bfree}
use fleurix.Alloc.Zones.{bfree-outside}
use fleurix.Content.{
  Fs, Action, done, panic, ◌>>◌, after, >>=-done, return, on_disk, bread, bread-free, brelse,
  nindblk, iupdate,
}
use fleurix.Content.Trunc.{
  reg_bit, dir_bit, of_char, for_each, clear_zone, no_bytes, drop_direct, drop_entry, drop_table,
  drop_tables, itrunc,
}

on_disk_panics :
    (op : Disk → Outcome (Unit {0})) (s : Fs) → op s.disk ≡ panics → on_disk op s ≡ panic
on_disk_panics op s e = rw (e, on_disk) refl

for_each-panics :
    (body : ℕ → Action (Unit {0})) (n i : ℕ) (s : Fs)
    → 0 < n
    → body i s ≡ panic
    → for_each n i body s ≡ panic
unfolding for_each
for_each-panics body zero i s h e = absurd (omega arith)
for_each-panics body (suc n) i s h e = ap (λ x. after x (λ _. for_each n (i + 1) body)) e

-- A regular file with a table in zone 7, of which the first byte is not 0 and, taken as a signed char,
-- is no zone of the data area, is not truncated: when its first seven zones are freed, `itrunc`
-- panics, whatever zone the first entry of the table is.
pub itrunc-panics :
    (sp : Super) (failed : ℕ → Bool) (s t : Fs)
    → has_bit s.ip.mode reg_bit ≡ true
    → has_bit s.ip.mode dir_bit ≡ false
    → for_each 7 0 (drop_direct sp failed) s ≡ done t tt
    → t.ip.zone 7 ≢ 0
    → t.disk.held (t.ip.zone 7) ≡ false
    → t.disk.block (t.ip.zone 7) 0 ≢ 0
    → (of_char (t.disk.block (t.ip.zone 7) 0) < sp.data_zone0)
      ⊎ (sp.max_zone ≤ of_char (t.disk.block (t.ip.zone 7) 0))
    → itrunc sp failed s ≡ panic
unfolding itrunc drop_table
itrunc-panics sp failed s t reg no_dir direct table free byte outside =
    let b = t.ip.zone 7 in
    let held = record t { disk = hold t.disk b } in
    let there : (b == 0) ≡ false = ground (arith, table) in
    let char : (t.disk.block b 0 == 0) ≡ false = ground (arith, byte) in
    let rest : Action (Unit {0}) = on_disk (bfree sp b) >> (clear_zone 7 >> brelse b) in
    let tail : Action ℤ =
      drop_tables sp failed >> (no_bytes >> (iupdate sp failed >> return (pos 0))) in
    let first : drop_entry sp failed b 0 held ≡ panic =
      unfold drop_entry in
      rw char (
        on_disk_panics (bfree sp (of_char (t.disk.block b 0))) held
          (bfree-outside sp (of_char (t.disk.block b 0)) held.disk outside)) in
    let loop = for_each-panics (drop_entry sp failed b) nindblk 0 held (omega arith) first in
    let dropped : drop_table sp failed t ≡ panic = rw there (
      >>=-done (bread b) (λ _. for_each nindblk 0 (drop_entry sp failed b) >> rest) t held tt
        (bread-free b t free)
      ∙ ap (λ x. after x (λ _. rest)) loop) in
    rw (reg, no_dir)
      (>>=-done (for_each 7 0 (drop_direct sp failed)) (λ _. drop_table sp failed >> tail) s t tt
          direct
        ∙ ap (λ x. after x (λ _. tail)) dropped)
