-- ===== src/Content/Blocks/Grows.antt =====
-- bmap of src/fs/bmap.c with `creat`: a file grows by one block.
use fleurix.Base.{
  ℕ, ◌+◌, ◌-◌, ◌*◌, ◌/◌, ◌%◌, ◌^◌, ◌≤◌, ◌<◌, ◌≡◌, ◌≢◌, ◌⊎◌, refl, sym, ap, subst, ◌∙◌, Bool, true,
  false, ◌&&◌, ltb, ◌==◌, if◌then◌else◌, inl, inr, arith,
}
use fleurix.Base.Loops.{update}
use fleurix.Kernel.{Inode, Super}
use fleurix.Alloc.{Disk, blk, hold}
use fleurix.Alloc.Lowest.{IsLowest}
use fleurix.Content.{
  Fs, Ends, Action, done, nindblk, max_filesiz, release, bread, brelse, ◌>>◌, >>=-done, bread-free,
  iblk,
}
use fleurix.Content.Blocks.{
  zmap_entry, entry_now, add_entry, direct, with_table, indirect, second_level, through, double,
  bmap,
}
use fleurix.Content.Blocks.Lookup.{table_entry, zone_of}
use fleurix.Content.Blocks.Adds.{at, HasMore, still_free, direct-adds}
use fleurix.Content.Blocks.Stored.{stored, add_entry-adds, entry_stored, one-HasMore, two-HasMore}
use fleurix.Content.Blocks.Tree.{IsTree}

module _ (sp : Super) (failed : ℕ → Bool) (s : Fs) (r : ℕ)
    (v : IsTree (2 + sp.nimap_blk) (iblk sp s.ip.num) s.disk s.ip) (more : 1 < sp.max_zone)
    (low : IsLowest (s.disk.block (2 + sp.nimap_blk)) r) (fits : sp.data_zone0 + r < 2 ^ 15) where
  -- A block that is not held, and not the one that is taken.
  held_apart : (b c : ℕ) → c ≢ b → (hold s.disk b).held c ≡ false
  held_apart b c ne =
      let other : (b == c) ≡ false = ground (arith, ne) in rw other (v.readable.free c)

  indirect-adds :
      (i : ℕ)
      → i < nindblk
      → s.ip.zone 7 ≢ 0
      → zmap_entry (s.disk.block (s.ip.zone 7)) i ≡ 0
      → (t : Fs) × (indirect sp failed i true s ≡ done t (sp.data_zone0 + r))
        × HasMore s t (i + 7) (sp.data_zone0 + r)
  unfolding indirect
  indirect-adds i lt some_table hole =
      let m = 2 + sp.nimap_blk in
      let w = s.ip.zone 7 in
      let z = sp.data_zone0 + r in
      let a = v.one_apart some_table in
      let t = at s (hold s.disk w) in
      let add =
        add_entry-adds sp failed t r w i more low (held_apart w m (λ e. a.0 (sym e))) hole in
      let d1 = add.0 in
      let u = at s (stored d1 w i z) in
      let same : (z' : ℕ) → (i == i) ≡ true = λ z'. ground arith in
      (
        at s (release (stored d1 w i z) w),
        >>=-done (bread w) (λ _. add_entry sp failed w i true >> (brelse w >> entry_now w i)) s t tt
              (bread-free w s (v.readable.free w))
            ∙ >>=-done (add_entry sp failed w i true) (λ _. brelse w >> entry_now w i) t u tt add.1
            ∙ ap (done (at s (release (stored d1 w i z) w)))
                (entry_stored s m w i z d1 add.2.blocks fits a.0 i ∙ rw (same 0) refl),
        (
          one-HasMore sp s r v fits d1 add.2.blocks i lt some_table,
          λ c. still_free d1.held w c (λ ne. add.2.free c (held_apart w c ne)),
        ),
      )

  -- Two blocks are held.
  held_both : (b c e : ℕ) → e ≢ b → e ≢ c → (hold (hold s.disk b) c).held e ≡ false
  held_both b c e eb ec =
      let other : (c == e) ≡ false = ground (arith, ec) in rw other (held_apart b e eb)

  double-adds :
      (n : ℕ)
      → n < nindblk * nindblk
      → s.ip.zone 8 ≢ 0
      → table_entry s.disk (s.ip.zone 8) (n / nindblk) ≢ 0
      → table_entry s.disk (table_entry s.disk (s.ip.zone 8) (n / nindblk)) (n % nindblk) ≡ 0
      → (t : Fs) × (double sp failed n true s ≡ done t (sp.data_zone0 + r))
        × HasMore s t (n + 519) (sp.data_zone0 + r)
  unfolding double through second_level
  double-adds n small some_two some_table hole =
      let m = 2 + sp.nimap_blk in
      let b = s.ip.zone 8 in
      let p = n / nindblk in
      let i = n % nindblk in
      let c = zmap_entry (s.disk.block b) p in
      let z = sp.data_zone0 + r in
      let there : (b == 0) ≡ false = ground (arith, some_two) in
      let row : table_entry s.disk b p ≡ c = rw there refl in
      let some_c : c ≢ 0 = λ e. some_table (row ∙ e) in
      let inner : (c == 0) ≡ false = ground (arith, some_c) in
      let c_m : c ≢ m = λ e. (v.inner_apart p some_table).0 (row ∙ e) in
      let b_m : b ≢ m = (v.two_apart some_two).0 in
      let c_b : c ≢ b = v.readable.apart p some_two in
      let empty : zmap_entry (s.disk.block c) i ≡ 0 =
        sym (ap (λ (w : ℕ). table_entry s.disk w i) row ∙ rw inner refl) ∙ hole in
      let t = at s (hold s.disk b) in
      let u = at s (hold (hold s.disk b) c) in
      let add =
        add_entry-adds sp failed u r c i more low
          (held_both b c m (λ e. b_m (sym e)) (λ e. c_m (sym e))) empty in
      let d1 = add.0 in
      let x = at s (stored d1 c i z) in
      let final = at s (release (release (stored d1 c i z) b) c) in
      let last : Action ℕ = brelse b >> (brelse c >> entry_now c i) in
      let self : (i == i) ≡ true = ground arith in
      let whole : p * nindblk + i + 519 ≡ n + 519 = omega arith in
      let walk : second_level sp failed b c n true t ≡ done final z =
        >>=-done (bread c) (λ _. add_entry sp failed c i true >> last) t u tt
          (bread-free c t (held_apart b c c_b))
        ∙ >>=-done (add_entry sp failed c i true) (λ _. last) u x tt add.1
        ∙ ap (done final) (entry_stored s m c i z d1 add.2.blocks fits c_m i ∙ rw self refl) in
      (
        final,
        >>=-done (bread b) (λ _. through sp failed b n true) s t tt
              (bread-free b s (v.readable.free b))
            ∙ rw (inner, through) walk,
        (
          λ k hk.
              subst
                (λ (w : ℕ).
                  zone_of (stored d1 w i z) s.ip k
                  ≡ (if k == p * nindblk + i + 519 then z else zone_of s.disk s.ip k))
                row
                (two-HasMore sp s r v fits d1 add.2.blocks p i (omega (arith, small)) (omega arith)
                  some_two some_table k hk)
              ∙ ap (λ (q : ℕ). if k == q then z else zone_of s.disk s.ip k) whole,
          λ e.
              still_free (update d1.held b false) c e
                (λ ec. still_free d1.held b e (λ eb. add.2.free e (held_both b c e eb ec))),
        ),
      )

-- Which level `bmap` goes to.
module _ (sp : Super) (failed : ℕ → Bool) (s : Fs) (nr : ℕ) (end : Ends ℕ) where
  to_direct : nr < 7 → direct sp failed nr true s ≡ end → bmap sp failed nr true s ≡ end
  unfolding bmap
  to_direct first e =
      let narrow : nr % 2 ^ 16 ≡ nr = omega (arith, first) in
      let fits_file : ltb (max_filesiz / blk) nr ≡ false = ground (arith, first) in
      let inside : (ltb (s.ip.size / blk) nr && false) ≡ false = ground arith in
      let level : ltb nr 7 ≡ true = ground (arith, first) in rw (narrow, fits_file, inside, level) e

  to_indirect :
      7 ≤ nr
      → nr < 519
      → s.ip.zone 7 ≢ 0
      → indirect sp failed (nr - 7) true s ≡ end
      → bmap sp failed nr true s ≡ end
  unfolding bmap with_table
  to_indirect from to table e =
      let narrow : nr % 2 ^ 16 ≡ nr = omega (arith, to) in
      let fits_file : ltb (max_filesiz / blk) nr ≡ false = ground (arith, to) in
      let inside : (ltb (s.ip.size / blk) nr && false) ≡ false = ground arith in
      let level : ltb nr 7 ≡ false = ground (arith, from) in
      let one : ltb (nr - 7) nindblk ≡ true = ground (arith, from, to) in
      let there : (s.ip.zone 7 == 0) ≡ false = ground (arith, table) in
      rw (narrow, fits_file, inside, level, one, there) e

  to_double :
      nr < 2 ^ 16
      → 519 ≤ nr
      → s.ip.zone 8 ≢ 0
      → double sp failed (nr - 519) true s ≡ end
      → bmap sp failed nr true s ≡ end
  unfolding bmap with_table
  to_double small from table e =
      let narrow : nr % 2 ^ 16 ≡ nr = omega (arith, small) in
      let fits_file : ltb (max_filesiz / blk) nr ≡ false = ground (arith, small) in
      let inside : (ltb (s.ip.size / blk) nr && false) ≡ false = ground arith in
      let level : ltb nr 7 ≡ false = ground (arith, from) in
      let one : ltb (nr - 7) nindblk ≡ false = ground (arith, from) in
      let there : (s.ip.zone 8 == 0) ≡ false = ground (arith, table) in
      let n : nr - 7 - nindblk ≡ nr - 519 = omega arith in
      rw (narrow, fits_file, inside, level, one, n, there) e

-- The table of which block `nr` of a file has an entry is there.
abbrev HasTable : Disk → Inode → ℕ → Type 0
HasTable d ip nr =
    (nr < 7)
    ⊎ (((7 ≤ nr) × (nr < 519) × (ip.zone 7 ≢ 0))
        ⊎ ((519 ≤ nr) × (ip.zone 8 ≢ 0) × (table_entry d (ip.zone 8) ((nr - 519) / nindblk) ≢ 0)))

-- With `creat`, for a block that has no zone yet and whose table is there, on a file whose tables are
-- distinct blocks and a device whose first block of the zone map has a free bit: `bmap` returns the zone
-- of the lowest free bit, and afterwards the file has that zone for the block, the zones it had for all
-- its other blocks, and no block is held. The zone has to be below 32768.
pub bmap-HasMore :
    (sp : Super) (failed : ℕ → Bool) (s : Fs) (nr r : ℕ)
    → IsTree (2 + sp.nimap_blk) (iblk sp s.ip.num) s.disk s.ip
    → 1 < sp.max_zone
    → IsLowest (s.disk.block (2 + sp.nimap_blk)) r
    → sp.data_zone0 + r < 2 ^ 15
    → failed (iblk sp s.ip.num) ≡ false
    → nr < 2 ^ 16
    → HasTable s.disk s.ip nr
    → zone_of s.disk s.ip nr ≡ 0
    → (t : Fs) × (bmap sp failed nr true s ≡ done t (sp.data_zone0 + r))
      × HasMore s t nr (sp.data_zone0 + r)
bmap-HasMore sp failed s nr r v more low fits fine small (inl first) hole =
    let level : ltb nr 7 ≡ true = ground (arith, first) in
    let d = direct-adds sp failed s r v more low fits fine nr first (rw level at hole) in
    (d.0, to_direct sp failed s nr (done d.0 (sp.data_zone0 + r)) first d.1, d.2)
bmap-HasMore sp failed s nr r v more low fits fine small (inr (inl (from, to, table))) hole =
    let level : ltb nr 7 ≡ false = ground (arith, from) in
    let one : ltb (nr - 7) nindblk ≡ true = ground (arith, from, to) in
    let there : (s.ip.zone 7 == 0) ≡ false = ground (arith, table) in
    let back : nr - 7 + 7 ≡ nr = omega (arith, from) in
    let d =
      indirect-adds sp failed s r v more low fits (nr - 7) (omega (arith, from, to)) table
        (rw (level, one, there) at hole) in
    (
      d.0,
      to_indirect sp failed s nr (done d.0 (sp.data_zone0 + r)) from to table d.1,
      subst (λ (n : ℕ). HasMore s d.0 n (sp.data_zone0 + r)) back d.2,
    )
bmap-HasMore sp failed s nr r v more low fits fine small (inr (inr (from, two, table))) hole =
    let level : ltb nr 7 ≡ false = ground (arith, from) in
    let one : ltb (nr - 7) nindblk ≡ false = ground (arith, from) in
    let n : nr - 7 - nindblk ≡ nr - 519 = omega arith in
    let back : nr - 519 + 519 ≡ nr = omega (arith, from) in
    let d =
      double-adds sp failed s r v more low fits (nr - 519) (omega (arith, small)) two table
        (rw (level, one, n) at hole) in
    (
      d.0,
      to_double sp failed s nr (done d.0 (sp.data_zone0 + r)) small from two d.1,
      subst (λ (k : ℕ). HasMore s d.0 k (sp.data_zone0 + r)) back d.2,
    )
