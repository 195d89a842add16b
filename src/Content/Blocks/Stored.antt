-- ===== src/Content/Blocks/Stored.antt =====
-- bmap of src/fs/bmap.c with `creat`: an entry that is stored in a table is one zone more.
use fleurix.Base.{
  ℕ, ◌+◌, ◌*◌, ◌^◌, ◌<◌, ◌≡◌, ◌≢◌, refl, sym, ap, ◌∙◌, Bool, true, false, ◌==◌, if◌then◌else◌, inl,
  inr, Bool-cases, arith,
}
use fleurix.Base.Loops.{update}
use fleurix.Kernel.{Super}
use fleurix.Alloc.{Disk, balloc}
use fleurix.Alloc.Lowest.{IsLowest, Differs, balloc-lowest}
use fleurix.Content.{Fs, done, nindblk, >>=-done, on_disk, splice, byte, iblk}
use fleurix.Content.Blocks.{zmap_entry, store_entry, add_entry}
use fleurix.Content.Blocks.Lookup.{table_entry, zone_of}
use fleurix.Content.Blocks.Adds.{at, on_disk-returns}
use fleurix.Content.Blocks.Tree.{IsTree, table_entry_kept, zmap_entry-stored, zone_of_more}

-- Entry `i` of the table `w` is stored.
abbrev pub stored : Disk → ℕ → ℕ → ℕ → Disk
stored d w i z = record d {
  block = update d.block w (splice (d.block w) (2 * i) 2 (λ (k : ℕ). byte k z));
}

pub add_entry-adds :
    (sp : Super) (failed : ℕ → Bool) (t : Fs) (r w i : ℕ)
    → 1 < sp.max_zone
    → IsLowest (t.disk.block (2 + sp.nimap_blk)) r
    → t.disk.held (2 + sp.nimap_blk) ≡ false
    → zmap_entry (t.disk.block w) i ≡ 0
    → (d : Disk) × (add_entry sp failed w i true t
        ≡ done (at t (stored d w i (sp.data_zone0 + r))) tt)
      × Differs (2 + sp.nimap_blk) t.disk d
unfolding add_entry
add_entry-adds sp failed t r w i more low free hole =
    let z = sp.data_zone0 + r in
    let b = balloc-lowest sp t.disk r more free low in
    let missing : (zmap_entry (t.disk.block w) i == 0) ≡ true = ground (arith, hole) in
    (
      b.0,
      rw missing (
          >>=-done (on_disk (balloc sp)) (λ x. store_entry w i x) t (at t b.0) z
            (on_disk-returns (balloc sp) t b.0 z b.1)),
      b.2,
    )

-- The blocks after an entry was stored in `w`, where only the block `m` of the zone map differs besides.
module _ (s : Fs) (m w i z : ℕ) (d1 : Disk) (same : (c : ℕ) → c ≢ m → d1.block c ≡ s.disk.block c)
    (small : z < 2 ^ 15) (w_m : w ≢ m) where
  block_kept : (c : ℕ) → c ≢ m → c ≢ w → (stored d1 w i z).block c ≡ s.disk.block c
  block_kept c cm cw = let other : (w == c) ≡ false = ground (arith, cw) in rw other (same c cm)

  pub entry_stored :
      (k : ℕ)
      → zmap_entry ((stored d1 w i z).block w) k
        ≡ (if k == i then z else zmap_entry (s.disk.block w) k)
  entry_stored k =
      let self : (w == w) ≡ true = ground arith in
      rw self (
        zmap_entry-stored (d1.block w) i z k small
        ∙ ap (λ (c : ℕ → ℕ). if k == i then z else zmap_entry c k) (same w w_m))

  table_stored :
      (k : ℕ)
      → w ≢ 0
      → table_entry (stored d1 w i z) w k ≡ (if k == i then z else table_entry s.disk w k)
  table_stored k some_table =
      let there : (w == 0) ≡ false = ground (arith, some_table) in rw there (entry_stored k)

module _ (sp : Super) (s : Fs) (r : ℕ)
    (v : IsTree (2 + sp.nimap_blk) (iblk sp s.ip.num) s.disk s.ip)
    (fits : sp.data_zone0 + r < 2 ^ 15) (d1 : Disk)
    (same : (c : ℕ) → c ≢ 2 + sp.nimap_blk → d1.block c ≡ s.disk.block c) where
  pub one-HasMore :
      (i : ℕ)
      → i < nindblk
      → s.ip.zone 7 ≢ 0
      → (k : ℕ) → k < 2 ^ 16
      → zone_of (stored d1 (s.ip.zone 7) i (sp.data_zone0 + r)) s.ip k
        ≡ (if k == i + 7 then sp.data_zone0 + r else zone_of s.disk s.ip k)
  one-HasMore i lt some_table =
      let m = 2 + sp.nimap_blk in
      let w = s.ip.zone 7 in
      let z = sp.data_zone0 + r in
      let a = v.one_apart some_table in
      let d = stored d1 w i z in
      zone_of_more s.disk d s.ip s.ip (i + 7) z refl refl (λ k h. ground (arith, h))
        (λ j h.
          table_stored s m w i z d1 same fits a.0 j some_table
          ∙ (let e : (j == i) ≡ (j + 7 == i + 7) = ground arith in rw e refl))
        (λ q j hq hj.
          let far : (q * nindblk + j + 519 == i + 7) ≡ false = ground (arith, lt) in
          let inner : table_entry d (s.ip.zone 8) q ≡ table_entry s.disk (s.ip.zone 8) q =
            table_entry_kept s.disk d (s.ip.zone 8) q (λ ne.
              block_kept s m w i z d1 same fits a.0 (s.ip.zone 8) (v.two_apart ne).0
                (λ e. a.2 (sym e))) in
          rw far (
            ap (λ (b : ℕ). table_entry d b j) inner
            ∙ table_entry_kept s.disk d (table_entry s.disk (s.ip.zone 8) q) j (λ ne.
              block_kept s m w i z d1 same fits a.0 (table_entry s.disk (s.ip.zone 8) q)
                (v.inner_apart q ne).0 (λ e. a.3 q (sym e)))))

  pub two-HasMore :
      (p i : ℕ)
      → p < nindblk
      → i < nindblk
      → s.ip.zone 8 ≢ 0
      → table_entry s.disk (s.ip.zone 8) p ≢ 0
      → (k : ℕ) → k < 2 ^ 16
      → zone_of (stored d1 (table_entry s.disk (s.ip.zone 8) p) i (sp.data_zone0 + r)) s.ip k
        ≡ (if k == p * nindblk + i + 519 then sp.data_zone0 + r else zone_of s.disk s.ip k)
  two-HasMore p i hp lt some_two some_table =
      let m = 2 + sp.nimap_blk in
      let two = s.ip.zone 8 in
      let w = table_entry s.disk two p in
      let z = sp.data_zone0 + r in
      let w_m = (v.inner_apart p some_table).0 in
      let d = stored d1 w i z in
      let there : (two == 0) ≡ false = ground (arith, some_two) in
      let not_two : two ≢ w = λ e. v.readable.apart p some_two (sym (e ∙ rw there refl)) in
      zone_of_more s.disk d s.ip s.ip (p * nindblk + i + 519) z refl refl (λ k h. ground (arith, h))
        (λ j h.
          let far : (j + 7 == p * nindblk + i + 519) ≡ false = ground (arith, h) in
          rw far (
            table_entry_kept s.disk d (s.ip.zone 7) j (λ ne.
              block_kept s m w i z d1 same fits w_m (s.ip.zone 7) (v.one_apart ne).0
                ((v.one_apart ne).3 p))))
        (λ q j hq hj.
          let inner : table_entry d two q ≡ table_entry s.disk two q =
            table_entry_kept s.disk d two q
              (λ ne. block_kept s m w i z d1 same fits w_m two (v.two_apart ne).0 not_two) in
          ap (λ (b : ℕ). table_entry d b j) inner ∙ elim (Bool-cases (q == p)) [
            | inl row ↦
                let e : q ≡ p = ground (arith, row) in
                let place : (q * nindblk + j + 519 == p * nindblk + i + 519) ≡ (j == i) =
                  ground (arith, e) in
                rw place (
                  ap (λ (x : ℕ). table_entry d (table_entry s.disk two x) j) e
                  ∙ table_stored s m w i z d1 same fits w_m j some_table
                  ∙ ap
                      (λ (x : ℕ).
                        if j == i then z else table_entry s.disk (table_entry s.disk two x) j)
                      (sym e))
            | inr other ↦
                let far : (q * nindblk + j + 519 == p * nindblk + i + 519) ≡ false =
                  ground (arith, other, hj, lt) in
                rw far (
                  table_entry_kept s.disk d (table_entry s.disk two q) j (λ ne.
                    block_kept s m w i z d1 same fits w_m (table_entry s.disk two q)
                      (v.inner_apart q ne).0 (λ e. apart_rows q hq other ne e)))
          ])
    where
      apart_rows :
          (q : ℕ)
          → q < nindblk
          → (q == p) ≡ false
          → table_entry s.disk (s.ip.zone 8) q ≢ 0
          → table_entry s.disk (s.ip.zone 8) q ≡ table_entry s.disk (s.ip.zone 8) p
          → ⊥
      apart_rows q hq other ne e =
          let row = v.inner_distinct q p hq hp ne e in absurd (ground (arith, row, other))
