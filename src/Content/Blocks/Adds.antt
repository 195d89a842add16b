-- ===== src/Content/Blocks/Adds.antt =====
-- bmap of src/fs/bmap.c with `creat`, where one zone has to be made.
use fleurix.Base.{
  ℕ, ◌+◌, ◌*◌, ◌^◌, ◌<◌, ◌≡◌, ◌≢◌, refl, ap, ◌∙◌, Bool, true, false, ◌==◌, if◌then◌else◌, inl, inr,
  Bool-cases, arith,
}
use fleurix.Base.Word.{u16}
use fleurix.Base.Loops.{update}
use fleurix.Kernel.{Super}
use fleurix.Alloc.{Disk, Outcome, returns, write_back, balloc}
use fleurix.Alloc.Lowest.{IsLowest, Differs, balloc-lowest}
use fleurix.Content.{
  Fs, Action, done, nindblk, ◌>>=◌, ◌>>◌, >>=-done, on_disk, splice, inode_byte, iblk, inode_off,
  cleaned, dirtied, iupdate,
}
use fleurix.Content.Blocks.{set_zone, set_dirty, direct}
use fleurix.Content.Blocks.Lookup.{table_entry, zone_of}
use fleurix.Content.Blocks.Tree.{IsTree, table_entry_kept, zone_of_more}

abbrev pub at : Fs → Disk → Fs
at s d = record s { disk = d }

-- The file has the zone `z` for its block `n`, and the others as before; no block is held.
abbrev pub HasMore : Fs → Fs → ℕ → ℕ → Type 0
HasMore s t n z =
    ((k : ℕ) → k < 2 ^ 16 → zone_of t.disk t.ip k ≡ (if k == n then z else zone_of s.disk s.ip k))
    × ((b : ℕ) → t.disk.held b ≡ false)

pub on_disk-returns :
    (op : Disk → Outcome ℕ) (s : Fs) (d : Disk) (a : ℕ)
    → op s.disk ≡ returns d a
    → on_disk op s ≡ done (at s d) a
on_disk-returns op s d a e = rw (e, on_disk) refl

abbrev updated : Super → Fs → Fs
updated sp s =
    let b = iblk sp s.ip.num in
    record {
      disk =
          write_back s.disk b (splice (s.disk.block b) (inode_off s.ip.num) 32 (inode_byte s.ip));
      ip = cleaned s.ip;
    }

iupdate-done :
    (sp : Super) (failed : ℕ → Bool) (s : Fs)
    → s.disk.held (iblk sp s.ip.num) ≡ false
    → failed (iblk sp s.ip.num) ≡ false
    → iupdate sp failed s ≡ done (updated sp s) tt
unfolding iupdate
iupdate-done sp failed s free fine = rw (free, fine) refl

-- A block that is written or released is not held, and nor is any other.
pub still_free :
    (held : ℕ → Bool) (b c : ℕ) → (c ≢ b → held c ≡ false) → update held b false c ≡ false
still_free held b c h = elim (Bool-cases (b == c)) [
  | inl same ↦ rw same refl
  | inr other ↦ rw other (h (ground (arith, other)))
]

module _ (sp : Super) (failed : ℕ → Bool) (s : Fs) (r : ℕ)
    (v : IsTree (2 + sp.nimap_blk) (iblk sp s.ip.num) s.disk s.ip) (more : 1 < sp.max_zone)
    (low : IsLowest (s.disk.block (2 + sp.nimap_blk)) r) (fits : sp.data_zone0 + r < 2 ^ 15)
    (fine : failed (iblk sp s.ip.num) ≡ false) where
  -- Where only the block of the zone map and the block `w` differ, a table that is neither is as before.
  inner_kept :
      (d' : Disk) (q : ℕ)
      → ((c : ℕ) → c ≢ 2 + sp.nimap_blk → c ≢ iblk sp s.ip.num → d'.block c ≡ s.disk.block c)
      → table_entry d' (s.ip.zone 8) q ≡ table_entry s.disk (s.ip.zone 8) q
  inner_kept d' q h =
      table_entry_kept s.disk d' (s.ip.zone 8) q
        (λ ne. let a = v.two_apart ne in h (s.ip.zone 8) a.0 a.1)

  level_two_kept :
      (d' : Disk) (q i : ℕ)
      → ((c : ℕ) → c ≢ 2 + sp.nimap_blk → c ≢ iblk sp s.ip.num → d'.block c ≡ s.disk.block c)
      → table_entry d' (table_entry d' (s.ip.zone 8) q) i
        ≡ table_entry s.disk (table_entry s.disk (s.ip.zone 8) q) i
  level_two_kept d' q i h =
      ap (λ (b : ℕ). table_entry d' b i) (inner_kept d' q h)
      ∙ table_entry_kept s.disk d' (table_entry s.disk (s.ip.zone 8) q) i
          (λ ne. let a = v.inner_apart q ne in h (table_entry s.disk (s.ip.zone 8) q) a.0 a.1)

  direct-HasMore :
      (n : ℕ) (d : Disk)
      → n < 7
      → Differs (2 + sp.nimap_blk) s.disk d
      → HasMore s
          (updated sp (record {
            disk = d;
            ip = dirtied (record s.ip { zone = update s.ip.zone n (u16 (sp.data_zone0 + r)) });
          }))
          n
          (sp.data_zone0 + r)
  direct-HasMore n d lt b =
      let z = sp.data_zone0 + r in
      let ib = iblk sp s.ip.num in
      let t =
        updated sp
          (record { disk = d; ip = dirtied (record s.ip { zone = update s.ip.zone n (u16 z) }) }) in
      let narrow : u16 z ≡ z = omega (arith, fits) in
      let kept : (c : ℕ) → c ≢ 2 + sp.nimap_blk → c ≢ ib → t.disk.block c ≡ s.disk.block c =
        λ c nm ni. let other : (ib == c) ≡ false = ground (arith, ni) in rw other (b.blocks c nm) in
      let seven : (n == 7) ≡ false = ground (arith, lt) in
      let eight : (n == 8) ≡ false = ground (arith, lt) in
      (
        zone_of_more s.disk t.disk s.ip t.ip n z (rw seven refl) (rw eight refl)
            (λ k h. rw narrow (ground arith))
            (λ i h.
              let far : (i + 7 == n) ≡ false = ground (arith, lt) in
              rw far (
                table_entry_kept s.disk t.disk (s.ip.zone 7) i
                  (λ ne. let a = v.one_apart ne in kept (s.ip.zone 7) a.0 a.1)))
            (λ q i hq hi.
              let far : (q * nindblk + i + 519 == n) ≡ false = ground (arith, lt) in
              rw far (level_two_kept t.disk q i kept)),
        λ c. still_free d.held ib c (λ ne. b.free c (v.readable.free c)),
      )

  pub direct-adds :
      (n : ℕ)
      → n < 7
      → s.ip.zone n ≡ 0
      → (t : Fs) × (direct sp failed n true s ≡ done t (sp.data_zone0 + r))
        × HasMore s t n (sp.data_zone0 + r)
  unfolding direct
  direct-adds n lt hole =
      let m = 2 + sp.nimap_blk in
      let z = sp.data_zone0 + r in
      let ib = iblk sp s.ip.num in
      let b = balloc-lowest sp s.disk r more (v.readable.free m) low in
      let d = b.0 in
      let ip' = dirtied (record s.ip { zone = update s.ip.zone n (u16 z) }) in
      let u : Fs = record { disk = d; ip = ip' } in
      let narrow : u16 z ≡ z = omega (arith, fits) in
      let self : (n == n) ≡ true = ground arith in
      let missing : (s.ip.zone n == 0) ≡ true = ground (arith, hole) in
      let wrote = iupdate-done sp failed u (b.2.free ib (v.readable.free ib)) fine in
      let rest : ℕ → Action (Unit {0}) = λ x. set_zone n x >> (set_dirty >> iupdate sp failed) in
      let read : Action ℕ = λ t. done t (t.ip.zone n) in
      let filled : (on_disk (balloc sp) >>= rest) s ≡ done (updated sp u) tt =
        >>=-done (on_disk (balloc sp)) rest s (at s d) z (on_disk-returns (balloc sp) s d z b.1)
        ∙ wrote in
      (
        updated sp u,
        rw missing (
            >>=-done (on_disk (balloc sp) >>= rest) (λ _. read) s (updated sp u) tt filled
            ∙ ap (done (updated sp u)) (rw self narrow)),
        direct-HasMore n d lt b.2,
      )
