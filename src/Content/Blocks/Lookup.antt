-- ===== src/Content/Blocks/Lookup.antt =====
-- What bmap of src/fs/bmap.c finds where it has nothing to make.
use fleurix.Base.{
  ℕ, ◌-◌, ◌/◌, ◌%◌, ◌^◌, ◌<◌, ◌≡◌, ◌≢◌, refl, sym, ap, ◌∙◌, Bool, true, false, ◌&&◌, not, ltb, ◌==◌,
  if◌then◌else◌, inl, inr, Bool-cases, arith,
}
use mathlib.Core.Path.{fun_ext}
use fleurix.Base.Loops.{update}
use fleurix.Kernel.{Inode, Super}
use fleurix.Alloc.{Disk, blk, hold}
use fleurix.Content.{
  Fs, done, nindblk, max_filesiz, release, bread, brelse, ◌>>◌, >>=-done, bread-free,
}
use fleurix.Content.Blocks.{
  zmap_entry, entry_now, add_entry, direct, with_table, indirect, second_level, through, double,
  bmap,
}

-- Entry `i` of the table in block `b`; there is none in block 0.
abbrev pub table_entry : Disk → ℕ → ℕ → ℕ
table_entry d b i = if b == 0 then 0 else zmap_entry (d.block b) i

-- The zone of block `n` of the file.
abbrev pub zone_of : Disk → Inode → ℕ → ℕ
zone_of d ip n =
    if ltb n 7
    then ip.zone n
    else if ltb (n - 7) nindblk
    then table_entry d (ip.zone 7) (n - 7)
    else table_entry d (table_entry d (ip.zone 8) ((n - 7 - nindblk) / nindblk))
        ((n - 7 - nindblk) % nindblk)

-- The tables can be read: no block is held, and the table of tables is none of its own tables.
pub record IsReadable (d : Disk) (ip : Inode) : Type 0 where
  pub free : (b : ℕ) → d.held b ≡ false
  pub apart : (i : ℕ) → ip.zone 8 ≢ 0 → zmap_entry (d.block (ip.zone 8)) i ≢ ip.zone 8

-- A disk is its blocks, and who holds them.
same_disk : (d d' : Disk) → d'.block ≡ d.block → ((b : ℕ) → d'.held b ≡ d.held b) → d' ≡ d
same_disk d d' e h i = record { block = e i; held = fun_ext h i }

pub release-hold : (d : Disk) (b : ℕ) → d.held b ≡ false → release (hold d b) b ≡ d
release-hold d b h = same_disk d (release (hold d b) b) refl (λ j. held j)
  where
    held : (j : ℕ) → update (update d.held b true) b false j ≡ d.held j
    held j = elim (Bool-cases (b == j)) [
      | inl same ↦ let e : b ≡ j = ground (arith, same) in rw same (sym h ∙ ap d.held e)
      | inr other ↦ rw other refl
    ]

-- Two blocks that were held, and released in the same order.
release-hold_two :
    (d : Disk) (b c : ℕ)
    → d.held b ≡ false
    → d.held c ≡ false
    → release (release (hold (hold d b) c) b) c ≡ d
release-hold_two d b c h g =
    same_disk d (release (release (hold (hold d b) c) b) c) refl (λ j. held j)
  where
    held :
        (j : ℕ)
        → update (update (update (update d.held b true) c true) b false) c false j ≡ d.held j
    held j = elim (Bool-cases (c == j)) [
      | inl same ↦ let e : c ≡ j = ground (arith, same) in rw same (sym g ∙ ap d.held e)
      | inr other ↦ rw other (elim (Bool-cases (b == j)) [
        | inl same ↦ let e : b ≡ j = ground (arith, same) in rw same (sym h ∙ ap d.held e)
        | inr apart ↦ rw apart refl
      ])
    ]

abbrev at : Fs → Disk → Fs
at s d = record s { disk = d }

module _ (sp : Super) (failed : ℕ → Bool) (creat : Bool) (s : Fs) (r : IsReadable s.disk s.ip) where
  add_entry-kept :
      (b i : ℕ) (t : Fs)
      → (zmap_entry (t.disk.block b) i == 0 && creat) ≡ false
      → add_entry sp failed b i creat t ≡ done t tt
  unfolding add_entry
  add_entry-kept b i t e = rw e refl

  direct-found :
      (n : ℕ)
      → (s.ip.zone n == 0 && creat) ≡ false
      → direct sp failed n creat s ≡ done s (s.ip.zone n)
  unfolding direct
  direct-found n e = rw e refl

  indirect-found :
      (n : ℕ)
      → (zmap_entry (s.disk.block (s.ip.zone 7)) n == 0 && creat) ≡ false
      → indirect sp failed n creat s ≡ done s (zmap_entry (s.disk.block (s.ip.zone 7)) n)
  unfolding indirect
  indirect-found n e =
      let b = s.ip.zone 7 in
      let t = at s (hold s.disk b) in
      >>=-done (bread b) (λ _. add_entry sp failed b n creat >> (brelse b >> entry_now b n)) s t tt
        (bread-free b s (r.free b))
      ∙ >>=-done (add_entry sp failed b n creat) (λ _. brelse b >> entry_now b n) t t tt
          (add_entry-kept b n t e)
      ∙ ap (λ (d : Disk). done (at s d) (zmap_entry (s.disk.block b) n))
          (release-hold s.disk b (r.free b))

  second_level-found :
      (n : ℕ)
      → let b = s.ip.zone 8 in
        let c = zmap_entry (s.disk.block b) (n / nindblk) in
        c ≢ b
        → (zmap_entry (s.disk.block c) (n % nindblk) == 0 && creat) ≡ false
        → second_level sp failed b c n creat (at s (hold s.disk b))
          ≡ done s (zmap_entry (s.disk.block c) (n % nindblk))
  unfolding second_level
  second_level-found n ne e =
      let b = s.ip.zone 8 in
      let c = zmap_entry (s.disk.block b) (n / nindblk) in
      let i = n % nindblk in
      let t = at s (hold s.disk b) in
      let u = at s (hold (hold s.disk b) c) in
      let other : (b == c) ≡ false = ground (arith, ne) in
      let free : t.disk.held c ≡ false = rw other (r.free c) in
      >>=-done (bread c)
        (λ _. add_entry sp failed c i creat >> (brelse b >> (brelse c >> entry_now c i))) t u tt
        (bread-free c t free)
      ∙ >>=-done (add_entry sp failed c i creat) (λ _. brelse b >> (brelse c >> entry_now c i)) u u
          tt (add_entry-kept c i u e)
      ∙ ap (λ (d : Disk). done (at s d) (zmap_entry (s.disk.block c) i))
          (release-hold_two s.disk b c (r.free b) (r.free c))

  double-found :
      (n : ℕ)
      → let b = s.ip.zone 8 in
        let c = zmap_entry (s.disk.block b) (n / nindblk) in
        b ≢ 0
        → (table_entry s.disk c (n % nindblk) == 0 && creat) ≡ false
        → double sp failed n creat s ≡ done s (table_entry s.disk c (n % nindblk))
  unfolding double
  double-found n some_table e =
      let b = s.ip.zone 8 in
      let c = zmap_entry (s.disk.block b) (n / nindblk) in
      let t = at s (hold s.disk b) in
      >>=-done (bread b) (λ _. through sp failed b n creat) s t tt (bread-free b s (r.free b))
      ∙ elim (Bool-cases (c == 0)) [
        | inl none_there ↦
            let keep : creat ≡ false = ground (arith, e) in
            rw (none_there, keep, through)
              (ap (λ (d : Disk). done (at s d) 0) (release-hold s.disk b (r.free b)))
        | inr there ↦
            rw (there, through)
              (second_level-found n (r.apart (n / nindblk) some_table) (rw there at e))
      ]

  -- Whatever the level, with nothing to make.
  pub bmap-settled :
      (nr : ℕ)
      → nr < 2 ^ 16
      → (ltb (s.ip.size / blk) nr && not creat) ≡ false
      → (zone_of s.disk s.ip nr == 0 && creat) ≡ false
      → bmap sp failed nr creat s ≡ done s (zone_of s.disk s.ip nr)
  unfolding bmap with_table
  bmap-settled nr small inside e =
      let narrow : nr % 2 ^ 16 ≡ nr = omega arith in
      let low : ltb (max_filesiz / blk) nr ≡ false = ground (arith, small) in
      rw (narrow, low, inside)
        (elim (Bool-cases (ltb nr 7)) [
          | inl first ↦ rw first (direct-found nr (rw first at e))
          | inr later ↦
              let e' = rw later at e in
              rw later (elim (Bool-cases (ltb (nr - 7) nindblk)) [
                | inl one ↦ rw one (behind_one (nr - 7) (rw one at e'))
                | inr two ↦ rw two (behind_two (nr - 7 - nindblk) (rw two at e'))
              ])
        ])
    where
      behind_one :
          (n : ℕ)
          → (table_entry s.disk (s.ip.zone 7) n == 0 && creat) ≡ false
          → with_table sp failed 7 creat (indirect sp failed n creat) s
            ≡ done s (table_entry s.disk (s.ip.zone 7) n)
      behind_one n e = elim (Bool-cases (s.ip.zone 7 == 0)) [
        | inl missing ↦ let keep : creat ≡ false = ground (arith, e) in rw (missing, keep) refl
        | inr there ↦ rw there (indirect-found n (rw there at e))
      ]

      behind_two :
          (n : ℕ)
          → (table_entry s.disk (table_entry s.disk (s.ip.zone 8) (n / nindblk)) (n % nindblk) == 0
              && creat)
            ≡ false
          → with_table sp failed 8 creat (double sp failed n creat) s
            ≡ done s
                (table_entry s.disk (table_entry s.disk (s.ip.zone 8) (n / nindblk)) (n % nindblk))
      behind_two n e = elim (Bool-cases (s.ip.zone 8 == 0)) [
        | inl missing ↦ let keep : creat ≡ false = ground (arith, e) in rw (missing, keep) refl
        | inr there ↦
            let some_table : s.ip.zone 8 ≢ 0 = ground (arith, there) in
            rw there (double-found n some_table (rw there at e))
      ]
