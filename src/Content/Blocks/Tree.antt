-- ===== src/Content/Blocks/Tree.antt =====
-- The tree of zones behind a file, as bmap of src/fs/bmap.c changes it: one zone more.
use fleurix.Base.{
  ℕ, ◌+◌, ◌-◌, ◌*◌, ◌/◌, ◌%◌, ◌^◌, ◌≤◌, ◌<◌, ◌≡◌, ◌≢◌, refl, ap, ◌∙◌, true, false, ◌&&◌, leb, ltb,
  ◌==◌, if◌then◌else◌, inl, inr, Bool-cases, arith,
}
use fleurix.Kernel.{Inode}
use fleurix.Alloc.{Disk}
use fleurix.Content.{nindblk, splice, byte}
use fleurix.Content.Blocks.{zmap_entry}
use fleurix.Content.Blocks.Lookup.{IsReadable, table_entry, zone_of}

-- The tables of a file can be read, are distinct blocks, and are neither the block `m` of the zone map
-- nor the block `ib` of the inode.
pub record IsTree (m ib : ℕ) (d : Disk) (ip : Inode) : Type 0 where
  pub readable : IsReadable d ip
  pub one_apart :
      ip.zone 7 ≢ 0
      → (ip.zone 7 ≢ m)
        × (ip.zone 7 ≢ ib)
        × (ip.zone 7 ≢ ip.zone 8)
        × ((i : ℕ) → ip.zone 7 ≢ table_entry d (ip.zone 8) i)
  pub two_apart : ip.zone 8 ≢ 0 → (ip.zone 8 ≢ m) × (ip.zone 8 ≢ ib)
  pub inner_apart :
      (i : ℕ)
      → table_entry d (ip.zone 8) i ≢ 0
      → (table_entry d (ip.zone 8) i ≢ m) × (table_entry d (ip.zone 8) i ≢ ib)
  pub inner_distinct :
      (i j : ℕ)
      → i < nindblk
      → j < nindblk
      → table_entry d (ip.zone 8) i ≢ 0
      → table_entry d (ip.zone 8) i ≡ table_entry d (ip.zone 8) j
      → i ≡ j

-- A table whose block is as before.
pub table_entry_kept :
    (d d' : Disk) (b i : ℕ)
    → (b ≢ 0 → d'.block b ≡ d.block b)
    → table_entry d' b i ≡ table_entry d b i
table_entry_kept d d' b i h = elim (Bool-cases (b == 0)) [
  | inl missing ↦ rw missing refl
  | inr there ↦
      let ne : b ≢ 0 = ground (arith, there) in
      ap (λ (c : ℕ → ℕ). if b == 0 then 0 else zmap_entry c i) (h ne)
]

-- An entry that is stored, and those that stay.
pub zmap_entry-stored :
    (zmap : ℕ → ℕ) (i z k : ℕ)
    → z < 2 ^ 15
    → zmap_entry (splice zmap (2 * i) 2 (λ (j : ℕ). byte j z)) k
      ≡ (if k == i then z else zmap_entry zmap k)
zmap_entry-stored zmap i z k small = elim (Bool-cases (k == i)) [
  | inl same ↦
      let e : k ≡ i = ground (arith, same) in
      let low : splice zmap (2 * i) 2 (λ (j : ℕ). byte j z) (2 * k) ≡ z % 256 =
        let hit : (leb (2 * i) (2 * k) && ltb (2 * k) (2 * i + 2)) ≡ true = ground (arith, e) in
        let at : 2 * k - 2 * i ≡ 0 = omega (arith, e) in rw (hit, at) refl in
      let high : splice zmap (2 * i) 2 (λ (j : ℕ). byte j z) (2 * k + 1) ≡ z / 256 % 256 =
        let hit : (leb (2 * i) (2 * k + 1) && ltb (2 * k + 1) (2 * i + 2)) ≡ true =
          ground (arith, e) in
        let at : 2 * k + 1 - 2 * i ≡ 1 = omega (arith, e) in rw (hit, at) refl in
      let whole : z % 256 + 256 * (z / 256 % 256) ≡ z = omega (arith, small) in
      let positive : ltb z 32768 ≡ true = ground (arith, small) in
      rw (same, low, high, whole, positive) refl
  | inr other ↦
      let low : (leb (2 * i) (2 * k) && ltb (2 * k) (2 * i + 2)) ≡ false = ground (arith, other) in
      let high : (leb (2 * i) (2 * k + 1) && ltb (2 * k + 1) (2 * i + 2)) ≡ false =
        ground (arith, other) in
      rw (other, low, high) refl
]

-- The three levels of a file that has one zone more, `z` for its block `n`.
pub zone_of_more :
    (d d' : Disk) (ip ip' : Inode) (n z : ℕ)
    → ip'.zone 7 ≡ ip.zone 7
    → ip'.zone 8 ≡ ip.zone 8
    → ((k : ℕ) → k < 7 → ip'.zone k ≡ (if k == n then z else ip.zone k))
    → ((i : ℕ)
        → i < nindblk
        → table_entry d' (ip.zone 7) i ≡ (if i + 7 == n then z else table_entry d (ip.zone 7) i))
    → ((q r : ℕ)
        → q < nindblk
        → r < nindblk
        → table_entry d' (table_entry d' (ip.zone 8) q) r ≡ (
            if q * nindblk + r + 519 == n
            then z
            else table_entry d (table_entry d (ip.zone 8) q) r))
    → (k : ℕ) → k < 2 ^ 16
    → zone_of d' ip' k ≡ (if k == n then z else zone_of d ip k)
zone_of_more d d' ip ip' n z e7 e8 h0 h1 h2 k small = elim (Bool-cases (ltb k 7)) [
  | inl first ↦ rw first (h0 k (ground (arith, first)))
  | inr later ↦ rw later (elim (Bool-cases (ltb (k - 7) nindblk)) [
    | inl one ↦
        let back : k - 7 + 7 ≡ k = ground (arith, later) in
        rw one (
          ap (λ (b : ℕ). table_entry d' b (k - 7)) e7
          ∙ h1 (k - 7) (ground (arith, one))
          ∙ ap (λ (x : ℕ). if x == n then z else table_entry d (ip.zone 7) (k - 7)) back)
    | inr two ↦
        let q = (k - 7 - nindblk) / nindblk in
        let r = (k - 7 - nindblk) % nindblk in
        let far : 519 ≤ k = ground (arith, later, two) in
        let back : q * nindblk + r + 519 ≡ k = omega (arith, far) in
        rw two (
          ap (λ (b : ℕ). table_entry d' (table_entry d' b q) r) e8
          ∙ h2 q r (omega (arith, small)) (omega arith)
          ∙ ap (λ (x : ℕ). if x == n then z else table_entry d (table_entry d (ip.zone 8) q) r)
              back)
  ])
]
