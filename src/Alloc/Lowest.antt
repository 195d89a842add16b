-- ===== src/Alloc/Lowest.antt =====
-- Which zone balloc of src/fs/alloc.c gives out, and what it leaves alone.
use fleurix.Base.{ℕ, ◌+◌, ◌<◌, ◌≡◌, ◌≢◌, ◌⊎◌, inl, inr, Bool, ap, ◌∙◌, true, false, arith}
use fleurix.Kernel.{Super}
use fleurix.Alloc.{Disk, Outcome, returns, bpb, test_bit, as_zone, balloc}
use fleurix.Alloc.Inodes.{Takes, took, stuck}
use fleurix.Alloc.Zones.{balloc-Takes}

-- `r` is the lowest clear bit of a bitmap.
pub record IsLowest (bm : ℕ → ℕ) (r : ℕ) : Type 0 where
  pub inside : r < bpb
  pub clear : test_bit bm r ≡ false
  pub below : (q : ℕ) → q < r → test_bit bm q ≡ true

-- `d'` is `d` but for the block `m`, which is not held.
pub record Differs (m : ℕ) (d d' : Disk) : Type 0 where
  pub blocks : (b : ℕ) → b ≢ m → d'.block b ≡ d.block b
  pub free : (b : ℕ) → d.held b ≡ false → d'.held b ≡ false
  pub kept : (b : ℕ) → b ≢ m → d'.held b ≡ d.held b

order : (a b : ℕ) → (a ≡ b) ⊎ ((a < b) ⊎ (b < a))
order a b = ground arith

by_end :
    (sp : Super) (m : ℕ) (d : Disk) (r : ℕ) (o : Outcome ℕ)
    → IsLowest (d.block m) r
    → Takes m d o
    → (d' : Disk) × (as_zone sp o ≡ returns d' (sp.data_zone0 + r)) × Differs m d d'
unfolding as_zone
by_end sp m d r o low (took d' r' lt clear below bits kept held) =
    let same : r' ≡ r = elim (order r' r) [
      | inl e ↦ e
      | inr (inl less) ↦ absurd (cc (low.below r' less, clear))
      | inr (inr more) ↦ absurd (cc (below r more, low.clear))
    ] in
    (
      d',
      ap (λ (q : ℕ). returns d' (sp.data_zone0 + q)) same,
      record {
        blocks = kept;
        free = λ b h. ap (λ (f : ℕ → Bool). f b) held ∙ ground (arith, h);
        kept = λ b ne. ap (λ (f : ℕ → Bool). f b) held ∙ ground (arith, ne);
      },
    )
by_end sp m d r o low (stuck all) = absurd (cc (all r low.inside, low.clear))

-- With the lowest clear bit known, `balloc` returns its zone and changes the one block of the zone map.
pub balloc-lowest :
    (sp : Super) (d : Disk) (r : ℕ)
    → 1 < sp.max_zone
    → d.held (2 + sp.nimap_blk) ≡ false
    → IsLowest (d.block (2 + sp.nimap_blk)) r
    → (d' : Disk) × (balloc sp d ≡ returns d' (sp.data_zone0 + r)) × Differs (2 + sp.nimap_blk) d d'
balloc-lowest sp d r more free low =
    let b = balloc-Takes sp d more free in
    let e = by_end sp (2 + sp.nimap_blk) d r b.0 low b.1 in (e.0, b.2 ∙ e.1, e.2)
