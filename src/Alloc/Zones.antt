-- ===== src/Alloc/Zones.antt =====
-- Giving out a zone and freeing it: balloc and bfree of src/fs/alloc.c.
use fleurix.Base.{
  ℕ, ◌+◌, ◌-◌, ◌^◌, ◌≤◌, ◌<◌, ◌≡◌, ◌⊎◌, refl, sym, ap, ◌∙◌, subst, true, false, ◌==◌, ◌||◌, ltb,
  leb, arith, Bool-cases, inl, inr,
}
use fleurix.Base.Word.{u32}
use fleurix.Base.Loops.{update}
use fleurix.Kernel.{Super}
use fleurix.Alloc.{
  Disk, Outcome, returns, sleeps, panics, bpb, clear_bit, test_bit, write_back, take_bit, drop_bit,
  bmapblk, as_zone, balloc, bfree,
}
use fleurix.Alloc.Search.{test_bit-clear}
use fleurix.Alloc.Inodes.{Takes, take_bit-Takes, taken_back}

-- The bit of a zone.
zone_bit :
    (sp : Super) (o : Outcome ℕ) (d' : Disk) (z : ℕ)
    → as_zone sp o ≡ returns d' z
    → (r : ℕ) × (o ≡ returns d' r) × (z ≡ sp.data_zone0 + r)
unfolding as_zone
zone_bit sp (returns d bn) d' z e =
    let disk : d ≡ d' = cc e in (bn, ap (λ (x : Disk). returns x bn) disk, cc e)
zone_bit sp (sleeps b) d' z e = absurd (cc e)
zone_bit sp panics d' z e = absurd (cc e)

-- What an end of `bfree` that returns has done.
dropped :
    (b bn : ℕ) (d d' : Disk)
    → drop_bit b bn d ≡ returns d' tt
    → (test_bit (d.block b) bn ≡ true) × (d' ≡ write_back d b (clear_bit (d.block b) bn))
unfolding drop_bit
dropped b bn d d' e = elim (Bool-cases (d.held b)) [
  | inl busy ↦ let run : drop_bit b bn d ≡ sleeps b = rw busy refl in absurd (cc (run, e))
  | inr free ↦ elim (Bool-cases (test_bit (d.block b) bn)) [
    | inl set ↦
        let run : drop_bit b bn d ≡ returns (write_back d b (clear_bit (d.block b) bn)) tt =
          rw free (rw set refl) in
        (set, cc (run, e))
    | inr clear ↦
        let run : drop_bit b bn d ≡ panics = rw free (rw clear refl) in absurd (cc (run, e))
  ]
]

-- `bfree` of the zone of bit `r` drops the bit behind it.
bfree-next :
    (sp : Super) (r : ℕ) (d d' : Disk)
    → sp.data_zone0 < 2 ^ 16
    → r < bpb
    → bfree sp (sp.data_zone0 + r) d ≡ returns d' tt
    → drop_bit (bmapblk sp (r + 1)) (r + 1) d ≡ returns d' tt
unfolding bfree
bfree-next sp r d d' small lt e =
    let bn : u32 (sp.data_zone0 + r + 1 + 2 ^ 32 - sp.data_zone0) ≡ r + 1 =
      omega (arith, small, lt) in
    elim (Bool-cases
      (ltb (sp.data_zone0 + r) sp.data_zone0 || leb sp.max_zone (sp.data_zone0 + r))) [
        | inl bad ↦
            let run : bfree sp (sp.data_zone0 + r) d ≡ panics = rw bad refl in absurd (cc (run, e))
        | inr known ↦
            let run : bfree sp (sp.data_zone0 + r) d
                ≡ drop_bit (bmapblk sp (u32 (sp.data_zone0 + r + 1 + 2 ^ 32 - sp.data_zone0)))
                    (u32 (sp.data_zone0 + r + 1 + 2 ^ 32 - sp.data_zone0)) d =
              rw known refl in
            ap (λ (n : ℕ). drop_bit (bmapblk sp n) n d) (sym bn) ∙ sym run ∙ e
      ]

-- A zone that is not in the data area.
pub bfree-outside :
    (sp : Super) (nr : ℕ) (d : Disk)
    → (nr < sp.data_zone0) ⊎ (sp.max_zone ≤ nr)
    → bfree sp nr d ≡ panics
unfolding bfree
bfree-outside sp nr d (inl low) =
    let bad : (ltb nr sp.data_zone0 || leb sp.max_zone nr) ≡ true = ground (arith, low) in
    rw bad refl
bfree-outside sp nr d (inr high) =
    let bad : (ltb nr sp.data_zone0 || leb sp.max_zone nr) ≡ true = ground (arith, high) in
    rw bad refl

-- `balloc` on a device of two zones or more, with the first block of the zone map held by no
-- process, marks the lowest free bit of it and no other, and its zone is the first data zone plus
-- that bit; with every bit set it sleeps on the block that it holds itself.
pub balloc-Takes :
    (sp : Super) (d : Disk)
    → 1 < sp.max_zone
    → d.held (2 + sp.nimap_blk) ≡ false
    → (o : Outcome ℕ) × Takes (2 + sp.nimap_blk) d o × (balloc sp d ≡ as_zone sp o)
unfolding balloc
balloc-Takes sp d more free =
    let first : bmapblk sp 0 ≡ 2 + sp.nimap_blk = omega arith in
    let same : bmapblk sp 1 ≡ bmapblk sp 0 = refl in
    let held : d.held (bmapblk sp 0) ≡ false = ap d.held first ∙ free in
    (
      take_bit sp.max_zone 0 (bmapblk sp) d,
      subst (λ (b : ℕ). Takes b d (take_bit sp.max_zone 0 (bmapblk sp) d)) first
          (take_bit-Takes sp.max_zone (bmapblk sp) d more same held),
      refl,
    )

-- A zone that `balloc` gave out on such a device is not freed by `bfree`: where `bfree` of it
-- returns, the zone's own bit is still set, and it is the next bit, which was set, that is now clear.
pub balloc-bfree :
    (sp : Super) (d d' d'' : Disk) (z : ℕ)
    → 1 < sp.max_zone
    → sp.data_zone0 < 2 ^ 16
    → d.held (2 + sp.nimap_blk) ≡ false
    → balloc sp d ≡ returns d' z
    → bfree sp z d' ≡ returns d'' tt
    → (r : ℕ) × (z ≡ sp.data_zone0 + r)
      × (test_bit (d''.block (2 + sp.nimap_blk)) r ≡ true)
      × (test_bit (d'.block (bmapblk sp (r + 1))) (r + 1) ≡ true)
      × (test_bit (d''.block (bmapblk sp (r + 1))) (r + 1) ≡ false)
balloc-bfree sp d d' d'' z more small free e f =
    let at = 2 + sp.nimap_blk in
    let b = balloc-Takes sp d more free in
    let zb = zone_bit sp b.0 d' z (sym b.2 ∙ e) in
    let t = taken_back at d d' zb.0 b.0 b.1 zb.1 in
    let run = bfree-next sp zb.0 d' d'' small t.0 (ap (λ (x : ℕ). bfree sp x d') (sym zb.2) ∙ f) in
    let p = dropped (bmapblk sp (zb.0 + 1)) (zb.0 + 1) d' d'' run in
    let was : test_bit (d'.block at) zb.0 ≡ true = t.2 zb.0 ∙ ground arith in
    (
      zb.0,
      zb.2,
      ap (λ (x : Disk). test_bit (x.block at) zb.0) p.1 ∙ kept (bmapblk sp (zb.0 + 1)) at zb.0 was,
      p.0,
      ap (λ (x : Disk). test_bit (x.block (bmapblk sp (zb.0 + 1))) (zb.0 + 1)) p.1
          ∙ gone (bmapblk sp (zb.0 + 1)) (zb.0 + 1),
    )
  where
    kept :
        (b at r : ℕ)
        → test_bit (d'.block at) r ≡ true
        → test_bit (update d'.block b (clear_bit (d'.block b) (r + 1)) at) r ≡ true
    kept b at r was = elim (Bool-cases (b == at)) [
      | inl same ↦
          let e : b ≡ at = ground (arith, same) in
          rw same (
            test_bit-clear (d'.block b) (r + 1) r
            ∙ ground arith
            ∙ ap (λ (i : ℕ). test_bit (d'.block i) r) e
            ∙ was)
      | inr other ↦ rw other was
    ]

    gone : (b n : ℕ) → test_bit (update d'.block b (clear_bit (d'.block b) n) b) n ≡ false
    gone b n =
        let same : (b == b) ≡ true = ground arith in
        let self : (n == n) ≡ true = ground arith in
        rw same (test_bit-clear (d'.block b) n n ∙ rw self refl)
