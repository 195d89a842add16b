-- ===== src/Buf/Found.antt =====
-- Taking a buffer off the free list, and the search for a block in the list of its device.
use fleurix.Base.{
  ℕ, zero, suc, ◌+◌, ◌<◌, ◌≡◌, true, false, Option, none, some, List, [], ◌∷◌, if◌then◌else◌, arith,
  length,
}
use fleurix.Base.Word.{u16}
use fleurix.Buf.{
  Cache, nbuf, free_head, hdtab, b_busy, major, notavail, av_unlink, incore_from, incore,
}
use fleurix.Buf.Rings.{
  Links, erase, unlink-Ring, frame-Ring, mem-erase, mem-erase_out, mem-erase_self, Links-before,
  Links-after,
}
use fleurix.Buf.Valid.{
  IsValid, names, av_next_of, av_prev_of, next_of, prev_of, length-Distinct, busy-with_bit,
  av_unlink-Unlinked, free-queue-apart,
}
use fleurix.Pm.Chain.{mem}

-- Off the free list a buffer is busy, and otherwise as it was.
pub notavail-IsValid :
    (c : Cache) (x : ℕ) {free queue cached : List ℕ}
    → mem x free ≡ true
    → IsValid c free queue cached
    → IsValid (notavail c x) (erase x free) queue cached
unfolding notavail
notavail-IsValid c x {free} {queue} {cached} m v =
    let lt = v.free_below x m in
    let idle = v.free_idle x lt in
    let before =
      Links-before (av_next_of c) (av_prev_of c) free_head free free_head x m v.free_ring.path in
    let after =
      Links-after (av_next_of c) (av_prev_of c) free_head free free_head x m v.free_ring.path in
    record {
      free_ring =
          frame-Ring free_head (erase x free) (λ j i. ground arith)
            (unlink-Ring (av_unlink-Unlinked c x) free_head free m v.free_ring);
      queue_ring =
          frame-Ring hdtab queue (λ j i. unfold av_unlink in ground (arith, free-queue-apart v j i))
            v.queue_ring;
      device_ring = frame-Ring hdtab cached (λ j i. unfold av_unlink in ground arith) v.device_ring;
      loose = λ j l i. unfold av_unlink in ground (arith, v.loose j l i);
      free_idle = λ j l.
          unfold av_unlink in
          ground (
            arith,
            v.free_idle j l,
            mem-erase j x free,
            mem-erase_out j x free,
            mem-erase_self x free v.free_ring.distinct,
            busy-with_bit (c.node x).flag b_busy,
          );
      free_below = λ j i. ground (arith, v.free_below j, mem-erase_out j x free);
      queue_busy = λ j i.
          unfold av_unlink in
          ground (arith, v.queue_busy j i, busy-with_bit (c.node x).flag b_busy);
      cached_below = v.cached_below;
      one_block = λ j k i l. unfold av_unlink in ground (arith, v.one_block j k i l);
      devices = v.devices;
      works = v.works;
    }

-- The first buffer of a list that has the name of the block.
abbrev pub find_block : Cache → ℕ → ℕ → List ℕ → Option ℕ
find_block c dev blkno [] = none
find_block c dev blkno (x ∷ xs) = if names c x dev blkno then some x else find_block c dev blkno xs

incore_from-find_block :
    (c : Cache) (dtp dev blkno rounds a : ℕ) (xs : List ℕ)
    → Links (next_of c) (prev_of c) a xs dtp
    → mem dtp xs ≡ false
    → length xs < rounds
    → incore_from c.node dtp dev blkno rounds (c.node a).next ≡ find_block c (u16 dev) blkno xs
unfolding incore_from
incore_from-find_block c dtp dev blkno zero a xs p out fuel = absurd (omega arith)
incore_from-find_block c dtp dev blkno (suc rounds) a [] p out fuel = ground arith
incore_from-find_block c dtp dev blkno (suc rounds) a (x ∷ xs) p out fuel =
    let later =
      incore_from-find_block c dtp dev blkno rounds x xs p.2 (ground arith) (omega arith) in
    ground (arith, later)

-- The walk along the links finds the first buffer in the list of the device with the name of the
-- block, and ends.
pub incore-find_block :
    (c : Cache) (dev blkno : ℕ) {free queue cached : List ℕ}
    → IsValid c free queue cached
    → major (u16 dev) ≡ 1
    → incore c dev blkno ≡ find_block c (u16 dev) blkno cached
unfolding incore
incore-find_block c dev blkno {cached} v m =
    let few = length-Distinct nbuf cached v.device_ring.distinct v.cached_below in
    rw (m) (
      incore_from-find_block c hdtab dev blkno (nbuf + 1) hdtab cached v.device_ring.path
        v.device_ring.apart (omega arith))

pub find_block-some :
    (c : Cache) (dev blkno : ℕ) (xs : List ℕ) (i : ℕ)
    → find_block c dev blkno xs ≡ some i
    → (mem i xs ≡ true) × (names c i dev blkno ≡ true)
find_block-some c dev blkno [] i e = absurd (grind arith)
find_block-some c dev blkno (x ∷ xs) i e = ground (arith, find_block-some c dev blkno xs i)

pub find_block-none :
    (c : Cache) (dev blkno : ℕ) (xs : List ℕ)
    → find_block c dev blkno xs ≡ none
    → (i : ℕ) → mem i xs ≡ true
    → names c i dev blkno ≡ false
find_block-none c dev blkno [] e i m = absurd (ground arith)
find_block-none c dev blkno (x ∷ xs) e i m =
    let miss : names c x dev blkno ≡ false = ground arith in
    let later : find_block c dev blkno xs ≡ none = ground arith in
    ground (arith, find_block-none c dev blkno xs later i)
