-- ===== src/Buf/Valid.antt =====
-- When the cache is well formed, and what keeps it so.
use fleurix.Base.{
  ℕ, zero, suc, ◌-◌, ◌^◌, ◌≤◌, ◌<◌, min, ◌≡◌, Bool, true, false, not, ◌&&◌, ◌||◌, List, [], ◌∷◌,
  ◌==◌, arith, length,
}
use fleurix.Base.Bits.{bit, has_bit, has_bit-eq, bit-set, bit-bit_and}
use fleurix.Buf.{
  Cache, nbuf, free_head, hdtab, b_busy, with_bit, without, set_flag, major, av_unlink,
}
use fleurix.Buf.Rings.{
  Ring, Unlinked, erase, erase-Distinct, frame-Ring, mem-erase_out, mem-erase_self,
}
use fleurix.Pm.Chain.{mem, Distinct}

abbrev pub busy : Cache → ℕ → Bool
busy c i = has_bit (c.node i).flag b_busy

abbrev pub av_next_of : Cache → ℕ → ℕ
av_next_of c i = (c.node i).av_next

abbrev pub av_prev_of : Cache → ℕ → ℕ
av_prev_of c i = (c.node i).av_prev

abbrev pub next_of : Cache → ℕ → ℕ
next_of c i = (c.node i).next

abbrev pub prev_of : Cache → ℕ → ℕ
prev_of c i = (c.node i).prev

-- The buffer `i` is named as the block.
abbrev pub names : Cache → ℕ → ℕ → ℕ → Bool
names c i dev blkno = (c.node i).dev == dev && (c.node i).blkno == blkno

abbrev pub idle_or_started : List ℕ → ℕ
idle_or_started [] = 0
idle_or_started (_ ∷ _) = 1

-- The free buffers from the oldest on, the requests of the drive from the oldest on, and the
-- buffers in the list of the device, stand in rings; a buffer is free when it is not busy, and a
-- request is busy; no block of the drive has two buffers; the drive works when it has a request.
pub record IsValid (c : Cache) (free queue cached : List ℕ) : Type 0 where
  pub free_ring : Ring (av_next_of c) (av_prev_of c) free_head free
  pub queue_ring : Ring (av_prev_of c) (av_next_of c) hdtab queue
  pub device_ring : Ring (next_of c) (prev_of c) hdtab cached
  pub loose :
      (i : ℕ) → i < nbuf → mem i cached ≡ false → ((c.node i).next ≡ i) × ((c.node i).prev ≡ i)
  pub free_idle : (i : ℕ) → i < nbuf → mem i free ≡ not (busy c i)
  pub free_below : (i : ℕ) → mem i free ≡ true → i < nbuf
  pub queue_busy : (i : ℕ) → mem i queue ≡ true → (i < nbuf) × (busy c i ≡ true)
  pub cached_below : (i : ℕ) → mem i cached ≡ true → i < nbuf
  pub one_block :
      (i j : ℕ)
      → mem i cached ≡ true
      → mem j cached ≡ true
      → major (c.node i).dev ≡ 1
      → (c.node i).dev ≡ (c.node j).dev
      → (c.node i).blkno ≡ (c.node j).blkno
      → i ≡ j
  pub devices : c.nblkdev ≡ 2
  pub works : c.active ≡ idle_or_started queue

length-erase : (x : ℕ) (xs : List ℕ) → length xs ≤ suc (length (erase x xs))
length-erase x [] = omega arith
length-erase x (y ∷ ys) = ground (arith, length-erase x ys)

-- Distinct numbers below a bound are not more than that.
pub length-Distinct :
    (n : ℕ) (xs : List ℕ) → Distinct xs → ((a : ℕ) → mem a xs ≡ true → a < n) → length xs ≤ n
length-Distinct zero [] d h = omega arith
length-Distinct zero (x ∷ xs) d h = absurd (ground (arith, h x))
length-Distinct (suc n) xs d h =
    let rest =
      length-Distinct n (erase n xs) (erase-Distinct n xs d)
        λ a m. ground (arith, h a, mem-erase_out a n xs, mem-erase_self n xs d) in
    omega (arith, rest, length-erase n xs)

-- What a change of the flag of `i` does to the cache when it leaves the busy bit.
pub set_flag-IsValid :
    (c : Cache) (i f : ℕ) {free queue cached : List ℕ}
    → has_bit f b_busy ≡ busy c i
    → IsValid c free queue cached
    → IsValid (set_flag c i f) free queue cached
set_flag-IsValid c i f {free} {queue} {cached} e v = record {
  free_ring = frame-Ring free_head free (λ j m. ground arith) v.free_ring;
  queue_ring = frame-Ring hdtab queue (λ j m. ground arith) v.queue_ring;
  device_ring = frame-Ring hdtab cached (λ j m. ground arith) v.device_ring;
  loose = λ j lt m. ground (arith, v.loose j);
  free_idle = λ j lt. ground (arith, v.free_idle j lt);
  free_below = v.free_below;
  queue_busy = λ j m. ground (arith, v.queue_busy j);
  cached_below = v.cached_below;
  one_block = λ j k m n. ground (arith, v.one_block j k m n);
  devices = v.devices;
  works = v.works;
}

pub busy-with_bit : (f b : ℕ) → has_bit (with_bit f b) b_busy ≡ (b_busy == b || has_bit f b_busy)
busy-with_bit f b =
    ground (arith, has_bit-eq (with_bit f b) b_busy, has_bit-eq f b_busy, bit-set b_busy b f)

-- The two stores of `notavail`.
pub av_unlink-Unlinked :
    (c : Cache) (x : ℕ)
    → Unlinked
        (av_next_of c)
        (av_prev_of c)
        (av_next_of (av_unlink c x))
        (av_prev_of (av_unlink c x))
        x
unfolding av_unlink
av_unlink-Unlinked c x = record { forth = λ j. ground arith; back = λ j. ground arith }

-- A free buffer has no request at the drive.
pub free-queue-apart :
    {c : Cache} {free queue cached : List ℕ}
    → IsValid c free queue cached
    → (j : ℕ) → mem j (hdtab ∷ queue) ≡ true
    → mem j (free_head ∷ free) ≡ false
free-queue-apart v j m = ground (arith, v.queue_busy j, v.free_idle j, v.free_below j)

pub bit-without :
    (k f mask : ℕ) → bit k (without f mask) ≡ min (bit k f) (bit k (2 ^ 32 - 1 - mask))
bit-without k f mask = bit-bit_and k f (2 ^ 32 - 1 - mask)
