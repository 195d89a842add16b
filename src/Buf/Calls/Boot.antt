-- ===== src/Buf/Calls/Boot.antt =====
-- The cache after `buf_init`.
use fleurix.Base.{ℕ, zero, suc, ◌+◌, ◌<◌, ◌≡◌, refl, subst, false, List, [], ◌∷◌, ◌++◌, ltb, arith}
use fleurix.Base.Loops.{for_range, for_range_inv, update}
use fleurix.Buf.{Cache, nbuf, free_head}
use fleurix.Buf.Calls.{
  brelse, wake_waiting, put_back, av_append, free_buf, alone, init_dev, buf_init,
}
use fleurix.Buf.Calls.Release.{
  put_back-Appended, put_back_buf, clean_buf_rest, clean_buf-busy, wake_waiting-node,
}
use fleurix.Buf.Rings.{Ring, Links-last, append-Ring, frame-Ring}
use fleurix.Buf.Valid.{IsValid, busy, av_next_of, av_prev_of}
use fleurix.Pm.Chain.{mem, mem-append}

-- The numbers below `n`, from 0 on.
abbrev pub upto : ℕ → List ℕ
upto zero = []
upto (suc n) = upto n ++ n ∷ []

mem-upto : (j n : ℕ) → mem j (upto n) ≡ ltb j n
mem-upto j zero = ground arith
mem-upto j (suc n) = ground (arith, mem-upto j n, mem-append j (upto n) (n ∷ []))

-- The first `n` buffers are free, and in no list of a device.
record Freed (n : ℕ) (c : Cache) : Type 0 where
  ring : Ring (av_next_of c) (av_prev_of c) free_head (upto n)
  each : (j : ℕ) → j < n → ((c.node j).next ≡ j) × ((c.node j).prev ≡ j) × (busy c j ≡ false)
  idle : c.active ≡ 0

-- The links of the lists stay in the wakeups.
links-wake_waiting :
    (chan : ℕ → ℕ) (c : Cache) (x j : ℕ)
    → (av_next_of (wake_waiting chan c x) j ≡ av_next_of c j)
      × (av_prev_of (wake_waiting chan c x) j ≡ av_prev_of c j)
      × ((wake_waiting chan c x).active ≡ c.active)
unfolding wake_waiting
links-wake_waiting chan c x j = ground arith

suc-eq-add_one : (i : ℕ) → suc i ≡ i + 1
suc-eq-add_one i = omega arith

put_back-active : (c : Cache) (x : ℕ) → (put_back c x).active ≡ c.active
unfolding put_back av_append
put_back-active c x = refl

free_buf-Freed :
    (chan : ℕ → ℕ) (i : ℕ) (c : Cache) → i < nbuf → Freed i c → Freed (i + 1) (free_buf chan i c)
unfolding free_buf brelse
free_buf-Freed chan i c lt f =
    let c1 = record c {
      node = update c.node i (record (c.node i) { dev = 0; flag = 8; next = i; prev = i });
    } in
    let c2 = wake_waiting chan c1 i in
    let links = links-wake_waiting chan c1 i in
    let r1 : Ring (av_next_of c2) (av_prev_of c2) free_head (upto i) =
      frame-Ring free_head (upto i) (λ j m. ground (arith, links j)) f.ring in
    let last = Links-last (av_next_of c2) (av_prev_of c2) free_head (upto i) free_head r1.path in
    let u = put_back-Appended c2 i (λ e. ground arith) (λ e. ground (arith, last, mem-upto i i)) in
    record {
      ring =
          subst
            (λ n. Ring (av_next_of (put_back c2 i)) (av_prev_of (put_back c2 i)) free_head (upto n))
            (suc-eq-add_one i)
            (append-Ring u (upto i) (λ e. ground arith) (ground (arith, mem-upto i i)) r1);
      each = λ j l. ground (
        arith,
        f.each j,
        put_back_buf c2 i j,
        clean_buf_rest (c2.node i),
        clean_buf-busy (c2.node i),
        wake_waiting-node chan c1 i j,
      );
      idle = ground (arith, f.idle, links i, put_back-active c2 i);
    }

-- The second loop adds the heads of the devices.
heads-IsValid :
    (n : ℕ) (c : Cache)
    → n ≡ nbuf
    → Freed n c
    → IsValid (for_range 2 0 init_dev (record c { nblkdev = 0 })) (upto n) [] []
unfolding init_dev alone for_range
heads-IsValid n c e f = record {
  free_ring = frame-Ring free_head (upto n) (λ j m. ground (arith, mem-upto j n)) f.ring;
  queue_ring = record { path = (refl, refl); distinct = tt; apart = refl };
  device_ring = record { path = (refl, refl); distinct = tt; apart = refl };
  loose = λ j l m. ground (arith, f.each j);
  free_idle = λ j l. ground (arith, mem-upto j n, f.each j);
  free_below = λ j m. ground (arith, mem-upto j n);
  queue_busy = λ j m. absurd (ground arith);
  cached_below = λ j m. absurd (ground arith);
  one_block = λ i j m k. absurd (ground arith);
  devices = refl;
  works = f.idle;
}

none_yet : (c : Cache) → c.active ≡ 0 → Freed 0 (alone free_head c)
unfolding alone
none_yet c idle = record {
  ring = record { path = (refl, refl); distinct = tt; apart = refl };
  each = λ j l. absurd (omega arith);
  idle = idle;
}

-- `buf_init` on an idle drive makes the cache valid, with every buffer free, in order, no request
-- and no block in the list of the device.
pub buf_init-IsValid :
    (chan : ℕ → ℕ) (c : Cache) → c.active ≡ 0 → IsValid (buf_init chan c) (upto nbuf) [] []
unfolding buf_init
buf_init-IsValid chan c idle =
    heads-IsValid nbuf (for_range nbuf 0 (free_buf chan) (alone free_head c)) refl (
      for_range_inv Freed (free_buf chan) nbuf 0 nbuf refl
        (λ i s a b f. free_buf-Freed chan i s b f) (alone free_head c) (none_yet c idle))
