-- ===== src/Buf/Calls.antt =====
-- src/blk/buf.c: the calls on the cache. A call that sleeps ends with the address it sleeps on,
-- and the caller starts it again when it wakes up.
pub mod Recycle
pub mod Getblk
pub mod Release
pub mod Boot
pub mod Transfer
use fleurix.Base.{
  ℕ, ◌+◌, Bool, true, false, not, Option, none, some, [], leb, ltb, ◌==◌, if◌then◌else◌,
}
use fleurix.Base.Bits.{has_bit}
use fleurix.Base.Word.{u32, u16}
use fleurix.Base.Loops.{for_range, update}
use fleurix.Base.Result.{Result, ok, panic, ◌>>=◌, ◌>>◌, panic_if}
use fleurix.Sched.{wakeup}
use fleurix.Buf.{
  Buf, Cache, nbuf, free_head, null, hdtab, b_read, b_done, b_error, b_busy, b_wanted, b_dirty,
  b_async, without, with_bit, set_flag, set_next, set_prev, set_av_next, set_av_prev, major,
  is_negative, d_tab, incore, notavail, hd_request,
}

-- `bdevsw[MAJOR(dev)].d_request(bp)`; the first line of the table has no routine.
request : Cache → ℕ → Result Cache
request c bp = if major (c.node bp).dev == 1 then ok (hd_request c bp) else panic

-- The test of iowait: whether the caller sleeps on the buffer.
pub iowait_sleeps : Cache → ℕ → Bool
iowait_sleeps c bp = not (has_bit (c.node bp).flag b_done)

-- The cache, and whether the caller waits for the drive.
pub bwrite : Cache → ℕ → Result (Cache × Bool)
unfolding request iowait_sleeps
bwrite c bp = do
  let flag = (c.node bp).flag
  c1 ← request (set_flag c bp (without flag 0x27)) bp
  ok (c1, if has_bit flag b_async then false else iowait_sleeps c1 bp)

-- Where one pass of the loop of `getblk` ends: with a buffer, in a sleep, or with a start again.
pub data Pass : Type 0 where
  got : ℕ → Pass
  sleeps : ℕ → Pass
  again : Pass

-- The block has the buffer `bp`.
pub found : Cache → ℕ → Cache × Pass
found c bp =
    let f = (c.node bp).flag in
    if has_bit f b_busy
    then (set_flag c bp (with_bit f b_wanted), sleeps bp)
    else (notavail c bp, got bp)

-- The buffer leaves the list of its old device.
pub b_unlink : Cache → ℕ → Cache
b_unlink c bp =
    let c1 = set_next c (c.node bp).prev (c.node bp).next in
    set_prev c1 (c1.node bp).next (c1.node bp).prev

-- The buffer comes to the front of the list of the new device.
pub b_prepend : Cache → ℕ → ℕ → Cache
b_prepend c bp dtp =
    let c1 = set_prev c bp dtp in
    let c2 = set_next c1 bp (c1.node dtp).next in
    let c3 = set_prev c2 (c2.node dtp).next bp in set_next c3 dtp bp

pub name_block : Cache → ℕ → ℕ → ℕ → Cache
name_block c bp dev blkno = record c {
  node = update c.node bp (record (c.node bp) { dev = u16 dev; blkno = blkno });
}

-- The head `bp` of the free list is taken for the block.
pub take_buf : Cache → ℕ → ℕ → ℕ → ℕ → Result (Cache × Pass)
unfolding bwrite b_unlink b_prepend name_block
take_buf c bp dtp dev blkno =
    let c1 = set_flag (notavail c bp) bp 8 in
    if has_bit (c1.node bp).flag b_dirty
    then (do
      (c2, waits) ← bwrite (set_flag c1 bp (with_bit (c1.node bp).flag b_async)) bp
      ok (c2, again))
    else ok (name_block (b_prepend (b_unlink c1 bp) bp dtp) bp dev blkno, got bp)

-- A block that has no buffer takes one, if one is free.
pub claim : Cache → ℕ → ℕ → ℕ → Result (Cache × Pass)
unfolding take_buf
claim c dtp dev blkno =
    let bp = (c.node free_head).av_next in
    if bp == free_head
    then ok (set_flag c free_head (with_bit (c.node free_head).flag b_wanted), sleeps free_head)
    else take_buf c bp dtp dev blkno

-- One pass of the loop of `getblk`.
pub getblk_pass : Cache → ℕ → ℕ → Result (Cache × Pass)
unfolding found claim
getblk_pass c dev blkno = do
  panic_if (leb c.nblkdev (major dev))
  (if is_negative dev then claim c free_head dev blkno else (do
    panic_if (d_tab (major dev) == null)
    elim (incore c dev blkno) [
      | some bp ↦ ok (found c bp)
      | none ↦ claim c (d_tab (major dev)) dev blkno
    ]))

-- `wakeup` of the sleepers on a buffer and on the free list.
pub wake_waiting : (ℕ → ℕ) → Cache → ℕ → Cache
wake_waiting chan c bp =
    let c1 : Cache =
      if has_bit (c.node bp).flag b_wanted
      then record c { kernel = wakeup (chan bp) c.kernel }
      else c in
    let f = (c1.node free_head).flag in
    if has_bit f b_wanted
    then (let c2 = set_flag c1 free_head (without f 0x10) in
        record c2 { kernel = wakeup (chan free_head) c2.kernel })
    else c1

-- The four stores that put a buffer at the end of the free list.
av_append : Cache → ℕ → Cache
av_append c bp =
    let c1 = set_av_next c bp free_head in
    let c2 = set_av_prev c1 bp (c1.node free_head).av_prev in
    let c3 = set_av_next c2 (c2.node bp).av_prev bp in set_av_prev c3 (c3.node bp).av_next bp

-- The flags of a buffer that is free; NODEV is 0.
pub clean_buf : Buf → Buf
clean_buf b =
    let b' : Buf = if has_bit b.flag b_error then record b { dev = 0 } else b in
    record b' { flag = without b'.flag 0x78 }

pub put_back : Cache → ℕ → Cache
unfolding clean_buf av_append
put_back c bp = av_append (record c { node = update c.node bp (clean_buf (c.node bp)) }) bp

pub brelse : (ℕ → ℕ) → Cache → ℕ → Cache
unfolding wake_waiting put_back
brelse chan c bp = put_back (wake_waiting chan c bp) bp

-- `bread` after `getblk`: the cache, and whether the caller waits for the drive.
pub bread_got : Cache → ℕ → Result (Cache × Bool)
unfolding request iowait_sleeps
bread_got c bp =
    let f = (c.node bp).flag in
    if has_bit f b_done
    then ok (c, false)
    else (do c1 ← request (set_flag c bp (with_bit f b_read)) bp; ok (c1, iowait_sleeps c1 bp))

-- The round of the first loop of `buf_init`.
free_buf : (ℕ → ℕ) → ℕ → Cache → Cache
unfolding brelse
free_buf chan i c =
    let b : Buf = record (c.node i) { dev = 0; flag = 8; next = i; prev = i } in
    brelse chan (record c { node = update c.node i b }) i

-- The links of a head point at itself.
alone : ℕ → Cache → Cache
alone h c = record c {
  node = update c.node h (record (c.node h) { next = h; prev = h; av_next = h; av_prev = h });
}

-- The round of the second loop, for a line of `bdevsw`.
init_dev : ℕ → Cache → Cache
unfolding alone
init_dev m c = let c1 = alone (d_tab m) c in record c1 { nblkdev = u32 (c1.nblkdev + 1) }

pub buf_init : (ℕ → ℕ) → Cache → Cache
unfolding alone free_buf init_dev
buf_init chan c =
    let c1 = for_range nbuf 0 (free_buf chan) (alone free_head c) in
    for_range 2 0 init_dev (record c1 { nblkdev = 0 })
