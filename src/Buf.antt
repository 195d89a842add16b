-- ===== src/Buf.antt =====
-- src/blk/buf.c with inc/buf.h, the cache of disk blocks, and the request queue of src/blk/hd.c.
-- A `struct buf *` is a number: the entries of `buff`, then the two list heads of the
-- cache, `bfreelist` and `hdtab`, which the code visits as buffers too, and NULL, the `d_tab` of
-- the empty first line of `bdevsw`. What the code stores to the ports of the drive is kept in order
-- of time, the latest first.
pub mod Rings
pub mod Valid
pub mod Found
pub mod Drive
mod Tests
pub mod Calls
use fleurix.Base.{
  ℕ, zero, suc, ◌+◌, ◌-◌, ◌*◌, ◌/◌, ◌%◌, ◌^◌, Bool, true, false, ◌&&◌, not, Option, none, some,
  List, [], ◌∷◌, leb, ltb, ◌==◌, if◌then◌else◌, bit_and, bit_or,
}
use fleurix.Base.Bits.{has_bit}
use fleurix.Base.Word.{u32, u16, u8}
use fleurix.Base.Loops.{for_range, update}
use fleurix.Base.Result.{Result, ok, panic, ◌>>=◌, ◌>>◌, panic_if}
use fleurix.Kernel.{Kernel}
use fleurix.Sched.{wakeup}

-- `struct buf`, less the unused b_error. The data are words of 32 bits, as the drive moves them.
pub record Buf : Type 0 where
  pub flag : ℕ
  pub next : ℕ
  pub prev : ℕ
  pub av_next : ℕ
  pub av_prev : ℕ
  pub dev : ℕ
  pub blkno : ℕ
  pub content : ℕ → ℕ

-- What the driver sends to the ports: a byte, or a number of words.
pub data Io : Type 0 where
  outb : ℕ → ℕ → Io
  outsl : ℕ → (ℕ → ℕ) → ℕ → Io

-- `buff` and the heads, `nblkdev`, `hdtab.d_active`, the ports, and the process table for wakeups.
pub record Cache : Type 0 where
  pub node : ℕ → Buf
  pub nblkdev : ℕ
  pub active : ℕ
  pub io : List Io
  pub kernel : Kernel

abbrev pub nbuf : ℕ
nbuf = 2048

abbrev pub free_head : ℕ
free_head = 2048

abbrev pub hdtab : ℕ
hdtab = 2049

abbrev pub null : ℕ
null = 2050

-- The bits of the flags.
abbrev pub b_read : ℕ
b_read = 0

abbrev pub b_done : ℕ
b_done = 1

abbrev pub b_error : ℕ
b_error = 2

abbrev pub b_busy : ℕ
b_busy = 3

abbrev pub b_wanted : ℕ
b_wanted = 4

abbrev pub b_dirty : ℕ
b_dirty = 5

abbrev pub b_async : ℕ
b_async = 6

-- `f & ~mask` on a `uint`.
abbrev pub without : ℕ → ℕ → ℕ
without f mask = bit_and f (2 ^ 32 - 1 - mask)

abbrev pub with_bit : ℕ → ℕ → ℕ
with_bit f b = bit_or f (2 ^ b)

abbrev pub set_flag : Cache → ℕ → ℕ → Cache
set_flag c i f = record c { node = update c.node i (record (c.node i) { flag = f }) }

abbrev pub set_next : Cache → ℕ → ℕ → Cache
set_next c i p = record c { node = update c.node i (record (c.node i) { next = p }) }

abbrev pub set_prev : Cache → ℕ → ℕ → Cache
set_prev c i p = record c { node = update c.node i (record (c.node i) { prev = p }) }

abbrev pub set_av_next : Cache → ℕ → ℕ → Cache
set_av_next c i p = record c { node = update c.node i (record (c.node i) { av_next = p }) }

abbrev pub set_av_prev : Cache → ℕ → ℕ → Cache
set_av_prev c i p = record c { node = update c.node i (record (c.node i) { av_prev = p }) }

-- MAJOR, on the bits of an `int`, and the sign of it.
abbrev pub major : ℕ → ℕ
major dev = u8 (dev / 256)

abbrev pub is_negative : ℕ → Bool
is_negative dev = leb (2 ^ 31) dev

-- `bdevsw[m].d_tab`.
abbrev pub d_tab : ℕ → ℕ
d_tab m = if m == 1 then hdtab else null

-- `bp = bp->b_next` until the head or the block; `rounds` bounds the length of the list.
incore_from : (ℕ → Buf) → ℕ → ℕ → ℕ → ℕ → ℕ → Option ℕ
incore_from node dtp dev blkno zero bp = none
incore_from node dtp dev blkno (suc rounds) bp =
    let later = incore_from node dtp dev blkno rounds (node bp).next in
    if bp == dtp
    then none
    else if (node bp).dev == u16 dev && (node bp).blkno == blkno
    then some bp
    else later

pub incore : Cache → ℕ → ℕ → Option ℕ
unfolding incore_from
incore c dev blkno =
    let dtp = d_tab (major (u16 dev)) in
    incore_from c.node dtp dev blkno (nbuf + 1) (c.node dtp).next

-- The two stores that take a buffer out of the list of available ones.
pub av_unlink : Cache → ℕ → Cache
av_unlink c bp =
    let c1 = set_av_next c (c.node bp).av_prev (c.node bp).av_next in
    set_av_prev c1 (c1.node bp).av_next (c1.node bp).av_prev

pub notavail : Cache → ℕ → Cache
unfolding av_unlink
notavail c bp = let c1 = av_unlink c bp in set_flag c1 bp (with_bit (c1.node bp).flag b_busy)

-- hd_cmd, with a number of sectors; the wait for the drive before it leaves no trace.
pub hd_cmd : ℕ → ℕ → ℕ → ℕ → Cache → Cache
hd_cmd drive cmd lba ns c = record c {
  io =
      outb 0x1F7 cmd
      ∷ outb 0x1F6 (bit_or (bit_or 0xE0 (bit_and drive 1 * 16)) (lba / 2 ^ 24 % 16))
      ∷ outb 0x1F5 (lba / 2 ^ 16 % 256)
      ∷ outb 0x1F4 (lba / 2 ^ 8 % 256)
      ∷ outb 0x1F3 (lba % 256)
      ∷ outb 0x1F2 (u8 ns)
      ∷ outb 0x3F6 0
      ∷ c.io;
}

-- The commands for the request `bp`: BLK / PBLK is 2.
pub start_on : ℕ → Cache → Cache
unfolding hd_cmd
start_on bp c =
    let b = c.node bp in
    let lba = u32 (b.blkno * 1024) / 512 in
    if has_bit b.flag b_read
    then hd_cmd 0 0x20 lba 2 c
    else (let c1 = hd_cmd 0 0x30 lba 2 c in record c1 { io = outsl 0x1F0 b.content 256 ∷ c1.io })

pub hd_start : Cache → Cache
unfolding start_on
hd_start c =
    let head = c.node hdtab in
    if head.av_next == hdtab then c else start_on head.av_prev (record c { active = 1 })

-- The new request stands behind the head of the queue.
pub enqueue : Cache → ℕ → Cache
enqueue c bp =
    let c1 = set_av_prev c bp hdtab in
    let c2 = set_av_next c1 bp (c1.node hdtab).av_next in
    let c3 = set_av_prev c2 (c2.node hdtab).av_next bp in set_av_next c3 hdtab bp

pub hd_request : Cache → ℕ → Cache
unfolding enqueue hd_start
hd_request c bp = let c1 = enqueue c bp in if c1.active == 0 then hd_start c1 else c1

-- `iodone`; `chan` is the address of a buffer.
pub iodone : (ℕ → ℕ) → Cache → ℕ → Cache
iodone chan c bp =
    let c1 = set_flag c bp (without (with_bit (c.node bp).flag b_done) 0x10) in
    record c1 { kernel = wakeup (chan bp) c1.kernel }

-- The transfer of `insl`; `words` are those that the drive has read.
pub receive : (ℕ → ℕ) → ℕ → Cache → Cache
receive words bp c =
    let b = c.node bp in
    if has_bit b.flag b_read
    then record c {
      node =
          update c.node bp (record b { content = λ j. if ltb j 256 then words j else b.content j });
    }
    else c

-- The request of `bp` leaves the queue and is done.
pub finished : (ℕ → ℕ) → (ℕ → ℕ) → ℕ → Cache → Cache
unfolding av_unlink receive iodone
finished chan words bp c =
    iodone chan (receive words bp (av_unlink (record c { active = 0 }) bp)) bp

pub do_hd_intr : (ℕ → ℕ) → (ℕ → ℕ) → Cache → Cache
unfolding finished hd_start
do_hd_intr chan words c =
    if c.active == 0 then c else hd_start (finished chan words (c.node hdtab).av_prev c)
