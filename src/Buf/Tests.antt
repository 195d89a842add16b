-- ===== src/Buf/Tests.antt =====
-- The buffer cache on the state after `buf_init`, and on a cache with one request.
use fleurix.Base.{ℕ, ◌+◌, ◌≡◌, refl, true, some, [], ◌∷◌, ◌==◌, if◌then◌else◌, arith}
use fleurix.Base.Bits.{has_bit}
use fleurix.Samples.{idle_kernel}
use fleurix.Buf.{Buf, outb, Cache, nbuf, hdtab, b_done, hd_cmd, incore}
use fleurix.Buf.Found.{incore-find_block}
use fleurix.Buf.Valid.{IsValid}
use fleurix.Buf.Calls.{getblk_pass, brelse, buf_init}
use fleurix.Buf.Calls.Getblk.{Passes, getblk_pass-Passes}
use fleurix.Buf.Calls.Release.{brelse-IsValid}
use fleurix.Buf.Calls.Boot.{upto, buf_init-IsValid}
use fleurix.Buf.Drive.Queue.{interrupts, interrupts-serve}

abbrev blank : Buf
blank = record {
  flag = 0;
  next = 0;
  prev = 0;
  av_next = 0;
  av_prev = 0;
  dev = 0;
  blkno = 0;
  content = λ _. 0;
}

-- The image before `buf_init`.
abbrev image : Cache
image = record { node = λ _. blank; nblkdev = 0; active = 0; io = []; kernel = idle_kernel }

abbrev address : ℕ → ℕ
address i = 0x10000 + i

buf_init-IsValid_example : IsValid (buf_init address image) (upto nbuf) [] []
buf_init-IsValid_example = buf_init-IsValid address image refl

-- Buffer 3 is busy, and reads block 7 of the drive; every other buffer is busy with nothing.
abbrev reading : Cache
reading = record {
  node = λ i.
      if i == 3
      then record blank {
        flag = 9;
        next = hdtab;
        prev = hdtab;
        av_next = hdtab;
        av_prev = hdtab;
        dev = 256;
        blkno = 7;
      }
      else if i == hdtab
      then record blank { next = 3; prev = 3; av_next = 3; av_prev = 3 }
      else record blank { flag = 8; dev = 256; next = i; prev = i; av_next = i; av_prev = i };
  nblkdev = 2;
  active = 1;
  io = [];
  kernel = idle_kernel;
}

reading-IsValid : IsValid reading [] (3 ∷ []) (3 ∷ [])
reading-IsValid = record {
  free_ring = record { path = (refl, refl); distinct = tt; apart = refl };
  queue_ring = record { path = (refl, refl, (refl, refl)); distinct = (refl, tt); apart = refl };
  device_ring = record { path = (refl, refl, (refl, refl)); distinct = (refl, tt); apart = refl };
  loose = λ i l m. ground arith;
  free_idle = λ i l. ground arith;
  free_below = λ i m. absurd (ground arith);
  queue_busy = λ i m. ground arith;
  cached_below = λ i m. ground arith;
  one_block = λ i j m n a b e. ground arith;
  devices = refl;
  works = refl;
}

-- The block 7 is busy in buffer 3.
getblk_pass-Passes_example : Passes reading [] (3 ∷ []) (3 ∷ []) 256 7 (getblk_pass reading 256 7)
getblk_pass-Passes_example =
    getblk_pass-Passes reading [] (3 ∷ []) (3 ∷ []) 256 7 reading-IsValid refl

brelse-IsValid_example :
    IsValid (brelse address reading 5) (5 ∷ []) (3 ∷ []) (3 ∷ [])
    × (((brelse address reading 5).node 5).content ≡ (reading.node 5).content)
brelse-IsValid_example =
    brelse-IsValid address reading 5 [] (3 ∷ []) (3 ∷ []) reading-IsValid (omega arith) refl refl

interrupts-serve_example :
    IsValid (interrupts address ((λ i. i) ∷ []) reading) [] [] (3 ∷ [])
    × (has_bit ((interrupts address ((λ i. i) ∷ []) reading).node 3).flag b_done ≡ true)
interrupts-serve_example =
    interrupts-serve address ((λ i. i) ∷ []) reading [] 3 [] [] (3 ∷ []) reading-IsValid refl

-- The commands of a read of block 7: sectors 14 and 15.
commands :
    (hd_cmd 0 0x20 14 2 image).io
    ≡ outb 0x1F7 0x20
      ∷ outb 0x1F6 0xE0
      ∷ outb 0x1F5 0
      ∷ outb 0x1F4 0
      ∷ outb 0x1F3 14
      ∷ outb 0x1F2 2
      ∷ outb 0x3F6 0
      ∷ []
unfolding hd_cmd
commands = refl

incore-find_block_example : incore reading 256 7 ≡ some 3
incore-find_block_example = incore-find_block reading 256 7 reading-IsValid refl
