-- ===== src/Content/Transfer/Read.antt =====
-- readi of src/fs/rdwri.c: the loop over the blocks reads one stretch of the file.
use fleurix.Base.{
  ℕ, zero, suc, ◌+◌, ◌-◌, ◌*◌, ◌/◌, ◌%◌, ◌^◌, ◌≤◌, ◌<◌, ◌≡◌, ◌≢◌, refl, sym, ap, ◌∙◌, Bool, false,
  ◌||◌, some, ltb, ◌==◌, if◌then◌else◌, min, arith, tabulate, tabulate-append, tabulate_congr,
}
use fleurix.Base.Word.{u32}
use fleurix.Kernel.{Inode, Super}
use fleurix.Alloc.{Disk, blk}
use fleurix.Content.{Fs, done, ◌>>=◌}
use fleurix.Content.Blocks.Lookup.{IsReadable, zone_of, release-hold, bmap-settled}
use fleurix.Content.Transfer.{chunk, read_block, read_blocks, readi}

-- Byte `i` of the file.
abbrev pub file_byte : Disk → Inode → ℕ → ℕ
file_byte d ip i = d.block (zone_of d ip (i / blk)) (i % blk)

-- Every block that a stretch of `n` bytes from `off` on touches has a zone.
abbrev pub IsMapped : Disk → Inode → ℕ → ℕ → Type 0
IsMapped d ip off n = (k : ℕ) → off / blk ≤ k → k * blk < off + n → zone_of d ip k ≢ 0

-- Inside one block, the bytes of the file are those of the block.
pub tabulate-file_byte :
    (d : Disk) (ip : Inode) (off m : ℕ)
    → off % blk + m ≤ blk
    → tabulate (d.block (zone_of d ip (off / blk))) (off % blk) m ≡ tabulate (file_byte d ip) off m
tabulate-file_byte d ip off m h =
    tabulate_congr (d.block (zone_of d ip (off / blk))) (file_byte d ip) (off % blk) off m λ k lt.
      let same_block : (off + k) / blk ≡ off / blk = omega (arith, h, lt) in
      let place : (off + k) % blk ≡ off % blk + k = omega (arith, h, lt) in
      sym (
        ap (λ (b : ℕ). d.block (zone_of d ip b) ((off + k) % blk)) same_block
        ∙ ap (d.block (zone_of d ip (off / blk))) place)

module _ (sp : Super) (failed : ℕ → Bool) (s : Fs) (r : IsReadable s.disk s.ip) where
  read_block-copies :
      (off m : ℕ)
      → off < 2 ^ 26
      → off ≤ s.ip.size
      → off % blk + m ≤ blk
      → zone_of s.disk s.ip (off / blk) ≢ 0
      → read_block sp failed off m s ≡ done s (tabulate (file_byte s.disk s.ip) off m)
  unfolding read_block
  read_block-copies off m small inside room mapped =
      let z = zone_of s.disk s.ip (off / blk) in
      let some_zone : (z == 0) ≡ false = ground (arith, mapped) in
      let found =
        bmap-settled sp failed false s r (off / blk) (omega arith) (ground arith) (ground arith) in
      rw (found, ◌>>=◌, some_zone, r.free z)
        (ap (λ (d : Disk). done (record s { disk = d }) (tabulate (s.disk.block z) (off % blk) m))
            (release-hold s.disk z (r.free z))
          ∙ ap (done s) (tabulate-file_byte s.disk s.ip off m room))

  read_blocks-reads :
      (fuel off left : ℕ)
      → left ≤ fuel
      → off + left ≤ s.ip.size
      → s.ip.size ≤ 2 ^ 26
      → IsMapped s.disk s.ip off left
      → read_blocks sp failed fuel off left s ≡ done s (tabulate (file_byte s.disk s.ip) off left)
  unfolding read_blocks tabulate
  read_blocks-reads zero off zero h inside small mapped = refl
  read_blocks-reads zero off (suc left) h inside small mapped = absurd (omega arith)
  read_blocks-reads (suc fuel) off zero h inside small mapped = refl
  read_blocks-reads (suc fuel) off (suc l) h inside small mapped =
      let left = suc l in
      let m = chunk off left in
      let whole : m + (left - m) ≡ left = omega arith in
      let more : (suc l == 0) ≡ false = ground arith in
      let wide : u32 (off + m) ≡ off + m = omega (arith, inside, small) in
      let first =
        read_block-copies off m (omega arith) (omega arith) (omega arith)
          (mapped (off / blk) (omega arith) (omega arith)) in
      let rest =
        read_blocks-reads fuel (off + m) (left - m) (omega arith) (omega arith) small
          (λ k from to. mapped k (omega arith) (omega arith)) in
      rw (more, wide, first, ◌>>=◌, rest)
        (ap (done s) (
          tabulate-append (file_byte s.disk s.ip) off m (left - m)
          ∙ ap (tabulate (file_byte s.disk s.ip) off) whole))

-- From a file of at most 64 MB whose tables can be read, `readi` at an offset not behind the end
-- reads the bytes of the file from there on, as many as are asked for and the file has, and changes
-- nothing; every block that it touches has to have a zone.
pub readi-Reads :
    (sp : Super) (failed : ℕ → Bool) (s : Fs) (off cnt : ℕ)
    → IsReadable s.disk s.ip
    → s.ip.size ≤ 2 ^ 26
    → off ≤ s.ip.size
    → off + cnt < 2 ^ 32
    → IsMapped s.disk s.ip off (min cnt (s.ip.size - off))
    → readi sp failed off cnt s
      ≡ done s (some (tabulate (file_byte s.disk s.ip) off (min cnt (s.ip.size - off))))
unfolding readi
readi-Reads sp failed s off cnt r small inside no_wrap mapped =
    let wide : u32 (off + cnt) ≡ off + cnt = omega (arith, no_wrap) in
    let past : (ltb s.ip.size off || ltb (off + cnt) off) ≡ false = ground (arith, inside) in
    let n = min cnt (s.ip.size - off) in
    let kept : (if ltb s.ip.size (off + cnt) then s.ip.size - off else cnt) ≡ n =
      ground (arith, inside) in
    let loop = read_blocks-reads sp failed s r n off n (omega arith) (omega arith) small mapped in
    rw (wide, past, kept, loop, ◌>>=◌) refl
