-- ===== src/Content/Transfer/Write.antt =====
-- writei of src/fs/rdwri.c inside a file: the loop over the blocks writes one stretch of it.
use fleurix.Base.{
  ℕ, zero, suc, ◌+◌, ◌-◌, ◌/◌, ◌%◌, ◌^◌, ◌≤◌, ◌<◌, ◌≡◌, ◌≢◌, refl, sym, ap, subst, ◌∙◌, Bool, true,
  false, ◌&&◌, some, ltb, leb, ◌==◌, if◌then◌else◌, min, inl, inr, Bool-cases, arith, tabulate,
  tabulate_congr,
}
use mathlib.Core.Path.{fun_ext}
use fleurix.Base.Word.{u32}
use fleurix.Kernel.{Inode, Super}
use fleurix.Alloc.{Disk, blk}
use fleurix.Content.{Fs, done, ◌>>=◌, max_filesiz}
use fleurix.Content.Blocks.Lookup.{zone_of, release-hold, bmap-settled}
use fleurix.Content.Transfer.{chunk, write_block, write_blocks, grow_to, writei, readi}
use fleurix.Content.Transfer.Read.{file_byte, IsMapped, readi-Reads}
use fleurix.Content.Transfer.Sound.{IsSound, put, zone_of-put, file_byte-put, put-IsSound}

abbrev at : Fs → Disk → Fs
at s d = record s { disk = d }

-- `d'` is the disk after the `n` bytes of `data'` were written to the file at `off`.
pub record Wrote (ip : Inode) (d : Disk) (off n : ℕ) (data' : ℕ → ℕ) (d' : Disk) : Type 0 where
  pub sound : IsSound d' ip
  pub zones : (k : ℕ) → zone_of d' ip k ≡ zone_of d ip k
  pub content :
      (i : ℕ)
      → i / blk < 2 ^ 16
      → file_byte d' ip i
        ≡ (if leb off i && ltb i (off + n) then data' (i - off) else file_byte d ip i)

nothing :
    (ip : Inode) (d : Disk) (off : ℕ) (data' : ℕ → ℕ) → IsSound d ip → Wrote ip d off 0 data' d
nothing ip d off data' v = record {
  sound = v;
  zones = λ k. refl;
  content = λ i lt. let out : (leb off i && ltb i (off + 0)) ≡ false = ground arith in rw out refl;
}

one_block :
    (ip : Inode) (d : Disk) (off m : ℕ) (data' : ℕ → ℕ)
    → IsSound d ip
    → off < 2 ^ 26
    → off % blk + m ≤ blk
    → zone_of d ip (off / blk) ≢ 0
    → Wrote ip d off m data' (put d (zone_of d ip (off / blk)) (off % blk) m data')
one_block ip d off m data' v small room mapped =
    let j = off / blk in
    let lt : j < 2 ^ 16 = omega arith in
    record {
      sound = put-IsSound d ip v j lt mapped (off % blk) m data';
      zones = zone_of-put d ip v j lt mapped (off % blk) m data';
      content = λ i inside. file_byte-put d ip v j lt mapped (off % blk) m data' i inside ∙ place i;
    }
  where
    place :
        (i : ℕ)
        → (if i / blk == off / blk && (leb (off % blk) (i % blk) && ltb (i % blk) (off % blk + m))
            then data' (i % blk - off % blk)
            else file_byte d ip i)
          ≡ (if leb off i && ltb i (off + m) then data' (i - off) else file_byte d ip i)
    place i = elim (Bool-cases (leb off i && ltb i (off + m))) [
      | inl hit ↦
          let there : (i / blk == off / blk
                && (leb (off % blk) (i % blk) && ltb (i % blk) (off % blk + m)))
              ≡ true =
            ground (arith, hit, room) in
          rw (there, hit) (ap data' (ground (arith, hit, room)))
      | inr miss ↦
          let away : (i / blk == off / blk
                && (leb (off % blk) (i % blk) && ltb (i % blk) (off % blk + m)))
              ≡ false =
            ground (arith, miss, room) in
          rw (away, miss) refl
    ]

-- Two stretches that follow one another.
append :
    (ip : Inode) (d d1 d2 : Disk) (off m n : ℕ) (data' : ℕ → ℕ)
    → Wrote ip d off m data' d1
    → Wrote ip d1 (off + m) n (λ i. data' (m + i)) d2
    → Wrote ip d off (m + n) data' d2
append ip d d1 d2 off m n data' w1 w2 = record {
  sound = w2.sound;
  zones = λ k. w2.zones k ∙ w1.zones k;
  content = λ i lt. w2.content i lt ∙ pieces i (w1.content i lt);
}
  where
    pieces :
        (i : ℕ)
        → file_byte d1 ip i
          ≡ (if leb off i && ltb i (off + m) then data' (i - off) else file_byte d ip i)
        → (if leb (off + m) i && ltb i (off + m + n)
            then data' (m + (i - (off + m)))
            else file_byte d1 ip i)
          ≡ (if leb off i && ltb i (off + (m + n)) then data' (i - off) else file_byte d ip i)
    pieces i e = elim (Bool-cases (leb (off + m) i && ltb i (off + m + n))) [
      | inl hit ↦
          let there : (leb off i && ltb i (off + (m + n))) ≡ true = ground (arith, hit) in
          rw (there, hit) (ap data' (ground (arith, hit)))
      | inr miss ↦
          let same : (leb off i && ltb i (off + (m + n))) ≡ (leb off i && ltb i (off + m)) =
            ground (arith, miss) in
          rw (miss, same) e
    ]

module _ (sp : Super) (failed : ℕ → Bool) (s : Fs) where
  write_block-puts :
      (d : Disk) (data' : ℕ → ℕ) (off m : ℕ)
      → IsSound d s.ip
      → off < 2 ^ 26
      → zone_of d s.ip (off / blk) ≢ 0
      → write_block sp failed data' off m (at s d)
        ≡ done (at s (put d (zone_of d s.ip (off / blk)) (off % blk) m data')) tt
  unfolding write_block
  write_block-puts d data' off m v small mapped =
      let z = zone_of d s.ip (off / blk) in
      let some_zone : (z == 0) ≡ false = ground (arith, mapped) in
      let found =
        bmap-settled sp failed true (at s d) v.readable (off / blk) (omega arith) (ground arith)
          (ground (arith, some_zone)) in
      let bytes' = (put d z (off % blk) m data').block in
      rw (found, ◌>>=◌, some_zone, v.readable.free z)
        (ap (λ (e : Disk). done (at s (record e { block = bytes' })) tt)
          (release-hold d z (v.readable.free z)))

  write_blocks-writes :
      (fuel : ℕ) (data' : ℕ → ℕ) (tot off left : ℕ) (d : Disk)
      → IsSound d s.ip
      → left ≤ fuel
      → off + left ≤ 2 ^ 26
      → IsMapped d s.ip off left
      → (d' : Disk) × (write_blocks sp failed fuel data' tot off left (at s d)
          ≡ done (at s d') (off + left))
        × Wrote s.ip d off left (λ i. data' (tot + i)) d'
  unfolding write_blocks
  write_blocks-writes zero data' tot off left d v h inside mapped =
      let none_left : left ≡ 0 = omega arith in
      let there : off ≡ off + 0 = omega arith in
      rw none_left (d, ap (done (at s d)) there, nothing s.ip d off (λ i. data' (tot + i)) v)
  write_blocks-writes (suc fuel) data' tot off zero d v h inside mapped =
      let there : off ≡ off + 0 = omega arith in
      (d, ap (done (at s d)) there, nothing s.ip d off (λ i. data' (tot + i)) v)
  write_blocks-writes (suc fuel) data' tot off (suc l) d v h inside mapped =
      let left = suc l in
      let m = chunk off left in
      let z = zone_of d s.ip (off / blk) in
      let from_tot = λ (i : ℕ). data' (tot + i) in
      let d1 = put d z (off % blk) m from_tot in
      let here : zone_of d s.ip (off / blk) ≢ 0 = mapped (off / blk) (omega arith) (omega arith) in
      let w1 = one_block s.ip d off m from_tot v (omega arith) (omega arith) here in
      let later =
        write_blocks-writes fuel data' (tot + m) (off + m) (left - m) d1 w1.sound (omega arith)
          (omega arith) (λ k a b e. mapped k (omega arith) (omega arith) (sym (w1.zones k) ∙ e)) in
      let whole : m + (left - m) ≡ left = omega arith in
      let more : (suc l == 0) ≡ false = ground arith in
      let wide : u32 (off + m) ≡ off + m = omega (arith, inside) in
      let first = write_block-puts d from_tot off m v (omega arith) here in
      let end : off + m + (left - m) ≡ off + left = omega arith in
      let shift : (λ (i : ℕ). data' (tot + m + i)) ≡ (λ (i : ℕ). data' (tot + (m + i))) =
        fun_ext (λ i. ap data' (omega arith)) in
      (
        later.0,
        rw (more, wide, first, ◌>>=◌, later.1) (ap (done (at s later.0)) end),
        subst (λ (n : ℕ). Wrote s.ip d off n from_tot later.0) whole
            (append s.ip d d1 later.0 off m (left - m) from_tot w1
              (subst (λ f. Wrote s.ip d1 (off + m) (left - m) f later.0) shift later.2)),
      )

writei-inside :
    (sp : Super) (failed : ℕ → Bool) (s : Fs) (data' : ℕ → ℕ) (off cnt : ℕ) (d : Disk)
    → s.ip.size ≤ 2 ^ 26
    → off + cnt ≤ s.ip.size
    → write_blocks sp failed cnt data' 0 off cnt s ≡ done (at s d) (off + cnt)
    → writei sp failed data' off cnt s ≡ done (at s d) (some cnt)
unfolding writei grow_to
writei-inside sp failed s data' off cnt d small inside loop =
    let wide : u32 (off + cnt) ≡ off + cnt = omega (arith, inside, small) in
    let fits : ltb max_filesiz (off + cnt) ≡ false = ground (arith, inside, small) in
    let no_wrap : ltb (off + cnt) off ≡ false = ground arith in
    let short : (ltb 0 cnt && ltb s.ip.size (off + cnt)) ≡ false = ground (arith, inside) in
    rw (wide, fits, no_wrap, loop, ◌>>=◌, short) refl

-- On a file of at most 64 MB whose blocks do not overlap, `writei` of a stretch that lies inside the
-- file, with a zone for every block, returns the count, leaves the inode alone and changes exactly the
-- bytes of that stretch, which become the data; `readi` of the stretch then reads the data back.
pub readi-writei :
    (sp : Super) (failed : ℕ → Bool) (s : Fs) (data' : ℕ → ℕ) (off cnt : ℕ)
    → IsSound s.disk s.ip
    → s.ip.size ≤ 2 ^ 26
    → off + cnt ≤ s.ip.size
    → IsMapped s.disk s.ip off cnt
    → (d : Disk) × (writei sp failed data' off cnt s ≡ done (at s d) (some cnt))
      × ((i : ℕ)
          → i / blk < 2 ^ 16
          → file_byte d s.ip i
            ≡ (if leb off i && ltb i (off + cnt) then data' (i - off) else file_byte s.disk s.ip i))
      × (readi sp failed off cnt (at s d) ≡ done (at s d) (some (tabulate data' 0 cnt)))
readi-writei sp failed s data' off cnt v small inside mapped =
    let loop =
      write_blocks-writes sp failed s cnt data' 0 off cnt s.disk v (omega arith) (omega arith)
        mapped in
    let w = loop.2 in
    let d = loop.0 in
    let all : min cnt (s.ip.size - off) ≡ cnt = omega arith in
    let still : IsMapped d s.ip off (min cnt (s.ip.size - off)) =
      λ k a b e. mapped k a (omega (arith, b)) (sym (w.zones k) ∙ e) in
    let back =
      readi-Reads sp failed (at s d) off cnt w.sound.readable small (omega arith) (omega arith)
        still in
    let written : tabulate (file_byte d s.ip) off cnt ≡ tabulate data' 0 cnt =
      tabulate_congr (file_byte d s.ip) data' off 0 cnt λ k lt.
        let hit : (leb off (off + k) && ltb (off + k) (off + cnt)) ≡ true = ground (arith, lt) in
        w.content (off + k) (omega arith) ∙ rw hit (ap data' (omega arith)) in
    (
      d,
      writei-inside sp failed s data' off cnt d small inside loop.1,
      λ i lt.
          w.content i lt
          ∙ ap
              (λ (x : ℕ).
                if leb off i && ltb i (off + cnt) then data' x else file_byte s.disk s.ip i)
              (omega arith),
      back
          ∙ ap (λ (n : ℕ). done (at s d) (some (tabulate (file_byte d s.ip) off n))) all
          ∙ ap (λ x. done (at s d) (some x)) written,
    )
