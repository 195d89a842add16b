-- ===== src/Buf/Drive/Finished.antt =====
-- The oldest request of the drive leaves the queue, and its buffer is done.
use fleurix.Base.{
  ℕ, ◌≡◌, refl, subst, true, ◌&&◌, List, ◌∷◌, ltb, ◌==◌, if◌then◌else◌, arith, inl, inr, Bool-cases,
}
use fleurix.Base.Bits.{has_bit, has_bit-eq, bit-set, bit-le_one}
use fleurix.Base.Loops.{update}
use fleurix.Sched.{wakeup}
use fleurix.Buf.{
  Cache, free_head, hdtab, b_read, b_done, b_busy, without, with_bit, set_flag, av_unlink, receive,
  iodone, finished,
}
use fleurix.Buf.Drive.{IsValid-rest, settled}
use fleurix.Buf.Rings.{
  Ring, Unlinked, Links-before, Links-after, erase_head, unlink-Ring, frame-Ring,
}
use fleurix.Buf.Valid.{
  IsValid, av_next_of, av_prev_of, free-queue-apart, av_unlink-Unlinked, bit-without,
  set_flag-IsValid,
}
use fleurix.Pm.Chain.{mem}

-- The flags after `iodone`.
abbrev pub done_flag : ℕ → ℕ
done_flag f = without (with_bit f b_done) 0x10

pub done_flag_lem :
    (f : ℕ)
    → (has_bit (done_flag f) b_done ≡ true) × (has_bit (done_flag f) b_busy ≡ has_bit f b_busy)
done_flag_lem f = (
  ground (
    arith,
    has_bit-eq (done_flag f) b_done,
    bit-without b_done (with_bit f b_done) 0x10,
    bit-set b_done b_done f,
  ),
  ground (
    arith,
    has_bit-eq (done_flag f) b_busy,
    has_bit-eq f b_busy,
    bit-without b_busy (with_bit f b_done) 0x10,
    bit-set b_busy b_done f,
    bit-le_one b_busy f,
  ),
)

-- Data are not what validity is about.
content-IsValid :
    (c : Cache) (i : ℕ) (words : ℕ → ℕ) {free queue cached : List ℕ}
    → IsValid c free queue cached
    → IsValid
        (record c { node = update c.node i (record (c.node i) { content = words }) })
        free
        queue
        cached
content-IsValid c i words {free} {queue} {cached} v = record {
  free_ring = frame-Ring free_head free (λ j m. ground arith) v.free_ring;
  queue_ring = frame-Ring hdtab queue (λ j m. ground arith) v.queue_ring;
  device_ring = frame-Ring hdtab cached (λ j m. ground arith) v.device_ring;
  loose = λ j lt m. ground (arith, v.loose j);
  free_idle = λ j lt. ground (arith, v.free_idle j lt);
  free_below = v.free_below;
  queue_busy = λ j m. ground (arith, v.queue_busy j);
  cached_below = v.cached_below;
  one_block = λ j k m n. ground (arith, v.one_block j k m n);
  devices = v.devices;
  works = v.works;
}

av_unlink_rest :
    (c : Cache) (x j : ℕ)
    → let b = (av_unlink c x).node j in
      let a = c.node j in
      (b.flag ≡ a.flag)
      × (b.dev ≡ a.dev)
      × (b.blkno ≡ a.blkno)
      × (b.next ≡ a.next)
      × (b.prev ≡ a.prev)
      × (b.content ≡ a.content)
unfolding av_unlink
av_unlink_rest c x j = ground arith

-- The oldest request leaves the queue.
dequeue-IsValid :
    (c : Cache) (x : ℕ) (free rest cached : List ℕ)
    → IsValid c free (x ∷ rest) cached
    → IsValid (settled (av_unlink (record c { active = 0 }) x) rest) free rest cached
dequeue-IsValid c x free rest cached v =
    let c0 = record c { active = 0 } in
    let u = av_unlink-Unlinked c0 x in
    let here : mem x (x ∷ rest) ≡ true = ground arith in
    let before =
      Links-before (av_prev_of c) (av_next_of c) hdtab (x ∷ rest) hdtab x here v.queue_ring.path in
    let after =
      Links-after (av_prev_of c) (av_next_of c) hdtab (x ∷ rest) hdtab x here v.queue_ring.path in
    let swapped : Unlinked (av_prev_of c) (av_next_of c) (av_prev_of (av_unlink c0 x))
        (av_next_of (av_unlink c0 x)) x =
      record { forth = u.back; back = u.forth } in
    record {
      free_ring =
          frame-Ring free_head free
            (λ j m. ground (
              arith,
              u.forth j,
              u.back j,
              before,
              after,
              free-queue-apart v (av_next_of c x),
              free-queue-apart v (av_prev_of c x),
            ))
            v.free_ring;
      queue_ring =
          subst (Ring (av_prev_of (av_unlink c0 x)) (av_next_of (av_unlink c0 x)) hdtab)
            (erase_head x rest) (unlink-Ring swapped hdtab (x ∷ rest) here v.queue_ring);
      device_ring =
          frame-Ring hdtab cached (λ j m. ground (arith, av_unlink_rest c0 x j)) v.device_ring;
      loose = λ j l m. ground (arith, v.loose j l m, av_unlink_rest c0 x j);
      free_idle = λ j l. ground (arith, v.free_idle j l, av_unlink_rest c0 x j);
      free_below = v.free_below;
      queue_busy = λ j m. ground (arith, v.queue_busy j, av_unlink_rest c0 x j);
      cached_below = v.cached_below;
      one_block = λ i j m n.
          ground (arith, v.one_block i j m n, av_unlink_rest c0 x i, av_unlink_rest c0 x j);
      devices = unfold av_unlink in v.devices;
      works = refl;
    }

module _ (chan words : ℕ → ℕ) (x : ℕ) where
  receive-IsValid :
      (d : Cache) {free queue cached : List ℕ}
      → IsValid (settled d queue) free queue cached
      → IsValid (settled (receive words x d) queue) free queue cached
  unfolding receive
  receive-IsValid d {queue} v = elim (Bool-cases (has_bit (d.node x).flag b_read)) [
    | inl r ↦ rw r (
        content-IsValid (settled d queue) x
          (λ j. if ltb j 256 then words j else (d.node x).content j) v)
    | inr w ↦ rw w v
  ]

  iodone-IsValid :
      (d : Cache) {free queue cached : List ℕ}
      → IsValid (settled d queue) free queue cached
      → IsValid (settled (iodone chan d x) queue) free queue cached
  unfolding iodone
  iodone-IsValid d {queue} v =
      let f = done_flag (d.node x).flag in
      IsValid-rest (set_flag (settled d queue) x f) (wakeup (chan x) d.kernel) d.io
        (set_flag-IsValid (settled d queue) x f (done_flag_lem (d.node x).flag).1 v)

  pub finished_node :
      (c : Cache) (j : ℕ)
      → let b = (finished chan words x c).node j in
        let a = c.node j in
        (b.flag ≡ (if x == j then done_flag a.flag else a.flag))
        × (b.blkno ≡ a.blkno)
        × ((i : ℕ)
            → b.content i
              ≡ (if x == j && has_bit a.flag b_read && ltb i 256 then words i else a.content i))
  unfolding finished iodone receive av_unlink
  finished_node c j = (ground arith, ground arith, λ i. ground arith)

  pub finished_state :
      (c : Cache) → ((finished chan words x c).active ≡ 0) × ((finished chan words x c).io ≡ c.io)
  unfolding finished iodone receive av_unlink
  finished_state c = (ground arith, ground arith)

pub finished-IsValid :
    (chan words : ℕ → ℕ) (x : ℕ) (c : Cache) (free rest cached : List ℕ)
    → IsValid c free (x ∷ rest) cached
    → IsValid (settled (finished chan words x c) rest) free rest cached
unfolding finished
finished-IsValid chan words x c free rest cached v =
    let c1 = av_unlink (record c { active = 0 }) x in
    iodone-IsValid chan words x (receive words x c1)
      (receive-IsValid chan words x c1 (dequeue-IsValid c x free rest cached v))
