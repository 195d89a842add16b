-- ===== src/Buf/Calls/Release.antt =====
-- Giving a buffer back.
use fleurix.Base.{
  ℕ, ◌<◌, ◌≡◌, ◌≢◌, true, false, List, [], ◌∷◌, ◌++◌, ◌==◌, if◌then◌else◌, arith, inl, inr,
  Bool-cases,
}
use fleurix.Base.Bits.{has_bit, has_bit-eq, bit-le_one}
use fleurix.Kernel.{Kernel}
use fleurix.Sched.{wakeup}
use fleurix.Buf.{Buf, Cache, nbuf, free_head, hdtab, b_error, b_busy, b_wanted, without, set_flag}
use fleurix.Buf.Calls.{brelse, wake_waiting, put_back, clean_buf, av_append}
use fleurix.Buf.Rings.{Appended, Links-last, append-Ring, frame-Ring}
use fleurix.Buf.Valid.{
  IsValid, busy, av_next_of, av_prev_of, set_flag-IsValid, free-queue-apart, bit-without,
}
use fleurix.Pm.Chain.{mem, mem-append}

-- The validity of the cache is not about the processes.
pub IsValid-kernel :
    (c : Cache) (k : Kernel) {free queue cached : List ℕ}
    → IsValid c free queue cached
    → IsValid (record c { kernel = k }) free queue cached
IsValid-kernel c k v = record {
  free_ring = v.free_ring;
  queue_ring = v.queue_ring;
  device_ring = v.device_ring;
  loose = v.loose;
  free_idle = v.free_idle;
  free_below = v.free_below;
  queue_busy = v.queue_busy;
  cached_below = v.cached_below;
  one_block = v.one_block;
  devices = v.devices;
  works = v.works;
}

-- Clearing B_WANTED leaves B_BUSY.
unwanted-busy : (f : ℕ) → has_bit (without f 0x10) b_busy ≡ has_bit f b_busy
unwanted-busy f = ground (
  arith,
  has_bit-eq (without f 0x10) b_busy,
  has_bit-eq f b_busy,
  bit-without b_busy f 0x10,
  bit-le_one b_busy f,
)

module _ (chan : ℕ → ℕ) (c : Cache) (x : ℕ) {free queue cached : List ℕ} where
  wake_waiting-IsValid :
      IsValid c free queue cached → IsValid (wake_waiting chan c x) free queue cached
  unfolding wake_waiting
  wake_waiting-IsValid v = elim (Bool-cases (has_bit (c.node x).flag b_wanted)) [
    | inl w ↦ rw w (
        second (record c { kernel = wakeup (chan x) c.kernel })
          (IsValid-kernel c (wakeup (chan x) c.kernel) v))
    | inr n ↦ rw n (second c v)
  ]
    where
      second :
          (d : Cache)
          → IsValid d free queue cached
          → IsValid
              (if has_bit (d.node free_head).flag b_wanted
                then record (set_flag d free_head (without (d.node free_head).flag 0x10)) {
                  kernel = wakeup (chan free_head) d.kernel;
                }
                else d)
              free
              queue
              cached
      second d v = elim (Bool-cases (has_bit (d.node free_head).flag b_wanted)) [
        | inl w ↦ rw w (
            IsValid-kernel (set_flag d free_head (without (d.node free_head).flag 0x10))
              (wakeup (chan free_head) d.kernel)
              (set_flag-IsValid d free_head (without (d.node free_head).flag 0x10)
                (unwanted-busy (d.node free_head).flag) v))
        | inr n ↦ rw n v
      ]

pub wake_waiting-node :
    (chan : ℕ → ℕ) (c : Cache) (x j : ℕ) → j < nbuf → (wake_waiting chan c x).node j ≡ c.node j
unfolding wake_waiting
wake_waiting-node chan c x j lt = ground arith

pub put_back-Appended :
    (c : Cache) (x : ℕ)
    → x ≢ free_head
    → (c.node free_head).av_prev ≢ x
    → Appended
        (av_next_of c)
        (av_prev_of c)
        (av_next_of (put_back c x))
        (av_prev_of (put_back c x))
        free_head
        x
unfolding put_back av_append clean_buf
put_back-Appended c x ne last = record { forth = λ j. ground arith; back = λ j. ground arith }

pub clean_buf-busy : (b : Buf) → has_bit (clean_buf b).flag b_busy ≡ false
unfolding clean_buf
clean_buf-busy b = elim (Bool-cases (has_bit b.flag b_error)) [
  | inl e ↦ rw e (cleared b.flag)
  | inr n ↦ rw n (cleared b.flag)
]
  where
    cleared : (f : ℕ) → has_bit (without f 0x78) b_busy ≡ false
    cleared f = ground (arith, has_bit-eq (without f 0x78) b_busy, bit-without b_busy f 0x78)

-- What is left of a buffer when it is put back.
pub put_back_buf :
    (c : Cache) (x j : ℕ)
    → let b = if x == j then clean_buf (c.node x) else c.node j in
      let b' = (put_back c x).node j in
      (b'.flag ≡ b.flag)
      × (b'.dev ≡ b.dev)
      × (b'.blkno ≡ b.blkno)
      × (b'.next ≡ b.next)
      × (b'.prev ≡ b.prev)
      × (b'.content ≡ b.content)
unfolding put_back av_append
put_back_buf c x j = ground arith

pub clean_buf_rest :
    (b : Buf)
    → ((clean_buf b).dev ≡ (if has_bit b.flag b_error then 0 else b.dev))
      × ((clean_buf b).blkno ≡ b.blkno)
      × ((clean_buf b).next ≡ b.next)
      × ((clean_buf b).prev ≡ b.prev)
      × ((clean_buf b).content ≡ b.content)
unfolding clean_buf
clean_buf_rest b = ground arith

module _ (c : Cache) (x : ℕ) {free queue cached : List ℕ} (v : IsValid c free queue cached)
    (lt : x < nbuf) (b : busy c x ≡ true) (out : mem x queue ≡ false) where
  put_back-IsValid : IsValid (put_back c x) (free ++ x ∷ []) queue cached
  put_back-IsValid =
      let absent : mem x free ≡ false = ground (arith, v.free_idle x lt) in
      let last =
        Links-last (av_next_of c) (av_prev_of c) free_head free free_head v.free_ring.path in
      let ne : x ≢ free_head = λ e. ground arith in
      let ne' : (c.node free_head).av_prev ≢ x = λ e. ground (arith, last) in
      let u = put_back-Appended c x ne ne' in
      record {
        free_ring = append-Ring u free ne absent v.free_ring;
        queue_ring =
            frame-Ring hdtab queue
              (λ j m. ground (arith, u.forth j, u.back j, last, free-queue-apart v j m))
              v.queue_ring;
        device_ring =
            frame-Ring hdtab cached
              (λ j m. ground (arith, put_back_buf c x j, clean_buf_rest (c.node x))) v.device_ring;
        loose =
            λ j l m. ground (arith, v.loose j l m, put_back_buf c x j, clean_buf_rest (c.node x));
        free_idle = λ j l. ground (
          arith,
          v.free_idle j l,
          mem-append j free (x ∷ []),
          put_back_buf c x j,
          clean_buf-busy (c.node x),
        );
        free_below = λ j m. ground (arith, v.free_below j, mem-append j free (x ∷ []));
        queue_busy = λ j m. ground (arith, v.queue_busy j m, put_back_buf c x j);
        cached_below = v.cached_below;
        one_block = λ i j m n. ground (
          arith,
          v.one_block i j m n,
          put_back_buf c x i,
          put_back_buf c x j,
          clean_buf_rest (c.node x),
        );
        devices = unfold put_back av_append in v.devices;
        works = unfold put_back av_append in v.works;
      }

-- `brelse` of a buffer in use, with no request at the drive, leaves the cache valid, with the buffer
-- at the end of the free list; the other free buffers, the requests and the list of the device are
-- as they were, and so are the data of the buffer.
pub brelse-IsValid :
    (chan : ℕ → ℕ) (c : Cache) (x : ℕ) (free queue cached : List ℕ)
    → IsValid c free queue cached
    → x < nbuf
    → busy c x ≡ true
    → mem x queue ≡ false
    → IsValid (brelse chan c x) (free ++ x ∷ []) queue cached
      × (((brelse chan c x).node x).content ≡ (c.node x).content)
unfolding brelse
brelse-IsValid chan c x free queue cached v lt b out =
    let c1 = wake_waiting chan c x in
    let same = wake_waiting-node chan c x x lt in
    (
      put_back-IsValid c1 x (wake_waiting-IsValid chan c x v) lt (ground (arith, same)) out,
      ground (arith, same, put_back_buf c1 x x, clean_buf_rest (c1.node x)),
    )
