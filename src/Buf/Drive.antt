-- ===== src/Buf/Drive.antt =====
-- src/blk/hd.c: the requests of the drive are served in the order they came.
pub mod Finished
pub mod Served
pub mod Queue
use fleurix.Base.{
  ℕ, zero, suc, ◌+◌, ◌-◌, ◌%◌, ◌^◌, ◌≤◌, ◌<◌, min, ◌≡◌, ◌≢◌, refl, sym, ap, subst, ◌∙◌, Bool, true,
  false, not, ◌&&◌, ◌||◌, List, [], ◌∷◌, ◌++◌, ltb, ◌==◌, if◌then◌else◌, arith, inl, inr,
  Bool-cases,
}
use fleurix.Base.Bits.{bit, has_bit, has_bit-eq, bit-bit_and, bit-le_one}
use fleurix.Kernel.{Kernel}
use fleurix.Buf.{
  Buf, Io, Cache, nbuf, free_head, hdtab, b_read, b_busy, hd_cmd, start_on, hd_start, enqueue,
  hd_request,
}
use fleurix.Buf.Rings.{Ring, Appended, Links-last, append-Ring, frame-Ring}
use fleurix.Buf.Valid.{
  IsValid, busy, av_next_of, av_prev_of, next_of, prev_of, idle_or_started, free-queue-apart,
}
use fleurix.Pm.Chain.{mem, mem-append}

-- The validity of the cache is not about the ports and the processes.
pub IsValid-rest :
    (c : Cache) (k : Kernel) (io : List Io) {free queue cached : List ℕ}
    → IsValid c free queue cached
    → IsValid (record c { kernel = k; io = io }) free queue cached
IsValid-rest c k io v = record {
  free_ring = v.free_ring;
  queue_ring = v.queue_ring;
  device_ring = v.device_ring;
  loose = v.loose;
  free_idle = v.free_idle;
  free_below = v.free_below;
  queue_busy = v.queue_busy;
  cached_below = v.cached_below;
  one_block = v.one_block;
  devices = v.devices;
  works = v.works;
}

-- The commands for a request change the ports only.
pub start_on-io : (x : ℕ) (c : Cache) → start_on x c ≡ record c { io = (start_on x c).io }
unfolding start_on hd_cmd
start_on-io x c = elim (Bool-cases (has_bit (c.node x).flag b_read)) [
  | inl r ↦ rw r refl
  | inr w ↦ rw w refl
]

start_on-active :
    (x : ℕ) (c : Cache) → (start_on x (record c { active = 1 })).io ≡ (start_on x c).io
unfolding start_on hd_cmd
start_on-active x c = elim (Bool-cases (has_bit (c.node x).flag b_read)) [
  | inl r ↦ rw r refl
  | inr w ↦ rw w refl
]

-- The cache with the drive set to the state that the queue asks for.
abbrev pub settled : Cache → List ℕ → Cache
settled c queue = record c { active = idle_or_started queue }

-- The ports after a start: the commands for the oldest request, if there is one.
abbrev pub started_io : Cache → List ℕ → List Io
started_io c [] = c.io
started_io c (x ∷ _) = (start_on x c).io

-- `hd_start` on an idle drive.
pub hd_start_lem :
    (c : Cache) (free queue cached : List ℕ)
    → IsValid (settled c queue) free queue cached
    → c.active ≡ 0
    → IsValid (hd_start c) free queue cached
      × ((hd_start c).node ≡ c.node)
      × ((hd_start c).kernel ≡ c.kernel)
      × ((hd_start c).io ≡ started_io c queue)
unfolding hd_start
hd_start_lem c free [] cached v idle =
    let none_left : ((c.node hdtab).av_next == hdtab) ≡ true =
      ground (arith, v.queue_ring.path.1) in
    rw none_left (
      subst (λ d. IsValid d free [] cached) (ap (λ n. record c { active = n }) (sym idle)) v,
      refl,
      refl,
      refl,
    )
hd_start_lem c free (x ∷ rest) cached v idle =
    let last = Links-last (av_prev_of c) (av_next_of c) x rest hdtab v.queue_ring.path.2 in
    let some_left : ((c.node hdtab).av_next == hdtab) ≡ false =
      ground (arith, last, v.queue_ring.apart) in
    let oldest : (c.node hdtab).av_prev ≡ x = v.queue_ring.path.0 in
    let start = start_on-io x (settled c (x ∷ rest)) in
    rw (some_left, oldest, start)
      (
        IsValid-rest (settled c (x ∷ rest)) c.kernel (start_on x (settled c (x ∷ rest))).io v,
        refl,
        refl,
        start_on-active x c,
      )

enqueue_rest :
    (c : Cache) (x j : ℕ)
    → let b = (enqueue c x).node j in
      let a = c.node j in
      (b.flag ≡ a.flag)
      × (b.dev ≡ a.dev)
      × (b.blkno ≡ a.blkno)
      × (b.next ≡ a.next)
      × (b.prev ≡ a.prev)
      × (b.content ≡ a.content)
unfolding enqueue
enqueue_rest c x j = ground arith

module _ (c : Cache) (x : ℕ) {free queue cached : List ℕ} (v : IsValid c free queue cached)
    (lt : x < nbuf) (b : busy c x ≡ true) (out : mem x queue ≡ false) where
  enqueue-Appended :
      Appended
        (av_prev_of c)
        (av_next_of c)
        (av_prev_of (enqueue c x))
        (av_next_of (enqueue c x))
        hdtab
        x
  unfolding enqueue
  enqueue-Appended =
      let last = Links-last (av_prev_of c) (av_next_of c) hdtab queue hdtab v.queue_ring.path in
      record { forth = λ j. ground arith; back = λ j. ground (arith, last) }

  enqueue-IsValid : IsValid (settled (enqueue c x) (queue ++ x ∷ [])) free (queue ++ x ∷ []) cached
  enqueue-IsValid =
      let last = Links-last (av_prev_of c) (av_next_of c) hdtab queue hdtab v.queue_ring.path in
      let u = enqueue-Appended in
      record {
        free_ring =
            frame-Ring free_head free
              (λ j m. ground (
                arith,
                u.forth j,
                u.back j,
                last,
                free-queue-apart v j,
                v.free_idle j,
                v.free_below j,
              ))
              v.free_ring;
        queue_ring = append-Ring u queue (λ e. ground arith) out v.queue_ring;
        device_ring =
            frame-Ring hdtab cached (λ j m. ground (arith, enqueue_rest c x j)) v.device_ring;
        loose = λ j l m. ground (arith, v.loose j l m, enqueue_rest c x j);
        free_idle = λ j l. ground (arith, v.free_idle j l, enqueue_rest c x j);
        free_below = v.free_below;
        queue_busy =
            λ j m. ground (arith, v.queue_busy j, mem-append j queue (x ∷ []), enqueue_rest c x j);
        cached_below = v.cached_below;
        one_block =
            λ i j m n. ground (arith, v.one_block i j m n, enqueue_rest c x i, enqueue_rest c x j);
        devices = unfold enqueue in v.devices;
        works = refl;
      }

start_on-enqueue : (c : Cache) (x : ℕ) → (start_on x (enqueue c x)).io ≡ (start_on x c).io
unfolding start_on hd_cmd enqueue
start_on-enqueue c x = elim (Bool-cases (has_bit (c.node x).flag b_read)) [
  | inl r ↦ ground (arith, r)
  | inr w ↦ ground (arith, w)
]

enqueue_state : (c : Cache) (x : ℕ) → ((enqueue c x).active ≡ c.active) × ((enqueue c x).io ≡ c.io)
unfolding enqueue
enqueue_state c x = (refl, refl)

-- A request for a busy buffer that has none yet is queued behind the others and leaves the cache
-- valid and every flag as it was; the drive gets its commands at once when it has no other request, and nothing otherwise.
pub hd_request-Queues :
    (c : Cache) (x : ℕ) (free queue cached : List ℕ)
    → IsValid c free queue cached
    → x < nbuf
    → busy c x ≡ true
    → mem x queue ≡ false
    → IsValid (hd_request c x) free (queue ++ x ∷ []) cached
      × ((hd_request c x).io ≡ (if c.active == 0 then (start_on x c).io else c.io))
      × ((j : ℕ) → ((hd_request c x).node j).flag ≡ (c.node j).flag)
unfolding hd_request
hd_request-Queues c x free [] cached v lt b out =
    let same = enqueue_state c x in
    let idle : ((enqueue c x).active == 0) ≡ true = ground (arith, v.works, same) in
    let start =
      hd_start_lem (enqueue c x) free (x ∷ []) cached (enqueue-IsValid c x v lt b out)
        (same.0 ∙ v.works) in
    rw idle
      (start.0, start.3 ∙ start_on-enqueue c x, λ j. ground (arith, start.1, enqueue_rest c x j))
hd_request-Queues c x free (y ∷ queue) cached v lt b out =
    let same = enqueue_state c x in
    let works : ((enqueue c x).active == 0) ≡ false = ground (arith, v.works, same) in
    rw works (
      subst (λ d. IsValid d free (y ∷ queue ++ x ∷ []) cached)
          (ap (λ n. record (enqueue c x) { active = n }) (sym (same.0 ∙ v.works)))
          (enqueue-IsValid c x v lt b out),
      same.1,
      λ j. (enqueue_rest c x j).0,
    )
