-- ===== src/Buf/Calls/Transfer.antt =====
-- `bread` and `bwrite` hand their buffer to the drive.
use fleurix.Base.{
  ℕ, ◌-◌, ◌^◌, ◌<◌, min, ◌≡◌, refl, ap, sym, ◌∙◌, Bool, true, false, not, List, [], ◌∷◌, ◌++◌, ◌==◌,
  if◌then◌else◌, arith, inl, inr, Bool-cases,
}
use fleurix.Base.Bits.{bit, has_bit, has_bit-eq, bit-set, bit-le_one}
use fleurix.Base.Result.{Result, ok}
use fleurix.Buf.{
  Cache, nbuf, b_read, b_done, b_busy, b_async, without, with_bit, set_flag, major, hd_request,
}
use fleurix.Buf.Calls.{bread_got, bwrite, iowait_sleeps, request}
use fleurix.Buf.Drive.{hd_request-Queues}
use fleurix.Buf.Valid.{IsValid, busy, busy-with_bit, bit-without, set_flag-IsValid}
use fleurix.Pm.Chain.{mem}

module _ (c : Cache) (x : ℕ) {free queue cached : List ℕ} (v : IsValid c free queue cached)
    (lt : x < nbuf) (b : busy c x ≡ true) (out : mem x queue ≡ false) where
  -- The request of a buffer with the new flags `f`.
  flagged :
      (f : ℕ)
      → has_bit f b_busy ≡ true
      → IsValid (hd_request (set_flag c x f) x) free (queue ++ x ∷ []) cached
        × (((hd_request (set_flag c x f) x).node x).flag ≡ f)
  flagged f e =
      let q =
        hd_request-Queues (set_flag c x f) x free queue cached
          (set_flag-IsValid c x f (e ∙ sym b) v) lt (ground arith) out in
      (q.0, ground (arith, q.2 x))

  request_lem :
      (f : ℕ)
      → major (c.node x).dev ≡ 1
      → request (set_flag c x f) x ≡ ok (hd_request (set_flag c x f) x)
  unfolding request
  request_lem f m =
      let drive : (major ((set_flag c x f).node x).dev == 1) ≡ true = ground arith in rw drive refl

iowait_sleeps_lem :
    (c : Cache) (x : ℕ) → has_bit (c.node x).flag b_done ≡ false → iowait_sleeps c x ≡ true
unfolding iowait_sleeps
iowait_sleeps_lem c x e = rw e refl

-- What `bread` does with the buffer that `getblk` gave it.
pub data Reads (c : Cache) (x : ℕ) (free queue cached : List ℕ)
    : Result (Cache × Bool) → Type 0 where
  fresh : has_bit (c.node x).flag b_done ≡ true → Reads c x free queue cached (ok (c, false))
  asks :
      (c' : Cache)
      → has_bit (c.node x).flag b_done ≡ false
      → IsValid c' free (queue ++ x ∷ []) cached
      → (c'.node x).flag ≡ with_bit (c.node x).flag b_read
      → Reads c x free queue cached (ok (c', true))

-- `bread` with a buffer of the drive, which is busy and has no request: data that are there already
-- are returned at once and nothing changes; otherwise the buffer is marked for reading, its request
-- is the last of the queue, the cache stays valid, and the caller waits for the drive.
pub bread_got-Reads :
    (c : Cache) (x : ℕ) (free queue cached : List ℕ)
    → IsValid c free queue cached
    → x < nbuf
    → busy c x ≡ true
    → mem x queue ≡ false
    → major (c.node x).dev ≡ 1
    → Reads c x free queue cached (bread_got c x)
unfolding bread_got
bread_got-Reads c x free queue cached v lt b out m =
    let f = with_bit (c.node x).flag b_read in
    elim (Bool-cases (has_bit (c.node x).flag b_done)) [
      | inl d ↦ rw d (fresh d)
      | inr n ↦
          let busy_still : has_bit f b_busy ≡ true =
            ground (arith, busy-with_bit (c.node x).flag b_read) in
          let q = flagged c x v lt b out f busy_still in
          let undone : has_bit f b_done ≡ false = ground (
            arith,
            has_bit-eq f b_done,
            has_bit-eq (c.node x).flag b_done,
            bit-set b_done b_read (c.node x).flag,
          ) in
          let c' = hd_request (set_flag c x f) x in
          let sleepy = iowait_sleeps_lem c' x (ap (λ g. has_bit g b_done) q.1 ∙ undone) in
          rw (n, request_lem c x v lt b out f m, sleepy) (asks c' n q.0 q.1)
    ]

-- `bwrite` of a buffer of the drive, which is busy and has no request: its request is the last of
-- the queue, with B_READ, B_DONE, B_ERROR and B_DIRTY off, the cache stays valid, and the caller
-- waits for the drive unless the buffer was marked B_ASYNC.
pub bwrite-Queues :
    (c : Cache) (x : ℕ) (free queue cached : List ℕ)
    → IsValid c free queue cached
    → x < nbuf
    → busy c x ≡ true
    → mem x queue ≡ false
    → major (c.node x).dev ≡ 1
    → (c' : Cache) × (bwrite c x ≡ ok (c', not (has_bit (c.node x).flag b_async)))
      × IsValid c' free (queue ++ x ∷ []) cached
      × (has_bit (c'.node x).flag b_read ≡ false)
      × (has_bit (c'.node x).flag b_done ≡ false)
      × (busy c' x ≡ true)
unfolding bwrite
bwrite-Queues c x free queue cached v lt b out m =
    let g = (c.node x).flag in
    let f = without g 0x27 in
    let busy_still : has_bit f b_busy ≡ true =
      ground (arith, off b_busy g, has_bit-eq g b_busy, bit-le_one b_busy g) in
    let q = flagged c x v lt b out f busy_still in
    let c' = hd_request (set_flag c x f) x in
    let undone : has_bit (c'.node x).flag b_done ≡ false =
      ap (λ h. has_bit h b_done) q.1 ∙ ground (arith, off b_done g) in
    (
      c',
      rw (request_lem c x v lt b out f m, iowait_sleeps_lem c' x undone)
          (ap (λ (a : Bool). ok (c', a)) (waits (has_bit g b_async))),
      q.0,
      ap (λ h. has_bit h b_read) q.1 ∙ ground (arith, off b_read g),
      undone,
      ap (λ h. has_bit h b_busy) q.1 ∙ busy_still,
    )
  where
    off : (k g : ℕ) → has_bit (without g 0x27) k ≡ (min (bit k g) (bit k (2 ^ 32 - 1 - 0x27)) == 1)
    off k g = has_bit-eq (without g 0x27) k ∙ ap (λ (n : ℕ). n == 1) (bit-without k g 0x27)

    waits : (a : Bool) → (if a then false else true) ≡ not a
    waits true = refl
    waits false = refl
