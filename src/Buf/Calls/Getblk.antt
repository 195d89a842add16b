-- ===== src/Buf/Calls/Getblk.antt =====
-- Every end of a pass of `getblk`.
use fleurix.Base.{
  ℕ, ◌<◌, ◌≡◌, refl, sym, subst, ◌∙◌, true, false, List, [], ◌∷◌, ◌==◌, leb, arith, inl, inr,
  Bool-cases, Option-cases,
}
use fleurix.Base.Bits.{has_bit}
use fleurix.Base.Word.{u16}
use fleurix.Base.Result.{Result, ok, panic}
use fleurix.Buf.{
  Cache, nbuf, free_head, hdtab, null, b_busy, b_wanted, b_dirty, with_bit, set_flag, major,
  is_negative, d_tab, notavail, av_unlink,
}
use fleurix.Buf.Calls.{Pass, got, sleeps, getblk_pass, found, claim, take_buf, name_block}
use fleurix.Buf.Calls.Recycle.{moved, rest-moved, moved-IsValid}
use fleurix.Buf.Rings.{erase, erase_head}
use fleurix.Buf.Valid.{IsValid, busy, names, set_flag-IsValid, busy-with_bit}
use fleurix.Buf.Found.{
  notavail-IsValid, incore-find_block, find_block, find_block-some, find_block-none,
}
use fleurix.Pm.Chain.{mem}

-- No buffer in the list of the device is the one of the block.
abbrev pub Absent : Cache → List ℕ → ℕ → ℕ → Type 0
Absent c cached dev blkno = (j : ℕ) → mem j cached ≡ true → names c j (u16 dev) blkno ≡ false

-- How a pass ends: on a device that the table has not, in a sleep on the buffer of the block, with
-- the buffer of the block, in a sleep on the empty free list, or with the oldest free buffer.
pub data Passes (c : Cache) (free queue cached : List ℕ) (dev blkno : ℕ)
    : Result (Cache × Pass) → Type 0 where
  unknown : (major dev == 1) ≡ false → Passes c free queue cached dev blkno panic
  waits :
      (i : ℕ) (c' : Cache)
      → mem i cached ≡ true
      → names c i (u16 dev) blkno ≡ true
      → busy c i ≡ true
      → (c'.node i).flag ≡ with_bit (c.node i).flag b_wanted
      → IsValid c' free queue cached
      → Passes c free queue cached dev blkno (ok (c', sleeps i))
  hits :
      (i : ℕ) (c' : Cache)
      → mem i cached ≡ true
      → names c' i (u16 dev) blkno ≡ true
      → busy c i ≡ false
      → (c'.node i).flag ≡ with_bit (c.node i).flag b_busy
      → (c'.node i).content ≡ (c.node i).content
      → IsValid c' (erase i free) queue cached
      → Passes c free queue cached dev blkno (ok (c', got i))
  full :
      (c' : Cache)
      → Absent c cached dev blkno
      → free ≡ []
      → (c'.node free_head).flag ≡ with_bit (c.node free_head).flag b_wanted
      → IsValid c' free queue cached
      → Passes c free queue cached dev blkno (ok (c', sleeps free_head))
  takes :
      (i : ℕ) (rest : List ℕ) (c' : Cache)
      → Absent c cached dev blkno
      → free ≡ i ∷ rest
      → names c' i (u16 dev) blkno ≡ true
      → (c'.node i).flag ≡ 8
      → IsValid c' rest queue (i ∷ erase i cached)
      → Passes c free queue cached dev blkno (ok (c', got i))

module _ (c : Cache) {free queue cached : List ℕ} (dev blkno : ℕ)
    (v : IsValid c free queue cached) where
  found-Passes :
      (i : ℕ)
      → mem i cached ≡ true
      → names c i (u16 dev) blkno ≡ true
      → Passes c free queue cached dev blkno (ok (found c i))
  unfolding found
  found-Passes i m n = elim (Bool-cases (busy c i)) [
    | inl b ↦ rw b (
        waits i (set_flag c i (with_bit (c.node i).flag b_wanted)) m n b (ground arith) (
          set_flag-IsValid c i (with_bit (c.node i).flag b_wanted)
            (busy-with_bit (c.node i).flag b_wanted) v))
    | inr b ↦
        let there : mem i free ≡ true = ground (arith, v.free_idle i (v.cached_below i m)) in
        rw b (
          hits i (notavail c i) m (unfold notavail av_unlink in ground arith) b
            (unfold notavail av_unlink in ground arith) (unfold notavail av_unlink in ground arith)
            (notavail-IsValid c i there v))
  ]

-- The flags of the oldest free buffer are set to B_BUSY.
taken-IsValid :
    (c : Cache) (i : ℕ) (rest : List ℕ) {queue cached : List ℕ}
    → IsValid c (i ∷ rest) queue cached
    → IsValid (set_flag (notavail c i) i 8) rest queue cached
taken-IsValid c i rest {queue} {cached} v =
    let off = notavail-IsValid c i (ground arith) v in
    let still : busy (notavail c i) i ≡ true =
      unfold notavail av_unlink in ground (arith, busy-with_bit (c.node i).flag b_busy) in
    set_flag-IsValid (notavail c i) i 8 (sym still)
      (subst (λ xs. IsValid (notavail c i) xs queue cached) (erase_head i rest) off)

names-taken :
    (c : Cache) (i j dev blkno : ℕ)
    → names (set_flag (notavail c i) i 8) j dev blkno ≡ names c j dev blkno
names-taken c i j dev blkno = unfold notavail av_unlink in ground arith

take_buf-Passes :
    (c : Cache) (i : ℕ) (rest : List ℕ) {queue cached : List ℕ} (dev blkno : ℕ)
    → IsValid c (i ∷ rest) queue cached
    → Absent c cached dev blkno
    → Passes c (i ∷ rest) queue cached dev blkno (take_buf c i hdtab dev blkno)
unfolding take_buf
take_buf-Passes c i rest {queue} {cached} dev blkno v absent =
    let c1 = set_flag (notavail c i) i 8 in
    let clean : has_bit (c1.node i).flag b_dirty ≡ false = ground arith in
    let lt : i < nbuf = v.free_below i (ground arith) in
    rw clean (
      takes i rest (name_block (moved c1 i) i dev blkno) absent refl
        (unfold name_block in ground arith)
        (unfold name_block in ground (arith, rest-moved (taken-IsValid c i rest v) lt i))
        (moved-IsValid (taken-IsValid c i rest v) lt dev blkno (ground arith)
          λ j m. names-taken c i j (u16 dev) blkno ∙ absent j m))

-- The oldest free buffer, taken for the block, when there is one.
claim-Passes :
    (c : Cache) (free : List ℕ) {queue cached : List ℕ} (dev blkno : ℕ)
    → IsValid c free queue cached
    → Absent c cached dev blkno
    → Passes c free queue cached dev blkno (claim c hdtab dev blkno)
unfolding claim
claim-Passes c [] dev blkno v absent =
    let none_free : ((c.node free_head).av_next == free_head) ≡ true =
      ground (arith, v.free_ring.path.0) in
    let f = with_bit (c.node free_head).flag b_wanted in
    rw none_free (
      full (set_flag c free_head f) absent refl (ground arith)
        (set_flag-IsValid c free_head f (busy-with_bit (c.node free_head).flag b_wanted) v))
claim-Passes c (i ∷ rest) {queue} {cached} dev blkno v absent =
    let oldest : (c.node free_head).av_next ≡ i = v.free_ring.path.0 in
    let is_free : ((c.node free_head).av_next == free_head) ≡ false =
      ground (arith, v.free_below i) in
    rw is_free (
      subst (λ b. Passes c (i ∷ rest) queue cached dev blkno (take_buf c b hdtab dev blkno))
        (sym oldest) (take_buf-Passes c i rest dev blkno v absent))

-- A pass of `getblk` for the device `dev`, which is not negative, ends in one of five ways, and
-- leaves the cache valid: it panics when the device is not the drive; it sleeps on the buffer of
-- the block when that is busy; it returns the buffer of the block, busy now and off the free list,
-- with its data; or, when the block has no buffer, it sleeps on the free list if that is empty, and
-- otherwise returns the oldest free buffer, which is the only one of the block from then on.
pub getblk_pass-Passes :
    (c : Cache) (free queue cached : List ℕ) (dev blkno : ℕ)
    → IsValid c free queue cached
    → is_negative dev ≡ false
    → Passes c free queue cached dev blkno (getblk_pass c dev blkno)
unfolding getblk_pass
getblk_pass-Passes c free queue cached dev blkno v positive = elim (Bool-cases (major dev == 1)) [
  | inl here ↦
      let one : major dev ≡ 1 = ground arith in
      let same : major (u16 dev) ≡ 1 = omega arith in
      let seek = incore-find_block c dev blkno v same in
      let few : leb c.nblkdev (major dev) ≡ false = ground (arith, v.devices) in
      let tab : d_tab (major dev) ≡ hdtab = rw one refl in
      rw (few, positive, tab)
        (elim (Option-cases (find_block c (u16 dev) blkno cached)) [
          | inl e ↦
              rw (seek, e, tab)
                (claim-Passes c free dev blkno v (find_block-none c (u16 dev) blkno cached e))
          | inr (i, e) ↦
              let hit = find_block-some c (u16 dev) blkno cached i e in
              rw (seek, e) (found-Passes c dev blkno v i hit.0 hit.1)
        ])
  | inr other ↦
      let tab : d_tab (major dev) ≡ null = ground arith in
      elim (Bool-cases (leb c.nblkdev (major dev))) [
        | inl far ↦ rw far (unknown other)
        | inr near ↦ rw (near, positive, tab) (unknown other)
      ]
]
