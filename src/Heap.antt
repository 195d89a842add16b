-- ===== src/Heap.antt =====
-- src/mm/malloc.c with inc/malloc.h: the memory of the kernel by sizes of powers of two.
-- The singly linked lists are lists, from the head on: the buckets behind an entry of `bktab`, the
-- free entries of a bucket, and the unused bucket structures of `bkfreelist`, by their addresses.
pub mod Slot
pub mod Entry
pub mod Grown
pub mod Round
mod Tests
use fleurix.Base.{
  ℕ, zero, suc, ◌+◌, ◌-◌, ◌*◌, ◌/◌, ◌%◌, ◌^◌, Bool, true, false, ◌||◌, Option, none, some, List, [],
  ◌∷◌, leb, ltb, ◌==◌, if◌then◌else◌,
}
use fleurix.Base.Loops.{update}
use fleurix.Base.Result.{Result, ok, panic, ◌>>=◌}
use fleurix.Pm.{Frames, page_size, pgfind, pgalloc, pgfree}

-- `struct bucket`; its size is that of its line of `bktab`.
pub record Bucket : Type 0 where
  pub page : ℕ
  pub entry : List ℕ

-- The lists of `bktab`, `bkfreelist`, and the map of the frames.
pub record Heap : Type 0 where
  pub frames : Frames
  pub bktab : ℕ → List Bucket
  pub spare : List ℕ

-- `bktab[sn].bk_size`.
abbrev pub bk_size : ℕ → ℕ
bk_size sn = 32 * 2 ^ sn

-- while ((n <<= 1) <= 4096) { if (size <= n) return i; i++; }
pub bkslot_from : ℕ → ℕ → ℕ → ℕ → Option ℕ
bkslot_from zero n i size = none
bkslot_from (suc rounds) n i size =
    let later = bkslot_from rounds (n * 2) (i + 1) size in
    if leb (n * 2) 4096 then (if leb size (n * 2) then some i else later) else none

-- `none` is -1. The size is the bits of an `int`; eight rounds are those of n from 32 to 4096.
pub bkslot : ℕ → Option ℕ
unfolding bkslot_from
bkslot size = if size == 0 || leb (2 ^ 31) size then none else bkslot_from 8 16 0 size

-- The addresses from `a` on, `n` of them, `step` apart.
pub addresses : ℕ → ℕ → ℕ → List ℕ
addresses zero a step = []
addresses (suc n) a step = a ∷ addresses n (a + step) step

-- A page of `pgalloc`, by its address.
pub take_frame : Heap → Result (ℕ × Heap)
take_frame h = do
  (p, frames) ← pgalloc h.frames
  ok ((frames.coremap p).num * page_size, record h { frames = frames })

-- A page of bucket structures of 16 bytes, when none is left.
refill : List ℕ → Heap → Result Heap
unfolding take_frame addresses
refill [] h = do (page, h') ← take_frame h; ok (record h' { spare = addresses 256 page 16 })
refill (b ∷ bs) h = ok h

take_spare : List ℕ → Heap → Result (ℕ × Heap)
take_spare [] h = panic
take_spare (b ∷ bs) h = ok (b, record h { spare = bs })

pub bkalloc : Heap → Result (ℕ × Heap)
unfolding refill take_spare
bkalloc h = do h1 ← refill h.spare h; take_spare h1.spare h1

pub bkfree : Heap → ℕ → Heap
bkfree h bk = record h { spare = bk ∷ h.spare }

-- A bucket with a page of free entries.
pub bkinit : Heap → ℕ → Result (Bucket × Heap)
unfolding take_frame addresses
bkinit h size = do
  (page, h') ← take_frame h
  ok (record { page = page; entry = addresses (page_size / size) page size }, h')

-- The first bucket with a free entry gives its first one.
pub take_entry : List Bucket → Option (ℕ × List Bucket)
take_entry [] = none
take_entry (b ∷ bs) = elim b.entry [
  | [] ↦ elim (take_entry bs) [ none ↦ none | some (e, bs') ↦ some (e, b ∷ bs') ]
  | e ∷ es ↦ some (e, record b { entry = es } ∷ bs)
]

-- A new bucket at the head of the list.
pub grow : Heap → ℕ → Result Heap
unfolding bkalloc bkinit
grow h sn = do
  (at, h1) ← bkalloc h
  (b, h2) ← bkinit h1 (bk_size sn)
  ok (record h2 { bktab = update h2.bktab sn (b ∷ h2.bktab sn) })

-- The search of one bucket list from its head, and from behind its first bucket: the loop goes on
-- behind the bucket that it has just put at the head.
search_all : Heap → ℕ → Option (ℕ × Heap)
search_all h sn = elim (take_entry (h.bktab sn)) [
  | none ↦ none
  | some (e, bs) ↦ some (e, record h { bktab = update h.bktab sn bs })
]

search_behind : Heap → ℕ → Option (ℕ × Heap)
search_behind h sn = elim (h.bktab sn) [
  | [] ↦ none
  | b ∷ bs ↦ elim (take_entry bs) [
    | none ↦ none
    | some (e, bs') ↦ some (e, record h { bktab = update h.bktab sn (b ∷ bs') })
  ]
]

-- The rounds of `_find` after the first one; out of rounds is `none`.
find_behind : ℕ → Heap → ℕ → Result (Option (ℕ × Heap))
find_behind zero h sn = ok none
find_behind (suc rounds) h sn = elim (search_behind h sn) [
  | some r ↦ ok (some r)
  | none ↦ do h1 ← grow h sn; find_behind rounds h1 sn
]

-- The search, with at most two new buckets, which are enough.
find_loop : Heap → ℕ → Result (Option (ℕ × Heap))
unfolding search_all search_behind find_behind grow
find_loop h sn = elim (search_all h sn) [
  | some r ↦ ok (some r)
  | none ↦ do h1 ← grow h sn; find_behind 2 h1 sn
]

pub kmalloc : Heap → ℕ → Result (Option (ℕ × Heap))
unfolding find_loop take_frame
kmalloc h size = elim (bkslot size) [
  | none ↦ panic
  | some sn ↦ if bk_size sn == page_size then (do r ← take_frame h; ok (some r)) else find_loop h sn
]

-- The entry goes back to the bucket of its page.
pub put_entry : ℕ → List Bucket → Option (List Bucket)
put_entry addr [] = none
put_entry addr (b ∷ bs) =
    let later = put_entry addr bs in
    if b.page == addr / page_size * page_size
    then some (record b { entry = addr ∷ b.entry } ∷ bs)
    else elim later [ none ↦ none | some bs' ↦ some (b ∷ bs') ]

pub kfree : Heap → ℕ → ℕ → Result Heap
unfolding put_entry
kfree h addr size = elim (bkslot size) [
  | none ↦ panic
  | some sn ↦
      if bk_size sn == page_size
      then (do
        p ← pgfind (addr / page_size)
        (n, frames) ← pgfree h.frames p
        ok (record h { frames = frames }))
      else elim (put_entry addr (h.bktab sn)) [
        | none ↦ panic
        | some bs ↦ ok (record h { bktab = update h.bktab sn bs })
      ]
]
