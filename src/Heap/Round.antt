-- ===== src/Heap/Round.antt =====
-- The search of `kmalloc` ends, with two pages more when no entry is free.
use fleurix.Base.{
  ℕ, ◌+◌, ◌/◌, ◌<◌, ◌≡◌, refl, ap, ◌∙◌, false, Option, none, some, List, [], ◌∷◌, length, leb, ◌==◌,
  if◌then◌else◌, arith,
}
use fleurix.Base.Loops.{update}
use fleurix.Base.Result.{Result, ok, panic, ◌>>=◌}
use fleurix.Pm.{page_size}
use fleurix.Pm.Alloc.{IsValid}
use fleurix.Heap.{
  Bucket, Heap, bk_size, bkslot, take_entry, grow, search_all, search_behind, find_behind,
  find_loop, kmalloc,
}
use fleurix.Heap.Entry.{take_entry-cons}
use fleurix.Heap.Grown.{Grown, Grew, short, grew, cost, left, grow-Grew}

search_behind-none :
    (h : Heap) (sn : ℕ) (b : Bucket) (bs : List Bucket)
    → h.bktab sn ≡ b ∷ bs
    → take_entry bs ≡ none
    → search_behind h sn ≡ none
unfolding search_behind
search_behind-none h sn b bs listed none_left = rw (search_behind, listed, none_left) refl

search_behind-some :
    (h : Heap) (sn e : ℕ) (b : Bucket) (bs bs' : List Bucket)
    → h.bktab sn ≡ b ∷ bs
    → take_entry bs ≡ some (e, bs')
    → search_behind h sn ≡ some (e, record h { bktab = update h.bktab sn (b ∷ bs') })
unfolding search_behind
search_behind-some h sn e b bs bs' listed got = rw (search_behind, listed, got) refl

-- The frames of two new buckets, and of a page of bucket structures when at most one is left.
abbrev pub needed : List ℕ → ℕ
needed spare = if leb (length spare) 1 then 3 else 2

-- How the search of a slot without a free entry ends, with the frames `free` on the free list: by a
-- panic, or with two buckets more, the newer of which has all its entries.
pub data Grows (h : Heap) (sn : ℕ) (free : List ℕ) : Result (Option (ℕ × Heap)) → Type 0 where
  stops : length free < needed h.spare → Grows h sn free panic
  gives :
      (newer older : Bucket) (e : ℕ) (es : List ℕ) (h' : Heap)
      → length newer.entry ≡ page_size / bk_size sn
      → older.entry ≡ e ∷ es
      → length older.entry ≡ page_size / bk_size sn
      → h'.bktab sn ≡ newer ∷ record older { entry = es } ∷ h.bktab sn
      → Grows h sn free (ok (some (e, h')))

some_entry : (xs : List ℕ) → 0 < length xs → (x : ℕ) × (rest : List ℕ) × (xs ≡ x ∷ rest)
some_entry [] pos = absurd (omega arith)
some_entry (x ∷ xs) pos = (x, xs, refl)

cost_lem : (xs : List ℕ) → needed xs ≡ cost xs + (if left xs == 0 then 2 else 1)
cost_lem [] = refl
cost_lem (x ∷ []) = refl
cost_lem (x ∷ y ∷ ys) = ground arith

cost-length : (xs : List ℕ) → cost xs ≡ (if length xs == 0 then 2 else 1)
cost-length [] = refl
cost-length (x ∷ xs) = ground arith

module _ (h : Heap) (sn : ℕ) (free : List ℕ) (pos : 0 < page_size / bk_size sn)
    (none_free : take_entry (h.bktab sn) ≡ none) where
  -- The second round finds the bucket of the first one.
  second_round :
      (h1 h2 : Heap) → Grown h sn h1 → Grown h1 sn h2 → Grows h sn free (find_behind 1 h2 sn)
  unfolding find_behind
  second_round h1 h2 g1 g2 =
      let (e, es, has) = some_entry g1.bucket.entry (omega (arith, pos, g1.all_free)) in
      let behind : h2.bktab sn ≡ g2.bucket ∷ g1.bucket ∷ h.bktab sn =
        g2.listed ∙ ap (◌∷◌ g2.bucket) g1.listed in
      let got = take_entry-cons g1.bucket (h.bktab sn) e es has in
      let last : List Bucket = record g1.bucket { entry = es } ∷ h.bktab sn in
      rw
        (find_behind, search_behind-some h2 sn e g2.bucket (g1.bucket ∷ h.bktab sn) last behind got)
        (gives g2.bucket g1.bucket e es
          (record h2 { bktab = update h2.bktab sn (g2.bucket ∷ last) }) g2.all_free has g1.all_free
          (ground arith))

  first_round :
      (h1 : Heap) (rest : List ℕ)
      → IsValid h1.frames rest
      → length rest + cost h.spare ≡ length free
      → length h1.spare ≡ left h.spare
      → Grown h sn h1
      → Grows h sn free (find_behind 2 h1 sn)
  unfolding find_behind
  first_round h1 rest v paid spare g1 =
      rw (find_behind, search_behind-none h1 sn g1.bucket (h.bktab sn) g1.listed none_free)
        (by_grow (grow h1 sn) (grow-Grew h1 sn rest v))
    where
      by_grow :
          (r : Result Heap) → Grew h1 sn rest r → Grows h sn free (r >>= λ h2. find_behind 1 h2 sn)
      by_grow panic (short few) =
          stops (ground (arith, few, paid, spare, cost_lem h.spare, cost-length h1.spare))
      by_grow (ok h2) (grew _ rest' v' paid' spare' g2) = second_round h1 h2 g1 g2

  find_loop-Grows : IsValid h.frames free → Grows h sn free (find_loop h sn)
  unfolding find_loop search_all
  find_loop-Grows v =
      rw (find_loop, search_all, none_free) (by_grow (grow h sn) (grow-Grew h sn free v))
    where
      by_grow :
          (r : Result Heap) → Grew h sn free r → Grows h sn free (r >>= λ h1. find_behind 2 h1 sn)
      by_grow panic (short few) = stops (ground (arith, few, cost_lem h.spare))
      by_grow (ok h1) (grew _ rest v' paid spare g1) = first_round h1 rest v' paid spare g1

-- `kmalloc` of less than a page ends, also when no bucket of the slot has a free entry, on a valid map
-- of the frames: it panics only when fewer than two frames are free, or fewer than three with at most
-- one bucket structure left; otherwise it puts two new buckets before the list of the slot, and returns
-- an entry of the one that was added first, while the other keeps all its entries free: the loop went
-- on behind the bucket that it had just added, and found it only after it had added one more.
pub kmalloc-Grows :
    (h : Heap) (size sn : ℕ) (free : List ℕ)
    → bkslot size ≡ some sn
    → (bk_size sn == page_size) ≡ false
    → 0 < page_size / bk_size sn
    → take_entry (h.bktab sn) ≡ none
    → IsValid h.frames free
    → Grows h sn free (kmalloc h size)
unfolding kmalloc
kmalloc-Grows h size sn free slot small pos none_free v =
    rw (slot, kmalloc, small) (find_loop-Grows h sn free pos none_free v)
