-- ===== src/Heap/Tests.antt =====
-- A heap with one bucket of 32 bytes, at 0x300000, with one free entry, and two free frames.
use fleurix.Base.{ℕ, ◌≡◌, refl, none, some, [], ◌∷◌, ◌||◌, ◌==◌, if◌then◌else◌, arith}
use fleurix.Base.Result.{ok}
use fleurix.Pm.{Frames}
use fleurix.Pm.Alloc.{IsValid}
use fleurix.Heap.{Heap, bkslot, take_entry, take_spare, refill, bkalloc, bkfree, kmalloc, kfree}
use fleurix.Heap.Entry.{kfree-kmalloc}
use fleurix.Heap.Round.{Grows, kmalloc-Grows}

abbrev frames : Frames
frames = record {
  coremap = λ p. record {
    flag = 0;
    count = if p == 5 || p == 6 then 0 else 1;
    num = p;
    next = if p == 5 then some 6 else none;
  };
  free = some 5;
}

abbrev small_heap : Heap
small_heap = record {
  frames = frames;
  bktab = λ sn. if sn == 0 then record { page = 0x300000; entry = 0x300020 ∷ [] } ∷ [] else [];
  spare = 0x301000 ∷ 0x301010 ∷ [];
}

sized : bkslot 20 ≡ some 0
unfolding bkslot
sized = refl

kfree-kmalloc_example :
    (h' : Heap) × (h'' : Heap) × (kmalloc small_heap 20 ≡ ok (some (0x300020, h')))
    × (kfree h' 0x300020 20 ≡ ok h'')
    × (h''.frames ≡ small_heap.frames)
    × (h''.spare ≡ small_heap.spare)
    × ((j : ℕ) → h''.bktab j ≡ small_heap.bktab j)
kfree-kmalloc_example =
    kfree-kmalloc small_heap 20 0 0x300020 (record { page = 0x300000; entry = [] } ∷ []) sized refl
      ((refl, tt), refl, tt) (unfold take_entry in refl)

sized_64 : bkslot 40 ≡ some 1
unfolding bkslot
sized_64 = refl

frames-IsValid : IsValid frames (5 ∷ 6 ∷ [])
frames-IsValid = record {
  chain = (refl, (refl, refl));
  distinct = ground arith;
  listed = λ p h. ground arith;
  unlisted = λ p lt h. ground arith;
  numbered = λ p lt. refl;
}

-- No bucket of 64 bytes has been made yet.
kmalloc-Grows_example : Grows small_heap 1 (5 ∷ 6 ∷ []) (kmalloc small_heap 40)
kmalloc-Grows_example =
    kmalloc-Grows small_heap 40 1 (5 ∷ 6 ∷ []) sized_64 refl (omega arith)
      (unfold take_entry in refl) frames-IsValid

-- A structure that is given back is the next one.
reused : bkalloc (bkfree small_heap 0x302000) ≡ ok (0x302000, small_heap)
unfolding bkalloc bkfree refill take_spare
reused = refl
