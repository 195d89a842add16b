-- ===== src/Paging/Faults/Zero.antt =====
-- A page that is missing in an area of zeros.
use fleurix.Base.{ℕ, ◌<◌, ◌≡◌, false, ◌&&◌, List, [], ◌∷◌, some, ◌==◌, ◌%◌, arith}
use fleurix.Base.Result.{Result, ok, panic}
use fleurix.Kernel.{Kernel}
use fleurix.Pm.{npage, take_head}
use fleurix.Pm.Alloc.{IsValid, count_of}
use fleurix.Paging.{Memory, pdx, ptx}
use fleurix.Paging.Walk.{walk, IsTree}
use fleurix.Paging.Faults.{Space, Reply, done}

-- How the handler ends, with the frames `free` on the free list: without a frame for the page, or with
-- one but none for the table that is missing too; or with a page of zeros at the address.
pub data ZeroFills (s : Space) (vaddr : ℕ) (free : List ℕ) : Result (Space × Reply) → Type 0 where
  no_frame : free ≡ [] → ZeroFills s vaddr free panic
  one_short :
      (q : ℕ)
      → free ≡ q ∷ []
      → s.memory.word s.pgd (pdx vaddr) % 2 ≡ 0
      → ZeroFills s vaddr free panic
  fills :
      (q : ℕ) (s' : Space)
      → walk s'.memory s.pgd vaddr ≡ some (q, 7)
      → ((j : ℕ) → s'.memory.word q j ≡ 0)
      → ((va : ℕ)
          → (pdx va == pdx vaddr && ptx va == ptx vaddr) ≡ false
          → walk s'.memory s.pgd va ≡ walk s.memory s.pgd va)
      → IsTree s'.memory s.pgd
      → ZeroFills s vaddr free (ok (s', done))

module _ (s : Space) (q : ℕ) (rest : List ℕ) (v : IsValid s.memory.frames (q ∷ rest))
    (tree : IsTree s.memory s.pgd) (chan : ℕ → ℕ)
    (readi : Kernel → ℕ → ℕ → (ℕ → ℕ) → Kernel × (ℕ → ℕ)) where
  abbrev m1 : Memory
  m1 = record s.memory { frames = take_head s.memory.frames q }

  free : (q < npage) × (count_of s.memory.frames q ≡ 0)
  free = v.listed q (ground arith)
