-- ===== src/Files/Refs.antt =====
-- How many descriptors of all processes refer to an open file.
use fleurix.Base.{
  ℕ, zero, suc, ◌+◌, ◌<◌, ◌≡◌, ◌≢◌, refl, sym, ap, ◌∙◌, true, Option, none, some, ◌==◌,
  if◌then◌else◌, arith,
}
use native.Mathlib.Decide.{ℕ_discrete}
use fleurix.Base.Loops.{update}
use fleurix.Kernel.{Kernel, nproc, nofile, nfile, me}
use fleurix.Files.{set_fd}

-- The sum of the first `n` values.
abbrev pub sum : (ℕ → ℕ) → ℕ → ℕ
sum g zero = 0
sum g (suc n) = sum g n + g n

pub sum-same : (g h : ℕ → ℕ) (n : ℕ) → ((i : ℕ) → i < n → g i ≡ h i) → sum g n ≡ sum h n
sum-same g h zero e = refl
sum-same g h (suc n) e =
    omega (arith, sum-same g h n (λ i lt. e i (omega arith)), e n (omega arith))

-- A change of one term.
pub sum-change :
    (g h : ℕ → ℕ) (n i : ℕ)
    → i < n
    → ((j : ℕ) → j < n → j ≢ i → g j ≡ h j)
    → sum h n + g i ≡ sum g n + h i
sum-change g h zero i lt e = absurd (omega arith)
sum-change g h (suc n) i lt e = elim (ℕ_discrete i n) [
  | yes last ↦
      let same = sum-same g h n (λ j l. e j (omega arith) (omega arith)) in
      rw last (omega (arith, same))
  | no ne ↦ omega (
    arith,
    sum-change g h n i (omega arith) (λ j l m. e j (omega arith) m),
    e n (omega arith) (λ q. ne (sym q)),
  )
]

abbrev pub refers : ℕ → Option ℕ → ℕ
refers f none = 0
refers f (some g) = if g == f then 1 else 0

-- The descriptors of one process, and of all.
pub own_refs : (ℕ → Option ℕ) → ℕ → ℕ
own_refs t f = sum (λ fd. refers f (t fd)) nofile

abbrev pub slot_refs : Kernel → ℕ → ℕ → ℕ
slot_refs k f i = if k.present i then own_refs (k.proc i).ofile f else 0

pub refs : Kernel → ℕ → ℕ
refs k f = sum (slot_refs k f) nproc

-- The count of every open file is the number of descriptors that refer to it.
abbrev pub Counted : Kernel → Type 0
Counted k = (f : ℕ) → f < nfile → (k.file f).count ≡ refs k f

own_refs-set :
    (t : ℕ → Option ℕ) (f fd : ℕ) (v : Option ℕ)
    → fd < nofile
    → own_refs (update t fd v) f + refers f (t fd) ≡ own_refs t f + refers f v
unfolding own_refs
own_refs-set t f fd v lt =
    let moved =
      sum-change (λ i. refers f (t i)) (λ i. refers f (update t fd v i)) nofile fd lt
        (λ j l ne. ground arith) in
    let there : refers f (update t fd v fd) ≡ refers f v = ground arith in
    omega (arith, moved, there)

-- A write to one descriptor of the current process moves one reference.
pub refs-set_fd :
    (k : Kernel) (f fd : ℕ) (v : Option ℕ)
    → fd < nofile
    → k.cu < nproc
    → k.present k.cu ≡ true
    → refs (set_fd k fd v) f + refers f ((me k).ofile fd) ≡ refs k f + refers f v
unfolding refs
refs-set_fd k f fd v lt cu there =
    let moved =
      sum-change (slot_refs k f) (slot_refs (set_fd k fd v) f) nproc k.cu cu
        (λ j l ne. ground arith) in
    let mine = own_refs-set (me k).ofile f fd v lt in
    let before : slot_refs k f k.cu ≡ own_refs (me k).ofile f = rw there in
    let after : slot_refs (set_fd k fd v) f k.cu ≡ own_refs (update (me k).ofile fd v) f =
      ground (arith, there) in
    omega (arith, moved, mine, before, after)

-- States with the same descriptors have the same references.
pub refs-same :
    (k k' : Kernel) (f : ℕ)
    → ((i : ℕ) → i < nproc → (k'.present i ≡ k.present i) × ((k'.proc i).ofile ≡ (k.proc i).ofile))
    → refs k' f ≡ refs k f
unfolding refs
refs-same k k' f e =
    sum-same (slot_refs k' f) (slot_refs k f) nproc (λ i lt. ground (arith, e i lt))

-- With no descriptor in use there is no reference.
pub refs-none :
    (k : Kernel) (f : ℕ)
    → ((i fd : ℕ) → i < nproc → fd < nofile → (k.proc i).ofile fd ≡ none)
    → refs k f ≡ 0
unfolding refs own_refs
refs-none k f e =
    sum-same (slot_refs k f) (λ _. 0) nproc (λ i lt. ground (arith, no_own i lt)) ∙ sum-zero nproc
  where
    sum-zero : (n : ℕ) → sum (λ _. 0) n ≡ 0
    sum-zero zero = refl
    sum-zero (suc n) = omega (arith, sum-zero n)

    no_own : (i : ℕ) → i < nproc → own_refs (k.proc i).ofile f ≡ 0
    no_own i lt =
        sum-same (λ fd. refers f ((k.proc i).ofile fd)) (λ _. 0) nofile
          (λ fd l. ap (refers f) (e i fd lt l))
        ∙ sum-zero nofile
