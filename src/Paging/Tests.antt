-- ===== src/Paging/Tests.antt =====
-- Page tables with one page, which two processes share.
use fleurix.Base.{
  ℕ, zero, suc, ◌+◌, ◌*◌, ◌≤◌, ◌<◌, ◌≡◌, refl, ◌&&◌, none, some, [], ◌∷◌, ◌==◌, if◌then◌else◌,
  arith,
}
use fleurix.Base.Loops.{for_range}
use fleurix.Base.Result.{ok}
use fleurix.Samples.{idle_kernel}
use fleurix.Pm.{Frames}
use fleurix.Pm.Alloc.{IsValid}
use fleurix.Vm.{Vma, find_vma}
use fleurix.Paging.{Memory, share_table, pt_free}
use fleurix.Paging.Flags.{Guards}
use fleurix.Paging.Share.{Shared, uses, share_table-Shared}
use fleurix.Paging.Faults.{Space, area_at, do_wp_page}
use fleurix.Paging.Faults.Cow.{Handles, do_wp_page-Handles}

-- Frame 5 is free, frame 7 has two references, and every other one has one.
abbrev some_frames : Frames
some_frames = record {
  coremap = λ p. record {
    flag = 0;
    count = if p == 5 then 0 else if p == 7 then 2 else 1;
    num = p;
    next = none;
  };
  free = some 5;
}

some_frames-IsValid : IsValid some_frames (5 ∷ [])
some_frames-IsValid = record {
  chain = (refl, refl);
  distinct = ground arith;
  listed = λ p h. ground arith;
  unlisted = λ p lt h. ground arith;
  numbered = λ p lt. refl;
}

-- The directory in frame 1 has one table, in frame 2, and that one page, frame 7, read only.
abbrev one_page : Memory
one_page = record {
  frames = some_frames;
  word = λ f i.
      if f == 1 && i == 32 then 2 * 4096 + 7 else if f == 2 && i == 0 then 7 * 4096 + 5 else 0;
}

uses_few : (q n : ℕ) → uses one_page 2 q (suc n) ≤ 1
unfolding uses
uses_few q zero = ground arith
uses_few q (suc n) = ground (arith, uses_few q n)

share_table-Shared_example :
    (m' : Memory) × (share_table 2 6 one_page ≡ ok m')
    × ((j : ℕ)
        → j < 1024
        → Guards (one_page.word 2 j) (m'.word 2 j) × Guards (one_page.word 2 j) (m'.word 6 j))
    × Shared one_page 2 6 1024 m'
share_table-Shared_example =
    share_table-Shared one_page 2 6 (λ e. omega arith) (λ j h. ground arith)
      (λ q. ground (arith, uses_few q 1023))

-- The only area is private, from 0x8000000 on.
abbrev space : Space
space = record {
  memory = one_page;
  kernel = idle_kernel;
  vm = record {
    entry = 0;
    area = λ i. record {
      flag = if i == 0 then 0x10 else 0;
      base = if i == 0 then 0x8000000 else 0;
      size = if i == 0 then 0x2000 else 0;
      ino = none;
      ioff = 0;
    };
  };
  pgd = 1;
}

abbrev nothing : Vma
nothing = record { flag = 0; base = 0; size = 0; ino = none; ioff = 0 }

do_wp_page-Handles_example :
    Handles
      (area_at nothing space.vm (find_vma space.vm 0x8000123))
      space
      2
      0
      (5 ∷ [])
      (do_wp_page nothing space 0x8000123)
do_wp_page-Handles_example =
    do_wp_page-Handles nothing space 0x8000123 (5 ∷ []) (omega arith) refl some_frames-IsValid
      (omega arith) (omega arith)

-- A directory without tables has nothing to free.
freed : pt_free (record one_page { word = λ f i. 0 }) 1 ≡ ok (record one_page { word = λ f i. 0 })
unfolding pt_free for_range
freed = refl

-- Area 0 is of zeros, and the page behind its first one is missing.
abbrev zero_space : Space
zero_space = record space {
  vm = record {
    entry = 0;
    area = λ i. record {
      flag = if i == 0 then 0x14 else 0;
      base = if i == 0 then 0x8000000 else if i == 4 then 0x80000000 else 0;
      size = if i == 0 then 0x2000 else 0;
      ino = none;
      ioff = 0;
    };
  };
}
