-- ===== src/Pm/Tests.antt =====
-- The frames allocator on a map with one free frame, and on the map of a boot.
use fleurix.Base.Result.{panic}
use fleurix.Pm.{pgfind}
use fleurix.Base.{
  ℕ, ◌<◌, ◌≡◌, ◌↔◌, refl, true, false, none, some, List, [], ◌∷◌, ◌==◌, if◌then◌else◌, arith,
}
use fleurix.Base.Result.{ok}
use fleurix.Pm.{Frames, npage, pgfree, drop_ref, give_back, pm_init}
use fleurix.Pm.Chain.{mem}
use fleurix.Pm.Alloc.{IsValid, Frees, pgfree-Frees}
use fleurix.Pm.Init.{pm_init-IsValid, is_reserved}

-- Frame 5 is free, and every other one has one reference.
abbrev one_free : Frames
one_free = record {
  coremap = λ p. record { flag = 0; count = if p == 5 then 0 else 1; num = p; next = none };
  free = some 5;
}

one_free-IsValid : IsValid one_free (5 ∷ [])
one_free-IsValid = record {
  chain = (refl, refl);
  distinct = ground arith;
  listed = λ p h. ground arith;
  unlisted = λ p lt h. ground arith;
  numbered = λ p lt. refl;
}

pgfree-Frees_example : Frees one_free 7 (5 ∷ []) (pgfree one_free 7)
pgfree-Frees_example = pgfree-Frees one_free 7 (5 ∷ []) one_free-IsValid (omega arith)

freed : pgfree one_free 7 ≡ ok (7, give_back one_free 7)
unfolding pgfree drop_ref
freed = refl

pm_init-IsValid_example :
    (free : List ℕ) × IsValid (pm_init 300) free
    × ((p : ℕ) → p < npage → (mem p free ≡ true) ↔ (is_reserved 300 p ≡ false))
pm_init-IsValid_example = pm_init-IsValid 300

finds : (pgfind 7 ≡ ok 7) × (pgfind npage ≡ panic)
unfolding pgfind
finds = (refl, refl)
