-- ===== src/Pm/Chain.antt =====
-- The free list as a chain of `pg_next` links from its head, against a list of frame numbers.
use fleurix.Base.{
  ℕ, ◌≡◌, refl, Bool, false, ◌||◌, Option, none, some, List, [], ◌∷◌, ◌++◌, ◌==◌, arith,
}
use fleurix.Base.Loops.{update}
use fleurix.Pm.{Page}

abbrev pub mem : ℕ → List ℕ → Bool
mem a [] = false
mem a (x ∷ xs) = x == a || mem a xs

abbrev pub Distinct : List ℕ → Type 0
Distinct [] = Unit {0}
Distinct (x ∷ xs) = (mem x xs ≡ false) × Distinct xs

-- From `head`, the links of `c` run through `xs` and end.
abbrev pub Chain : (ℕ → Page) → Option ℕ → List ℕ → Type 0
Chain c head [] = head ≡ none
Chain c head (p ∷ ps) = (head ≡ some p) × Chain c (c p).next ps

-- A write to a frame that is not on the chain leaves the chain.
pub Chain-update :
    (c : ℕ → Page) (head : Option ℕ) (xs : List ℕ) (p : ℕ) (q : Page)
    → mem p xs ≡ false
    → Chain c head xs
    → Chain (update c p q) head xs
Chain-update c head [] p q h l = l
Chain-update c head (x ∷ xs) p q h l =
    let rest : Chain (update c p q) (c x).next xs =
      Chain-update c (c x).next xs p q (ground arith) l.1 in
    let there : update c p q x ≡ c x = ground arith in (l.0, subst_next there rest)
  where
    subst_next :
        update c p q x ≡ c x
        → Chain (update c p q) (c x).next xs
        → Chain (update c p q) (update c p q x).next xs
    subst_next e r = rw e r

-- So does a write that keeps the link.
pub Chain-keep_next :
    (c : ℕ → Page) (head : Option ℕ) (xs : List ℕ) (p : ℕ) (q : Page)
    → q.next ≡ (c p).next
    → Chain c head xs
    → Chain (update c p q) head xs
Chain-keep_next c head [] p q h l = l
Chain-keep_next c head (x ∷ xs) p q h l =
    let same : (update c p q x).next ≡ (c x).next = ground arith in
    (l.0, rw same (Chain-keep_next c (c x).next xs p q h l.1))

pub mem-append : (a : ℕ) (xs ys : List ℕ) → mem a (xs ++ ys) ≡ (mem a xs || mem a ys)
mem-append a [] ys = refl
mem-append a (x ∷ xs) ys = ground (arith, mem-append a xs ys)

pub Distinct-snoc : (xs : List ℕ) (a : ℕ) → mem a xs ≡ false → Distinct xs → Distinct (xs ++ a ∷ [])
Distinct-snoc [] a h d = (refl, tt)
Distinct-snoc (x ∷ xs) a h d =
    (ground (arith, mem-append x xs (a ∷ [])), Distinct-snoc xs a (ground arith) d.1)
