-- ===== src/Heap/Slot.antt =====
-- The choice of a size.
use fleurix.Base.{
  ℕ, zero, suc, ◌+◌, ◌-◌, ◌*◌, ◌^◌, ◌≤◌, ◌<◌, ◌≡◌, refl, ap, inl, inr, true, Option, none, some,
  leb, ◌==◌, arith, Bool-cases,
}
use native.Mathlib.Nat.{pow-suc}
use fleurix.Heap.{bk_size, bkslot, bkslot_from}

-- The slot of a size: none for 0 and for more than a page, and else the first that is large enough.
pub data Fits (size : ℕ) : Option ℕ → Type 0 where
  too_small : size ≡ 0 → Fits size none
  too_large : 4096 < size → Fits size none
  first :
      (i : ℕ) → i < 8 → size ≤ bk_size i → ((j : ℕ) → j < i → bk_size j < size) → Fits size (some i)

bk_size-suc : (i : ℕ) → bk_size (suc i) ≡ bk_size i * 2
bk_size-suc i = omega (arith, pow-suc 2 i)

-- The sizes up to the slot 7 are at most a page.
bk_size_page : (i k : ℕ) → i + k ≡ 7 → bk_size i ≤ 4096
bk_size_page i zero e = let last : i ≡ 7 = omega arith in omega (arith, ap bk_size last)
bk_size_page i (suc k) e = omega (arith, bk_size-suc i, bk_size_page (suc i) k (omega arith))

bkslot_from-Fits :
    (rounds n i size : ℕ)
    → rounds + i ≡ 8
    → n * 2 ≡ bk_size i
    → ((j : ℕ) → j < i → bk_size j < size)
    → Fits size (bkslot_from rounds n i size)
unfolding bkslot_from
bkslot_from-Fits zero n i size e double small = too_large (omega (arith, small 7))
bkslot_from-Fits (suc rounds) n i size e double small =
    let inside : leb (n * 2) 4096 ≡ true =
      ground (arith, double, bk_size_page i (7 - i) (omega arith)) in
    elim (Bool-cases (leb size (n * 2))) [
      | inl large ↦ rw (inside, large) (first i (omega arith) (ground arith) small)
      | inr more ↦
          let below : (j : ℕ) → j < i + 1 → bk_size j < size =
            λ j lt. up_to j (ground (arith, double)) lt in
          rw (inside, more)
            (bkslot_from-Fits rounds (n * 2) (i + 1) size (omega arith)
              (omega (arith, double, next)) below)
    ]
  where
    next : bk_size (i + 1) ≡ bk_size i * 2
    next = let e : i + 1 ≡ suc i = omega arith in omega (arith, ap bk_size e, bk_size-suc i)

    up_to : (j : ℕ) → bk_size i < size → j < i + 1 → bk_size j < size
    up_to j last lt = elim (Bool-cases (j == i)) [
      | inl same ↦ let e : j ≡ i = ground arith in omega (arith, ap bk_size e)
      | inr other ↦ small j (ground arith)
    ]

-- `bkslot` ends, and gives the smallest of the eight sizes that holds the size asked for, or none when
-- that is 0 or larger than a page.
pub bkslot-Fits : (size : ℕ) → Fits size (bkslot size)
unfolding bkslot
bkslot-Fits size = elim (Bool-cases (size == 0)) [
  | inl none_asked ↦ rw none_asked (too_small (ground arith))
  | inr some_asked ↦ elim (Bool-cases (leb (2 ^ 31) size)) [
    | inl negative ↦ rw (some_asked, negative) (too_large (ground arith))
    | inr positive ↦
        rw (some_asked, positive)
          (bkslot_from-Fits 8 16 0 size refl refl (λ j lt. absurd (omega arith)))
  ]
]
