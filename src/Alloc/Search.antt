-- ===== src/Alloc/Search.antt =====
-- The search for a clear bit, and the writes to one, of src/fs/alloc.c.
use fleurix.Base.{
  ℕ, zero, suc, ◌+◌, ◌-◌, ◌*◌, ◌/◌, ◌%◌, ◌^◌, ◌<◌, ◌≤◌, ◌≡◌, refl, sym, ap, ◌∙◌, Bool, true, false,
  not, Option, none, some, ◌==◌, ltb, if◌then◌else◌, arith, Bool-cases, Option-cases, subst, inl,
  inr, bit_or, bit_and,
}
use fleurix.Base.Bits.{has_bit, all_but, has_bit-set, has_bit-clear}
use fleurix.Base.Loops.{update, find_first, find_first-some, find_first-none}
use fleurix.Alloc.{find_in_byte, find_from, find_bit, set_bit, clear_bit, test_bit}

-- The first clear bit of those from `a` to `b`, if there is one.
pub data Finds (bm : ℕ → ℕ) (a b : ℕ) : Option ℕ → Type 0 where
  found :
      (r : ℕ)
      → a ≤ r
      → r < b
      → test_bit bm r ≡ false
      → ((q : ℕ) → a ≤ q → q < r → test_bit bm q ≡ true)
      → Finds bm a b (some r)
  full : ((q : ℕ) → a ≤ q → q < b → test_bit bm q ≡ true) → Finds bm a b none

all_ones : (k : ℕ) → k < 8 → has_bit 255 k ≡ true
all_ones zero lt = refl
all_ones (suc zero) lt = refl
all_ones (suc (suc zero)) lt = refl
all_ones (suc (suc (suc zero))) lt = refl
all_ones (suc (suc (suc (suc zero)))) lt = refl
all_ones (suc (suc (suc (suc (suc zero))))) lt = refl
all_ones (suc (suc (suc (suc (suc (suc zero)))))) lt = refl
all_ones (suc (suc (suc (suc (suc (suc (suc zero))))))) lt = refl
all_ones (suc (suc (suc (suc (suc (suc (suc (suc k)))))))) lt = absurd (omega arith)

not-false : (b : Bool) → not b ≡ true → b ≡ false
not-false b e = ground arith

not-true : (b : Bool) → not b ≡ false → b ≡ true
not-true b e = ground arith

-- A bit of a byte, by its number in the block.
bit_of :
    (bm : ℕ → ℕ) (i q : ℕ) → i * 8 ≤ q → q < i * 8 + 8 → test_bit bm q ≡ has_bit (bm i) (q - i * 8)
bit_of bm i q a b =
    let byte : q / 8 ≡ i = omega (arith, a, b) in
    let place : q % 8 ≡ q - i * 8 = omega (arith, a, b) in
    ap (λ (j : ℕ). has_bit (bm j) (q % 8)) byte ∙ ap (has_bit (bm i)) place

find_in_byte-none : (byte : ℕ) → find_in_byte byte ≡ none → (k : ℕ) → k < 8 → has_bit byte k ≡ true
unfolding find_in_byte
find_in_byte-none byte e k lt = elim (Bool-cases (byte == 255)) [
  | inl ones ↦
      let all : byte ≡ 255 = ground arith in ap (λ (b : ℕ). has_bit b k) all ∙ all_ones k lt
  | inr other ↦
      not-true (has_bit byte k) (
        find_first-none 8 0 (λ j. not (has_bit byte j)) (sym (rw other refl) ∙ e) k (omega arith)
          lt)
]

find_in_byte-some :
    (byte j : ℕ)
    → find_in_byte byte ≡ some j
    → (j < 8) × (has_bit byte j ≡ false) × ((k : ℕ) → k < j → has_bit byte k ≡ true)
unfolding find_in_byte
find_in_byte-some byte j e = elim (Bool-cases (byte == 255)) [
  | inl ones ↦ absurd (grind (arith, e, ones))
  | inr other ↦
      let run : find_in_byte byte ≡ find_first 8 0 (λ i. not (has_bit byte i)) = rw other refl in
      let s = find_first-some 8 0 (λ i. not (has_bit byte i)) j (sym run ∙ e) in
      (
        s.1,
        not-false (has_bit byte j) s.2,
        λ k lt. not-true (has_bit byte k) (s.3 k (omega arith) lt),
      )
]

find_from-Finds : (n i : ℕ) (bm : ℕ → ℕ) → Finds bm (i * 8) ((i + n) * 8) (find_from n i bm)
unfolding find_from
find_from-Finds zero i bm = full (λ q a b. absurd (omega (arith, a, b)))
find_from-Finds (suc n) i bm = elim (Option-cases (find_in_byte (bm i))) [
  | inl none_ ↦
      rw (none_, find_from)
        (later (find_from n (i + 1) bm) (find_from-Finds n (i + 1) bm) (λ q a b.
          bit_of bm i q a b ∙ find_in_byte-none (bm i) none_ (q - i * 8) (omega (arith, a, b))))
  | inr (j, hit) ↦
      let s = find_in_byte-some (bm i) j hit in
      rw (hit, find_from)
        (found (i * 8 + j) (omega arith) (omega (arith, s.0))
          (bit_of bm i (i * 8 + j) (omega arith) (omega (arith, s.0))
            ∙ ap (has_bit (bm i)) (omega arith)
            ∙ s.1)
          (λ q a b.
            bit_of bm i q a (omega (arith, b, s.0)) ∙ s.2 (q - i * 8) (omega (arith, a, b))))
]
  where
    later :
        (o : Option ℕ)
        → Finds bm ((i + 1) * 8) ((i + 1 + n) * 8) o
        → ((q : ℕ) → i * 8 ≤ q → q < i * 8 + 8 → test_bit bm q ≡ true)
        → Finds bm (i * 8) ((i + suc n) * 8) o
    later o (found r a b clear below) ones =
        found r (omega (arith, a)) (omega (arith, b)) clear (λ q l u.
          elim (Bool-cases (ltb q (i * 8 + 8))) [
            | inl low ↦ ones q l (ground arith)
            | inr high ↦ below q (ground (arith, high)) u
          ])
    later o (full all) ones = full (λ q l u. elim (Bool-cases (ltb q (i * 8 + 8))) [
      | inl low ↦ ones q l (ground arith)
      | inr high ↦ all q (ground (arith, high)) (omega (arith, u))
    ])

-- `find_bit` returns the number of the lowest clear bit of a bitmap of `size` bytes, and -1 only
-- when all its bits are set.
pub find_bit-Finds : (bm : ℕ → ℕ) (size : ℕ) → Finds bm 0 (size * 8) (find_bit bm size)
unfolding find_bit
find_bit-Finds bm size =
    subst (λ (n : ℕ). Finds bm 0 (n * 8) (find_from size 0 bm)) (omega arith)
      (find_from-Finds size 0 bm)

same_place : (q n : ℕ) → q / 8 ≡ n / 8 → q % 8 ≡ n % 8 → q ≡ n
same_place q n a b = omega (arith, a, b)

-- The bit `q` after a write of a byte `v` over the byte of the bit `n`.
in_byte :
    (bm : ℕ → ℕ) (n q v : ℕ) (w : Bool)
    → has_bit v (q % 8) ≡ (if q % 8 == n % 8 then w else has_bit (bm (n / 8)) (q % 8))
    → test_bit (update bm (n / 8) v) q ≡ (if q == n then w else test_bit bm q)
in_byte bm n q v w e = elim (Bool-cases (n / 8 == q / 8)) [
  | inl same ↦
      let byte : n / 8 ≡ q / 8 = ground (arith, same) in
      let place : (q % 8 == n % 8) ≡ (q == n) = ground (arith, byte) in
      rw same (
        e
        ∙ ap (λ (b : Bool). if b then w else has_bit (bm (n / 8)) (q % 8)) place
        ∙ ap (λ (i : ℕ). if q == n then w else has_bit (bm i) (q % 8)) byte)
  | inr other ↦ let ne : (q == n) ≡ false = ground (arith, other) in rw other (rw ne refl)
]

-- A write to a bit sets or clears it, and no other.
pub test_bit-set :
    (bm : ℕ → ℕ) (n q : ℕ) → test_bit (set_bit bm n) q ≡ (if q == n then true else test_bit bm q)
unfolding set_bit
test_bit-set bm n q =
    in_byte bm n q (bit_or (bm (n / 8)) (2 ^ (n % 8))) true
      (has_bit-set (bm (n / 8)) (n % 8) (q % 8))

pub test_bit-clear :
    (bm : ℕ → ℕ) (n q : ℕ) → test_bit (clear_bit bm n) q ≡ (if q == n then false else test_bit bm q)
unfolding clear_bit
test_bit-clear bm n q =
    in_byte bm n q (bit_and (bm (n / 8)) (all_but 8 (n % 8))) false
      (has_bit-clear 8 (bm (n / 8)) (n % 8) (q % 8) (omega arith) (omega arith))
