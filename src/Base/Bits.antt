-- ===== src/Base/Bits.antt =====
-- The binary digits of a number, and what `|` and `&` do to each of them.
use Prim.Native.Nat.{
  ℕ, zero, suc, ◌+◌, ◌-◌, ◌*◌, ◌/◌, ◌%◌, ◌^◌, ◌≤◌, ◌<◌, min, max, bit_and, bit_or, digits,
  bit_and-bitwise, bit_or-bitwise,
}
use mathlib.Core.Path.{◌≡◌, refl, sym, ap, ◌∙◌}
use mathlib.Core.Bool.{Bool, true, false, not}
use native.Mathlib.Nat.{
  pow-suc, one-le-pow, div-add-mod, mod-lt, mod-eq_of_lt, add-mul-mod_self_left,
}
use native.Mathlib.Omega.{arith}
use fleurix.Base.Tests.{◌==◌, if◌then◌else◌}

-- Digit `k` of `x`, 0 or 1.
abbrev pub bit : ℕ → ℕ → ℕ
bit zero x = x % 2
bit (suc k) x = bit k (x / 2)

-- `(x & (1 << k)) != 0`.
abbrev pub has_bit : ℕ → ℕ → Bool
has_bit x k = not (bit_and x (2 ^ k) == 0)

-- `~(1 << k)` in `w` bits.
abbrev pub all_but : ℕ → ℕ → ℕ
all_but w k = 2 ^ w - 1 - 2 ^ k

module _ (z : ℕ → ℕ) (f : ℕ → ℕ → ℕ) where
  -- The fuel of the recursion on digits is enough when it is not below the first number.
  enough_fuel : (m n a b : ℕ) → a ≤ m → a ≤ n → digits z f m a b ≡ digits z f n a b
  enough_fuel zero n (suc a) b p q = absurd (omega arith)
  enough_fuel zero zero zero b p q = refl
  enough_fuel zero (suc n) zero b p q = refl
  enough_fuel (suc m) zero zero b p q = refl
  enough_fuel (suc m) zero (suc a) b p q = absurd (omega arith)
  enough_fuel (suc m) (suc n) zero b p q = refl
  enough_fuel (suc m) (suc n) (suc a) b p q =
      rw (enough_fuel m n (suc a / 2) (b / 2) (omega arith) (omega arith))

and_digit : (a b : ℕ) → bit_and a b ≡ bit_and (a / 2) (b / 2) * 2 + min (a % 2) (b % 2)
and_digit zero b = omega (arith, bit_and-bitwise 0 b, bit_and-bitwise 0 (b / 2))
and_digit (suc a) b = omega (
  arith,
  bit_and-bitwise (suc a) b,
  bit_and-bitwise (suc a / 2) (b / 2),
  enough_fuel (λ y. 0) min a (suc a / 2) (suc a / 2) (b / 2) (omega arith) (omega arith),
)

or_digit : (a b : ℕ) → bit_or a b ≡ bit_or (a / 2) (b / 2) * 2 + max (a % 2) (b % 2)
or_digit zero b = omega (arith, bit_or-bitwise 0 b, bit_or-bitwise 0 (b / 2))
or_digit (suc a) b = omega (
  arith,
  bit_or-bitwise (suc a) b,
  bit_or-bitwise (suc a / 2) (b / 2),
  enough_fuel (λ y. y) max a (suc a / 2) (suc a / 2) (b / 2) (omega arith) (omega arith),
)

pub bit-le_one : (k x : ℕ) → bit k x ≤ 1
bit-le_one zero x = omega arith
bit-le_one (suc k) x = bit-le_one k (x / 2)

pub bit-bit_or : (k a b : ℕ) → bit k (bit_or a b) ≡ max (bit k a) (bit k b)
bit-bit_or zero a b = omega (arith, or_digit a b)
bit-bit_or (suc k) a b =
    let half : bit_or a b / 2 ≡ bit_or (a / 2) (b / 2) = omega (arith, or_digit a b) in
    ap (bit k) half ∙ bit-bit_or k (a / 2) (b / 2)

pub bit-bit_and : (k a b : ℕ) → bit k (bit_and a b) ≡ min (bit k a) (bit k b)
bit-bit_and zero a b = omega (arith, and_digit a b)
bit-bit_and (suc k) a b =
    let half : bit_and a b / 2 ≡ bit_and (a / 2) (b / 2) = omega (arith, and_digit a b) in
    ap (bit k) half ∙ bit-bit_and k (a / 2) (b / 2)

bit-zero : (k : ℕ) → bit k 0 ≡ 0
bit-zero zero = refl
bit-zero (suc k) = bit-zero k

pub bit-pow : (j k : ℕ) → bit j (2 ^ k) ≡ (if j == k then 1 else 0)
bit-pow zero zero = refl
bit-pow zero (suc k) = ground (arith, pow-suc 2 k)
bit-pow (suc j) zero = ground (arith, bit-zero j)
bit-pow (suc j) (suc k) =
    let half : 2 ^ suc k / 2 ≡ 2 ^ k = omega (arith, pow-suc 2 k) in
    ap (bit j) half ∙ ground (arith, bit-pow j k)

pub zero-bit_and : (b : ℕ) → bit_and 0 b ≡ 0
zero-bit_and b = bit_and-bitwise 0 b

bit_and-zero_below : (n a : ℕ) → a ≤ n → bit_and a 0 ≡ 0
bit_and-zero_below n zero h = refl
bit_and-zero_below zero (suc a) h = absurd (omega arith)
bit_and-zero_below (suc n) (suc a) h =
    omega (arith, and_digit (suc a) 0, bit_and-zero_below n (suc a / 2) (omega arith))

pub bit_and-zero : (a : ℕ) → bit_and a 0 ≡ 0
bit_and-zero a = bit_and-zero_below a a (omega arith)

pub bit_and-pow : (k x : ℕ) → bit_and x (2 ^ k) ≡ bit k x * 2 ^ k
bit_and-pow zero x = omega (arith, and_digit x 1, bit_and-zero (x / 2))
bit_and-pow (suc k) x =
    let half : 2 ^ suc k / 2 ≡ 2 ^ k = omega (arith, pow-suc 2 k) in
    let low : 2 ^ suc k % 2 ≡ 0 = omega (arith, pow-suc 2 k) in
    omega (
      arith,
      and_digit x (2 ^ suc k),
      ap (bit_and (x / 2)) half,
      bit_and-pow k (x / 2),
      ap (λ (t : ℕ). bit k (x / 2) * t) (pow-suc 2 k),
    )

-- The test of a flag reads that digit.
pub has_bit-eq : (x k : ℕ) → has_bit x k ≡ (bit k x == 1)
has_bit-eq x k = ground (arith, bit_and-pow k x, bit-le_one k x, one-le-pow k 2)

-- `x | (1 << k)` sets digit `k` and no other.
pub bit-set : (j k x : ℕ) → bit j (bit_or x (2 ^ k)) ≡ (if j == k then 1 else bit j x)
bit-set j k x = ground (arith, bit-bit_or j x (2 ^ k), bit-pow j k, bit-le_one j x)

mod_half : (x m : ℕ) → 0 < m → x % (m * 2) ≡ x / 2 % m * 2 + x % 2
mod_half x m pos =
    let q = x / 2 in
    let r = q % m * 2 + x % 2 in
    let parts : x ≡ r + m * 2 * (q / m) = omega (arith, div-add-mod q m) in
    let small : r < m * 2 = omega (arith, mod-lt q pos) in
    ap (λ (y : ℕ). y % (m * 2)) parts ∙ add-mul-mod_self_left r (m * 2) (q / m) ∙ mod-eq_of_lt small

pow-pos : (k : ℕ) → 1 ≤ 2 ^ k
pow-pos k = one-le-pow k 2 (omega arith)

-- The low digits of a number are those of its rest.
pub bit-low : (k w x : ℕ) → k < w → bit k (x % 2 ^ w) ≡ bit k x
bit-low k zero x h = absurd (omega arith)
bit-low zero (suc w) x h =
    let e = ap (λ (m : ℕ). x % m) (pow-suc 2 w) ∙ mod_half x (2 ^ w) (pow-pos w) in omega (arith, e)
bit-low (suc k) (suc w) x h =
    let e = ap (λ (m : ℕ). x % m) (pow-suc 2 w) ∙ mod_half x (2 ^ w) (pow-pos w) in
    let half : x % 2 ^ suc w / 2 ≡ x / 2 % 2 ^ w = omega (arith, e) in
    ap (bit k) half ∙ bit-low k w (x / 2) (omega arith)

pow-mono_lt : (j w : ℕ) → j < w → 2 ^ j < 2 ^ w
pow-mono_lt j zero h = absurd (omega arith)
pow-mono_lt zero (suc w) h = omega (arith, pow-suc 2 w, pow-pos w)
pow-mono_lt (suc j) (suc w) h =
    omega (arith, pow-suc 2 w, pow-suc 2 j, pow-mono_lt j w (omega arith))

bit-ones : (w j : ℕ) → j < w → bit j (2 ^ w - 1) ≡ 1
bit-ones zero j h = absurd (omega arith)
bit-ones (suc w) zero h = omega (arith, pow-suc 2 w, pow-pos w)
bit-ones (suc w) (suc j) h =
    let half : (2 ^ suc w - 1) / 2 ≡ 2 ^ w - 1 = omega (arith, pow-suc 2 w, pow-pos w) in
    ap (bit j) half ∙ bit-ones w j (omega arith)

bit-all_but : (w j k : ℕ) → j < w → k < w → bit j (all_but w k) ≡ (if j == k then 0 else 1)
bit-all_but zero j k h g = absurd (omega arith)
bit-all_but (suc w) zero zero h g = omega (arith, pow-suc 2 w, pow-pos w)
bit-all_but (suc w) zero (suc k) h g =
    ground (arith, pow-suc 2 w, pow-suc 2 k, pow-mono_lt k w (omega arith), pow-pos k)
bit-all_but (suc w) (suc j) zero h g =
    let half : all_but (suc w) 0 / 2 ≡ 2 ^ w - 1 = omega (arith, pow-suc 2 w, pow-pos w) in
    ground (arith, ap (bit j) half, bit-ones w j (omega arith))
bit-all_but (suc w) (suc j) (suc k) h g =
    let half : all_but (suc w) (suc k) / 2 ≡ all_but w k =
      omega (arith, pow-suc 2 w, pow-suc 2 k, pow-mono_lt k w (omega arith), pow-pos k) in
    ap (bit j) half ∙ ground (arith, bit-all_but w j k (omega arith) (omega arith))

-- `x & ~(1 << k)` clears digit `k` and no other.
pub bit-clear :
    (w j k x : ℕ)
    → j < w
    → k < w
    → bit j (bit_and x (all_but w k)) ≡ (if j == k then 0 else bit j x)
bit-clear w j k x h g =
    ground (arith, bit-bit_and j x (all_but w k), bit-all_but w j k h g, bit-le_one j x)

-- The same of the test of a flag.
pub has_bit-set :
    (x k j : ℕ) → has_bit (bit_or x (2 ^ k)) j ≡ (if j == k then true else has_bit x j)
has_bit-set x k j =
    has_bit-eq (bit_or x (2 ^ k)) j ∙ ground (arith, bit-set j k x, sym (has_bit-eq x j))

pub has_bit-clear :
    (w x k j : ℕ)
    → k < w
    → j < w
    → has_bit (bit_and x (all_but w k)) j ≡ (if j == k then false else has_bit x j)
has_bit-clear w x k j a b =
    has_bit-eq (bit_and x (all_but w k)) j
    ∙ ground (arith, bit-clear w j k x b a, sym (has_bit-eq x j))
