-- ===== src/Base/Loops.antt =====
-- The two `for` loops of the C code, as recursions on the rounds left, and their rules.
use Prim.Native.Nat.{ℕ, zero, suc, ◌+◌, ◌≤◌, ◌<◌}
use mathlib.Core.Path.{◌≡◌}
use mathlib.Core.Bool.{Bool, true, false, ◌&&◌}
use mathlib.Core.Logic.{inl, inr}
use mathlib.Core.Option.{Option, none, some}
use native.Mathlib.Omega.{arith}
use fleurix.Base.Tests.{ltb, leb, ◌==◌, if◌then◌else◌, Bool-cases}

-- for (k = i; k < i + n; k++) s = body k s;
unfoldable pub for_range {ℓ} : {State : Type ℓ} → ℕ → ℕ → (ℕ → State → State) → State → State
for_range zero k round state = state
for_range (suc left) k round state = for_range left (k + 1) round (round k state)

-- for (k = i; k < i + n; k++) if (test k) return k;
unfoldable pub find_first : ℕ → ℕ → (ℕ → Bool) → Option ℕ
find_first zero i test = none
find_first (suc n) i test = elim (test i) [ true ↦ some i | false ↦ find_first n (i + 1) test ]

-- A table is a function of the index.
abbrev pub update {ℓ} : {A : Type ℓ} → (ℕ → A) → ℕ → A → ℕ → A
update f i a j = if i == j then a else f j

pub for_range_inv {ℓ κ} :
    {S : Type ℓ} (P : ℕ → S → Type κ) (body : ℕ → S → S) (n i j : ℕ)
    → i + n ≡ j
    → ((k : ℕ) (s : S) → i ≤ k → k < j → P k s → P (k + 1) (body k s))
    → (s : S) → P i s
    → P j (for_range n i body s)
unfolding for_range
for_range_inv P body zero i j e keep s h = let same : i ≡ j = omega arith in rw (← same) h
for_range_inv P body (suc n) i j e keep s h =
    for_range_inv P body n (i + 1) j (omega arith) (λ k t a b. keep k t (omega arith) b) (body i s)
      (keep i s (omega arith) (omega arith) h)

-- A loop whose round `k` rewrites entry `k` of a table, and nothing else that is observed,
-- rewrites each entry once.
pub for_range_each {ℓ κ} :
    {S : Type ℓ} {A : Type κ} (read : S → ℕ → A) (body : ℕ → S → S) (g : ℕ → A → A)
    → ((k : ℕ) (s : S) (j : ℕ) → read (body k s) j ≡ (if k == j then g k (read s k) else read s j))
    → (n i : ℕ) (s : S) (j : ℕ)
    → read (for_range n i body s) j
      ≡ (if leb i j && ltb j (i + n) then g j (read s j) else read s j)
unfolding for_range
for_range_each read body g each zero i s j = ground arith
for_range_each read body g each (suc n) i s j =
    ground (arith, for_range_each read body g each n (i + 1) (body i s) j, each i s j)

-- The search returns the first index that passes the test, if one does.
pub find_first-some :
    (n i : ℕ) (test : ℕ → Bool) (r : ℕ)
    → find_first n i test ≡ some r
    → (i ≤ r) × (r < i + n) × (test r ≡ true) × ((k : ℕ) → i ≤ k → k < r → test k ≡ false)
unfolding find_first
find_first-some zero i test r e = absurd (grind arith)
find_first-some (suc n) i test r e = elim (Bool-cases (test i)) [
  | inl hit ↦
      let same : i ≡ r = ground arith in
      (omega arith, omega arith, rw (← same) hit, λ k a b. absurd (omega arith))
  | inr miss ↦
      let later = find_first-some n (i + 1) test r (ground arith) in
      (omega arith, omega arith, later.2, λ k a b. ground (arith, later.3 k))
]

pub find_first-none :
    (n i : ℕ) (test : ℕ → Bool)
    → find_first n i test ≡ none
    → (k : ℕ) → i ≤ k
    → k < i + n
    → test k ≡ false
unfolding find_first
find_first-none zero i test e k a b = absurd (omega arith)
find_first-none (suc n) i test e k a b = elim (Bool-cases (test i)) [
  | inl hit ↦ absurd (grind arith)
  | inr miss ↦ ground (arith, find_first-none n (i + 1) test (ground arith) k)
]

pub find_first-hit :
    (n i : ℕ) (test : ℕ → Bool) (k : ℕ)
    → i ≤ k
    → k < i + n
    → test k ≡ true
    → (r : ℕ) × (find_first n i test ≡ some r) × (r ≤ k)
unfolding find_first
find_first-hit zero i test k a b t = absurd (omega arith)
find_first-hit (suc n) i test k a b t = elim (Bool-cases (test i)) [
  | inl hit ↦ (i, ground arith, a)
  | inr miss ↦
      let ne : i + 1 ≤ k = ground arith in
      let later = find_first-hit n (i + 1) test k ne (omega arith) t in
      (later.0, ground (arith, later.1), later.2)
]
