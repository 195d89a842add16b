-- ===== src/Text/Compare.antt =====
-- The comparisons and lengths of src/lib/string.c against lists.
use fleurix.Base.{
  ℕ, zero, suc, ◌+◌, ◌<◌, ◌≡◌, ◌≢◌, ◌↔◌, refl, sym, ap, ◌∙◌, true, List, [], ◌∷◌, length, take, min,
  ◌==◌, if◌then◌else◌, arith, Bool-cases, inl, inr, length-replicate,
}
use fleurix.Base.Word.{ℤ, pos, sub_ℕ}
use fleurix.Text.{strlen, strnlen, strncpy, strcmp, strncmp}

-- The chars of a string are not zero.
abbrev pub IsString : List ℕ → Type 0
IsString [] = Unit
IsString (c ∷ cs) = (0 < c) × IsString cs

sub_nonzero : (a b : ℕ) → a ≢ b → sub_ℕ a b ≢ pos 0
sub_nonzero a b ne e = ground arith

-- `strncmp` is `strcmp` on the first `n` chars.
pub strncmp-take : (n : ℕ) (s t : List ℕ) → strncmp s t n ≡ strcmp (take n s) (take n t)
unfolding strncmp strcmp
strncmp-take zero s t = refl
strncmp-take (suc n) [] [] = refl
strncmp-take (suc n) [] (y ∷ ys) = refl
strncmp-take (suc n) (x ∷ xs) [] = refl
strncmp-take (suc n) (x ∷ xs) (y ∷ ys) =
    ap (λ (r : ℤ). if x == y then r else sub_ℕ x y) (strncmp-take n xs ys)

strcmp_refl : (s : List ℕ) → strcmp s s ≡ pos 0
unfolding strcmp
strcmp_refl [] = refl
strcmp_refl (x ∷ xs) = let same : (x == x) ≡ true = ground arith in rw same (strcmp_refl xs)

strcmp-equal : (s t : List ℕ) → IsString s → IsString t → strcmp s t ≡ pos 0 → s ≡ t
unfolding strcmp
strcmp-equal [] [] a b e = refl
strcmp-equal [] (y ∷ ys) a b e = absurd (sub_nonzero 0 y (omega (arith, b.0)) e)
strcmp-equal (x ∷ xs) [] a b e = absurd (sub_nonzero x 0 (omega (arith, a.0)) e)
strcmp-equal (x ∷ xs) (y ∷ ys) a b e = elim (Bool-cases (x == y)) [
  | inl same ↦
      let head : x ≡ y = ground (arith, same) in
      let run : strcmp (x ∷ xs) (y ∷ ys) ≡ strcmp xs ys = rw same refl in
      let tail = strcmp-equal xs ys a.1 b.1 (sym run ∙ e) in
      ap (λ (c : ℕ). c ∷ xs) head ∙ ap (◌∷◌ y) tail
  | inr other ↦
      let run : strcmp (x ∷ xs) (y ∷ ys) ≡ sub_ℕ x y = rw other refl in
      absurd (sub_nonzero x y (ground (arith, other)) (sym run ∙ e))
]

-- `strcmp` of two strings without a NUL inside is 0 exactly when they are equal.
pub strcmp_lem : (s t : List ℕ) → IsString s → IsString t → (strcmp s t ≡ pos 0) ↔ (s ≡ t)
strcmp_lem s t a b =
    (strcmp-equal s t a b, λ e. ap (λ (u : List ℕ). strcmp s u) (sym e) ∙ strcmp_refl s)

-- `strnlen` with the bound `len` counts up to `len + 1` chars.
pub strnlen_lem : (s : List ℕ) (len : ℕ) → strnlen s len ≡ min (strlen s) (len + 1)
unfolding strnlen strlen
strnlen_lem [] len = omega arith
strnlen_lem (c ∷ cs) zero = omega arith
strnlen_lem (c ∷ cs) (suc len) = omega (arith, strnlen_lem cs len)

-- `strncpy` writes exactly `cnt` bytes, however long the string is.
pub length-strncpy : (s : List ℕ) (cnt : ℕ) → length (strncpy s cnt) ≡ cnt
unfolding strncpy
length-strncpy [] zero = refl
length-strncpy (c ∷ cs) zero = refl
length-strncpy [] (suc cnt) = ap suc (length-replicate cnt 0)
length-strncpy (c ∷ cs) (suc cnt) = ap suc (length-strncpy cs cnt)
