-- ===== src/Text.antt =====
-- src/lib/string.c: strings and memory.
-- A string is the list of the chars before its NUL, each a byte that is not zero; a pointer into it
-- is the index. Memory is a function of the address.
pub mod Compare
mod Tests
use fleurix.Base.{
  ℕ, zero, suc, ◌+◌, ◌-◌, ◌%◌, Bool, true, false, Option, none, some, List, [], ◌∷◌, length,
  replicate, ◌==◌, if◌then◌else◌,
}
use fleurix.Base.Word.{ℤ, pos, sub_ℕ}
use fleurix.Base.Loops.{for_range, update}

-- The copy goes up, byte by byte.
pub memcpy : (ℕ → ℕ) → ℕ → ℕ → ℕ → ℕ → ℕ
memcpy mem dest src count = for_range count 0 (λ i m. update m (dest + i) (m (src + i))) mem

pub memset : (ℕ → ℕ) → ℕ → ℕ → ℕ → ℕ → ℕ
memset mem dest val count = for_range count 0 (λ i m. update m (dest + i) (val % 256)) mem

unfoldable pub strlen : List ℕ → ℕ
strlen [] = 0
strlen (c ∷ cs) = strlen cs + 1

-- The bound lets the pointer reach `len` and go on once more.
pub strnlen : List ℕ → ℕ → ℕ
strnlen [] len = 0
strnlen (c ∷ cs) zero = 1
strnlen (c ∷ cs) (suc len) = strnlen cs len + 1

-- The bytes that `strcpy` writes.
pub strcpy : List ℕ → List ℕ
strcpy [] = 0 ∷ []
strcpy (c ∷ cs) = c ∷ strcpy cs

-- The bytes that `strncpy` writes: the first loop, then the zeros of the second.
pub strncpy : List ℕ → ℕ → List ℕ
strncpy s zero = []
strncpy [] (suc cnt) = 0 ∷ replicate cnt 0
strncpy (c ∷ cs) (suc cnt) = c ∷ strncpy cs cnt

-- `strchr`, for `i` chars passed; the NUL is part of the string.
pub strchr_from : List ℕ → ℕ → ℕ → Option ℕ
strchr_from [] c i = if c == 0 then some i else none
strchr_from (x ∷ xs) c i = if x == c then some i else strchr_from xs c (i + 1)

pub strchr : List ℕ → ℕ → Option ℕ
unfolding strchr_from
strchr s c = strchr_from s (c % 256) 0

-- The chars are compared as unsigned.
pub strcmp : List ℕ → List ℕ → ℤ
strcmp [] [] = pos 0
strcmp [] (y ∷ ys) = sub_ℕ 0 y
strcmp (x ∷ xs) [] = sub_ℕ x 0
strcmp (x ∷ xs) (y ∷ ys) = if x == y then strcmp xs ys else sub_ℕ x y

pub strncmp : List ℕ → List ℕ → ℕ → ℤ
strncmp s1 s2 zero = pos 0
strncmp [] [] (suc n) = pos 0
strncmp [] (y ∷ ys) (suc n) = sub_ℕ 0 y
strncmp (x ∷ xs) [] (suc n) = sub_ℕ x 0
strncmp (x ∷ xs) (y ∷ ys) (suc n) = if x == y then strncmp xs ys n else sub_ℕ x y
