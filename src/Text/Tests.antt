-- ===== src/Text/Tests.antt =====
-- Short strings and a little memory.
use fleurix.Base.{ℕ, ◌+◌, ◌≡◌, refl, List, [], ◌∷◌, some, length, min}
use fleurix.Base.Loops.{for_range}
use fleurix.Text.{memcpy, memset, strchr, strchr_from, strcpy, strlen, strnlen, strncpy}
use fleurix.Text.Compare.{strnlen_lem, length-strncpy}

abbrev ab : List ℕ
ab = 97 ∷ 98 ∷ []

abbrev abc : List ℕ
abc = 97 ∷ 98 ∷ 99 ∷ []

strnlen_lem_example : strnlen abc 1 ≡ min (strlen abc) (1 + 1)
strnlen_lem_example = strnlen_lem abc 1

length-strncpy_example : length (strncpy abc 5) ≡ 5
length-strncpy_example = length-strncpy abc 5

finds : strchr abc 99 ≡ some 2
unfolding strchr strchr_from
finds = refl

copies : strcpy ab ≡ 97 ∷ 98 ∷ 0 ∷ []
unfolding strcpy
copies = refl

-- A copy onto the next byte spreads the first one.
spreads : memcpy (λ i. i) 1 0 3 3 ≡ 0
unfolding memcpy for_range
spreads = refl

fills : memset (λ i. i) 4 300 2 5 ≡ 44
unfolding memset for_range
fills = refl
