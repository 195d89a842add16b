-- ===== src/Heap/Entry.antt =====
-- An entry that is given back is where it was.
use fleurix.Base.{
  ℕ, ◌*◌, ◌/◌, ◌≡◌, refl, sym, ap, subst, ◌∙◌, Bool, true, false, ◌||◌, Option, none, some, List,
  [], ◌∷◌, ◌==◌, arith,
}
use fleurix.Base.Loops.{update}
use fleurix.Base.Result.{ok}
use fleurix.Pm.{page_size}
use fleurix.Heap.{
  Bucket, Heap, bk_size, bkslot, take_entry, put_entry, search_all, find_loop, kmalloc, kfree,
}

abbrev page_of : ℕ → ℕ
page_of addr = addr / page_size * page_size

abbrev pub InPage : ℕ → List ℕ → Type 0
InPage page [] = Unit {0}
InPage page (e ∷ es) = (page_of e ≡ page) × InPage page es

abbrev pub has_page : ℕ → List Bucket → Bool
has_page page [] = false
has_page page (b ∷ bs) = b.page == page || has_page page bs

-- The entries of each bucket lie in its page, and no page has two buckets.
abbrev pub Paged : List Bucket → Type 0
Paged [] = Unit {0}
Paged (b ∷ bs) = InPage b.page b.entry × (has_page b.page bs ≡ false) × Paged bs

some-injective {ℓ} : {A : Type ℓ} {a b : A} → some a ≡ some b → a ≡ b
some-injective e = cc

none-some {ℓ} : {A : Type ℓ} {a : A} → ◌≡◌ {A = Option A} none (some a) → ⊥
none-some c = cc

pub take_entry-cons :
    (b : Bucket) (bs : List Bucket) (x : ℕ) (xs : List ℕ)
    → b.entry ≡ x ∷ xs
    → take_entry (b ∷ bs) ≡ some (x, record b { entry = xs } ∷ bs)
unfolding take_entry
take_entry-cons b bs x xs same = rw same refl

take_entry_behind :
    (b : Bucket) (bs bs' : List Bucket) (x : ℕ)
    → b.entry ≡ []
    → take_entry bs ≡ some (x, bs')
    → take_entry (b ∷ bs) ≡ some (x, b ∷ bs')
unfolding take_entry
take_entry_behind b bs bs' x same e =
    rw (same, e) (ap (λ es. some (x, record b { entry = es } ∷ bs')) same)

pub take_entry_full :
    (b : Bucket) (bs : List Bucket)
    → b.entry ≡ []
    → take_entry bs ≡ none
    → take_entry (b ∷ bs) ≡ none
unfolding take_entry
take_entry_full b bs same e = rw (same, e) refl

put_entry_here :
    (b : Bucket) (bs : List Bucket) (x : ℕ) (xs : List ℕ)
    → b.entry ≡ x ∷ xs
    → page_of x ≡ b.page
    → put_entry x (record b { entry = xs } ∷ bs) ≡ some (b ∷ bs)
unfolding put_entry
put_entry_here b bs x xs same inside =
    let test : (b.page == page_of x) ≡ true = ground (arith, inside) in
    rw test (ap (λ es. some (record b { entry = es } ∷ bs)) (sym same))

put_entry_behind :
    (b : Bucket) (bs bs' : List Bucket) (x : ℕ)
    → (b.page == page_of x) ≡ false
    → put_entry x bs ≡ some bs'
    → put_entry x (b ∷ bs) ≡ some (b ∷ bs')
unfolding put_entry
put_entry_behind b bs bs' x other e = rw (other, e) refl

-- What `take_entry` gives comes from a bucket of its page, and goes back to it.
take-put :
    (bs bs' : List Bucket) (e : ℕ)
    → Paged bs
    → take_entry bs ≡ some (e, bs')
    → (put_entry e bs' ≡ some bs) × (has_page (page_of e) bs ≡ true)
take-put [] bs' e p t = absurd (unfold take_entry in cc)
take-put (b ∷ bs) bs' e p t = by_entry (λ bs2 x. take-put bs bs2 x p.2) b.entry refl
  where
    by_rest :
        (rest : Option (ℕ × List Bucket))
        → b.entry ≡ []
        → take_entry bs ≡ rest
        → ((bs2 : List Bucket) (x : ℕ)
            → take_entry bs ≡ some (x, bs2)
            → (put_entry x bs2 ≡ some bs) × (has_page (page_of x) bs ≡ true))
        → (put_entry e bs' ≡ some (b ∷ bs)) × (has_page (page_of e) (b ∷ bs) ≡ true)
    by_rest none same r ih = absurd (none-some (sym (take_entry_full b bs same r) ∙ t))
    by_rest (some (x, bs2)) same r ih =
        let both = some-injective (sym (take_entry_behind b bs bs2 x same r) ∙ t) in
        let found = ih bs2 x r in
        let other : (b.page == page_of x) ≡ false = ground (arith, found.1, p.1) in
        subst
          (λ (w : ℕ × List Bucket).
            (put_entry w.0 w.1 ≡ some (b ∷ bs)) × (has_page (page_of w.0) (b ∷ bs) ≡ true))
          both (put_entry_behind b bs2 bs x other found.0, ground (arith, found.1))

    by_entry :
        ((bs2 : List Bucket) (x : ℕ)
          → take_entry bs ≡ some (x, bs2)
          → (put_entry x bs2 ≡ some bs) × (has_page (page_of x) bs ≡ true))
        → (es : List ℕ) → b.entry ≡ es
        → (put_entry e bs' ≡ some (b ∷ bs)) × (has_page (page_of e) (b ∷ bs) ≡ true)
    by_entry ih [] same = by_rest (take_entry bs) same refl ih
    by_entry ih (x ∷ xs) same =
        let both = some-injective (sym (take_entry-cons b bs x xs same) ∙ t) in
        let all : InPage b.page (x ∷ xs) = subst (InPage b.page) same p.0 in
        let inside = all.0 in
        subst
          (λ (w : ℕ × List Bucket).
            (put_entry w.0 w.1 ≡ some (b ∷ bs)) × (has_page (page_of w.0) (b ∷ bs) ≡ true))
          both (put_entry_here b bs x xs same inside, ground (arith, inside))

-- An entry that `kmalloc` takes from a bucket goes back by `kfree` to where it was: the buckets and the
-- frames are as before. The size is less than a page, a bucket of its slot has a free entry, the
-- entries of each bucket lie in its page, and no page has two buckets.
pub kfree-kmalloc :
    (h : Heap) (size sn e : ℕ) (bs : List Bucket)
    → bkslot size ≡ some sn
    → (bk_size sn == page_size) ≡ false
    → Paged (h.bktab sn)
    → take_entry (h.bktab sn) ≡ some (e, bs)
    → (h' : Heap) × (h'' : Heap) × (kmalloc h size ≡ ok (some (e, h')))
      × (kfree h' e size ≡ ok h'')
      × (h''.frames ≡ h.frames)
      × (h''.spare ≡ h.spare)
      × ((j : ℕ) → h''.bktab j ≡ h.bktab j)
unfolding kmalloc find_loop search_all kfree
kfree-kmalloc h size sn e bs slot small paged got =
    let h' : Heap = record h { bktab = update h.bktab sn bs } in
    let back = (take-put (h.bktab sn) bs e paged got).0 in
    let there : h'.bktab sn ≡ bs = ground arith in
    let back' : put_entry e (h'.bktab sn) ≡ some (h.bktab sn) = rw there back in
    (
      h',
      record h' { bktab = update h'.bktab sn (h.bktab sn) },
      rw (slot, kmalloc, small, find_loop, search_all, got) refl,
      rw (slot, kfree, small, back') refl,
      refl,
      refl,
      λ j. same j (sn == j) refl,
    )
  where
    same :
        (j : ℕ) (b : Bool)
        → (sn == j) ≡ b
        → update (update h.bktab sn bs) sn (h.bktab sn) j ≡ h.bktab j
    same j true e = let eq : sn ≡ j = ground arith in rw e (ap h.bktab eq)
    same j false e = rw e refl
