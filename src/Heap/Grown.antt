-- ===== src/Heap/Grown.antt =====
-- grow of src/mm/malloc.c, the part of kmalloc that adds a bucket: how many frames it takes.
use fleurix.Base.{
  ℕ, zero, suc, ◌+◌, ◌*◌, ◌/◌, ◌<◌, ◌≡◌, refl, ap, ◌∙◌, List, [], ◌∷◌, length, arith,
}
use fleurix.Base.Loops.{update}
use fleurix.Base.Result.{Result, ok, panic, ◌>>=◌}
use fleurix.Pm.{page_size, take_head}
use fleurix.Pm.Alloc.{IsValid, pgalloc-take_head, pgalloc_empty, take_head-IsValid}
use fleurix.Heap.{
  Bucket, Heap, bk_size, addresses, refill, take_spare, take_frame, bkalloc, bkinit, grow,
}

-- The frames that a new bucket takes: its page, and one for bucket structures when none is left.
abbrev pub cost : List ℕ → ℕ
cost [] = 2
cost (b ∷ bs) = 1

-- How many bucket structures it leaves, of 256 in a page.
abbrev pub left : List ℕ → ℕ
left [] = 255
left (b ∷ bs) = length bs

-- A new bucket before the list, with all its entries free.
pub record Grown (h : Heap) (sn : ℕ) (h' : Heap) : Type 0 where
  pub bucket : Bucket
  pub all_free : length bucket.entry ≡ page_size / bk_size sn
  pub listed : h'.bktab sn ≡ bucket ∷ h.bktab sn

pub data Grew (h : Heap) (sn : ℕ) (free : List ℕ) : Result Heap → Type 0 where
  short : length free < cost h.spare → Grew h sn free panic
  grew :
      (h' : Heap) (rest : List ℕ)
      → IsValid h'.frames rest
      → length rest + cost h.spare ≡ length free
      → length h'.spare ≡ left h.spare
      → Grown h sn h'
      → Grew h sn free (ok h')

length-addresses : (n a step : ℕ) → length (addresses n a step) ≡ n
unfolding addresses
length-addresses zero a step = refl
length-addresses (suc n) a step = ap suc (length-addresses n (a + step) step)

abbrev after_frame : Heap → ℕ → Heap
after_frame h q = record h { frames = take_head h.frames q }

abbrev address : Heap → ℕ → ℕ
address h q = ((take_head h.frames q).coremap q).num * page_size

take_frame-cons :
    (h : Heap) (q : ℕ) (rest : List ℕ)
    → IsValid h.frames (q ∷ rest)
    → take_frame h ≡ ok (address h q, after_frame h q)
unfolding take_frame
take_frame-cons h q rest v = rw (pgalloc-take_head h.frames q rest v) refl

take_frame_empty : (h : Heap) → IsValid h.frames [] → take_frame h ≡ panic
unfolding take_frame
take_frame_empty h v = rw (pgalloc_empty h.frames v) refl

-- The bucket of the frame `q`, and the heap with it.
abbrev fresh : Heap → ℕ → ℕ → Bucket
fresh h size q = record {
  page = address h q;
  entry = addresses (page_size / size) (address h q) size;
}

abbrev with_bucket : Heap → ℕ → ℕ → Heap
with_bucket h sn q =
    let h2 = after_frame h q in
    record h2 { bktab = update h2.bktab sn (fresh h (bk_size sn) q ∷ h2.bktab sn) }

-- The rest of `grow`, from where the bucket structure is known.
abbrev rest_of : ℕ → ℕ × Heap → Result Heap
rest_of sn at = bkinit at.1 (bk_size sn) >>= λ b.
    ok (record b.1 { bktab = update b.1.bktab sn (b.0 ∷ b.1.bktab sn) })

grow-eq : (h : Heap) (sn : ℕ) → grow h sn ≡ (bkalloc h >>= rest_of sn)
unfolding grow
grow-eq h sn = refl

rest_of-cons :
    (h : Heap) (sn a q : ℕ) (rest : List ℕ)
    → IsValid h.frames (q ∷ rest)
    → rest_of sn (a, h) ≡ ok (with_bucket h sn q)
unfolding bkinit
rest_of-cons h sn a q rest v = rw (take_frame-cons h q rest v) refl

rest_of_empty : (h : Heap) (sn a : ℕ) → IsValid h.frames [] → rest_of sn (a, h) ≡ panic
unfolding bkinit
rest_of_empty h sn a v = rw (take_frame_empty h v) refl

-- The rest of `bkalloc`, from where the structures are, and of its page of new ones.
abbrev take_one : Result Heap → Result (ℕ × Heap)
take_one r = r >>= λ h1. take_spare h1.spare h1

abbrev new_ones : Result (ℕ × Heap) → Result Heap
new_ones r = r >>= λ o. ok (record o.1 { spare = addresses 256 o.0 16 })

bkalloc-cons :
    (h : Heap) (b : ℕ) (bs : List ℕ)
    → h.spare ≡ b ∷ bs
    → bkalloc h ≡ ok (b, record h { spare = bs })
unfolding bkalloc refill take_spare
bkalloc-cons h b bs e =
    ap (λ (xs : List ℕ). take_one (refill xs h)) e ∙ ap (λ (xs : List ℕ). take_spare xs h) e

bkalloc-frame :
    (h : Heap) (q : ℕ) (rest : List ℕ)
    → h.spare ≡ []
    → IsValid h.frames (q ∷ rest)
    → bkalloc h
      ≡ ok (address h q, record (after_frame h q) { spare = addresses 255 (address h q + 16) 16 })
unfolding bkalloc refill take_spare addresses
bkalloc-frame h q rest e v =
    ap (λ (xs : List ℕ). take_one (refill xs h)) e
    ∙ ap (λ (r : Result (ℕ × Heap)). take_one (new_ones r)) (take_frame-cons h q rest v)

bkalloc_empty : (h : Heap) → h.spare ≡ [] → IsValid h.frames [] → bkalloc h ≡ panic
unfolding bkalloc refill take_spare addresses
bkalloc_empty h e v =
    ap (λ (xs : List ℕ). take_one (refill xs h)) e
    ∙ ap (λ (r : Result (ℕ × Heap)). take_one (new_ones r)) (take_frame_empty h v)

module _ (h : Heap) (sn : ℕ) where
  -- With a bucket structure left, from the frames `free`.
  with_spare :
      (b : ℕ) (bs free : List ℕ)
      → h.spare ≡ b ∷ bs
      → IsValid h.frames free
      → Grew h sn free (grow h sn)
  with_spare b bs [] e v =
      rw (grow-eq h sn, bkalloc-cons h b bs e, rest_of_empty (record h { spare = bs }) sn b v)
        (short (rw e (omega arith)))
  with_spare b bs (q ∷ rest) e v =
      let h1 : Heap = record h { spare = bs } in
      rw (grow-eq h sn, bkalloc-cons h b bs e, rest_of-cons h1 sn b q rest v)
        (grew (with_bucket h1 sn q) rest (take_head-IsValid h.frames q rest v) (rw e (omega arith))
          (rw e refl)
          (record {
            bucket = fresh h1 (bk_size sn) q;
            all_free = length-addresses (page_size / bk_size sn) (address h1 q) (bk_size sn);
            listed = ground arith;
          }))

  without_spare :
      (free : List ℕ) → h.spare ≡ [] → IsValid h.frames free → Grew h sn free (grow h sn)
  without_spare [] e v = rw (grow-eq h sn, bkalloc_empty h e v) (short (rw e (omega arith)))
  without_spare (q ∷ rest) e v = second rest refl (take_head-IsValid h.frames q rest v)
    where
      h1 : Heap
      h1 = record (after_frame h q) { spare = addresses 255 (address h q + 16) 16 }

      second : (xs : List ℕ) → rest ≡ xs → IsValid h1.frames xs → Grew h sn (q ∷ rest) (grow h sn)
      second [] f w =
          rw (grow-eq h sn, bkalloc-frame h q rest e v, rest_of_empty h1 sn (address h q) w)
            (short (rw (e, f) (omega arith)))
      second (p ∷ ps) f w =
          rw (grow-eq h sn, bkalloc-frame h q rest e v, rest_of-cons h1 sn (address h q) p ps w)
            (grew (with_bucket h1 sn p) ps (take_head-IsValid h1.frames p ps w)
              (rw (e, f) (omega arith)) (rw e (length-addresses 255 (address h q + 16) 16))
              (record {
                bucket = fresh h1 (bk_size sn) p;
                all_free = length-addresses (page_size / bk_size sn) (address h1 p) (bk_size sn);
                listed = ground arith;
              }))

  -- On a valid map of the frames, a bucket is added, or the frames that it takes are not there.
  pub grow-Grew : (free : List ℕ) → IsValid h.frames free → Grew h sn free (grow h sn)
  grow-Grew free v = by_spare h.spare refl
    where
      by_spare : (xs : List ℕ) → h.spare ≡ xs → Grew h sn free (grow h sn)
      by_spare [] e = without_spare free e v
      by_spare (b ∷ bs) e = with_spare b bs free e v
