-- ===== src/Pm/Alloc.antt =====
-- The frames allocator against a stack of free frames with a count of references for each frame.
use fleurix.Base.{
  ℕ, zero, suc, ◌+◌, ◌<◌, ◌≡◌, refl, sym, subst, ◌≢◌, inl, inr, true, false, List, [], ◌∷◌, arith,
  Bool-cases, leb, ◌==◌, if◌then◌else◌,
}
use fleurix.Base.Word.{u8}
use fleurix.Base.Loops.{update}
use fleurix.Base.Result.{Result, ok, panic}
use fleurix.Pm.{Frames, npage, pgfind, pgalloc, pgfree, drop_ref, give_back, take_head, pgref}
use fleurix.Pm.Chain.{mem, Distinct, Chain, Chain-update}

-- `free` lists the frames of the free list from its head: each once, all inside `coremap`, and
-- exactly those whose count is zero.
pub record IsValid (m : Frames) (free : List ℕ) : Type 0 where
  pub chain : Chain m.coremap m.free free
  pub distinct : Distinct free
  pub listed : (p : ℕ) → mem p free ≡ true → (p < npage) × ((m.coremap p).count ≡ 0)
  pub unlisted : (p : ℕ) → p < npage → mem p free ≡ false → 0 < (m.coremap p).count
  pub numbered : (p : ℕ) → p < npage → (m.coremap p).num ≡ p

abbrev pub count_of : Frames → ℕ → ℕ
count_of m p = (m.coremap p).count

-- What `pgalloc` gives back on a valid map: it panics exactly when no frame is free, and
-- otherwise takes the head of the list, whose count goes from 0 to 1.
pub data Allocates (m : Frames) : List ℕ → Result (ℕ × Frames) → Type 0 where
  out_of_frames : Allocates m [] panic
  takes :
      (p : ℕ) (ps : List ℕ) (m' : Frames)
      → IsValid m' ps
      → p < npage
      → count_of m p ≡ 0
      → count_of m' p ≡ 1
      → ((q : ℕ) → q ≢ p → m'.coremap q ≡ m.coremap q)
      → Allocates m (p ∷ ps) (ok (p, m'))

pub take_head-IsValid :
    (m : Frames) (p : ℕ) (ps : List ℕ) → IsValid m (p ∷ ps) → IsValid (take_head m p) ps
unfolding take_head
take_head-IsValid m p ps v = record {
  chain = Chain-update m.coremap (m.coremap p).next ps p _ v.distinct.0 v.chain.1;
  distinct = v.distinct.1;
  listed = λ q h. ground (arith, v.listed q, v.distinct.0);
  unlisted = λ q lt h. ground (arith, v.unlisted q);
  numbered = λ q lt. ground (arith, v.numbered q);
}

pub pgalloc-take_head :
    (m : Frames) (p : ℕ) (ps : List ℕ) → IsValid m (p ∷ ps) → pgalloc m ≡ ok (p, take_head m p)
unfolding pgalloc
pgalloc-take_head m p ps v = rw v.chain.0

pub pgalloc_empty : (m : Frames) → IsValid m [] → pgalloc m ≡ panic
unfolding pgalloc
pgalloc_empty m v = rw v.chain

-- `pgalloc` on a valid map panics exactly when the free list is empty, and otherwise takes its head,
-- whose count goes from 0 to 1; the map stays valid and no other frame changes.
pub pgalloc-Allocates : (m : Frames) (free : List ℕ) → IsValid m free → Allocates m free (pgalloc m)
unfolding pgalloc
pgalloc-Allocates m [] v = rw (v.chain, pgalloc) out_of_frames
pgalloc-Allocates m (p ∷ ps) v = subst (Allocates m (p ∷ ps)) (sym (pgalloc-take_head m p ps v)) (
    takes p ps (take_head m p) (take_head-IsValid m p ps v) (v.listed p (ground arith)).0
      (v.listed p (ground arith)).1 (unfold take_head in ground arith)
      (λ q ne. unfold take_head in ground arith))

-- A valid map lists no frame that is in use.
pub used-unlisted :
    (m : Frames) (p : ℕ) (free : List ℕ) → IsValid m free → 0 < count_of m p → mem p free ≡ false
used-unlisted m p free v h = elim (Bool-cases (mem p free)) [
  | inl listed ↦ absurd (omega (arith, (v.listed p listed).1))
  | inr fresh ↦ fresh
]

give_back-IsValid :
    (m : Frames) (p : ℕ) (free : List ℕ)
    → IsValid m free
    → p < npage
    → mem p free ≡ false
    → IsValid (give_back m p) (p ∷ free)
unfolding give_back
give_back-IsValid m p free v lt fresh = record {
  chain = (
    refl,
    subst (λ h. Chain (give_back m p).coremap h free) (ground arith)
        (Chain-update m.coremap m.free free p _ fresh v.chain),
  );
  distinct = (fresh, v.distinct);
  listed = λ q h. ground (arith, v.listed q);
  unlisted = λ q q_lt h. ground (arith, v.unlisted q);
  numbered = λ q q_lt. ground (arith, v.numbered q);
}

-- A change of a count that stays above zero, of a frame that is not free.
pub recount-IsValid :
    (m : Frames) (p c : ℕ) (free : List ℕ)
    → IsValid m free
    → mem p free ≡ false
    → 0 < c
    → IsValid (record m { coremap = update m.coremap p (record (m.coremap p) { count = c }) }) free
recount-IsValid m p c free v fresh pos = record {
  chain = Chain-update m.coremap m.free free p _ fresh v.chain;
  distinct = v.distinct;
  listed = λ q h. ground (arith, v.listed q);
  unlisted = λ q lt h. ground (arith, v.unlisted q);
  numbered = λ q lt. ground (arith, v.numbered q);
}

-- What `pgfree p` does to a valid map, by the count of the frame: it panics on a free frame, gives
-- the last reference back to the head of the list, and otherwise only counts one reference less.
pub data Frees (m : Frames) (p : ℕ) (free : List ℕ) : Result (ℕ × Frames) → Type 0 where
  double_free : count_of m p ≡ 0 → Frees m p free panic
  last :
      (m' : Frames)
      → count_of m p ≡ 1
      → IsValid m' (p ∷ free)
      → ((q : ℕ) → q ≢ p → m'.coremap q ≡ m.coremap q)
      → Frees m p free (ok (p, m'))
  shared :
      (m' : Frames)
      → 1 < count_of m p
      → IsValid m' free
      → count_of m p ≡ suc (count_of m' p)
      → ((q : ℕ) → q ≢ p → m'.coremap q ≡ m.coremap q)
      → Frees m p free (ok (p, m'))

-- `pgfree` of a frame on a valid map panics when the frame has no reference, gives the last reference
-- back to the head of the free list, and otherwise counts one less; the map stays valid and no
-- other frame changes.
pub pgfree-Frees :
    (m : Frames) (p : ℕ) (free : List ℕ) → IsValid m free → p < npage → Frees m p free (pgfree m p)
pgfree-Frees m p free v lt = by_count (count_of m p) refl
  where
    by_count : (c : ℕ) → count_of m p ≡ c → Frees m p free (pgfree m p)
    by_count zero e =
        let returns : pgfree m p ≡ panic = unfold pgfree in ground arith in
        rw returns (double_free e)
    by_count (suc zero) e =
        let returns : pgfree m p ≡ ok (p, give_back m p) =
          unfold pgfree drop_ref in ground (arith, v.numbered p) in
        rw returns (
          last (give_back m p) e
            (give_back-IsValid m p free v lt (used-unlisted m p free v (omega arith)))
            (λ q ne. unfold give_back in ground arith))
    by_count (suc (suc c)) e =
        let m' : Frames = record m {
          coremap = update m.coremap p (record (m.coremap p) { count = suc c });
        } in
        let returns : pgfree m p ≡ ok (p, m') =
          unfold pgfree drop_ref in ground (arith, v.numbered p) in
        rw returns (
          shared m' (omega arith)
            (recount-IsValid m p (suc c) free v (used-unlisted m p free v (omega arith))
              (omega arith))
            (ground arith) (λ q ne. ground arith))

-- `pg_count++` on a frame in use, with a count below 255, adds one to it and keeps the map valid.
pub pgref-IsValid :
    (m : Frames) (p : ℕ) (free : List ℕ)
    → IsValid m free
    → 0 < count_of m p
    → count_of m p < 255
    → IsValid (pgref m p) free × (count_of (pgref m p) p ≡ suc (count_of m p))
unfolding pgref
pgref-IsValid m p free v used fits = (
  recount-IsValid m p (u8 (count_of m p + 1)) free v (used-unlisted m p free v used) (omega arith),
  ground arith,
)

-- On a valid map, a frame whose last reference was just freed is the next one that `pgalloc` takes.
pub pgalloc-pgfree :
    (m m' : Frames) (p n : ℕ) (free : List ℕ)
    → IsValid m free
    → p < npage
    → count_of m p ≡ 1
    → pgfree m p ≡ ok (n, m')
    → (m'' : Frames) × (pgalloc m' ≡ ok (p, m''))
unfolding pgalloc pgfree drop_ref give_back
pgalloc-pgfree m m' p n free v lt one e = (take_head m' p, ground arith)

-- The frame that leaves the free list, and the others.
pub take_head-coremap :
    (m : Frames) (p q : ℕ)
    → (take_head m p).coremap q
      ≡ (if p == q then record (m.coremap q) { count = 1 } else m.coremap q)
unfolding take_head
take_head-coremap m p q = ground arith

-- A frame of memory is found.
pub pgfind_below : (p : ℕ) → p < npage → pgfind p ≡ ok p
unfolding pgfind
pgfind_below p lt = let below : leb npage p ≡ false = ground arith in rw below refl

pub pgref-count_of :
    (m : Frames) (p q : ℕ)
    → count_of (pgref m p) q ≡ (if p == q then u8 (count_of m q + 1) else count_of m q)
unfolding pgref
pgref-count_of m p q = ground arith
