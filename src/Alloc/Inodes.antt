-- ===== src/Alloc/Inodes.antt =====
-- Giving out an inode number and taking it back: ialloc and ifree of src/fs/alloc.c.
use fleurix.Base.{
  ℕ, zero, suc, ◌*◌, ◌<◌, ◌≡◌, ◌≢◌, refl, sym, ap, ◌∙◌, subst, Bool, true, false, Option, none,
  some, ◌==◌, ◌||◌, leb, if◌then◌else◌, arith, Option-cases, inl, inr,
}
use native.Mathlib.Decide.{ℕ_discrete}
use fleurix.Base.Loops.{update}
use fleurix.Kernel.{Super}
use fleurix.Alloc.{
  Disk, Outcome, returns, sleeps, blk, bpb, find_bit, set_bit, clear_bit, test_bit, hold,
  write_back, take_bit, drop_bit, imapblk, ialloc, ifree,
}
use fleurix.Alloc.Search.{Finds, found, full, find_bit-Finds, test_bit-set, test_bit-clear}

-- What the loops of `ialloc` and `balloc` do with their first block, when no process holds it: the
-- lowest clear bit is set, no other bit changes, and the block is released; or every bit was set,
-- and the caller sleeps on the block, which it holds itself.
pub data Takes (at : ℕ) (d : Disk) : Outcome ℕ → Type 0 where
  took :
      (d' : Disk) (r : ℕ)
      → r < bpb
      → test_bit (d.block at) r ≡ false
      → ((q : ℕ) → q < r → test_bit (d.block at) q ≡ true)
      → ((q : ℕ) → test_bit (d'.block at) q ≡ (if q == r then true else test_bit (d.block at) q))
      → ((b : ℕ) → b ≢ at → d'.block b ≡ d.block b)
      → d'.held ≡ update d.held at false
      → Takes at d (returns d' r)
  stuck : ((q : ℕ) → q < bpb → test_bit (d.block at) q ≡ true) → Takes at d (sleeps at)

abbrev after_find : ℕ → Disk → Option ℕ → Outcome ℕ
after_find at d none = sleeps at
after_find at d (some r) = returns (write_back d at (set_bit (d.block at) r)) r

-- The second round reads the block of the first.
second_round :
    (n : ℕ) (at : ℕ → ℕ) (d : Disk)
    → at 1 ≡ at 0
    → take_bit (suc n) 1 at (hold d (at 0)) ≡ sleeps (at 0)
unfolding take_bit
second_round n at d same =
    let held : (hold d (at 0)).held (at 1) ≡ true = ground (arith, same) in
    rw (held, take_bit) (ap sleeps same)

first_round :
    (n : ℕ) (at : ℕ → ℕ) (d : Disk)
    → at 1 ≡ at 0
    → d.held (at 0) ≡ false
    → take_bit (suc (suc n)) 0 at d ≡ after_find (at 0) d (find_bit (d.block (at 0)) blk)
unfolding take_bit
first_round n at d same free = elim (Option-cases (find_bit (d.block (at 0)) blk)) [
  | inl none_ ↦ rw (free, take_bit) (rw none_ (second_round n at d same))
  | inr (r, hit) ↦
      rw (free, take_bit)
        (rw hit (
          ap (λ (bn : ℕ). returns (write_back d (at 0) (set_bit (d.block (at 0)) bn)) bn)
            (omega arith)))
]

written : (t : ℕ → ℕ → ℕ) (v : ℕ → ℕ) (i : ℕ) → update t i v i ≡ v
written t v i = ground arith

after_find-Takes :
    (at : ℕ) (d : Disk) (o : Option ℕ)
    → Finds (d.block at) 0 (blk * 8) o
    → Takes at d (after_find at d o)
after_find-Takes at d o (found r a b clear below) =
    took (write_back d at (set_bit (d.block at) r)) r b clear (λ q l. below q (omega arith) l)
      (λ q.
        ap (λ (f : ℕ → ℕ). test_bit f q) (written d.block (set_bit (d.block at) r) at)
        ∙ test_bit-set (d.block at) r q)
      (λ b' ne. ground (arith, ne)) refl
after_find-Takes at d o (full all) = stuck (λ q l. all q (omega arith) l)

pub take_bit-Takes :
    (n : ℕ) (at : ℕ → ℕ) (d : Disk)
    → 1 < n
    → at 1 ≡ at 0
    → d.held (at 0) ≡ false
    → Takes (at 0) d (take_bit n 0 at d)
take_bit-Takes zero at d more same free = absurd (omega arith)
take_bit-Takes (suc zero) at d more same free = absurd (omega arith)
take_bit-Takes (suc (suc n)) at d more same free =
    subst (Takes (at 0) d) (sym (first_round n at d same free)) (
      after_find-Takes (at 0) d (find_bit (d.block (at 0)) blk)
        (find_bit-Finds (d.block (at 0)) blk))

-- What a number that was given out says of the disk.
pub taken_back :
    (at : ℕ) (d d' : Disk) (r : ℕ) (o : Outcome ℕ)
    → Takes at d o
    → o ≡ returns d' r
    → (r < bpb)
      × (test_bit (d.block at) r ≡ false)
      × ((q : ℕ) → test_bit (d'.block at) q ≡ (if q == r then true else test_bit (d.block at) q))
      × ((b : ℕ) → b ≢ at → d'.block b ≡ d.block b)
      × (d'.held ≡ update d.held at false)
taken_back at d d' r o (took d1 r1 lt clear below bits others free) e =
    let disk : d1 ≡ d' = cc e in
    let num : r1 ≡ r = cc e in rw (← disk, ← num) (lt, clear, bits, others, free)
taken_back at d d' r o (stuck all) e = absurd (cc e)

-- The end of `bfree` and `ifree`, for a bit that is set in a block that no process holds.
pub drop_bit_lem :
    (b bn : ℕ) (d : Disk)
    → d.held b ≡ false
    → test_bit (d.block b) bn ≡ true
    → drop_bit b bn d ≡ returns (write_back d b (clear_bit (d.block b) bn)) tt
unfolding drop_bit
drop_bit_lem b bn d free set = rw (free, drop_bit) (rw set refl)

-- `ialloc` on a device of two inodes or more, with the first block of the inode map held by
-- no process, gives out the lowest free number, marks it and no other, and releases the block; with
-- every number of the block in use it sleeps on the block that it holds itself.
pub ialloc-Takes :
    (sp : Super) (d : Disk) → 1 < sp.max_inode → d.held 2 ≡ false → Takes 2 d (ialloc sp d)
unfolding ialloc
ialloc-Takes sp d more free = take_bit-Takes sp.max_inode imapblk d more refl free

-- The state behind `ifree`.
abbrev after_ifree : Disk → ℕ → Disk
after_ifree d' r = write_back d' 2 (clear_bit (d'.block 2) r)

ifree_lem :
    (sp : Super) (d' : Disk) (r : ℕ)
    → 0 < r
    → r < sp.max_inode
    → r < bpb
    → d'.held 2 ≡ false
    → test_bit (d'.block 2) r ≡ true
    → ifree sp r d' ≡ returns (after_ifree d' r) tt
unfolding ifree
ifree_lem sp d' r above below lt free set =
    let known : (r == 0 || leb sp.max_inode r) ≡ false = ground arith in
    let first : imapblk r ≡ 2 = omega arith in
    rw known (ap (λ (b : ℕ). drop_bit b r d') first ∙ drop_bit_lem 2 r d' free set)

-- An inode number that `ialloc` gave out, on such a device, can be given back at once when it
-- is neither 0 nor past the last inode: `ifree` returns, and every bit of the maps is again what it was.
pub ialloc-ifree :
    (sp : Super) (d d' : Disk) (r : ℕ)
    → 1 < sp.max_inode
    → d.held 2 ≡ false
    → ialloc sp d ≡ returns d' r
    → 0 < r
    → r < sp.max_inode
    → (d'' : Disk) × (ifree sp r d' ≡ returns d'' tt)
      × ((b q : ℕ) → test_bit (d''.block b) q ≡ test_bit (d.block b) q)
ialloc-ifree sp d d' r more free e above below =
    let t = taken_back 2 d d' r (ialloc sp d) (ialloc-Takes sp d more free) e in
    let free' : d'.held 2 ≡ false = ap (λ (f : ℕ → Bool). f 2) t.4 in
    let set : test_bit (d'.block 2) r ≡ true = t.2 r ∙ ground arith in
    (after_ifree d' r, ifree_lem sp d' r above below t.0 free' set, λ b q. same b q t.1 t.2 t.3)
  where
    same :
        (b q : ℕ)
        → test_bit (d.block 2) r ≡ false
        → ((q : ℕ) → test_bit (d'.block 2) q ≡ (if q == r then true else test_bit (d.block 2) q))
        → ((b : ℕ) → b ≢ 2 → d'.block b ≡ d.block b)
        → test_bit ((after_ifree d' r).block b) q ≡ test_bit (d.block b) q
    same b q clear bits others = elim (ℕ_discrete b 2) [
      | yes e ↦
          subst (λ (i : ℕ). test_bit ((after_ifree d' r).block i) q ≡ test_bit (d.block i) q)
            (sym e) (test_bit-clear (d'.block 2) r q ∙ in_map (bits q) clear)
      | no ne ↦
          let kept : (after_ifree d' r).block b ≡ d'.block b = ground (arith, ne) in
          ap (λ (f : ℕ → ℕ). test_bit f q) (kept ∙ others b ne)
    ]
      where
        in_map :
            test_bit (d'.block 2) q ≡ (if q == r then true else test_bit (d.block 2) q)
            → test_bit (d.block 2) r ≡ false
            → (if q == r then false else test_bit (d'.block 2) q) ≡ test_bit (d.block 2) q
        in_map bit was = elim (ℕ_discrete q r) [
          | yes e ↦
              let eq : (q == r) ≡ true = ground (arith, e) in
              rw eq (sym (ap (test_bit (d.block 2)) e ∙ was))
          | no ne ↦ let eq : (q == r) ≡ false = ground (arith, ne) in rw eq (bit ∙ rw eq refl)
        ]
