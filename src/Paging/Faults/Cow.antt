-- ===== src/Paging/Faults/Cow.antt =====
-- A write to a protected page.
use fleurix.Base.{
  ℕ, suc, ◌-◌, ◌%◌, ◌^◌, ◌≤◌, ◌<◌, ◌≡◌, ◌≢◌, refl, sym, subst, true, false, ◌&&◌, List, [], ◌∷◌,
  ltb, ◌==◌, arith, inl, inr, Bool-cases,
}
use fleurix.Base.Bits.{has_bit}
use fleurix.Base.Word.{ℤ, pos}
use fleurix.Kernel.{Kernel, me}
use fleurix.Signal.{sigsend}
use fleurix.Signal.Send.{Sends, sigsend-Sends}
use fleurix.Paging.Flags.{Opens, writable-Opens}
use fleurix.Base.Loops.{update}
use fleurix.Base.Result.{Result, ok, panic, ◌>>=◌}
use fleurix.Pm.{Frames, npage, take_head}
use fleurix.Pm.Alloc.{
  IsValid, count_of, pgalloc-take_head, pgalloc_empty, take_head-IsValid, take_head-coremap,
  recount-IsValid, used-unlisted, pgfind_below,
}
use fleurix.Vm.{Vma, find_vma}
use fleurix.Paging.{
  Memory, off_of, with_off, writable, set_word, take_page, kmem_end, is_present, pdx, ptx, find_pte,
  made_pte,
}
use fleurix.Paging.Faults.{Space, area_at, segv, split_page, write_page, do_wp_page}

abbrev refs : Memory → ℕ → ℕ
refs m p = count_of m.frames p

-- How a write to the page `p` at the entry `i` of table `t` ends, with the frames `free` on the free
-- list.
pub data Writes (m : Memory) (t i p : ℕ) (free : List ℕ) : Result Memory → Type 0 where
  unused : refs m p ≡ 0 → Writes m t i p free (ok m)
  own :
      (m' : Memory)
      → refs m p ≡ 1
      → m'.frames ≡ m.frames
      → off_of (m'.word t i) ≡ off_of (m.word t i)
      → Opens (m.word t i) (m'.word t i)
      → ((f j : ℕ) → (f == t && j == i) ≡ false → m'.word f j ≡ m.word f j)
      → Writes m t i p free (ok m')
  no_frame : 1 < refs m p → free ≡ [] → Writes m t i p free panic
  copied :
      (q : ℕ) (rest : List ℕ) (m' : Memory)
      → 1 < refs m p
      → free ≡ q ∷ rest
      → IsValid m'.frames rest
      → suc (refs m' p) ≡ refs m p
      → refs m' q ≡ 1
      → ((j : ℕ) → m'.word q j ≡ m.word p j)
      → off_of (m'.word t i) ≡ q
      → Opens (m.word t i) (m'.word t i)
      → ((f j : ℕ) → f ≢ q → (f == t && j == i) ≡ false → m'.word f j ≡ m.word f j)
      → Writes m t i p free (ok m')

-- The entry of the copy.
writable-off_of : (w o : ℕ) → off_of (writable (with_off w o)) ≡ o % 2 ^ 20
writable-off_of w o = omega arith

module _ (m : Memory) (t i p : ℕ) {free : List ℕ} (v : IsValid m.frames free) (used : 0 < refs m t)
    (at : off_of (m.word t i) ≡ p) (lt : p < npage) where
  -- The map of the frames with a reference less to `p`.
  fewer : Frames
  fewer = record m.frames {
    coremap = update m.frames.coremap p (record (m.frames.coremap p) { count = refs m p - 1 });
  }

  fewer-IsValid : 1 < refs m p → IsValid fewer free
  unfolding fewer
  fewer-IsValid more =
      recount-IsValid m.frames p (refs m p - 1) free v
        (used-unlisted m.frames p free v (omega arith)) (omega arith)

  -- The memory after the copy to frame `new`, with the frames `fr`.
  abbrev copy_to : Frames → ℕ → Memory
  copy_to fr new =
      let m3 : Memory = record {
        frames = fr;
        word = update m.word new (m.word (off_of (m.word t i)));
      } in
      set_word m3 t i (writable (with_off (m3.word t i) new))

  split_page-Writes : 1 < refs m p → Writes m t i p free (split_page m t i p)
  split_page-Writes more = by_free free v (fewer-IsValid more)
    where
      by_free :
          (xs : List ℕ)
          → IsValid m.frames xs
          → IsValid fewer xs
          → Writes m t i p xs (split_page m t i p)
      by_free [] v0 v1 =
          let stops : split_page m t i p ≡ panic =
            unfold split_page take_page fewer in rw (pgalloc_empty fewer v1) refl in
          rw stops (no_frame more refl)
      by_free (q ∷ rest) v0 v1 =
          let fr = take_head fewer q in
          let new = (fr.coremap q).num in
          let below = v0.listed q (ground arith) in
          let taken = take_head-IsValid fewer q rest v1 in
          let named : new ≡ q = taken.numbered q below.0 in
          let ne : q ≢ t = λ e. ground (arith, below) in
          let ne' : q ≢ p = λ e. ground (arith, below) in
          let entries = take_head-coremap fewer q in
          let entry = with_off (update m.word new (m.word (off_of (m.word t i))) t i) new in
          let written : (copy_to fr new).word t i ≡ writable entry = ground (arith, named) in
          let returns : split_page m t i p ≡ ok (copy_to fr new) =
            unfold split_page take_page fewer in rw (pgalloc-take_head fewer q rest v1) refl in
          rw returns (
            copied q rest (copy_to fr new) more refl taken
              (unfold fewer in ground (arith, entries p)) (ground (arith, entries q))
              (λ j. ground (arith, named)) (ground (arith, named, below))
              (subst (Opens (m.word t i)) (sym written)
                (writable-Opens (m.word t i) entry (ground (arith, named))))
              (λ f j nf other. ground (arith, named)))

  write_page-Writes : Writes m t i p free (write_page m t i p)
  unfolding write_page
  write_page-Writes = elim (Bool-cases (ltb 1 (refs m p))) [
    | inl more ↦ rw more (split_page-Writes (ground arith))
    | inr few ↦ elim (Bool-cases (refs m p == 1)) [
      | inl one ↦
          rw (few, one)
            (own (set_word m t i (writable (m.word t i))) (ground arith) refl (ground arith)
              (subst (Opens (m.word t i)) (sym (ground arith))
                (writable-Opens (m.word t i) (m.word t i) refl))
              (λ f j other. ground arith))
      | inr gone ↦ rw (few, gone) (unused (ground arith))
    ]
  ]

-- How the handler of a write to a protected page ends, `v` the area of the address, `t` the table, `i`
-- the index of the entry.
pub data Handles (v : Vma) (s : Space) (t i : ℕ) (free : List ℕ) : Result Space → Type 0 where
  refused :
      (out : Kernel × ℤ)
      → has_bit v.flag 0 ≡ true
      → Sends s.kernel (me s.kernel).pid 11 true out
      → Handles v s t i free (ok (record s { kernel = out.0 }))
  public : has_bit v.flag 0 ≡ false → has_bit v.flag 4 ≡ false → Handles v s t i free (ok s)
  written :
      (r : Result Memory)
      → has_bit v.flag 0 ≡ false
      → has_bit v.flag 4 ≡ true
      → Writes s.memory t i (off_of (s.memory.word t i)) free r
      → Handles v s t i free (r >>= λ m. ok (record s { memory = m }))

pub made_pte_present :
    (m : Memory) (pgd vaddr : ℕ)
    → kmem_end ≤ vaddr
    → is_present (m.word pgd (pdx vaddr)) ≡ true
    → made_pte m pgd vaddr ≡ ok (m, off_of (m.word pgd (pdx vaddr)), ptx vaddr)
unfolding made_pte find_pte
made_pte_present m pgd vaddr high there =
    let user : ltb vaddr kmem_end ≡ false = ground arith in rw (user, there) refl

-- A write to a protected page, whose entry stands in a table in use and names a frame of memory:
-- in a read-only area the process is sent signal 11, SIGSEGV, by the rules of `sigsend`, and nothing
-- else changes; an area that is not private leaves all as it is; and in a private
-- area a page with one reference becomes writable, with its other flags and its frame
-- as they were, while of a page with more the oldest free frame gets
-- a copy, which the entry names from then on, writable and with its other flags kept, and which has one
-- reference; the old page has
-- one reference less, and no other word changes. Without a free frame that panics. A page without a
-- reference is left as it is.
pub do_wp_page-Handles :
    (low : Vma) (s : Space) (vaddr : ℕ) (free : List ℕ)
    → let t = off_of (s.memory.word s.pgd (pdx vaddr)) in
      kmem_end ≤ vaddr
      → is_present (s.memory.word s.pgd (pdx vaddr)) ≡ true
      → IsValid s.memory.frames free
      → 0 < refs s.memory t
      → off_of (s.memory.word t (ptx vaddr)) < npage
      → Handles
          (area_at low s.vm (find_vma s.vm vaddr))
          s
          t
          (ptx vaddr)
          free
          (do_wp_page low s vaddr)
unfolding do_wp_page segv
do_wp_page-Handles low s vaddr free high there v used lt =
    let a = area_at low s.vm (find_vma s.vm vaddr) in
    let t = off_of (s.memory.word s.pgd (pdx vaddr)) in
    let p = off_of (s.memory.word t (ptx vaddr)) in
    let found = pgfind_below p lt in
    elim (Bool-cases (has_bit a.flag 0)) [
      | inl ro ↦ rw ro (
          refused (sigsend s.kernel (me s.kernel).pid (pos 11) true) ro
            (sigsend-Sends s.kernel (me s.kernel).pid 11 true (omega arith) (omega arith)))
      | inr rw_ ↦ elim (Bool-cases (has_bit a.flag 4)) [
        | inr shared ↦ rw (rw_, shared) (public rw_ shared)
        | inl private ↦
            rw (rw_, private, made_pte_present s.memory s.pgd vaddr high there, found)
              (written (write_page s.memory t (ptx vaddr) p) rw_ private
                (write_page-Writes s.memory t (ptx vaddr) p v used refl lt))
      ]
    ]
