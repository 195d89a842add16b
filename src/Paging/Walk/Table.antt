-- ===== src/Paging/Walk/Table.antt =====
-- `find_pte` with `creat` on: a new table of zeros changes no page.
use fleurix.Base.{
  ℕ, ◌≤◌, ◌<◌, ◌≡◌, ◌≢◌, refl, sym, ap, subst, ◌∙◌, true, false, List, [], ◌∷◌, ltb, ◌==◌,
  if◌then◌else◌, arith, inl, inr, Bool-cases,
}
use fleurix.Base.Result.{Result, ok, panic, ◌>>=◌}
use fleurix.Base.Bits.{has_bit}
use fleurix.Base.Loops.{update}
use fleurix.Pm.{Frames, npage, take_head}
use fleurix.Pm.Alloc.{
  IsValid, count_of, pgalloc-take_head, pgalloc_empty, take_head-IsValid, take_head-coremap,
}
use fleurix.Paging.{
  Memory, kmem_end, pdx, ptx, is_present, flag_of, off_of, with_flag, with_off, set_word,
  user_flags, take_page, add_table, find_pte, made_pte,
}
use fleurix.Paging.Walk.{seen, seen_empty, seen-absent, walk, IsTree, NotTable}

-- What `find_pte` with `creat` on leaves: a table for the address, with the same pages as before.
pub data Makes (m : Memory) (pgd vaddr : ℕ) (free : List ℕ) : Result (Memory × ℕ × ℕ) → Type 0 where
  no_frame : free ≡ [] → Makes m pgd vaddr free panic
  makes :
      (m' : Memory) (rest : List ℕ)
      → IsValid m'.frames rest
      → IsTree m' pgd
      → is_present (m'.word pgd (pdx vaddr)) ≡ true
      → ((va : ℕ) → walk m' pgd va ≡ walk m pgd va)
      → ((f : ℕ) → 0 < count_of m.frames f → count_of m'.frames f ≡ count_of m.frames f)
      → ((f : ℕ) → (m'.frames.coremap f).num ≡ (m.frames.coremap f).num)
      → ((p : ℕ) → 0 < count_of m.frames p → NotTable m pgd p → NotTable m' pgd p)
      → Makes m pgd vaddr free (ok (m', off_of (m'.word pgd (pdx vaddr)), ptx vaddr))

zero_absent : is_present 0 ≡ false
zero_absent = refl

-- The directory entry of the new table in frame `q`.
new_pde : ℕ → ℕ → ℕ
new_pde w q = with_off (with_flag w user_flags) q

new_pde_lem : (w q : ℕ) → q < npage → (off_of (new_pde w q) ≡ q) × (is_present (new_pde w q) ≡ true)
unfolding new_pde
new_pde_lem w q lt =
    let e : off_of (new_pde w q) ≡ q = unfold new_pde in omega arith in
    let flags : flag_of (with_off (with_flag w user_flags) q) ≡ user_flags = omega arith in
    (e, ap (λ (f : ℕ). has_bit f 0) flags)

-- The memory with a table of zeros in frame `q`.
abbrev tabled : Memory → ℕ → ℕ → Frames → ℕ → Memory
tabled m pgd i fr q =
    let m2 = set_word (record m { frames = fr }) pgd i (new_pde (m.word pgd i) q) in
    record m2 { word = update m2.word (off_of (new_pde (m.word pgd i) q)) (λ _. 0) }

module _ (m : Memory) (pgd i q : ℕ) (rest : List ℕ) (v : IsValid m.frames (q ∷ rest))
    (tree : IsTree m pgd) (absent : is_present (m.word pgd i) ≡ false) where
  abbrev after : Memory
  after = tabled m pgd i (take_head m.frames q) q

  below : (q < npage) × (count_of m.frames q ≡ 0)
  below = v.listed q (ground arith)

  -- The words of the directory and of the tables after that.
  dir_word :
      (d : ℕ) → after.word pgd d ≡ (if i == d then new_pde (m.word pgd i) q else m.word pgd d)
  dir_word d = ground (arith, (new_pde_lem (m.word pgd i) q below.0).0, tree.used, below.1)

  table_word : (f j : ℕ) → f ≢ pgd → after.word f j ≡ (if q == f then 0 else m.word f j)
  table_word f j ne = ground (arith, (new_pde_lem (m.word pgd i) q below.0).0)

  after-IsTree : IsTree after pgd
  after-IsTree =
      let c = take_head-coremap m.frames q in
      let new = new_pde_lem (m.word pgd i) q below.0 in
      record {
        used = ground (arith, c pgd, tree.used);
        table_used = λ d h.
            ground (arith, dir_word d, new, tree.table_used d, c (off_of (after.word pgd d)));
        apart = λ d h. λ e. ground (arith, dir_word d, new, tree.apart d, tree.used, below.1);
        distinct = λ d e h g o. ground (
          arith,
          dir_word d,
          dir_word e,
          new,
          tree.distinct d e,
          tree.table_used d,
          tree.table_used e,
          below.1,
        );
      }

  after-walk : (va : ℕ) → walk after pgd va ≡ walk m pgd va
  unfolding walk
  after-walk va =
      let d = pdx va in
      let x = ptx va in
      let new = new_pde_lem (m.word pgd i) q below.0 in
      elim (Bool-cases (i == d)) [
        | inl here ↦
            let same : i ≡ d = ground arith in
            let ne : q ≢ pgd = λ e. ground (arith, tree.used, below.1) in
            let table : off_of (after.word pgd d) ≡ q = ground (arith, dir_word d, new) in
            let entry : after.word (off_of (after.word pgd d)) x ≡ 0 =
              ap (λ (t : ℕ). after.word t x) table ∙ ground (arith, table_word q x ne) in
            let gone : is_present (m.word pgd d) ≡ false = rw (← same) absent in
            ap (seen (after.word pgd d)) entry
            ∙ seen_empty (after.word pgd d)
            ∙ sym (seen-absent (m.word pgd d) (m.word (off_of (m.word pgd d)) x) gone)
        | inr other ↦
            let dir : after.word pgd d ≡ m.word pgd d = ground (arith, dir_word d) in
            let t = off_of (m.word pgd d) in
            elim (Bool-cases (is_present (m.word pgd d))) [
              | inr gone ↦
                  seen-absent (after.word pgd d) (after.word (off_of (after.word pgd d)) x)
                    (ap is_present dir ∙ gone)
                  ∙ sym (seen-absent (m.word pgd d) (m.word t x) gone)
              | inl there ↦
                  let entry : after.word t x ≡ m.word t x = ground (
                    arith,
                    table_word t x (tree.apart d there),
                    tree.table_used d there,
                    below.1,
                  ) in
                  let entry' : after.word (off_of (after.word pgd d)) x ≡ m.word t x =
                    ap (λ (w : ℕ). after.word (off_of w) x) dir ∙ entry in
                  λ k. seen (dir k) (entry' k)
            ]
      ]

add_table-tabled :
    (m : Memory) (pgd i q : ℕ) (rest : List ℕ)
    → IsValid m.frames (q ∷ rest)
    → add_table m pgd i ≡ ok (tabled m pgd i (take_head m.frames q) q)
unfolding add_table take_page new_pde
add_table-tabled m pgd i q rest v =
    let taken = take_head-IsValid m.frames q rest v in
    let named : ((take_head m.frames q).coremap q).num ≡ q =
      taken.numbered q (v.listed q (ground arith)).0 in
    rw (pgalloc-take_head m.frames q rest v, named) refl

made_pte-add_table :
    (m : Memory) (pgd vaddr : ℕ) (r : Result Memory)
    → kmem_end ≤ vaddr
    → is_present (m.word pgd (pdx vaddr)) ≡ false
    → add_table m pgd (pdx vaddr) ≡ r
    → made_pte m pgd vaddr ≡ (r >>= λ m1. ok (m1, off_of (m1.word pgd (pdx vaddr)), ptx vaddr))
unfolding made_pte find_pte
made_pte-add_table m pgd vaddr panic high absent e =
    let user : ltb vaddr kmem_end ≡ false = ground arith in rw (user, absent, e) refl
made_pte-add_table m pgd vaddr (ok m1) high absent e =
    let user : ltb vaddr kmem_end ≡ false = ground arith in rw (user, absent, e) refl

pub made_pte-Makes :
    (m : Memory) (pgd vaddr : ℕ) (free : List ℕ)
    → kmem_end ≤ vaddr
    → IsValid m.frames free
    → IsTree m pgd
    → Makes m pgd vaddr free (made_pte m pgd vaddr)
unfolding made_pte find_pte
made_pte-Makes m pgd vaddr free high v tree =
    let user : ltb vaddr kmem_end ≡ false = ground arith in
    elim (Bool-cases (is_present (m.word pgd (pdx vaddr)))) [
      | inl there ↦
          rw (user, there)
            (makes m free v tree there (λ va. refl) (λ f h. refl) (λ f. refl) (λ p h out. out))
      | inr absent ↦ by_free free v absent
    ]
  where
    by_free :
        (xs : List ℕ)
        → IsValid m.frames xs
        → is_present (m.word pgd (pdx vaddr)) ≡ false
        → Makes m pgd vaddr xs (made_pte m pgd vaddr)
    by_free [] v absent =
        let stops : add_table m pgd (pdx vaddr) ≡ panic =
          unfold add_table take_page in rw (pgalloc_empty m.frames v) refl in
        subst (Makes m pgd vaddr []) (sym (made_pte-add_table m pgd vaddr panic high absent stops))
          (no_frame refl)
    by_free (q ∷ rest) v absent =
        let fr = take_head m.frames q in
        let m1 = tabled m pgd (pdx vaddr) fr q in
        let c = take_head-coremap m.frames q in
        let free = v.listed q (ground arith) in
        let dir = dir_word m pgd (pdx vaddr) q rest v tree absent (pdx vaddr) in
        subst (Makes m pgd vaddr (q ∷ rest))
          (sym (
            made_pte-add_table m pgd vaddr (ok m1) high absent
              (add_table-tabled m pgd (pdx vaddr) q rest v)))
          (makes m1 rest (take_head-IsValid m.frames q rest v)
            (after-IsTree m pgd (pdx vaddr) q rest v tree absent)
            (ground (arith, dir, new_pde_lem (m.word pgd (pdx vaddr)) q free.0))
            (after-walk m pgd (pdx vaddr) q rest v tree absent) (λ f h. ground (arith, c f, free))
            (λ f. ground (arith, c f))
            (λ p h out d there e. ground (
              arith,
              dir_word m pgd (pdx vaddr) q rest v tree absent d,
              new_pde_lem (m.word pgd (pdx vaddr)) q free.0,
              out d,
              free,
            )))
