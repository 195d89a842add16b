-- ===== src/Paging/Walk/Attach.antt =====
-- `pgattach` maps the page of an address, and no other.
use fleurix.Base.{
  ℕ, ◌<◌, ◌≡◌, ◌≢◌, refl, sym, ap, ◌∙◌, true, false, ◌&&◌, List, [], some, ◌==◌, arith, inl, inr,
  Bool-cases,
}
use fleurix.Base.Loops.{update}
use fleurix.Base.Result.{Result, ok, panic}
use fleurix.Pm.{Frames}
use fleurix.Pm.Alloc.{IsValid, count_of}
use fleurix.Paging.{Memory, pdx, ptx, is_present, off_of, set_word, pg_addr}
use fleurix.Paging.Walk.{walk, seen, seen-absent, IsTree, NotTable}

-- How a mapping of the page `p` ends.
pub data Attaches (m : Memory) (pgd vaddr p flag : ℕ) (free : List ℕ)
    : Result (Memory × ℕ × ℕ) → Type 0 where
  no_table : free ≡ [] → Attaches m pgd vaddr p flag free panic
  attaches :
      (m' : Memory) (t i : ℕ) (rest : List ℕ)
      → IsValid m'.frames rest
      → IsTree m' pgd
      → walk m' pgd vaddr ≡ some (p, flag)
      → ((va : ℕ)
          → (pdx va == pdx vaddr && ptx va == ptx vaddr) ≡ false
          → walk m' pgd va ≡ walk m pgd va)
      → off_of (m'.word t i) ≡ p
      → ((q : ℕ) → 0 < count_of m.frames q → NotTable m pgd q → NotTable m' pgd q)
      → Attaches m pgd vaddr p flag free (ok (m', t, i))

module _ (m : Memory) (pgd vaddr w : ℕ) (tree : IsTree m pgd)
    (there : is_present (m.word pgd (pdx vaddr)) ≡ true) where
  abbrev t : ℕ
  t = off_of (m.word pgd (pdx vaddr))

  abbrev written : Memory
  written = set_word m t (ptx vaddr) w

-- The walk is about pages, and sees the directory and its tables only.
pub walk_page : (m : Memory) (pgd vaddr : ℕ) → walk m pgd (pg_addr vaddr) ≡ walk m pgd vaddr
unfolding walk
walk_page m pgd vaddr =
    let d : pdx (pg_addr vaddr) ≡ pdx vaddr = omega arith in
    let x : ptx (pg_addr vaddr) ≡ ptx vaddr = omega arith in
    λ k. seen (m.word pgd (d k)) (m.word (off_of (m.word pgd (d k))) (x k))

pub walk_frames :
    (m : Memory) (fr : Frames) (pgd va : ℕ) → walk (record m { frames = fr }) pgd va ≡ walk m pgd va
unfolding walk
walk_frames m fr pgd va = refl

pub walk_outside :
    (m : Memory) (pgd q va : ℕ) (words : ℕ → ℕ)
    → q ≢ pgd
    → NotTable m pgd q
    → walk (record m { word = update m.word q words }) pgd va ≡ walk m pgd va
unfolding walk
walk_outside m pgd q va words ne out =
    let m' : Memory = record m { word = update m.word q words } in
    let x = ptx va in
    let dir : m'.word pgd (pdx va) ≡ m.word pgd (pdx va) = ground arith in
    let t = off_of (m.word pgd (pdx va)) in
    elim (Bool-cases (is_present (m.word pgd (pdx va)))) [
      | inr gone ↦
          seen-absent (m'.word pgd (pdx va)) (m'.word (off_of (m'.word pgd (pdx va))) x)
            (ap is_present dir ∙ gone)
          ∙ sym (seen-absent (m.word pgd (pdx va)) (m.word t x) gone)
      | inl here ↦
          let entry : m'.word t x ≡ m.word t x = ground (arith, out (pdx va) here) in
          let entry' : m'.word (off_of (m'.word pgd (pdx va))) x ≡ m.word t x =
            ap (λ (d : ℕ). m'.word (off_of d) x) dir ∙ entry in
          λ k. seen (dir k) (entry' k)
    ]
