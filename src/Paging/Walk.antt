-- ===== src/Paging/Walk.antt =====
-- What the processor finds in the tables for an address.
pub mod Table
pub mod Attach
use fleurix.Base.{
  ℕ, zero, suc, ◌+◌, ◌-◌, ◌*◌, ◌/◌, ◌%◌, ◌^◌, ◌≤◌, ◌<◌, ◌≡◌, ◌≢◌, refl, sym, ap, subst, ◌∙◌, Bool,
  true, false, not, ◌&&◌, List, [], ◌∷◌, Option, none, some, leb, ltb, ◌==◌, if◌then◌else◌, arith,
  inl, inr, Bool-cases,
}
use fleurix.Base.Result.{Result, ok, panic, ◌>>=◌}
use fleurix.Base.Bits.{has_bit}
use fleurix.Base.Loops.{update}
use fleurix.Pm.{Frames, npage, take_head}
use fleurix.Pm.Alloc.{
  IsValid, count_of, pgalloc-take_head, pgalloc_empty, take_head-IsValid, take_head-coremap,
}
use fleurix.Pm.Chain.{mem}
use fleurix.Paging.{
  Memory, kmem_end, pdx, ptx, is_present, flag_of, off_of, with_flag, with_off, set_word, num_of,
  user_flags, take_page, add_table, find_pte, made_pte, pgattach,
}

-- What the processor makes of a directory entry and a table entry: the frame and the flags.
pub seen : ℕ → ℕ → Option (ℕ × ℕ)
seen d e = if is_present d && is_present e then some (off_of e, flag_of e) else none

-- The walk of the processor through the directory and the table, for the pages of users.
pub walk : Memory → ℕ → ℕ → Option (ℕ × ℕ)
unfolding seen
walk m pgd vaddr = let d = m.word pgd (pdx vaddr) in seen d (m.word (off_of d) (ptx vaddr))

pub seen-absent : (d e : ℕ) → is_present d ≡ false → seen d e ≡ none
unfolding seen
seen-absent d e gone = rw gone refl

pub seen-present :
    (d e : ℕ) → is_present d ≡ true → is_present e ≡ true → seen d e ≡ some (off_of e, flag_of e)
unfolding seen
seen-present d e h g = rw (h, g) refl

pub seen_empty : (d : ℕ) → seen d 0 ≡ none
unfolding seen
seen_empty d = elim (Bool-cases (is_present d)) [ inl h ↦ rw h refl | inr h ↦ rw h refl ]

-- The directory and its tables stand in frames in use, apart from each other.
pub record IsTree (m : Memory) (pgd : ℕ) : Type 0 where
  pub used : 0 < count_of m.frames pgd
  pub table_used :
      (d : ℕ) → is_present (m.word pgd d) ≡ true → 0 < count_of m.frames (off_of (m.word pgd d))
  pub apart : (d : ℕ) → is_present (m.word pgd d) ≡ true → off_of (m.word pgd d) ≢ pgd
  pub distinct :
      (d e : ℕ)
      → is_present (m.word pgd d) ≡ true
      → is_present (m.word pgd e) ≡ true
      → off_of (m.word pgd d) ≡ off_of (m.word pgd e)
      → d ≡ e

-- The frame holds no table of the directory.
abbrev pub NotTable : Memory → ℕ → ℕ → Type 0
NotTable m pgd p = (d : ℕ) → is_present (m.word pgd d) ≡ true → off_of (m.word pgd d) ≢ p
