-- ===== src/Paging/Share.antt =====
-- The copy of one page table for a child, and the directory of a new address space.
use fleurix.Base.{
  ℕ, zero, suc, ◌+◌, ◌-◌, ◌*◌, ◌%◌, ◌^◌, ◌≤◌, ◌<◌, ◌≡◌, ◌≢◌, refl, sym, ap, ◌∙◌, true, false, ◌&&◌,
  ltb, ◌==◌, if◌then◌else◌, arith, inl, inr, Bool-cases, bit_and, subst,
}
use fleurix.Base.Bits.{all_but}
use fleurix.Paging.Flags.{shared, Guards, Guards-same, shared-Guards}
use fleurix.Base.Loops.{for_range, for_range_inv, for_range_each}
use fleurix.Base.Result.{Result, ok}
use fleurix.Pm.{npage, pgref}
use fleurix.Pm.Alloc.{count_of, pgfind_below, pgref-count_of}
use fleurix.Paging.{
  Memory, user_pdx, pte_w, is_present, flag_of, off_of, with_flag, with_off, protected, set_word,
  share_entry, share_table, map_big, unmap, pgd_init,
}

-- How many of the first `n` entries of the table are pages in frame `q`.
unfoldable pub uses : Memory → ℕ → ℕ → ℕ → ℕ
uses m table q zero = 0
uses m table q (suc n) =
    uses m table q n
    + (if is_present (m.word table n) && off_of (m.word table n) == q then 1 else 0)

-- After the first `n` rounds.
pub record Shared (m : Memory) (old new n : ℕ) (m' : Memory) : Type 0 where
  pub parent : (j : ℕ) → m'.word old j ≡ (if ltb j n then shared (m.word old j) else m.word old j)
  pub child :
      (j : ℕ)
      → j < n
      → (off_of (m'.word new j) ≡ off_of (m.word old j))
        × (flag_of (m'.word new j) ≡ flag_of (shared (m.word old j)))
  pub counted : (q : ℕ) → count_of m'.frames q ≡ count_of m.frames q + uses m old q n
  pub elsewhere : (f j : ℕ) → f ≢ old → f ≢ new → m'.word f j ≡ m.word f j

protected_lem :
    (v w : ℕ)
    → flag_of v ≡ flag_of w
    → off_of v ≡ off_of w
    → (off_of (protected v) ≡ off_of w) × (flag_of (protected v) ≡ flag_of (protected w))
protected_lem v w f o =
    (omega arith, kept v ∙ ap (λ (g : ℕ). bit_and g (all_but 9 pte_w) % 512) f ∙ sym (kept w))
  where
    kept : (x : ℕ) → flag_of (protected x) ≡ bit_and (flag_of x) (all_but 9 pte_w) % 512
    kept x = omega arith

copied_lem :
    (a w : ℕ)
    → (off_of (with_flag (with_off a (off_of w)) (flag_of w)) ≡ off_of w)
      × (flag_of (with_flag (with_off a (off_of w)) (flag_of w)) ≡ flag_of w)
copied_lem a w = (omega arith, omega arith)

uses-mono_le : (m : Memory) (table q n k : ℕ) → uses m table q n ≤ uses m table q (n + k)
unfolding uses
uses-mono_le m table q n zero =
    let e : n + 0 ≡ n = omega arith in omega (arith, ap (uses m table q) e)
uses-mono_le m table q n (suc k) =
    let e : n + suc k ≡ suc (n + k) = omega arith in
    omega (arith, uses-mono_le m table q n k, ap (uses m table q) e)

module _ (m : Memory) (old new : ℕ) (ne : old ≢ new)
    (below : (j : ℕ) → is_present (m.word old j) ≡ true → off_of (m.word old j) < npage)
    (fits : (q : ℕ) → count_of m.frames q + uses m old q 1024 < 256) where
  -- The first `n` entries leave room for one reference more.
  room : (n q : ℕ) → n < 1024 → count_of m.frames q + uses m old q (suc n) < 256
  room n q lt =
      let all : suc n + (1023 - n) ≡ 1024 = omega arith in
      let mono = uses-mono_le m old q (suc n) (1023 - n) in
      omega (arith, fits q, mono, ap (uses m old q) all)

  module _ (n : ℕ) (m' : Memory) (lt : n < 1024) (s : Shared m old new n m') where
    abbrev w : ℕ
    w = m'.word old n

    abbrev m1 : Memory
    m1 = set_word m' new n (with_flag (with_off (m'.word new n) (off_of w)) (flag_of w))

    abbrev m2 : Memory
    m2 = set_word m1 new n (protected (m1.word new n))

    abbrev m3 : Memory
    m3 = record (set_word m2 old n (protected (m2.word old n))) {
      frames = pgref m'.frames (off_of w);
    }

    word_now : w ≡ m.word old n
    word_now = ground (arith, s.parent n)

    absent-Shared : is_present (m.word old n) ≡ false → Shared m old new (n + 1) m1
    unfolding uses
    absent-Shared gone = record {
      parent = λ j. ground (arith, s.parent j);
      child = λ j l. ground (arith, s.child j, copied_lem (m'.word new n) w, word_now);
      counted = λ q. ground (arith, s.counted q);
      elsewhere = λ f j a b. ground (arith, s.elsewhere f j a b);
    }

    present-Shared : is_present (m.word old n) ≡ true → Shared m old new (n + 1) m3
    unfolding uses
    present-Shared there =
        let copied = copied_lem (m'.word new n) w in
        let now : m1.word new n ≡ with_flag (with_off (m'.word new n) (off_of w)) (flag_of w) =
          ground arith in
        let guarded =
          protected_lem (m1.word new n) w (ap (λ (x : ℕ). flag_of x) now ∙ copied.1)
            (ap (λ (x : ℕ). off_of x) now ∙ copied.0) in
        record {
          parent = λ j. ground (arith, s.parent j, word_now);
          child = λ j l. ground (arith, s.child j, copied, guarded, word_now);
          counted = λ q.
              ground
                (arith, s.counted q, pgref-count_of m'.frames (off_of w) q, room n q lt, word_now);
          elsewhere = λ f j a b. ground (arith, s.elsewhere f j a b);
        }

  share_entry-Shared :
      (n : ℕ) (r : Result Memory)
      → n < 1024
      → (m' : Memory) × (r ≡ ok m') × Shared m old new n m'
      → (m'' : Memory) × (share_entry old new n r ≡ ok m'') × Shared m old new (n + 1) m''
  unfolding share_entry
  share_entry-Shared n r lt (m', e, s) = elim (Bool-cases (is_present (m.word old n))) [
    | inr gone ↦
        let gone' : is_present (m'.word old n) ≡ false = ground (arith, s.parent n) in
        (m1 n m' lt s, rw (e, gone') refl, absent-Shared n m' lt s gone)
    | inl there ↦
        let there' : is_present (m'.word old n) ≡ true = ground (arith, s.parent n) in
        let found = pgfind_below (off_of (m'.word old n)) (ground (arith, s.parent n, below n)) in
        (m3 n m' lt s, rw (e, there', found) refl, present-Shared n m' lt s there)
  ]

start-Shared : (m : Memory) (old new : ℕ) → Shared m old new 0 m
unfolding uses
start-Shared m old new = record {
  parent = λ j. ground arith;
  child = λ j l. absurd (omega arith);
  counted = λ q. omega arith;
  elsewhere = λ f j a b. refl;
}

share_all :
    (m : Memory) (old new : ℕ)
    → old ≢ new
    → ((j : ℕ) → is_present (m.word old j) ≡ true → off_of (m.word old j) < npage)
    → ((q : ℕ) → count_of m.frames q + uses m old q 1024 < 256)
    → (m' : Memory) × (share_table old new m ≡ ok m') × Shared m old new 1024 m'
unfolding share_table
share_all m old new ne below fits =
    for_range_inv (λ n r. (m' : Memory) × (r ≡ ok m') × Shared m old new n m') (share_entry old new)
      1024 0 1024 refl (λ n r a lt h. share_entry-Shared m old new ne below fits n r lt h) (ok m)
      (m, refl, start-Shared m old new)

-- The copy of the table `old` into the frame `new`, another one, when the pages of the table are
-- frames of memory and no count overflows its byte: it ends, every entry of the parent and of the
-- child names the frame that the parent had there, with the same flags, but with PTE_W off where the
-- page is present; each frame has one reference more for each entry that names it; and no word
-- elsewhere changes.
pub share_table-Shared :
    (m : Memory) (old new : ℕ)
    → old ≢ new
    → ((j : ℕ) → is_present (m.word old j) ≡ true → off_of (m.word old j) < npage)
    → ((q : ℕ) → count_of m.frames q + uses m old q 1024 < 256)
    → (m' : Memory) × (share_table old new m ≡ ok m')
      × ((j : ℕ)
          → j < 1024
          → Guards (m.word old j) (m'.word old j) × Guards (m.word old j) (m'.word new j))
      × Shared m old new 1024 m'
share_table-Shared m old new ne below fits =
    let (m', e, s) = share_all m old new ne below fits in
    (
      m',
      e,
      λ j lt.
          let guards = shared-Guards (m.word old j) in
          let now : m'.word old j ≡ shared (m.word old j) = ground (arith, s.parent j) in
          let c = s.child j lt in
          (
            subst (Guards (m.word old j)) (sym now) guards,
            Guards-same (m.word old j) (shared (m.word old j)) (m'.word new j)
                (c.0 ∙ sym guards.frame) c.1 guards,
          ),
      s,
    )

entry_lem :
    (a off flag : ℕ)
    → off < 2 ^ 20
    → flag < 512
    → (off_of (with_flag (with_off a off) flag) ≡ off)
      × (flag_of (with_flag (with_off a off) flag) ≡ flag)
entry_lem a off flag o f = (omega arith, omega arith)

-- `pgd_init` gives the first 32 entries of the directory the big pages of the physical memory,
-- writable and for the kernel alone, one after the other, and leaves every other entry absent.
pub pgd_init-maps :
    (m : Memory) (pgd j : ℕ)
    → j < 1024
    → let e = (pgd_init m pgd).word pgd j in
      (off_of e ≡ (if ltb j 32 then j * 1024 else 0)) × (flag_of e ≡ (if ltb j 32 then 0x83 else 4))
unfolding pgd_init
pgd_init-maps m pgd j lt =
    let low = for_range user_pdx 0 (map_big pgd) m in
    let first =
      for_range_each (λ m j. m.word pgd j) (map_big pgd)
        (λ i w. with_flag (with_off w (i * 1024)) 0x83) (λ k s i. unfold map_big in ground arith) 32
        0 m j in
    let second =
      for_range_each (λ m j. m.word pgd j) (unmap pgd) (λ i w. with_flag (with_off w 0) 4)
        (λ k s i. unfold unmap in ground arith) 992 32 low j in
    elim (Bool-cases (ltb j 32)) [
      | inl kernel ↦
          let e : (pgd_init m pgd).word pgd j
              ≡ with_flag (with_off (m.word pgd j) (j * 1024)) 0x83 =
            unfold pgd_init in ground (arith, first, second) in
          let f = entry_lem (m.word pgd j) (j * 1024) 0x83 (ground arith) (omega arith) in
          rw kernel (ap (λ (w : ℕ). off_of w) e ∙ f.0, ap (λ (w : ℕ). flag_of w) e ∙ f.1)
      | inr user ↦
          let e : (pgd_init m pgd).word pgd j ≡ with_flag (with_off (low.word pgd j) 0) 4 =
            unfold pgd_init in ground (arith, second) in
          let f = entry_lem (low.word pgd j) 0 4 (omega arith) (omega arith) in
          rw user (ap (λ (w : ℕ). off_of w) e ∙ f.0, ap (λ (w : ℕ). flag_of w) e ∙ f.1)
    ]
