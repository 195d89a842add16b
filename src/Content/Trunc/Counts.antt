-- ===== src/Content/Trunc/Counts.antt =====
-- itrunc of src/fs/bmap.c leaves the reference count of the inode alone.
use fleurix.Base.{
  ℕ, zero, suc, ◌+◌, ◌≡◌, refl, ◌∙◌, Bool, true, false, ◌||◌, not, ◌==◌, inl, inr, Bool-cases,
  if◌then◌else◌,
}
use fleurix.Base.Bits.{has_bit}
use fleurix.Base.Word.{ℤ, pos, minus_one}
use fleurix.Kernel.{Super}
use fleurix.Alloc.{Disk, Outcome, bfree}
use fleurix.Content.{
  Fs, Action, done, ◌>>=◌, ◌>>◌, return, on_disk, bread, brelse, nindblk, iupdate, dirtied, iblk,
  Gives, Gives-after, Gives-imp, on_disk-Gives,
}
use fleurix.Content.Trunc.{
  reg_bit, dir_bit, of_char, for_each, clear_zone, no_bytes, drop_direct, drop_entry, drop_table,
  drop_inner, drop_tables, itrunc,
}

-- An action that leaves the count of the inode alone, from one state, and from every state.
abbrev pub CountsAt : {A : Type 0} → Action A → Fs → Type 0
CountsAt {A} act t = Gives {A = A} (λ u _. u.ip.count ≡ t.ip.count) (act t)

abbrev pub Counts : {A : Type 0} → Action A → Type 0
Counts act = (t : Fs) → CountsAt act t

Counts-seq :
    {A B : Type 0} (act : Action A) (next : A → Action B)
    → Counts act
    → ((a : A) → Counts (next a))
    → Counts (act >>= next)
Counts-seq act next first later t =
    Gives-after (λ u _. u.ip.count ≡ t.ip.count) (λ u _. u.ip.count ≡ t.ip.count) (act t) next
      (first t)
      λ u a e.
        Gives-imp (λ w _. w.ip.count ≡ u.ip.count) (λ w _. w.ip.count ≡ t.ip.count) (next a u)
          (later a u) (λ w _ f. f ∙ e)

Counts-then :
    {A B : Type 0} (act : Action A) (next : Action B)
    → Counts act
    → Counts next
    → Counts (act >> next)
Counts-then act next first later = Counts-seq act (λ _. next) first (λ _. later)

for_each-Counts :
    (body : ℕ → Action (Unit {0}))
    → ((k : ℕ) → Counts (body k))
    → (n i : ℕ) → Counts (for_each n i body)
unfolding for_each
for_each-Counts body keep zero i t = refl
for_each-Counts body keep (suc n) i t =
    Counts-then (body i) (for_each n (i + 1) body) (keep i) (for_each-Counts body keep n (i + 1)) t

on_disk-Counts : {A : Type 0} (op : Disk → Outcome A) → Counts (on_disk op)
on_disk-Counts op t =
    Gives-imp (λ u _. u.ip ≡ t.ip) (λ u _. u.ip.count ≡ t.ip.count) (on_disk op t)
      (on_disk-Gives op t) (λ u _ e x. (e x).count)

bread-Counts : (b : ℕ) → Counts (bread b)
bread-Counts b t = elim (Bool-cases (t.disk.held b)) [
  | inl busy ↦ rw busy tt
  | inr free ↦ rw free refl
]

brelse-Counts : (b : ℕ) → Counts (brelse b)
brelse-Counts b t = refl

clear_zone-Counts : (i : ℕ) → Counts (clear_zone i)
clear_zone-Counts i t = refl

-- An action under a test.
if-Counts :
    {A : Type 0} (c : Bool) (a b : Action A) (t : Fs)
    → Counts a
    → Counts b
    → Gives {A = A} (λ u _. u.ip.count ≡ t.ip.count) (if c then a t else b t)
if-Counts true a b t p q = p t
if-Counts false a b t p q = q t

module _ (sp : Super) (failed : ℕ → Bool) where
  bfree-Counts : (z : ℕ) → Counts (on_disk (bfree sp z))
  bfree-Counts z = on_disk-Counts (bfree sp z)

  drop_direct-Counts : (i : ℕ) → Counts (drop_direct sp failed i)
  unfolding drop_direct
  drop_direct-Counts i s =
      let dirty : Action (Unit {0}) = λ t. done (record t { ip = dirtied t.ip }) tt in
      if-Counts (s.ip.zone i == 0) (return tt)
        (on_disk (bfree sp (s.ip.zone i)) >> (dirty >> clear_zone i)) s (λ t. refl)
        (Counts-then (on_disk (bfree sp (s.ip.zone i))) (dirty >> clear_zone i)
          (bfree-Counts (s.ip.zone i))
          (Counts-then dirty (clear_zone i) (λ t. refl) (clear_zone-Counts i)))

  drop_entry-Counts : (b i : ℕ) → Counts (drop_entry sp failed b i)
  unfolding drop_entry
  drop_entry-Counts b i s =
      if-Counts (s.disk.block b i == 0) (return tt)
        (on_disk (bfree sp (of_char (s.disk.block b i)))) s (λ t. refl)
        (bfree-Counts (of_char (s.disk.block b i)))

  entries-Counts : (b : ℕ) → Counts (for_each nindblk 0 (drop_entry sp failed b))
  entries-Counts b = for_each-Counts (drop_entry sp failed b) (drop_entry-Counts b) nindblk 0

  drop_inner-Counts : (b i : ℕ) → Counts (drop_inner sp failed b i)
  unfolding drop_inner
  drop_inner-Counts b i s =
      let c = of_char (s.disk.block b i) in
      let all : Action (Unit {0}) = for_each nindblk 0 (drop_entry sp failed c) in
      let free_it : Action (Unit {0}) = λ t. on_disk (bfree sp (of_char (t.disk.block b i))) t in
      if-Counts (s.disk.block b i == 0) (return tt) (bread c >> (all >> (brelse c >> free_it))) s
        (λ t. refl)
        (Counts-then (bread c) (all >> (brelse c >> free_it)) (bread-Counts c) (
          Counts-then all (brelse c >> free_it) (entries-Counts c) (
            Counts-then (brelse c) free_it (brelse-Counts c)
              (λ t. bfree-Counts (of_char (t.disk.block b i)) t))))

  drop_table-Counts : Counts (drop_table sp failed)
  unfolding drop_table
  drop_table-Counts s =
      let b = s.ip.zone 7 in
      let all : Action (Unit {0}) = for_each nindblk 0 (drop_entry sp failed b) in
      let free_it : Action (Unit {0}) = on_disk (bfree sp b) in
      let rest : Action (Unit {0}) = free_it >> (clear_zone 7 >> brelse b) in
      if-Counts (b == 0) (return tt) (bread b >> (all >> rest)) s (λ t. refl)
        (Counts-then (bread b) (all >> rest) (bread-Counts b) (
          Counts-then all rest (entries-Counts b) (
            Counts-then free_it (clear_zone 7 >> brelse b) (bfree-Counts b)
              (Counts-then (clear_zone 7) (brelse b) (clear_zone-Counts 7) (brelse-Counts b)))))

  drop_tables-Counts : Counts (drop_tables sp failed)
  unfolding drop_tables
  drop_tables-Counts s =
      let b = s.ip.zone 8 in
      let all : Action (Unit {0}) = for_each nindblk 0 (drop_inner sp failed b) in
      let free_it : Action (Unit {0}) = on_disk (bfree sp b) in
      let rest : Action (Unit {0}) = brelse b >> (free_it >> clear_zone 8) in
      if-Counts (b == 0) (return tt) (bread b >> (all >> rest)) s (λ t. refl)
        (Counts-then (bread b) (all >> rest) (bread-Counts b) (
          Counts-then all rest
            (for_each-Counts (drop_inner sp failed b) (drop_inner-Counts b) nindblk 0)
            (Counts-then (brelse b) (free_it >> clear_zone 8) (brelse-Counts b)
              (Counts-then free_it (clear_zone 8) (bfree-Counts b) (clear_zone-Counts 8)))))

  iupdate-Counts : Counts (iupdate sp failed)
  unfolding iupdate
  iupdate-Counts s = elim (Bool-cases (s.disk.held (iblk sp s.ip.num))) [
    | inl busy ↦ rw busy tt
    | inr free ↦ rw free (elim (Bool-cases (failed (iblk sp s.ip.num))) [
      | inl bad ↦ rw bad tt
      | inr fine ↦ rw fine refl
    ])
  ]

  -- It makes no wild store, and if it ends with a value, the count is as before.
  pub itrunc-Counts : Counts (itrunc sp failed)
  unfolding itrunc
  itrunc-Counts s =
      let last : Action ℤ = iupdate sp failed >> return (pos 0) in
      let direct : Action (Unit {0}) = for_each 7 0 (drop_direct sp failed) in
      let two : Action ℤ = drop_tables sp failed >> (no_bytes >> last) in
      let three : Action ℤ = drop_table sp failed >> two in
      if-Counts (not (has_bit s.ip.mode reg_bit) || has_bit s.ip.mode dir_bit) (return minus_one)
        (direct >> three) s (λ t. refl)
        (Counts-then direct three (for_each-Counts (drop_direct sp failed) drop_direct-Counts 7 0) (
          Counts-then (drop_table sp failed) two drop_table-Counts (
            Counts-then (drop_tables sp failed) (no_bytes >> last) drop_tables-Counts (
              Counts-then no_bytes last (λ t. refl)
                (Counts-then (iupdate sp failed) (return (pos 0)) iupdate-Counts (λ t. refl))))))
