-- ===== src/Paging/Flags.antt =====
-- The flags of an entry after `protected` and `writable`, the assignments to `flag` in src/mm/pte.c and
-- src/mm/pgfault.c.
use fleurix.Base.{
  ℕ, ◌%◌, ◌^◌, ◌<◌, ◌≡◌, ◌≢◌, refl, sym, ap, ◌∙◌, true, false, ◌==◌, if◌then◌else◌, arith, inl, inr,
  Bool-cases, bit_and, bit_or,
}
use fleurix.Base.Bits.{all_but, has_bit, has_bit-eq, has_bit-clear, has_bit-set, bit-low}
use fleurix.Paging.{pte_w, is_present, flag_of, off_of, protected, writable}

-- The entry that both processes have for what was `w`.
abbrev pub shared : ℕ → ℕ
shared w = if is_present w then protected w else w

-- The flags of an entry that both processes have, for what was `w`: bit 0 is PTE_P and bit 1 is PTE_W.
pub record Guards (w e : ℕ) : Type 0 where
  pub frame : off_of e ≡ off_of w
  pub read_only : has_bit w 0 ≡ true → has_bit e 1 ≡ false
  pub others : (b : ℕ) → b < 9 → (b ≡ 1 → has_bit w 0 ≡ false) → has_bit e b ≡ has_bit w b

flag-has_bit : (w b : ℕ) → b < 9 → has_bit (flag_of w) b ≡ has_bit w b
flag-has_bit w b lt =
    has_bit-eq (w % 2 ^ 9) b ∙ ap (λ (x : ℕ). x == 1) (bit-low b 9 w lt) ∙ sym (has_bit-eq w b)

protected-has_bit :
    (w b : ℕ) → b < 9 → has_bit (protected w) b ≡ (if b == 1 then false else has_bit w b)
protected-has_bit w b lt =
    let flags : flag_of (protected w) ≡ bit_and (flag_of w) (all_but 9 pte_w) % 2 ^ 9 =
      omega arith in
    sym (flag-has_bit (protected w) b lt)
    ∙ ap (λ (x : ℕ). has_bit x b) flags
    ∙ flag-has_bit (bit_and (flag_of w) (all_but 9 pte_w)) b lt
    ∙ has_bit-clear 9 (flag_of w) 1 b (omega arith) lt
    ∙ ground (arith, flag-has_bit w b lt)

pub shared-Guards : (w : ℕ) → Guards w (shared w)
shared-Guards w = elim (Bool-cases (is_present w)) [
  | inl there ↦
      let p : has_bit w 0 ≡ true = sym (flag-has_bit w 0 (omega arith)) ∙ there in
      rw there (record {
        frame = omega arith;
        read_only = λ _. protected-has_bit w 1 (omega arith) ∙ refl;
        others = λ b lt out. protected-has_bit w b lt ∙ ground (arith, out, p);
      })
  | inr gone ↦ rw gone (record {
    frame = refl;
    read_only = λ p. absurd (cc (p, gone, flag-has_bit w 0 (omega arith)));
    others = λ b lt out. refl;
  })
]

-- An entry with the frame and the flags of another one.
pub Guards-same :
    (w e e' : ℕ) → off_of e' ≡ off_of e → flag_of e' ≡ flag_of e → Guards w e → Guards w e'
Guards-same w e e' o f g =
    let same = λ (b : ℕ) (lt : b < 9).
      sym (flag-has_bit e' b lt) ∙ ap (λ (x : ℕ). has_bit x b) f ∙ flag-has_bit e b lt in
    record {
      frame = o ∙ g.frame;
      read_only = λ p. same 1 (omega arith) ∙ g.read_only p;
      others = λ b lt out. same b lt ∙ g.others b lt out;
    }

-- The flags of `w` with PTE_W, bit 1, on.
pub record Opens (w e : ℕ) : Type 0 where
  pub may_write : has_bit e 1 ≡ true
  pub others : (b : ℕ) → b < 9 → b ≢ 1 → has_bit e b ≡ has_bit w b

writable-has_bit :
    (w b : ℕ) → b < 9 → has_bit (writable w) b ≡ (if b == 1 then true else has_bit w b)
writable-has_bit w b lt =
    let flags : flag_of (writable w) ≡ bit_or (flag_of w) (2 ^ pte_w) % 2 ^ 9 = omega arith in
    sym (flag-has_bit (writable w) b lt)
    ∙ ap (λ (x : ℕ). has_bit x b) flags
    ∙ flag-has_bit (bit_or (flag_of w) (2 ^ pte_w)) b lt
    ∙ has_bit-set (flag_of w) 1 b
    ∙ ground (arith, flag-has_bit w b lt)

pub writable-Opens : (w e : ℕ) → flag_of e ≡ flag_of w → Opens w (writable e)
writable-Opens w e f = record {
  may_write = writable-has_bit e 1 (omega arith) ∙ refl;
  others = λ b lt ne.
      writable-has_bit e b lt
      ∙ ground (arith, ne, flag-has_bit e b lt, flag-has_bit w b lt, ap (λ (x : ℕ). has_bit x b) f);
}
