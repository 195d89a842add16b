-- ===== src/Tty/Input.antt =====
-- A char typed at a terminal: tty_input of src/chr/tty.c.
use fleurix.Base.{
  ℕ, ◌≡◌, refl, sym, ap, ◌∙◌, subst, Bool, true, false, ◌&&◌, List, ◌==◌, if◌then◌else◌, arith,
  Bool-cases, inl, inr,
}
use fleurix.Base.Bits.{has_bit}
use fleurix.Kernel.{Kernel}
use fleurix.Tty.{
  Tty, cerase, ends_line, putq, eraseq, tty_canon, tty_input, tty_echo, tty_output, tty_start,
}
use fleurix.Tty.Queue.{contents, IsValid, push, drop_last, putq_lem, eraseq_lem}
use fleurix.Tty.Line.{by_mode, by_mode-typed, tty_canon-Holds}

-- The line of a terminal after a char.
pub record Typed (tp tp' : Tty) (c : ℕ) (spec : List ℕ × List ℕ) : Type 0 where
  pub raw_left : contents tp'.rawq ≡ spec.0
  pub line : contents tp'.canq ≡ (if ends_line c then drop_last spec.1 else spec.1)
  pub raw_valid : IsValid tp'.rawq
  pub line_valid : IsValid tp'.canq

-- The echo leaves the input alone.
tty_echo-input :
    (tp : Tty) (c : ℕ) → ((tty_echo tp c).0.rawq ≡ tp.rawq) × ((tty_echo tp c).0.canq ≡ tp.canq)
unfolding tty_echo tty_output tty_start
tty_echo-input tp c = elim (Bool-cases (has_bit tp.flag 1)) [
  | inl on ↦ rw on (refl, refl)
  | inr off ↦ rw off (refl, refl)
]

-- The terminal after the mode's work, where `stop` is whether the char is an erase with nothing to
-- erase.
abbrev finish : Tty → ℕ → Bool → Tty
finish tp1 c stop =
    let tp2 = (tty_echo tp1 c).0 in
    if stop then tp1 else if ends_line c then record tp2 { canq = (eraseq tp2.canq).0 } else tp2

tty_input-finish :
    (chan : ℕ) (k : Kernel) (tp : Tty) (c : ℕ)
    → let tp1 = tty_canon (record tp { rawq = (putq tp.rawq c).0 }) in
      (tty_input chan k tp c).1
      ≡ finish tp1 c (has_bit tp1.flag 1 && c == cerase && tp.canq.count == 0)
unfolding tty_input
tty_input-finish chan k tp c =
    let tp1 = tty_canon (record tp { rawq = (putq tp.rawq c).0 }) in
    elim (Bool-cases (has_bit tp1.flag 1 && c == cerase && tp.canq.count == 0)) [
      | inl stop ↦ rw stop refl
      | inr go ↦
          rw go
            (elim (Bool-cases (ends_line c)) [ inl end ↦ rw end refl | inr more ↦ rw more refl ])
    ]

finish-Typed :
    (tp tp1 : Tty) (c : ℕ) (stop : Bool) (spec : List ℕ × List ℕ)
    → contents tp1.rawq ≡ spec.0
    → contents tp1.canq ≡ spec.1
    → IsValid tp1.rawq
    → IsValid tp1.canq
    → (stop ≡ true → c ≡ cerase)
    → Typed tp (finish tp1 c stop) c spec
finish-Typed tp tp1 c true spec raw can rv cv erase =
    let more : ends_line c ≡ false = rw (erase refl) refl in
    record {
      raw_left = raw;
      line = can ∙ sym (ap (λ (b : Bool). if b then drop_last spec.1 else spec.1) more);
      raw_valid = rv;
      line_valid = cv;
    }
finish-Typed tp tp1 c false spec raw can rv cv erase =
    let e = tty_echo-input tp1 c in
    let raw' = ap contents e.0 ∙ raw in
    let rv' = subst IsValid (sym e.0) rv in
    let cv' = subst IsValid (sym e.1) cv in
    let d = eraseq_lem (tty_echo tp1 c).0.canq cv' in
    elim (Bool-cases (ends_line c)) [
      | inl end ↦ rw end (record {
        raw_left = raw';
        line = d.1 ∙ ap drop_last (ap contents e.1 ∙ can) ∙ sym (rw end refl);
        raw_valid = rv';
        line_valid = d.0;
      })
      | inr more ↦ rw more (record {
        raw_left = raw';
        line = ap contents e.1 ∙ can ∙ sym (rw more refl);
        raw_valid = rv';
        line_valid = cv';
      })
    ]

-- `tty_input` of a char on a terminal with valid queues edits the line as the mode says, whether it
-- echoes or not; an end of line leaves the line without its last char. The queues stay valid.
pub tty_input-Typed :
    (chan : ℕ) (k : Kernel) (tp : Tty) (c : ℕ)
    → IsValid tp.rawq
    → IsValid tp.canq
    → Typed tp
        (tty_input chan k tp c).1
        c
        (by_mode tp (push (contents tp.rawq) c) (contents tp.canq))
tty_input-Typed chan k tp c rv cv =
    let p = putq_lem tp.rawq c rv in
    let tp0 : Tty = record tp { rawq = (putq tp.rawq c).0 } in
    let tp1 = tty_canon tp0 in
    let h = tty_canon-Holds tp0 p.0 cv in
    let stop = has_bit tp1.flag 1 && c == cerase && tp.canq.count == 0 in
    let spec : by_mode tp0 (contents tp0.rawq) (contents tp.canq)
        ≡ by_mode tp (push (contents tp.rawq) c) (contents tp.canq) =
      by_mode-typed tp (putq tp.rawq c).0 (contents tp0.rawq) (contents tp.canq)
      ∙ ap (λ (raw : List ℕ). by_mode tp raw (contents tp.canq)) p.1 in
    subst (λ (t : Tty). Typed tp t c (by_mode tp (push (contents tp.rawq) c) (contents tp.canq)))
      (sym (tty_input-finish chan k tp c))
      (subst (λ (r : List ℕ × List ℕ). Typed tp (finish tp1 c stop) c r) spec
        (finish-Typed tp tp1 c stop (by_mode tp0 (contents tp0.rawq) (contents tp.canq)) h.raw_holds
          h.can_holds h.raw_valid h.can_valid (λ e. ground (arith, e))))
