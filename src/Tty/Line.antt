-- ===== src/Tty/Line.antt =====
-- The line discipline of src/chr/tty.c is an editor of sequences.
use fleurix.Base.{
  ℕ, zero, suc, ◌-◌, ◌%◌, ◌≡◌, refl, sym, ap, ◌∙◌, subst, List, [], ◌∷◌, length, ◌==◌,
  if◌then◌else◌, arith, Bool-cases, inl, inr,
}
use fleurix.Base.Bits.{has_bit}
use fleurix.Tty.{
  Qbuf, Tty, space, tab, cerase, is_negative_char, putq, getq, put_spaces, canon_char, canon_line,
  canon_raw, tty_canon,
}
use fleurix.Tty.Queue.{
  contents, IsValid, push, drop_last, Gets, getq-Gets, putq_lem, eraseq_lem, length-contents, empty,
  takes,
}
use fleurix.Tty.Drain.{is_empty}

-- Spaces at the end of a line, and what one char does to it.
abbrev pub push_spaces : ℕ → List ℕ → List ℕ
push_spaces zero xs = xs
push_spaces (suc n) xs = push_spaces n (push xs space)

abbrev pub edit : ℕ → List ℕ → List ℕ
edit c xs = if c == cerase then drop_last xs else push xs c

-- What the canonical mode makes of the chars typed: the chars left, and the line. It stops behind a
-- char below zero or a tab.
abbrev pub edit_line : ℕ → List ℕ → List ℕ → List ℕ × List ℕ
edit_line col [] xs = ([], xs)
edit_line col (c ∷ cs) xs =
    let rest = edit_line col cs (edit c xs) in
    if is_negative_char c
    then (cs, xs)
    else if c == tab
    then (cs, push_spaces (4 - col % 4) xs)
    else rest

-- What the raw mode makes of them.
abbrev pub copy_line : List ℕ → List ℕ → List ℕ × List ℕ
copy_line [] xs = ([], xs)
copy_line (c ∷ cs) xs =
    let rest = copy_line cs (push xs c) in if is_negative_char c then (cs, xs) else rest

-- Two queues that hold two sequences.
pub record Holds (raw can : Qbuf) (spec : List ℕ × List ℕ) : Type 0 where
  pub raw_holds : contents raw ≡ spec.0
  pub can_holds : contents can ≡ spec.1
  pub raw_valid : IsValid raw
  pub can_valid : IsValid can

put_spaces_lem :
    (n : ℕ) (q : Qbuf)
    → IsValid q
    → IsValid (put_spaces n q) × (contents (put_spaces n q) ≡ push_spaces n (contents q))
unfolding put_spaces
put_spaces_lem zero q v = (v, refl)
put_spaces_lem (suc n) q v =
    let one = putq_lem q space v in
    let rest = put_spaces_lem n (putq q space).0 one.0 in
    (rest.0, rest.1 ∙ ap (push_spaces n) one.1)

canon_char_lem :
    (c : ℕ) (q : Qbuf)
    → IsValid q
    → IsValid (canon_char c q) × (contents (canon_char c q) ≡ edit c (contents q))
unfolding canon_char
canon_char_lem c q v = elim (Bool-cases (c == cerase)) [
  | inl erase ↦ let e = eraseq_lem q v in rw erase (e.0, e.1)
  | inr other ↦ let e = putq_lem q c v in rw other (e.0, e.1)
]

abbrev line_next : ℕ → ℕ → Qbuf → Qbuf × ℕ → Qbuf × Qbuf
line_next n col can r =
    let rest = canon_line n col r.0 (canon_char r.1 can) in
    if is_negative_char r.1
    then (r.0, can)
    else if r.1 == tab
    then (r.0, put_spaces (4 - col % 4) can)
    else rest

canon_line-Holds :
    (n col : ℕ) (raw can : Qbuf)
    → IsValid raw
    → IsValid can
    → length (contents raw) ≡ n
    → Holds
        (canon_line n col raw can).0
        (canon_line n col raw can).1
        (edit_line col (contents raw) (contents can))
unfolding canon_line
canon_line-Holds zero col raw can rv cv e =
    let none_ = is_empty (contents raw) e in
    rw none_ (record { raw_holds = none_; can_holds = refl; raw_valid = rv; can_valid = cv })
canon_line-Holds (suc n) col raw can rv cv e =
    by_gets (canon_line-Holds n col) (getq raw) (getq-Gets raw rv)
  where
    by_gets :
        ((raw' can' : Qbuf)
          → IsValid raw'
          → IsValid can'
          → length (contents raw') ≡ n
          → Holds
              (canon_line n col raw' can').0
              (canon_line n col raw' can').1
              (edit_line col (contents raw') (contents can')))
        → (r : Qbuf × ℕ) → Gets raw r
        → Holds
            (line_next n col can r).0
            (line_next n col can r).1
            (edit_line col (contents raw) (contents can))
    by_gets next r (empty none_) = absurd (omega (arith, e, ap length none_))
    by_gets next r (takes raw' c all good) =
        subst
          (λ (xs : List ℕ).
            Holds (line_next n col can (raw', c)).0 (line_next n col can (raw', c)).1
              (edit_line col xs (contents can)))
          (sym all)
          (elim (Bool-cases (is_negative_char c)) [
            | inl neg ↦
                rw neg
                  (record { raw_holds = refl; can_holds = refl; raw_valid = good; can_valid = cv })
            | inr char ↦ rw char (elim (Bool-cases (c == tab)) [
              | inl t ↦
                  let s = put_spaces_lem (4 - col % 4) can cv in
                  rw t (record {
                    raw_holds = refl;
                    can_holds = s.1;
                    raw_valid = good;
                    can_valid = s.0;
                  })
              | inr other ↦
                  let s = canon_char_lem c can cv in
                  rw other (
                    subst
                      (λ (xs : List ℕ).
                        Holds (canon_line n col raw' (canon_char c can)).0
                          (canon_line n col raw' (canon_char c can)).1
                          (edit_line col (contents raw') xs))
                      s.1 (next raw' (canon_char c can) good s.0 (omega (arith, e, ap length all))))
            ])
          ])

abbrev raw_next : ℕ → Qbuf → Qbuf × ℕ → Qbuf × Qbuf
raw_next n can r =
    let rest = canon_raw n r.0 (putq can r.1).0 in if is_negative_char r.1 then (r.0, can) else rest

canon_raw-Holds :
    (n : ℕ) (raw can : Qbuf)
    → IsValid raw
    → IsValid can
    → length (contents raw) ≡ n
    → Holds
        (canon_raw n raw can).0
        (canon_raw n raw can).1
        (copy_line (contents raw) (contents can))
unfolding canon_raw
canon_raw-Holds zero raw can rv cv e =
    let none_ = is_empty (contents raw) e in
    rw none_ (record { raw_holds = none_; can_holds = refl; raw_valid = rv; can_valid = cv })
canon_raw-Holds (suc n) raw can rv cv e = by_gets (canon_raw-Holds n) (getq raw) (getq-Gets raw rv)
  where
    by_gets :
        ((raw' can' : Qbuf)
          → IsValid raw'
          → IsValid can'
          → length (contents raw') ≡ n
          → Holds
              (canon_raw n raw' can').0
              (canon_raw n raw' can').1
              (copy_line (contents raw') (contents can')))
        → (r : Qbuf × ℕ) → Gets raw r
        → Holds (raw_next n can r).0 (raw_next n can r).1 (copy_line (contents raw) (contents can))
    by_gets next r (empty none_) = absurd (omega (arith, e, ap length none_))
    by_gets next r (takes raw' c all good) =
        subst
          (λ (xs : List ℕ).
            Holds (raw_next n can (raw', c)).0 (raw_next n can (raw', c)).1
              (copy_line xs (contents can)))
          (sym all)
          (elim (Bool-cases (is_negative_char c)) [
            | inl neg ↦
                rw neg
                  (record { raw_holds = refl; can_holds = refl; raw_valid = good; can_valid = cv })
            | inr char ↦
                let s = putq_lem can c cv in
                rw char (
                  subst
                    (λ (xs : List ℕ).
                      Holds (canon_raw n raw' (putq can c).0).0 (canon_raw n raw' (putq can c).0).1
                        (copy_line (contents raw') xs))
                    s.1 (next raw' (putq can c).0 good s.0 (omega (arith, e, ap length all))))
          ])

-- What the mode of a terminal makes of its raw chars.
pub by_mode : Tty → List ℕ → List ℕ → List ℕ × List ℕ
by_mode tp raw xs = if has_bit tp.flag 0 then copy_line raw xs else edit_line tp.col raw xs

-- The mode depends on the flags and the column only.
pub by_mode-typed :
    (tp : Tty) (q : Qbuf) (raw xs : List ℕ)
    → by_mode (record tp { rawq = q }) raw xs ≡ by_mode tp raw xs
unfolding by_mode
by_mode-typed tp q raw xs = refl

-- `tty_canon` on a terminal with valid queues does to the raw and the canonical sequence what the
-- mode says, and leaves both queues valid.
pub tty_canon-Holds :
    (tp : Tty)
    → IsValid tp.rawq
    → IsValid tp.canq
    → Holds
        (tty_canon tp).rawq
        (tty_canon tp).canq
        (by_mode tp (contents tp.rawq) (contents tp.canq))
unfolding tty_canon by_mode
tty_canon-Holds tp rv cv = elim (Bool-cases (has_bit tp.flag 0)) [
  | inl raw ↦ rw raw (canon_raw-Holds tp.rawq.count tp.rawq tp.canq rv cv (length-contents tp.rawq))
  | inr line ↦
      rw line
        (canon_line-Holds tp.rawq.count tp.col tp.rawq tp.canq rv cv (length-contents tp.rawq))
]
