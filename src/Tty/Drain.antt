-- ===== src/Tty/Drain.antt =====
-- What the loops that empty a queue of src/chr/tty.c take from it.
use fleurix.Base.{
  ℕ, zero, suc, ◌+◌, ◌<◌, ◌≡◌, refl, sym, ap, ◌∙◌, true, false, List, [], ◌∷◌, length, take, leb,
  ◌==◌, if◌then◌else◌, arith, Bool-cases, inl, inr,
}
use fleurix.Base.Word.{pos}
use fleurix.Kernel.{Kernel}
use fleurix.Tty.{
  Qbuf, Tty, ntty, minor, is_negative_char, getq, drain, read_loop, tty_start, tty_read,
}
use fleurix.Tty.Queue.{contents, IsValid, Gets, getq-Gets, length-contents, empty, takes}

-- The chars before the first one below zero, and those behind it.
abbrev pub before_negative : List ℕ → List ℕ
before_negative [] = []
before_negative (c ∷ cs) = if is_negative_char c then [] else c ∷ before_negative cs

abbrev pub after_negative : List ℕ → List ℕ
after_negative [] = []
after_negative (c ∷ cs) = if is_negative_char c then cs else after_negative cs

-- What the loop leaves and shows, as sequences.
pub record Drains (q q' : Qbuf) (shown : List ℕ) : Type 0 where
  pub left : contents q' ≡ after_negative (contents q)
  pub shows : shown ≡ before_negative (contents q)
  pub valid : IsValid q'

pub is_empty : (xs : List ℕ) → length xs ≡ 0 → xs ≡ []
is_empty [] e = refl
is_empty (x ∷ xs) e = absurd (omega arith)

-- A round of `drain` after its `getq`.
abbrev drain_next : ℕ → Qbuf × ℕ → Qbuf × List ℕ
drain_next n r =
    let rest = drain n r.0 in if is_negative_char r.1 then (r.0, []) else (rest.0, r.1 ∷ rest.1)

drain-Drains :
    (n : ℕ) (q : Qbuf) → IsValid q → length (contents q) ≡ n → Drains q (drain n q).0 (drain n q).1
unfolding drain
drain-Drains zero q v e =
    let none_ = is_empty (contents q) e in
    record {
      left = none_ ∙ sym (ap after_negative none_);
      shows = sym (ap before_negative none_);
      valid = v;
    }
drain-Drains (suc n) q v e =
    by_gets (λ q' good d. drain-Drains n q' good d) (getq q) (getq-Gets q v)
  where
    by_gets :
        ((q' : Qbuf)
          → IsValid q'
          → length (contents q') ≡ n
          → Drains q' (drain n q').0 (drain n q').1)
        → (r : Qbuf × ℕ) → Gets q r
        → Drains q (drain_next n r).0 (drain_next n r).1
    by_gets next r (empty none_) = absurd (omega (arith, e, ap length none_))
    by_gets next r (takes q' c all good) = elim (Bool-cases (is_negative_char c)) [
      | inl neg ↦ rw neg (record {
        left = sym (ap after_negative all ∙ rw neg refl);
        shows = sym (ap before_negative all ∙ rw neg refl);
        valid = good;
      })
      | inr char ↦
          let rest = next q' good (omega (arith, e, ap length all)) in
          rw char (record {
            left = rest.left ∙ sym (ap after_negative all ∙ rw char refl);
            shows = ap (◌∷◌ c) rest.shows ∙ sym (ap before_negative all ∙ rw char refl);
            valid = rest.valid;
          })
    ]

-- `tty_start` on a terminal with a valid output queue puts the chars up to the first one below
-- zero, which it drops, and leaves those behind it; the queue stays valid.
pub tty_start-Drains :
    (tp : Tty) → IsValid tp.outq → Drains tp.outq (tty_start tp).0.outq (tty_start tp).1
unfolding tty_start
tty_start-Drains tp v = drain-Drains tp.outq.count tp.outq v (length-contents tp.outq)

-- What `read_loop` stores of `cnt` chars asked for.
pub record Reads (q q' : Qbuf) (cnt : ℕ) (got : List ℕ) (i : ℕ) : Type 0 where
  pub stored : got ≡ before_negative (take cnt (contents q))
  pub counted : i ≡ length got
  pub valid_left : IsValid q'

abbrev read_next : ℕ → Qbuf × ℕ → Qbuf × List ℕ × ℕ
read_next n r =
    let rest = read_loop n r.0 in
    if is_negative_char r.1 then (r.0, [], 0) else (rest.0, r.1 ∷ rest.1, rest.2 + 1)

read_loop-Reads :
    (n : ℕ) (q : Qbuf) → IsValid q → Reads q (read_loop n q).0 n (read_loop n q).1 (read_loop n q).2
unfolding read_loop
read_loop-Reads zero q v = record { stored = refl; counted = refl; valid_left = v }
read_loop-Reads (suc n) q v = by_gets (read_loop-Reads n) (getq q) (getq-Gets q v)
  where
    by_gets :
        ((q' : Qbuf)
          → IsValid q'
          → Reads q' (read_loop n q').0 n (read_loop n q').1 (read_loop n q').2)
        → (r : Qbuf × ℕ) → Gets q r
        → Reads q (read_next n r).0 (suc n) (read_next n r).1 (read_next n r).2
    by_gets next r (empty none_) = record {
      stored = sym (ap (λ (xs : List ℕ). before_negative (take (suc n) xs)) none_);
      counted = refl;
      valid_left = v;
    }
    by_gets next r (takes q' c all good) =
        let asked : before_negative (take (suc n) (contents q))
            ≡ before_negative (c ∷ take n (contents q')) =
          ap (λ (xs : List ℕ). before_negative (take (suc n) xs)) all in
        let rest = next q' good in
        elim (Bool-cases (is_negative_char c)) [
          | inl neg ↦
              rw neg
                (record { stored = sym (asked ∙ rw neg refl); counted = refl; valid_left = good })
          | inr char ↦ rw char (record {
            stored = ap (◌∷◌ c) rest.stored ∙ sym (asked ∙ rw char refl);
            counted = omega (arith, rest.counted);
            valid_left = rest.valid_left;
          })
        ]

-- `tty_read` on a terminal with a valid line stores the first `cnt` chars of it, up to the first
-- one below zero, and returns one more than the number of chars stored.
pub tty_read_lem :
    (k : Kernel) (ttys : ℕ → Tty) (dev cnt : ℕ)
    → minor dev < ntty
    → IsValid (ttys (minor dev)).canq
    → let r = tty_read k ttys dev cnt in
      (r.0 ≡ k)
      × (r.2 ≡ before_negative (take cnt (contents (ttys (minor dev)).canq)))
      × (r.3 ≡ pos (length r.2 + 1))
      × IsValid (r.1 (minor dev)).canq
unfolding tty_read
tty_read_lem k ttys dev cnt lt v =
    let q = (ttys (minor dev)).canq in
    let known : leb ntty (minor dev) ≡ false = ground (arith, lt) in
    let r = read_loop-Reads cnt q v in
    let same : (minor dev == minor dev) ≡ true = ground arith in
    rw known (refl, r.stored, ap (λ (i : ℕ). pos (i + 1)) r.counted, rw same r.valid_left)
